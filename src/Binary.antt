-- ===== src/Binary.antt =====
-- scripts/build_binary.py, without what it prints. The project's root, the interpreter's path, the
-- platform, pathlib, whether PyInstaller can be imported, and the return code of its command are
-- parameters; the directory of the entry script can be made and the script can be written.
pub mod Exits
use Prim.Native.String.{String}
use text.Mathlib.Text.{◌==◌ as str_eq}
use sceptre_pipeline.Prelude.{
  ℕ, zero, Bool, true, false, Option, none, some, List, [], ◌∷◌, if◌then◌else◌,
}
use sceptre_pipeline.Prelude.Int.{ℤ, pos, negsuc}

-- `parent / name` and `str(path)`
pub record Pathlib (FsPath : Type 0) : Type 0 where
  pub child : FsPath → String → FsPath
  pub str : FsPath → String

-- What the script runs with.
pub record Host (FsPath : Type 0) : Type 0 where
  pub pathlib : Pathlib FsPath
  pub project_root : FsPath
  pub executable : String
  pub platform : String
  pub installed : Bool
  pub subprocess_run : List String → FsPath → ℤ

-- What the script did: its exit code, the file that it wrote, the command that it ran and where, and
-- the artifact that it named.
pub record Build (FsPath : Type 0) : Type 0 where
  pub code : ℤ
  pub written : Option (FsPath × String)
  pub ran : Option (List String × FsPath)
  pub built : Option FsPath

abbrev pub entry_source : String
entry_source =
    "import sys\n\nfrom sceptre_pipeline.__main__ import main\n\nif __name__ == \"__main__\":\n    sys.exit(main())\n"

-- `result.returncode != 0`
abbrev pub is_failure : ℤ → Bool
is_failure (pos zero) = false
is_failure _ = true

module _ {FsPath : Type 0} (host : Host FsPath) where
  unfoldable pub entry : FsPath
  entry =
      let dir =
        host.pathlib.child (host.pathlib.child host.project_root "build") "pyinstaller-entry" in
      host.pathlib.child dir "sceptre_pipeline_binary.py"

  unfoldable pub command : List String
  command =
      host.executable
      ∷ "-m"
      ∷ "PyInstaller"
      ∷ "--onefile"
      ∷ "--name"
      ∷ "sceptre-pipeline"
      ∷ "--clean"
      ∷ "--noconfirm"
      ∷ "--paths"
      ∷ host.pathlib.str (host.pathlib.child host.project_root "src")
      ∷ "--specpath"
      ∷ host.pathlib.str (host.pathlib.child host.project_root "build")
      ∷ host.pathlib.str entry
      ∷ []

  unfoldable pub artifact : FsPath
  artifact =
      host.pathlib.child (host.pathlib.child host.project_root "dist")
        (if str_eq host.platform "win32" then "sceptre-pipeline.exe" else "sceptre-pipeline")

  -- `main` behind the import of PyInstaller
  unfoldable pub freeze : Build FsPath
  freeze =
      let returncode = host.subprocess_run command host.project_root in
      record {
        code = if is_failure returncode then returncode else pos 0;
        written = some (entry, entry_source);
        ran = some (command, host.project_root);
        built = if is_failure returncode then none else some artifact;
      }

  unfoldable pub main : Build FsPath
  main =
      if host.installed
      then freeze
      else record { code = pos 1; written = none; ran = none; built = none }
