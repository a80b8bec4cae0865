-- ===== src/Wheelhouse.antt =====
-- scripts/build_wheelhouse.py, without what it prints. The interpreter's path, the directory, and
-- whether a command of pip succeeds are parameters.
pub mod Exits
use Prim.Native.String.{String}
use sceptre_pipeline.Prelude.{
  ℕ, Bool, true, false, not, ◌||◌, List, [], ◌∷◌, ◌++◌, length, ◌==◌, if◌then◌else◌,
}

abbrev pub python_versions : List String
python_versions = "3.10" ∷ "3.11" ∷ "3.12" ∷ "3.13" ∷ []

abbrev pub platform_families : List (String × List String)
platform_families =
    ("windows-x86_64", "win_amd64" ∷ [])
    ∷ (
      "linux-x86_64",
      "manylinux2014_x86_64" ∷ "manylinux_2_17_x86_64" ∷ "manylinux_2_28_x86_64" ∷ [],
    )
    ∷ (
      "linux-aarch64",
      "manylinux2014_aarch64" ∷ "manylinux_2_17_aarch64" ∷ "manylinux_2_28_aarch64" ∷ [],
    )
    ∷ ("macos-arm64", "macosx_11_0_arm64" ∷ "macosx_12_0_arm64" ∷ "macosx_14_0_arm64" ∷ [])
    ∷ (
      "macos-x86_64",
      "macosx_10_9_x86_64" ∷ "macosx_10_13_x86_64" ∷ "macosx_12_0_x86_64" ∷ "macosx_13_0_x86_64"
          ∷ "macosx_14_0_x86_64" ∷ [],
    )
    ∷ []

abbrev pub build_toolchain : List String
build_toolchain = "hatchling" ∷ []

-- `for tag in tags: cmd += ["--platform", tag]`
abbrev pub platform_options : List String → List String
platform_options [] = []
platform_options (tag ∷ tags) = "--platform" ∷ tag ∷ platform_options tags

-- `any(by_version.values())`
unfoldable pub any_version : List (String × Bool) → Bool
any_version [] = false
any_version ((v, fetched) ∷ versions) = fetched || any_version versions

unfoldable pub dead_families : List (String × List (String × Bool)) → List String
dead_families [] = []
dead_families ((family, by_version) ∷ results) =
    let rest = dead_families results in if any_version by_version then rest else family ∷ rest

module _ (executable wheelhouse : String) where
  -- the command of `download_numpy`
  unfoldable pub numpy_command : List String → String → List String
  numpy_command tags py_version =
      (executable ∷ "-m" ∷ "pip" ∷ "download" ∷ "numpy" ∷ "--only-binary=:all:" ∷ "--implementation"
        ∷ "cp" ∷ "--python-version" ∷ py_version ∷ "-d" ∷ wheelhouse ∷ [])
      ++ platform_options tags

  -- the command of `download_toolchain`
  unfoldable pub toolchain_command : List String
  toolchain_command =
      (executable ∷ "-m" ∷ "pip" ∷ "download" ∷ []) ++ (build_toolchain ++ "-d" ∷ wheelhouse ∷ [])

  module _ (succeeds : List String → Bool) where
    -- the row of a family in `results`
    unfoldable pub download_versions : List String → List String → List (String × Bool)
    download_versions tags [] = []
    download_versions tags (v ∷ versions) =
        (v, succeeds (numpy_command tags v)) ∷ download_versions tags versions

    unfoldable pub download_families :
        List (String × List String) → List (String × List (String × Bool))
    download_families [] = []
    download_families ((family, tags) ∷ families) =
        (family, download_versions tags python_versions) ∷ download_families families

    -- the exit code of `main`
    unfoldable pub main : ℕ
    main =
        if not (length (dead_families (download_families platform_families)) == 0)
        then 1
        else if not (succeeds toolchain_command)
        then 1
        else 0
