-- ===== src/Binary/Exits.antt =====
-- When scripts/build_binary.py exits with 0, and what it has done.
use sceptre_pipeline.Prelude.{
  ◌≡◌, ◌↔◌, zero, suc, refl, sym, ◌∙◌, Bool, true, false, none, some, if◌then◌else◌,
}
use sceptre_pipeline.Prelude.Int.{ℤ, pos, negsuc}
use sceptre_pipeline.Binary.{Host, Build, command, artifact, is_failure, freeze, main}

code_cases :
    {FsPath : Type 0} (code : ℤ) (out : FsPath)
    → ((if is_failure code then code else pos 0) ≡ code)
      × ((code ≡ pos 0) ↔ ((if is_failure code then none else some out) ≡ some out))
code_cases (pos zero) out = (refl, ((λ e. refl), (λ e. refl)))
code_cases (pos (suc n)) out = (refl, ((λ e. absurd (cc e)), (λ e. absurd (cc e))))
code_cases (negsuc n) out = (refl, ((λ e. absurd (cc e)), (λ e. absurd (cc e))))

-- Whether PyInstaller is there, on what its run returns and on the failure without it.
code_of :
    {FsPath : Type 0} (installed : Bool) (frozen : Build FsPath) (code : ℤ) (out : FsPath)
    → (frozen.code ≡ code) × ((frozen.code ≡ pos 0) ↔ (frozen.built ≡ some out))
    → let b : Build FsPath =
        if installed
        then frozen
        else record { code = pos 1; written = none; ran = none; built = none } in
      (b.code ≡ (if installed then code else pos 1)) × ((b.code ≡ pos 0) ↔ (b.built ≡ some out))
code_of true frozen code out h = h
code_of false frozen code out h = (refl, ((λ e. absurd (cc e)), (λ e. absurd (cc e))))

module _ {FsPath : Type 0} (host : Host FsPath) where
  freeze-code :
      let code = host.subprocess_run (command host) host.project_root in
      ((freeze host).code ≡ code)
      × (((freeze host).code ≡ pos 0) ↔ ((freeze host).built ≡ some (artifact host)))
  unfolding freeze
  freeze-code =
      let code = host.subprocess_run (command host) host.project_root in
      let (same, (to, from)) = code_cases code (artifact host) in
      (same, ((λ e. to (sym same ∙ e)), (λ e. same ∙ from e)))

  -- The script exits with 1 if PyInstaller is missing, and else with the code of its command; it
  -- names the artifact just if it exits with 0.
  main-code :
      ((main host).code
        ≡ (if host.installed then host.subprocess_run (command host) host.project_root else pos 1))
      × (((main host).code ≡ pos 0) ↔ ((main host).built ≡ some (artifact host)))
  unfolding main
  main-code = code_of host.installed (freeze host) _ (artifact host) freeze-code
