-- ===== src/Wheelhouse/Exits.antt =====
-- When scripts/build_wheelhouse.py exits with 0.
use Prim.Native.String.{String}
use sceptre_pipeline.Prelude.{
  ℕ, ◌≡◌, ◌↔◌, ◌⊎◌, or_iff, refl, sym, Bool, true, false, true≢false, not, List, [], ◌∷◌, length,
  ◌==◌, if◌then◌else◌, arith,
}
use sceptre_pipeline.Wheelhouse.{
  python_versions, platform_families, numpy_command, toolchain_command, download_versions,
  download_families, any_version, dead_families, main,
}

none_dead :
    {P Q : Type 0} (b : Bool) (rest : List String) (family : String)
    → ((b ≡ true) ↔ P)
    → ((length rest ≡ 0) ↔ Q)
    → (length (if b then rest else family ∷ rest) ≡ 0) ↔ (P × Q)
none_dead true rest family (to, from) (to', from') = ((λ e. (to refl, to' e)), (λ pq. from' pq.1))
none_dead false rest family (to, from) (to', from') =
    ((λ e. absurd (omega (arith, e))), (λ pq. absurd (true≢false (sym (from pq.0)))))

abbrev code : ℕ → Bool → ℕ
code n fetched = if not (n == 0) then 1 else if not fetched then 1 else 0

code_zero : (n : ℕ) (fetched : Bool) → (code n fetched ≡ 0) ↔ ((n ≡ 0) × (fetched ≡ true))
code_zero n true = ground arith
code_zero n false = ground arith

code_cases : (n : ℕ) (fetched : Bool) → (code n fetched ≡ 0) ⊎ (code n fetched ≡ 1)
code_cases n true = ground arith
code_cases n false = ground arith

exit_iff :
    {Q : Type 0} (n : ℕ) (fetched : Bool)
    → ((n ≡ 0) ↔ Q)
    → ((code n fetched ≡ 0) ⊎ (code n fetched ≡ 1))
      × ((code n fetched ≡ 0) ↔ (Q × (fetched ≡ true)))
exit_iff n fetched (to, from) =
    let (zero_to, zero_from) = code_zero n fetched in
    (
      code_cases n fetched,
      ((λ e. (to (zero_to e).0, (zero_to e).1)), (λ qf. zero_from (from qf.0, qf.1))),
    )

module _ (executable wheelhouse : String) (succeeds : List String → Bool) where
  -- Some version of numpy is downloaded under the tags.
  abbrev pub Installable : List String → List String → Type 0
  Installable tags [] = ⊥
  Installable tags (v ∷ versions) =
      (succeeds (numpy_command executable wheelhouse tags v) ≡ true) ⊎ Installable tags versions

  abbrev pub AllInstallable : List (String × List String) → Type 0
  AllInstallable [] = Unit
  AllInstallable ((family, tags) ∷ families) =
      Installable tags python_versions × AllInstallable families

  any_version-Installable :
      (tags versions : List String)
      → (any_version (download_versions executable wheelhouse succeeds tags versions) ≡ true)
        ↔ Installable tags versions
  unfolding any_version download_versions
  any_version-Installable tags [] = ((λ e. absurd (true≢false (sym e))), (λ i. absurd i))
  any_version-Installable tags (v ∷ versions) =
      or_iff (succeeds (numpy_command executable wheelhouse tags v)) _
        (any_version-Installable tags versions)

  dead_families-none :
      (families : List (String × List String))
      → (length (dead_families (download_families executable wheelhouse succeeds families)) ≡ 0)
        ↔ AllInstallable families
  unfolding dead_families download_families
  dead_families-none [] = ((λ e. tt), (λ a. refl))
  dead_families-none ((family, tags) ∷ families) =
      none_dead _ _ family (any_version-Installable tags python_versions)
        (dead_families-none families)

  -- The wheelhouse script exits with 0 or 1, and with 0 just if for every platform family the
  -- download of numpy succeeds for some Python version and the download of the build toolchain
  -- succeeds.
  pub main-exit :
      ((main executable wheelhouse succeeds ≡ 0) ⊎ (main executable wheelhouse succeeds ≡ 1))
      × ((main executable wheelhouse succeeds ≡ 0) ↔ (
          AllInstallable platform_families
          × (succeeds (toolchain_command executable wheelhouse) ≡ true)))
  unfolding main
  main-exit = exit_iff _ _ (dead_families-none platform_families)
