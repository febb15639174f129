-- ===== src/Driver/Resumes.antt =====
-- Which verifiers resume a persisted generation.
use migration_verifier_docdb.Base.{
  ℕ, ◌≡◌, ◌↔◌, ◌⊎◌, refl, ap, true, false, Option, some, arith, ◌==◌, ok, ok-injective, holds,
  Bool-cases, inl, inr,
}
use migration_verifier_docdb.Base.Text.{text_dec}
use migration_verifier_docdb.Driver.Setup.{
  DriverSettings, Driver, persist_generation, read_generation,
}

holds-cases : {P : Type 0} (d : Dec P) → ((holds d ≡ true) × P) ⊎ ((holds d ≡ false) × (¬ P))
holds-cases (yes p) = inl (refl, p)
holds-cases (no q) = inr (refl, q)

some-injective : {A : Type 0} {x y : A} → ◌≡◌ {A = Option A} (some x) (some y) → x ≡ y
some-injective h = cc

-- A verifier reads the generation that another has persisted exactly if it has the same metadata
-- version and the same change-reader options; else it does not resume.
pub read_generation-persist_generation :
    (s t : DriverSettings) (d : Driver) (g : ℕ)
    → (read_generation t true (persist_generation s d).persisted ≡ ok (some g)) ↔ (
        (s.metadata_version ≡ t.metadata_version)
        × (s.src_change_reader_method ≡ t.src_change_reader_method)
        × (s.dst_change_reader_method ≡ t.dst_change_reader_method)
        × (d.generation ≡ g))
unfolding read_generation persist_generation
read_generation-persist_generation s t d g =
    elim (Bool-cases (s.metadata_version == t.metadata_version)) [
      | inr e ↦ rw e (λ h. absurd (ground arith), λ (p, _, _, _). absurd (ground arith))
      | inl e ↦
          elim (holds-cases (text_dec s.src_change_reader_method t.src_change_reader_method)) [
            | inr (f, q) ↦ rw (e, f) (λ h. absurd (ground arith), λ (_, p, _, _). absurd (q p))
            | inl (f, p) ↦
                elim (holds-cases
                  (text_dec s.dst_change_reader_method t.dst_change_reader_method)) [
                    | inr (k, q) ↦
                        rw (e, f, k) (λ h. absurd (ground arith), λ (_, _, r, _). absurd (q r))
                    | inl (k, q) ↦
                        rw (e, f, k)
                          (
                            λ h. (ground arith, p, q, some-injective (ok-injective h)),
                            λ (_, _, _, r). ap (λ n. ok (some n)) r,
                          )
                  ]
          ]
    ]
