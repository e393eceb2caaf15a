-- ===== src/Cli/JsonFile/Atomic.antt =====
-- Writing a file beside its destination, in apps/cli/src/json-file.ts.
use crosscode.Prelude.{
  ℕ, ◌∙◌, ◌≡◌, ◌⊎◌, inl, inr, refl, Bool, true, false, ◌++◌, ◌∷◌, [], Option, none, some, arith,
  if◌then◌else◌, Bool-cases,
}
use crosscode.Prelude.Text.{Text, codes, same}
use crosscode.Cli.JsonFile.{
  Read, found, missing, unreadable, System, temporary_name, write_file_atomic,
}

abbrev pub found_text : Read → Option Text
found_text (found t) = some t
found_text missing = none
found_text unreadable = none

pub found_text_lem : (r : Read) (t : Text) → found_text r ≡ some t → r ≡ found t
found_text_lem (found s) t h = cc
found_text_lem missing t h = absurd (cc)
found_text_lem unreadable t h = absurd (cc)

same_longer : (p : Text) (c : ℕ) (s : Text) → same (p ++ c ∷ s) p ≡ false
unfolding same
same_longer [] c s = refl
same_longer (d ∷ p) c s = ground (arith, same_longer p c s)

module _ (system : System) where
  open system use {World}

  -- The temporary file is another one.
  pub temporary_name_apart : (path : Text) → same (temporary_name system path) path ≡ false
  unfolding temporary_name
  temporary_name_apart path =
      same_longer path b'.' (codes "crosscode-" ++ (system.process_id ++ codes ".tmp"))

  abbrev pub content : World → Text → Option Text
  content w path = found_text (system.read_file w path)

-- Distinct paths are distinct files; a call that throws may leave its own file in any state, but a
-- rename happens or does not.
pub record SystemLaws (system : System) : Type 0 where
  pub content-make :
      (w : system.World) (d q : Text)
      → content system (system.make_directory w d).1 q ≡ content system w q
  pub content-write :
      (w : system.World) (p t q : Text)
      → same p q ≡ false
      → content system (system.write_file w p t).1 q ≡ content system w q
  pub written :
      (w : system.World) (p t : Text)
      → (system.write_file w p t).0 ≡ false
      → content system (system.write_file w p t).1 p ≡ some t
  pub renamed :
      (w : system.World) (p q r : Text)
      → (system.rename_file w p q).0 ≡ false
      → same p r ≡ false
      → content system (system.rename_file w p q).1 r
        ≡ (if same q r then content system w p else content system w r)
  pub not_renamed :
      (w : system.World) (p q r : Text)
      → (system.rename_file w p q).0 ≡ true
      → content system (system.rename_file w p q).1 r ≡ content system w r
  pub content-remove :
      (w : system.World) (p q : Text)
      → same p q ≡ false
      → content system (system.remove_file w p) q ≡ content system w q

module _ (system : System) (laws : SystemLaws system) where
  open system use {World}

  -- Every file but the temporary one, which `path` has beside it, is in `e` as in `w`.
  abbrev pub SameBut : Text → World → World → Type 0
  SameBut path w e =
      (q : Text)
      → same (temporary_name system path) q ≡ false
      → content system e q ≡ content system w q

  -- As `SameBut`, and `path` has the new contents.
  abbrev pub Replaced : Text → Text → World → World → Type 0
  Replaced path contents w e =
      (q : Text)
      → same (temporary_name system path) q ≡ false
      → content system e q ≡ (if same path q then some contents else content system w q)

  -- What is left of a call that says whether it threw.
  abbrev pub Wrote : Text → Text → World → Bool × World → Type 0
  Wrote path contents w (threw, e) =
      ((threw ≡ true) × SameBut path w e) ⊎ ((threw ≡ false) × Replaced path contents w e)

  pub write_file_atomic_lem :
      (w : World) (path contents : Text)
      → Wrote path contents w (write_file_atomic system w path contents)
  unfolding write_file_atomic
  write_file_atomic_lem w path contents =
      let t = temporary_name system path in
      let e = (system.write_file w t contents).1 in
      elim (Bool-cases (system.write_file w t contents).0) [
        | inl u ↦ rw u (
            inl (
              refl,
              λ q apart. laws.content-remove e t q apart ∙ laws.content-write w t contents q apart,
            ))
        | inr s ↦ elim (Bool-cases (system.rename_file e t path).0) [
          | inl u ↦
              rw (s, u)
                (inl (
                  refl,
                  λ q apart.
                      laws.content-remove (system.rename_file e t path).1 t q apart
                      ∙ laws.not_renamed e t path q u
                      ∙ laws.content-write w t contents q apart,
                ))
          | inr v ↦
              rw (s, v)
                (inr (
                  refl,
                  λ q apart.
                      rw
                        (
                          laws.renamed e t path q v apart,
                          laws.content-write w t contents q apart,
                          laws.written w t contents s,
                        )
                        refl,
                ))
        ]
      ]
