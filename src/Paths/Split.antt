-- ===== src/Paths/Split.antt =====
-- Splitting at separators, as packages/sync/src/paths.ts and others do.
use crosscode.Prelude.{
  ℕ, ◌<◌, ◌≡◌, refl, Bool, true, false, List, [], ◌∷◌, ◌++◌, arith, any, length, Bool-cases, inl,
  inr,
}
use crosscode.Prelude.Text.{Text}
use crosscode.Paths.{split, onto_first}

length-onto_first : (c : ℕ) (parts : List Text) → 0 < length (onto_first c parts)
length-onto_first c [] = omega arith
length-onto_first c (p ∷ parts) = omega arith

onto_first-append :
    (c : ℕ) (l m : List Text) → 0 < length l → onto_first c (l ++ m) ≡ onto_first c l ++ m
onto_first-append c [] m h = ground (arith, h)
onto_first-append c (s ∷ l) m h = refl

module _ (separator : ℕ → Bool) where
  length-split : (s : Text) → 0 < length (split separator s)
  unfolding split
  length-split [] = omega arith
  length-split (c ∷ s) = elim (Bool-cases (separator c)) [
    | inl t ↦ rw t (omega arith)
    | inr f ↦ rw f (length-onto_first c (split separator s))
  ]

  split_one : (s : Text) → any separator s ≡ false → split separator s ≡ s ∷ []
  unfolding split any
  split_one [] h = refl
  split_one (c ∷ s) h = ground (arith, h, split_one s)

  pub split-append :
      (s hop : Text) (c : ℕ)
      → separator c ≡ true
      → any separator hop ≡ false
      → split separator (s ++ c ∷ hop) ≡ split separator s ++ hop ∷ []
  unfolding split
  split-append [] hop c is one = rw (is, split_one hop one)
  split-append (d ∷ s) hop c is one = elim (Bool-cases (separator d)) [
    | inl t ↦ rw (t, split-append s hop c is one)
    | inr f ↦
        rw (f, split-append s hop c is one)
          (onto_first-append d (split separator s) (hop ∷ []) (length-split s))
  ]
