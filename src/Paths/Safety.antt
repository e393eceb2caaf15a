-- ===== src/Paths/Safety.antt =====
-- A safe path, resolved part by part, stays below the root, on Windows and on POSIX.
use crosscode.Prelude.{
  ℕ, ◌≡◌, ◌⊎◌, Bool, true, false, ◌||◌, List, [], ◌∷◌, map, any, All, Option, none, some, ◌==◌,
  if◌then◌else◌,
}
use crosscode.Prelude.Text.{Text, codes, same, to_lower}
use crosscode.Paths.{is_forbidden_part}

-- The directory entered from `here` (innermost first) by one part; leaving the root fails.
abbrev up : List Text → Option (List Text)
up [] = none
up (name ∷ here) = some here

abbrev enter : List Text → Text → Option (List Text)
enter here part =
    if same part [] || same part (codes ".")
    then some here
    else if same part (codes "..")
    then up here
    else some (part ∷ here)

pub resolve : List Text → List Text → Option (List Text)
resolve here [] = some here
resolve here (part ∷ parts) = elim (enter here part) [
  | none ↦ none
  | some there ↦ resolve there parts
]

abbrev pub below : List Text → List Text → List Text
below here [] = here
below here (part ∷ parts) = below (part ∷ here) parts

-- Every part of the path names a new entry below the last, none is `..`, and none is `.git`.
abbrev pub StaysInside : List Text → Type 0
StaysInside parts =
    ((here : List Text) → resolve here parts ≡ some (below here parts))
    × All (λ part. same (map to_lower part) (codes ".git") ≡ false) parts

pub is_slash : ℕ → Bool
is_slash c = c == b'/'

-- A part of the POSIX split is a part of the other split, or has a backslash in it.
abbrev has_backslash : Text → Bool
has_backslash = any (λ c. c == b'\\')

abbrev Finer : List Text → List Text → Type 0
Finer (p ∷ ps) (q ∷ qs) =
    ((p ≡ q) ⊎ (has_backslash p ≡ true))
    × (any is_forbidden_part qs ≡ false → any is_forbidden_part ps ≡ false)
Finer _ _ = ⊥
