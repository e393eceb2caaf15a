-- ===== src/Prelude/Dict.antt =====
-- `Map<string, V>` and `Set<string>`: entries in insertion order, keyed by texts. Proofs elsewhere
-- go by the laws.
use mathlib.Core.Path.{◌≡◌, refl}
use mathlib.Core.Bool.{Bool, false, ◌||◌}
use mathlib.Core.Option.{Option, none, some}
use mathlib.Core.List.{List, [], ◌∷◌, ◌++◌}
use native.Mathlib.Omega.{arith}
use crosscode.Prelude.Tests.{if◌then◌else◌, is_some}
use crosscode.Prelude.Text.{Text, same, same_iff}

abbrev pub Dict {ℓ} : Type ℓ → Type ℓ
Dict V = List (Text × V)

module _ {ℓ} {V : Type ℓ} where
  -- `m.get(k)`
  unfoldable pub lookup : Text → Dict V → Option V
  lookup k [] = none
  lookup k ((j, v) ∷ m) = if same j k then some v else lookup k m

  -- `m.has(k)`
  abbrev pub has : Text → Dict V → Bool
  has k m = is_some (lookup k m)

  -- `m.set(k, v)`: a key that is there keeps its place.
  unfoldable pub insert : Text → V → Dict V → Dict V
  insert k v [] = (k, v) ∷ []
  insert k v ((j, w) ∷ m) = if same j k then (j, v) ∷ m else (j, w) ∷ insert k v m

  -- `m.delete(k)`
  unfoldable pub erase : Text → Dict V → Dict V
  erase k [] = []
  erase k ((j, w) ∷ m) = let rest = erase k m in if same j k then rest else (j, w) ∷ rest

  -- `[...m.keys()]`
  unfoldable pub keys : Dict V → List Text
  keys [] = []
  keys ((k, v) ∷ m) = k ∷ keys m

  pub lookup-nil : (k : Text) → lookup k [] ≡ none
  unfolding lookup
  lookup-nil k = refl

  pub lookup-insert :
      (j k : Text) (v : V) (m : Dict V)
      → lookup j (insert k v m) ≡ (if same k j then some v else lookup j m)
  unfolding lookup insert
  lookup-insert j k v [] = refl
  lookup-insert j k v ((i, w) ∷ m) =
      ground (arith, same_iff i k, same_iff i j, same_iff k j, lookup-insert j k v m)

  pub lookup-erase :
      (j k : Text) (m : Dict V) → lookup j (erase k m) ≡ (if same k j then none else lookup j m)
  unfolding lookup erase
  lookup-erase j k [] = ground arith
  lookup-erase j k ((i, w) ∷ m) =
      ground (arith, same_iff i k, same_iff i j, same_iff k j, lookup-erase j k m)

pub ruleset dict_laws = (lookup-nil, lookup-insert, lookup-erase)

-- `set.has(k)`, `set.add(k)` and `set.delete(k)`.
unfoldable pub member : Text → List Text → Bool
member k [] = false
member k (j ∷ s) = same j k || member k s

unfoldable pub add : Text → List Text → List Text
unfolding member
add k s = if member k s then s else s ++ k ∷ []

unfoldable pub delete : Text → List Text → List Text
delete k [] = []
delete k (j ∷ s) = let rest = delete k s in if same j k then rest else j ∷ rest

pub member-append_one :
    (j k : Text) (s : List Text) → member j (s ++ k ∷ []) ≡ (member j s || same k j)
unfolding member
member-append_one j k [] = ground arith
member-append_one j k (i ∷ s) = ground (arith, member-append_one j k s)

pub member-add : (j k : Text) (s : List Text) → member j (add k s) ≡ (same k j || member j s)
unfolding add
member-add j k s = ground (arith, member-append_one j k s, same_iff k j)

pub member-delete :
    (j k : Text) (s : List Text) → member j (delete k s) ≡ (if same k j then false else member j s)
unfolding member delete
member-delete j k [] = ground arith
member-delete j k (i ∷ s) =
    ground (arith, same_iff i k, same_iff i j, same_iff k j, member-delete j k s)

-- `new Set(l)`: the first of equal members stays.
unfoldable pub to_set : List Text → List Text → List Text
unfolding add
to_set s [] = s
to_set s (k ∷ l) = to_set (add k s) l

pub member-to_set :
    (j : Text) (s l : List Text) → member j (to_set s l) ≡ (member j s || member j l)
unfolding to_set
member-to_set j s [] = unfold member in ground arith
member-to_set j s (k ∷ l) =
    unfold member in ground (arith, member-to_set j (add k s) l, member-add j k s)

pub ruleset set_laws = (member-add, member-delete, member-to_set)
