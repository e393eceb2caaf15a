-- ===== src/Prelude/Text.antt =====
-- JavaScript strings: lists of UTF-16 code units, with the operations of `String.prototype` that the
-- program calls. A literal is the list of its character codes, which are code units in ASCII.
use Prim.Native.Char.{code}
use Prim.Native.Nat.{ℕ, ◌+◌}
use Prim.Native.String.{String}
use mathlib.Core.Path.{◌≡◌, refl}
use mathlib.Core.Logic.{◌↔◌}
use mathlib.Core.Bool.{Bool, true, false, not, ◌&&◌, ◌||◌}
use mathlib.Core.Option.{Option, none, some}
use mathlib.Core.List.{List, [], ◌∷◌}
use native.Mathlib.Omega.{arith}
use crosscode.Prelude.Tests.{◌==◌, leb, if◌then◌else◌}
use crosscode.Prelude.Lists.{any}

abbrev pub Text : Type 0
Text = List ℕ

abbrev pub codes : String → Text
codes String.[] = []
codes (String.◌∷◌ c s) = code c ∷ codes s

-- `a === b` on two strings.
unfoldable pub same : Text → Text → Bool
same [] [] = true
same (c ∷ s) (d ∷ t) = (c == d) && same s t
same _ _ = false

pub same_iff : (s t : Text) → (same s t ≡ true) ↔ (s ≡ t)
unfolding same
same_iff [] [] = ground arith
same_iff [] (d ∷ t) = ground arith
same_iff (c ∷ s) [] = ground arith
same_iff (c ∷ s) (d ∷ t) = ground (arith, same_iff s t)

pub same_refl : (s : Text) → same s s ≡ true
same_refl s = (same_iff s s).1 refl

-- `a === b` on two nullable strings.
unfoldable pub same_opt : Option Text → Option Text → Bool
same_opt none none = true
same_opt (some s) (some t) = same s t
same_opt _ _ = false

pub same_opt_iff : (a b : Option Text) → (same_opt a b ≡ true) ↔ (a ≡ b)
unfolding same_opt
same_opt_iff none none = ground arith
same_opt_iff none (some t) = ground arith
same_opt_iff (some s) none = ground arith
same_opt_iff (some s) (some t) = ground (arith, same_iff s t)

pub same_opt_refl : (a : Option Text) → same_opt a a ≡ true
same_opt_refl a = (same_opt_iff a a).1 refl

-- `Boolean(s)` on a nullable string: null and the empty string are falsy.
unfoldable pub truthy : Option Text → Bool
truthy none = false
truthy (some []) = false
truthy (some (c ∷ s)) = true

-- `c.toLowerCase()` for a code unit, in ASCII.
unfoldable pub to_lower : ℕ → ℕ
to_lower c = if leb b'A' c && leb c b'Z' then c + 32 else c

unfoldable pub starts_with : Text → Text → Bool
starts_with s [] = true
starts_with [] (c ∷ p) = false
starts_with (d ∷ s) (c ∷ p) = (d == c) && starts_with s p

-- White space as `trim` and `\s` take it.
unfoldable pub is_space : ℕ → Bool
is_space c =
    (leb 9 c && leb c 13)
    || (c == 32)
    || (c == 160)
    || (c == 5760)
    || (leb 8192 c && leb c 8202)
    || (c == 8232)
    || (c == 8233)
    || (c == 8239)
    || (c == 8287)
    || (c == 12288)
    || (c == 65279)

trim_start : Text → Text
unfolding is_space
trim_start [] = []
trim_start (c ∷ s) = let rest = trim_start s in if is_space c then rest else c ∷ s

trim_end : Text → Text
unfolding is_space
trim_end [] = []
trim_end (c ∷ s) =
    let rest = trim_end s in if is_space c && not (truthy (some rest)) then [] else c ∷ rest

-- `s.trim()`
unfoldable pub trim : Text → Text
unfolding trim_start trim_end
trim s = trim_end (trim_start s)

trim_start_lem : (s : Text) → any is_space s ≡ false → trim_start s ≡ s
unfolding trim_start any
trim_start_lem [] h = refl
trim_start_lem (c ∷ s) h = ground (arith, h)

trim_end_lem : (s : Text) → any is_space s ≡ false → trim_end s ≡ s
unfolding trim_end any
trim_end_lem [] h = refl
trim_end_lem (c ∷ s) h = ground (arith, h, trim_end_lem s)

-- Nothing is trimmed off a text without white space.
pub trim_lem : (s : Text) → any is_space s ≡ false → trim s ≡ s
unfolding trim
trim_lem s h = rw (trim_start_lem s h, trim_end_lem s h)
