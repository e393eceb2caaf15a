-- ===== src/Core/Regex.antt =====
-- JavaScript regular expressions as far as the program's literals need them: code unit classes,
-- sequences, alternatives, options, repeated classes and the two anchors, matched by backtracking.
-- The flag `i` folds case in ASCII: no other code unit folds to an ASCII letter.
use crosscode.Prelude.{ℕ, Bool, true, false, not, ◌&&◌, ◌||◌, List, [], ◌∷◌, ◌==◌, String}
use crosscode.Prelude.Text.{Text, codes, to_lower}

pub data Pattern : Type 0 where
  empty start finish : Pattern
  unit many : (ℕ → Bool) → Pattern
  seq alt : Pattern → Pattern → Pattern

-- `first` says whether the position is the start of the input; `k` goes on behind the match.
unfoldable pub match_many : (ℕ → Bool) → Bool → Text → (Bool → Text → Bool) → Bool
match_many p first [] k = k first []
match_many p first (c ∷ s) k = k first (c ∷ s) || (p c && match_many p false s k)

unfoldable pub match : Pattern → Bool → Text → (Bool → Text → Bool) → Bool
unfolding match_many
match empty first s k = k first s
match start first s k = first && k first s
match finish first [] k = k first []
match finish first (c ∷ s) k = false
match (unit p) first [] k = false
match (unit p) first (c ∷ s) k = p c && k false s
match (many p) first s k = match_many p first s k
match (seq p q) first s k = match p first s (λ first' s'. match q first' s' k)
match (alt p q) first s k = match p first s k || match q first s k

abbrev pub anything : Bool → Text → Bool
anything first s = true

-- The match may begin at any position.
unfoldable pub test_from : Pattern → Bool → Text → Bool
unfolding match
test_from p first [] = match p first [] anything
test_from p first (c ∷ s) = match p first (c ∷ s) anything || test_from p false s

-- `pattern.test(s)`
unfoldable pub test : Pattern → Text → Bool
unfolding test_from
test p s = test_from p true s

-- A code unit of a literal, a class of such, a text and a choice of texts, all without case.
unfoldable pub one_of : Text → ℕ → Bool
unfolding to_lower
one_of [] c = false
one_of (d ∷ ds) c = to_lower c == d || one_of ds c

abbrev pub class : String → Pattern
class s = unit (one_of (codes s))

abbrev pub letters : Text → Pattern
letters [] = empty
letters (c ∷ s) = seq (unit (one_of (c ∷ []))) (letters s)

abbrev pub word : String → Pattern
word s = letters (codes s)

abbrev pub opt : Pattern → Pattern
opt p = alt p empty

abbrev pub words : String → List String → Pattern
words s [] = word s
words s (t ∷ ts) = alt (word s) (words t ts)

-- `(^|\/)` and what follows it.
abbrev pub segment : Pattern → Pattern
segment p = seq (alt start (class "/")) p

-- `[^/]*`
unfoldable pub not_slash : ℕ → Bool
not_slash c = not (c == b'/')

-- A choice of patterns in order.
abbrev pub choice : Pattern → List Pattern → Pattern
choice p [] = p
choice p (q ∷ ps) = alt p (choice q ps)
