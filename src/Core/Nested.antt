-- ===== src/Core/Nested.antt =====
-- What `redactPath` refuses it refuses under every directory, and key files under every name.
use crosscode.Prelude.{
  ◌≡◌, refl, sym, ◌∙◌, Bool, true, false, List, [], ◌∷◌, ◌++◌, arith, any, All, String,
}
use crosscode.Prelude.Text.{Text, codes, to_lower}
use crosscode.Core.Regex.{
  Pattern, empty, start, finish, unit, many, seq, alt, match_many, match, test_from, test, segment,
  one_of, anything,
}
use crosscode.Core.Redact.{key_files, secret_path_patterns, redact_path}

-- A pattern in which `^` does not occur.
abbrev Floating : Pattern → Type 0
Floating start = ⊥
Floating (seq p q) = Floating p × Floating q
Floating (alt p q) = Floating p × Floating q
Floating _ = Unit

match_many_floating :
    (p : _) (a b : Bool) (s : Text) (k l : Bool → Text → Bool)
    → ((c d : Bool) (t : Text) → k c t ≡ l d t)
    → match_many p a s k ≡ match_many p b s l
unfolding match_many
match_many_floating p a b [] k l h = h a b []
match_many_floating p a b (c ∷ s) k l h =
    cc (h a b (c ∷ s), match_many_floating p false false s k l h)

-- A floating pattern does not see where the input starts.
match-Floating :
    (p : Pattern) (a b : Bool) (s : Text) (k l : Bool → Text → Bool)
    → Floating p
    → ((c d : Bool) (t : Text) → k c t ≡ l d t)
    → match p a s k ≡ match p b s l
unfolding match
match-Floating empty a b s k l f h = h a b s
match-Floating start a b s k l f h = absurd f
match-Floating finish a b [] k l f h = h a b []
match-Floating finish a b (c ∷ s) k l f h = refl
match-Floating (unit p) a b [] k l f h = refl
match-Floating (unit p) a b (c ∷ s) k l f h = cc (h false false s)
match-Floating (many p) a b s k l f h = match_many_floating p a b s k l h
match-Floating (seq p q) a b s k l f h =
    match-Floating p a b s _ _ f.0 (λ c d t. match-Floating q c d t k l f.1 h)
match-Floating (alt p q) a b s k l f h =
    cc (match-Floating p a b s k l f.0 h, match-Floating q a b s k l f.1 h)

-- Either anchored to a segment or not anchored at all.
data IsSteady : Pattern → Type 0 where
  at_segment : {p : Pattern} → Floating p → IsSteady (segment p)
  anywhere : {p : Pattern} → Floating p → IsSteady p

test_from-suffix :
    (p : Pattern) (b : Bool) (d s : Text)
    → test_from p false s ≡ true
    → test_from p b (d ++ (b'/' ∷ s)) ≡ true
unfolding test_from
test_from-suffix p b [] s h = ground arith
test_from-suffix p b (c ∷ d) s h = ground (arith, test_from-suffix p false d s h)

test_from-Floating :
    (p : Pattern) (a b : Bool) (s : Text) → Floating p → test_from p a s ≡ test_from p b s
unfolding test_from
test_from-Floating p a b [] f = match-Floating p a b [] anything anything f (λ c d t. refl)
test_from-Floating p a b (c ∷ s) f =
    ground (arith, match-Floating p a b (c ∷ s) anything anything f (λ c d t. refl))

-- After a slash a segment begins as well as at the start.
test_from-segment :
    (p : Pattern) (s : Text)
    → Floating p
    → test_from (segment p) true s ≡ true
    → test_from (segment p) false (b'/' ∷ s) ≡ true
unfolding test_from one_of to_lower
test_from-segment p [] f h =
    ground (arith, match-Floating p true false [] anything anything f (λ c d t. refl))
test_from-segment p (c ∷ s) f h =
    ground (arith, match-Floating p true false (c ∷ s) anything anything f (λ c d t. refl))

test_from-segment_under :
    (p : Pattern) (b : Bool) (d s : Text)
    → Floating p
    → test_from (segment p) true s ≡ true
    → test_from (segment p) b (d ++ (b'/' ∷ s)) ≡ true
unfolding test_from
test_from-segment_under p true [] s f h = ground (arith, test_from-segment p s f h)
test_from-segment_under p false [] s f h = test_from-segment p s f h
test_from-segment_under p b (c ∷ d) s f h = ground (arith, test_from-segment_under p false d s f h)

-- A steady pattern that is found in a path is found under any directory.
test-nested :
    (p : Pattern) (d s : Text) → IsSteady p → test p s ≡ true → test p (d ++ (b'/' ∷ s)) ≡ true
unfolding test
test-nested p d s (at_segment {p = q} f) h = test_from-segment_under q true d s f h
test-nested p d s (anywhere f) h =
    test_from-suffix p true d s (sym (test_from-Floating p true false s f) ∙ h)

any-nested :
    (ps : List Pattern) (d s : Text)
    → All IsSteady ps
    → any (λ p. test p s) ps ≡ true
    → any (λ p. test p (d ++ (b'/' ∷ s))) ps ≡ true
unfolding any
any-nested [] d s steady h = h
any-nested (p ∷ ps) d s steady h =
    ground (arith, test-nested p d s steady.0, any-nested ps d s steady.1)

secret_path_patterns-IsSteady : All IsSteady secret_path_patterns
unfolding secret_path_patterns
secret_path_patterns-IsSteady = (
  at_segment (omega arith),
  (
    at_segment (omega arith),
    (
      at_segment (omega arith),
      (
        at_segment (omega arith),
        (
          at_segment (omega arith),
          (
            anywhere (omega arith),
            (
              anywhere (omega arith),
              (
                at_segment (omega arith),
                (anywhere (omega arith), (anywhere (omega arith), (anywhere (omega arith), tt))),
              ),
            ),
          ),
        ),
      ),
    ),
  ),
)

-- A path that is redacted is redacted under every directory, however deep.
pub redact_path-nested :
    (directory path : Text)
    → redact_path path ≡ true
    → redact_path (directory ++ (b'/' ∷ path)) ≡ true
unfolding redact_path
redact_path-nested directory path h =
    any-nested secret_path_patterns directory path secret_path_patterns-IsSteady h

test_from-append :
    (p : Pattern) (s t : Text) → test_from p false t ≡ true → test_from p false (s ++ t) ≡ true
unfolding test_from
test_from-append p [] t h = h
test_from-append p (c ∷ s) t h = ground (arith, test_from-append p s t h)

key_file :
    (p : Pattern) (s t : Text) → Floating p → test_from p false t ≡ true → test p (s ++ t) ≡ true
unfolding test
key_file p s t f h = test_from-Floating p true false (s ++ t) f ∙ test_from-append p s t h

redact_path-key_files :
    (stem ending : Text)
    → test_from key_files false ending ≡ true
    → redact_path (stem ++ ending) ≡ true
unfolding redact_path any
redact_path-key_files stem ending h =
    let found : test key_files (stem ++ ending) ≡ true =
      key_file key_files stem ending (unfold key_files in omega arith) h in
    ground (arith, found)

abbrev pub key_endings : List String
key_endings =
    ".pem" ∷ ".key" ∷ ".p8" ∷ ".p12" ∷ ".pfx" ∷ ".jks" ∷ ".jceks" ∷ ".keystore" ∷ ".keytab" ∷ ".PPK"
    ∷ ".kdbx" ∷ ".ovpn" ∷ ".asc" ∷ ".gpg" ∷ ".PGP" ∷ []

-- Key material never leaves, whatever the file is called in front of its extension.
pub redact_path-endings :
    All (λ e. (stem : Text) → redact_path (stem ++ codes e) ≡ true) key_endings
unfolding test_from match one_of to_lower key_files
redact_path-endings = (
  λ stem. redact_path-key_files stem _ refl,
  (
    λ stem. redact_path-key_files stem _ refl,
    (
      λ stem. redact_path-key_files stem _ refl,
      (
        λ stem. redact_path-key_files stem _ refl,
        (
          λ stem. redact_path-key_files stem _ refl,
          (
            λ stem. redact_path-key_files stem _ refl,
            (
              λ stem. redact_path-key_files stem _ refl,
              (
                λ stem. redact_path-key_files stem _ refl,
                (
                  λ stem. redact_path-key_files stem _ refl,
                  (
                    λ stem. redact_path-key_files stem _ refl,
                    (
                      λ stem. redact_path-key_files stem _ refl,
                      (
                        λ stem. redact_path-key_files stem _ refl,
                        (
                          λ stem. redact_path-key_files stem _ refl,
                          (
                            λ stem. redact_path-key_files stem _ refl,
                            (λ stem. redact_path-key_files stem _ refl, tt),
                          ),
                        ),
                      ),
                    ),
                  ),
                ),
              ),
            ),
          ),
        ),
      ),
    ),
  ),
)
