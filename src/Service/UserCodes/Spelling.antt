-- ===== src/Service/UserCodes/Spelling.antt =====
-- The spellings of a user code of apps/service/src/store.ts.
use crosscode.Prelude.{
  take-drop, ℕ, zero, suc, ◌%◌, ◌<◌, ◌≡◌, refl, ap, true, false, not, [], ◌∷◌, ◌++◌, some, map,
  arith, any, any-append, take, drop, length, ◌==◌, All,
}
use crosscode.Prelude.Text.{Text, is_space, trim, trim_lem}
use crosscode.Service.UserCodes.{
  invite_code_alphabet, char_at, code_char, generate_user_code, to_upper, is_code_char, bare,
  normalize_user_code,
}

abbrev IsCode : ℕ → Type 0
IsCode c = is_code_char c ≡ true

char_at-IsCode : (n : ℕ) (s : Text) → n < length s → All IsCode s → IsCode (char_at n s)
unfolding char_at
char_at-IsCode n [] lt h = absurd (omega (arith, lt))
char_at-IsCode zero (c ∷ s) lt h = h.0
char_at-IsCode (suc n) (c ∷ s) lt h = char_at-IsCode n s (omega (arith, lt)) h.1

code_char-IsCode : (byte : ℕ) → IsCode (code_char byte)
unfolding code_char char_at
code_char-IsCode byte =
    char_at-IsCode (byte % length invite_code_alphabet) invite_code_alphabet (omega arith)
      (ground arith)

IsCode-All : (bytes : Text) → All IsCode (map code_char bytes)
IsCode-All [] = tt
IsCode-All (b ∷ bytes) = (code_char-IsCode b, IsCode-All bytes)

-- A character that is typed for one of a code is no blank and no dash.
typed_char :
    (c : ℕ)
    → IsCode (to_upper c)
    → (is_space c ≡ false) × (is_space (to_upper c) ≡ false) × ((to_upper c == b'-') ≡ false)
unfolding is_space
typed_char c h = ground (arith, h)

typed_space : (s : Text) → All IsCode (map to_upper s) → any is_space s ≡ false
unfolding any
typed_space [] h = refl
typed_space (c ∷ s) (h, t) = rw ((typed_char c h).0, typed_space s t)

typed-bare : (s : Text) → All IsCode (map to_upper s) → bare (map to_upper s) ≡ map to_upper s
unfolding bare
typed-bare [] h = refl
typed-bare (c ∷ s) (h, t) = rw ((typed_char c h).1, (typed_char c h).2, typed-bare s t)

bare-append : (s t : Text) → bare (s ++ t) ≡ bare s ++ bare t
unfolding bare
bare-append [] t = refl
bare-append (c ∷ s) t = ground (arith, bare-append s t)

take-All : (n : ℕ) (s : Text) → All IsCode s → All IsCode (take n s) × All IsCode (drop n s)
take-All zero s h = (tt, h)
take-All (suc n) [] h = (tt, tt)
take-All (suc n) (c ∷ s) (h, t) = let ih = take-All n s t in ((h, ih.0), ih.1)

no_other_char : (s : Text) → All IsCode s → any (λ c. not (is_code_char c)) s ≡ false
unfolding any
no_other_char [] h = refl
no_other_char (c ∷ s) (h, t) = rw (h, no_other_char s t)

length-code : (bytes : Text) → length (map code_char bytes) ≡ length bytes
length-code [] = refl
length-code (b ∷ bytes) = ap suc (length-code bytes)

map-append : (s t : Text) → map to_upper (s ++ t) ≡ map to_upper s ++ map to_upper t
map-append [] t = refl
map-append (c ∷ s) t = ap (λ r. to_upper c ∷ r) (map-append s t)

module _ (bytes left right : Text) (first : map to_upper left ≡ take 4 (map code_char bytes))
    (second : map to_upper right ≡ drop 4 (map code_char bytes)) where
  left-All : All IsCode (map to_upper left)
  left-All = rw first (take-All 4 (map code_char bytes) (IsCode-All bytes)).0

  right-All : All IsCode (map to_upper right)
  right-All = rw second (take-All 4 (map code_char bytes) (IsCode-All bytes)).1

  no_space : any is_space (left ++ right) ≡ false
  no_space = rw (any-append, typed_space left left-All, typed_space right right-All)

  no_space_dashed : any is_space (left ++ b'-' ∷ right) ≡ false
  unfolding any is_space
  no_space_dashed = rw (any-append, typed_space left left-All, typed_space right right-All)

  whole : map to_upper left ++ map to_upper right ≡ map code_char bytes
  whole = rw (first, second) (take-drop 4 (map code_char bytes))

  dashed_bare : bare (map to_upper (trim (left ++ b'-' ∷ right))) ≡ map code_char bytes
  unfolding bare is_space
  dashed_bare =
      rw
        (
          trim_lem (left ++ b'-' ∷ right) no_space_dashed,
          map-append left (b'-' ∷ right),
          bare-append (map to_upper left) (b'-' ∷ map to_upper right),
          typed-bare left left-All,
          typed-bare right right-All,
        )
        whole

  plain_bare : bare (map to_upper (trim (left ++ right))) ≡ map code_char bytes
  plain_bare =
      rw
        (
          trim_lem (left ++ right) no_space,
          map-append left right,
          bare-append (map to_upper left) (map to_upper right),
          typed-bare left left-All,
          typed-bare right right-All,
        )
        whole

of_bare :
    (input bytes : Text)
    → length bytes ≡ 8
    → bare (map to_upper (trim input)) ≡ map code_char bytes
    → normalize_user_code input ≡ some (generate_user_code bytes)
unfolding normalize_user_code generate_user_code
of_bare input bytes eight e =
    rw (e, length-code bytes, eight, no_other_char (map code_char bytes) (IsCode-All bytes))

-- A generated code, of eight random bytes, is found again however it is typed: in either case of each
-- letter, with the dash or without it.
pub normalize-generate_user_code :
    (bytes left right : Text)
    → length bytes ≡ 8
    → map to_upper left ≡ take 4 (map code_char bytes)
    → map to_upper right ≡ drop 4 (map code_char bytes)
    → (normalize_user_code (left ++ b'-' ∷ right) ≡ some (generate_user_code bytes))
      × (normalize_user_code (left ++ right) ≡ some (generate_user_code bytes))
normalize-generate_user_code bytes left right eight first second = (
  of_bare (left ++ b'-' ∷ right) bytes eight (dashed_bare bytes left right first second),
  of_bare (left ++ right) bytes eight (plain_bare bytes left right first second),
)
