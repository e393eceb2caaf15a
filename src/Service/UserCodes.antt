-- ===== src/Service/UserCodes.antt =====
-- apps/service/src/store.ts: the codes that a person copies from a screen. The random bytes are an
-- argument.
pub mod Spelling
use crosscode.Prelude.{
  ℕ, suc, zero, ◌+◌, ◌-◌, ◌%◌, Bool, not, ◌&&◌, ◌||◌, List, [], ◌∷◌, ◌++◌, Option, none, some, map,
  any, take, drop, length, leb, ◌==◌, if◌then◌else◌,
}
use crosscode.Prelude.Text.{Text, codes, is_space, trim}

abbrev invite_code_alphabet : Text
invite_code_alphabet = codes "ABCDEFGHJKLMNPQRTUVWXYZ2346789"

-- `s[n]`, at an index that is there.
char_at : ℕ → Text → ℕ
char_at n [] = 0
char_at zero (c ∷ s) = c
char_at (suc n) (c ∷ s) = char_at n s

unfoldable pub code_char : ℕ → ℕ
unfolding char_at
code_char byte = char_at (byte % length invite_code_alphabet) invite_code_alphabet

-- `CC-7F3A-9C2E`
unfoldable pub generate_invite_code : Text → Text
unfolding char_at
generate_invite_code bytes =
    let code = map code_char bytes in codes "CC-" ++ take 4 code ++ b'-' ∷ drop 4 code

-- `WDJB-MJHT`
unfoldable pub generate_user_code : Text → Text
unfolding char_at
generate_user_code bytes = let code = map code_char bytes in take 4 code ++ b'-' ∷ drop 4 code

-- `toUpperCase`, in ASCII.
abbrev pub to_upper : ℕ → ℕ
to_upper c = if leb b'a' c && leb c b'z' then c - 32 else c

abbrev pub is_code_char : ℕ → Bool
is_code_char c = (leb b'A' c && leb c b'Z') || (leb b'0' c && leb c b'9')

-- `replace(/[\s-]/g, "")`
unfoldable pub bare : Text → Text
unfolding is_space
bare [] = []
bare (c ∷ s) = let rest = bare s in if is_space c || (c == b'-') then rest else c ∷ rest

unfoldable pub normalize_user_code : Text → Option Text
unfolding trim bare
normalize_user_code input =
    let code = bare (map to_upper (trim input)) in
    if (length code == 8) && not (any (λ c. not (is_code_char c)) code)
    then some (take 4 code ++ b'-' ∷ drop 4 code)
    else none
