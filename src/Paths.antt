-- ===== src/Paths.antt =====
-- packages/sync/src/paths.ts: which paths off the wire may be written, and which never sync.
pub mod Safety
pub mod Split
use crosscode.Prelude.{
  ℕ, ◌+◌, Bool, true, false, not, ◌&&◌, ◌||◌, List, [], ◌∷◌, map, any, ltb, leb, ◌==◌, length,
  if◌then◌else◌,
}
use crosscode.Prelude.Text.{Text, codes, same, to_lower, starts_with}
use crosscode.Core.Redact.{redact_path}

-- `[\\/]`
unfoldable pub is_separator : ℕ → Bool
is_separator c = c == b'\\' || c == b'/'

-- `/^[\\/]/`
starts_at_separator : Text → Bool
unfolding is_separator
starts_at_separator [] = false
starts_at_separator (c ∷ s) = is_separator c

is_letter : ℕ → Bool
is_letter c = (leb b'a' c && leb c b'z') || (leb b'A' c && leb c b'Z')

-- `/^[a-zA-Z]:[\\/]/`
starts_at_drive : Text → Bool
unfolding is_letter is_separator
starts_at_drive (c ∷ d ∷ e ∷ s) = is_letter c && (d == b':') && is_separator e
starts_at_drive _ = false

-- `s.split(separator)` at single code units.
abbrev onto_first : ℕ → List Text → List Text
onto_first c [] = (c ∷ []) ∷ []
onto_first c (part ∷ parts) = (c ∷ part) ∷ parts

unfoldable pub split : (ℕ → Bool) → Text → List Text
split separator [] = [] ∷ []
split separator (c ∷ s) =
    let parts = split separator s in if separator c then [] ∷ parts else onto_first c parts

-- A part that names no entry of the directory it stands in.
unfoldable pub is_forbidden_part : Text → Bool
is_forbidden_part part =
    same part []
    || same part (codes ".")
    || same part (codes "..")
    || same (map to_lower part) (codes ".git")

contains_nul : Text → Bool
contains_nul = any (λ c. c == 0)

unfoldable pub is_safe_relative_path : Text → Bool
unfolding starts_at_separator starts_at_drive contains_nul
is_safe_relative_path [] = false
is_safe_relative_path path =
    if ltb 4096 (length path)
    then false
    else if contains_nul path || starts_at_separator path || starts_at_drive path
    then false
    else not (any is_forbidden_part (split is_separator path))

is_crosscode_owned : Text → Bool
is_crosscode_owned path =
    same path (codes ".mcp.json")
    || same path (codes ".claude/settings.json")
    || starts_with path (codes ".claude/skills/crosscode/")

unfoldable pub is_denied : Text → Bool
unfolding is_crosscode_owned
is_denied path = redact_path path || is_crosscode_owned path
