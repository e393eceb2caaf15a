-- ===== src/Service/Http/Body.antt =====
-- apps/service/src/http.ts: the body and the query of a request, with the bounds that they are read
-- under. A body comes in chunks of code units, one for a byte.
pub mod Limits
use crosscode.Prelude.{
  ℕ, zero, suc, ◌+◌, ◌*◌, ◌-◌, Bool, true, false, not, ◌&&◌, List, [], ◌∷◌, ◌++◌, Option, none,
  some, map, any, is_some, get_or, length, ltb, leb, ◌==◌, if◌then◌else◌,
}
use crosscode.Prelude.Text.{Text, codes, same, same_opt, to_lower, trim, truthy}
use crosscode.Prelude.Dict.{lookup}
use crosscode.Paths.{split}
use crosscode.Service.Http.{Request, Options, Json, ServiceError, http, zod, unexpected}
use crosscode.Service.Http.Action.{Outcome, done, thrown, Action, ◌>>=◌, pure, throw}

abbrev is_digit : ℕ → Bool
is_digit c = leb b'0' c && leb c b'9'

-- `/^\d+$/`
abbrev pub is_digits : Text → Bool
is_digits s = truthy (some s) && not (any (λ c. not (is_digit c)) s)

-- `Number(s)` of digits, before it is rounded to a double.
number_from : ℕ → Text → ℕ
number_from n [] = n
number_from n (c ∷ s) = number_from (n * 10 + (c - b'0')) s

unfoldable pub number : Text → ℕ
unfolding number_from
number s = number_from 0 s

abbrev first_part : List Text → Text
first_part [] = []
first_part (s ∷ parts) = s

-- `?.split(";", 1)[0]?.trim().toLowerCase()`
unfoldable pub media_type : Option Text → Option Text
unfolding trim split
media_type none = none
media_type (some s) = some (map to_lower (trim (first_part (split (λ c. c == b';') s))))

-- The loop over the chunks, from the bytes read before: `none` is over the limit.
read_chunks : ℕ → ℕ → List Text → Option Text
read_chunks maximum_bytes bytes [] = some []
read_chunks maximum_bytes bytes (chunk ∷ chunks) =
    let rest = read_chunks maximum_bytes (bytes + length chunk) chunks in
    if ltb maximum_bytes (bytes + length chunk)
    then none
    else elim rest [ none ↦ none | some body ↦ some (chunk ++ body) ]

abbrev pub or_refuse : {A : Type 0} → Option A → ℕ → Outcome A
or_refuse none status = thrown (http status)
or_refuse (some a) status = done a

parsed : (Text → Option Json) → Option Text → Outcome Json
parsed parse none = thrown (http 413)
parsed parse (some body) = or_refuse (parse body) 400

-- `declaredLength && (!/^\d+$/.test(declaredLength) || Number(declaredLength) > maximumBytes)`
unfoldable pub declares_too_large : ℕ → Option Text → Bool
unfolding number_from
declares_too_large maximum_bytes none = false
declares_too_large maximum_bytes (some declared) =
    truthy (some declared)
    && (if is_digits declared then ltb maximum_bytes (number declared) else true)

unfoldable pub read_json : Options → Request → ℕ → Outcome Json
unfolding media_type read_chunks parsed declares_too_large
read_json options request maximum_bytes =
    if not (same_opt (media_type request.content_type) (some (codes "application/json")))
    then thrown (http 415)
    else if declares_too_large maximum_bytes request.content_length
    then thrown (http 413)
    else parsed options.parse_json (read_chunks maximum_bytes 0 request.chunks)

abbrev pub max_safe_integer : ℕ
max_safe_integer = 9007199254740991

parameter : Option Text → Outcome (Option ℕ)
unfolding number_from
parameter none = done none
parameter (some raw) =
    if not (is_digits raw)
    then thrown (http 400)
    else if ltb max_safe_integer (number raw)
    then thrown (http 400)
    else done (some (number raw))

unfoldable pub integer_param : Request → Text → Outcome (Option ℕ)
unfolding parameter
integer_param request name = parameter (lookup name request.query)
