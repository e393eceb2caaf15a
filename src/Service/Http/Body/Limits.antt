-- ===== src/Service/Http/Body/Limits.antt =====
-- What `readJson` of apps/service/src/http.ts lets through.
use crosscode.Prelude.{
  ℕ, ◌+◌, ◌≤◌, ◌≡◌, refl, true, false, List, [], ◌∷◌, ◌++◌, Option, none, some, arith, length,
  length-append, ltb, Bool-cases, Option-cases, inl, inr,
}
use crosscode.Prelude.Text.{Text, codes, same_opt}
use crosscode.Service.Http.{Request, Options, Json}
use crosscode.Service.Http.Action.{done}
use crosscode.Service.Http.Body.{media_type, read_chunks, parsed, declares_too_large, read_json}

-- `Buffer.concat(chunks)`
pub concat : List Text → Text
concat [] = []
concat (chunk ∷ chunks) = chunk ++ concat chunks

read_chunks_sound :
    (maximum bytes : ℕ) (chunks : List Text) (body : Text)
    → bytes ≤ maximum
    → read_chunks maximum bytes chunks ≡ some body
    → (body ≡ concat chunks) × (bytes + length (concat chunks) ≤ maximum)
unfolding read_chunks concat
read_chunks_sound maximum bytes [] body fits h = ground (arith, h, fits)
read_chunks_sound maximum bytes (chunk ∷ chunks) body fits h =
    elim (Bool-cases (ltb maximum (bytes + length chunk))) [
      | inl over ↦ cc (rw over at h)
      | inr room ↦ elim (Option-cases (read_chunks maximum (bytes + length chunk) chunks)) [
        | inl none_read ↦ cc (rw (room, none_read, read_chunks) at h)
        | inr (rest, e) ↦
            let ih =
              read_chunks_sound maximum (bytes + length chunk) chunks rest (ground arith) e in
            let size = length-append chunk (concat chunks) in
            (cc (rw (room, e, read_chunks) at h, ih.0), omega (arith, ih.1, size))
      ]
    ]

parsed_sound :
    (parse : Text → Option Json) (body : Option Text) (j : Json)
    → parsed parse body ≡ done j
    → (text : Text) × (body ≡ some text) × (parse text ≡ some j)
unfolding parsed
parsed_sound parse none j h = cc
parsed_sound parse (some text) j h = elim (Option-cases (parse text)) [
  | inl none_parsed ↦ cc (rw none_parsed at h)
  | inr (k, e) ↦ (text, refl, cc (rw e at h, e))
]

-- A body that is accepted is the whole of what was sent, is no longer than the limit, parses as the
-- value that the route gets, and was declared as JSON and not as longer than the limit.
pub read_json-bounded :
    (options : Options) (request : Request) (maximum_bytes : ℕ) (j : Json)
    → read_json options request maximum_bytes ≡ done j
    → (length (concat request.chunks) ≤ maximum_bytes)
      × (options.parse_json (concat request.chunks) ≡ some j)
      × (same_opt (media_type request.content_type) (some (codes "application/json")) ≡ true)
      × (declares_too_large maximum_bytes request.content_length ≡ false)
unfolding read_json
read_json-bounded options request maximum j h =
    elim (Bool-cases
      (same_opt (media_type request.content_type) (some (codes "application/json")))) [
        | inr wrong ↦ cc (rw wrong at h)
        | inl typed ↦ elim (Bool-cases (declares_too_large maximum request.content_length)) [
          | inl large ↦ cc (rw (typed, large) at h)
          | inr small ↦
              let (text, whole, e) =
                parsed_sound options.parse_json (read_chunks maximum 0 request.chunks) j
                  (rw (typed, small) at h) in
              let sound = read_chunks_sound maximum 0 request.chunks text (omega arith) whole in
              (omega (arith, sound.1), cc (sound.0, e), typed, small)
        ]
      ]
