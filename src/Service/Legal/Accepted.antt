-- ===== src/Service/Legal/Accepted.antt =====
-- What the record of assent of apps/service/src/legal.ts and store.ts shows.
use crosscode.Prelude.{
  ◌⊎◌, ◌≡◌, refl, Bool, true, ◌&&◌, List, [], ◌∷◌, ◌++◌, Option, none, some, arith, any, any-append,
  length, ltb, Bool-cases, Option-cases, inl, inr,
}
use crosscode.Prelude.Text.{Text, codes, same, same_opt, same_opt_iff}
use crosscode.Service.Invites.{is_uuid}
use crosscode.Service.Legal.{
  LegalDocument, terms, privacy, legal_versions, outstanding_in, outstanding_documents,
  is_current_version, AcceptanceRow, same_document, newer, newest, latest_accepted_versions,
}

-- A row that says that the user accepted the document as it is published.
pub is_assent : Text → LegalDocument → AcceptanceRow → Bool
is_assent user_id document row =
    same row.user_id user_id
    && same_document row.document document
    && is_current_version document row.version

-- The user has accepted both required documents, each as it is published.
pub has_accepted : Text → List AcceptanceRow → Bool
has_accepted user_id rows =
    any (is_assent user_id terms) rows && any (is_assent user_id privacy) rows

newer_cases :
    (first row : AcceptanceRow) (later : Option AcceptanceRow)
    → newer first later ≡ some row
    → (first ≡ row) ⊎ (later ≡ some row)
newer_cases first row none h = inl cc
newer_cases first row (some later) h = elim (Bool-cases (ltb later.accepted_at first.accepted_at)) [
  | inl t ↦ inl (cc (rw t at h))
  | inr f ↦ inr (rw f at h)
]

newest_assents :
    (user_id : Text) (document : LegalDocument) (rows : List AcceptanceRow) (row : AcceptanceRow)
    → newest user_id document rows ≡ some row
    → is_current_version document row.version ≡ true
    → any (is_assent user_id document) rows ≡ true
unfolding newest any is_assent
newest_assents user_id document [] row h current = cc
newest_assents user_id document (first ∷ rows) row h current =
    elim (Bool-cases (same first.user_id user_id && same_document first.document document)) [
      | inr other ↦ ground (arith, newest_assents user_id document rows row (rw other at h) current)
      | inl own ↦ elim (newer_cases first row (newest user_id document rows) (rw own at h)) [
        | inl it ↦
            let c : is_current_version document first.version ≡ true = rw it current in
            ground (arith, own, c)
        | inr later ↦ ground (arith, newest_assents user_id document rows row later current)
      ]
    ]

latest_assents :
    (user_id : Text) (document : LegalDocument) (rows : List AcceptanceRow) (version : Text)
    → legal_versions document ≡ some version
    → same_opt (latest_accepted_versions user_id rows document) (some version) ≡ true
    → any (is_assent user_id document) rows ≡ true
unfolding latest_accepted_versions is_current_version
latest_assents user_id document rows version published h = elim (Bool-cases (is_uuid user_id)) [
  | inr invalid ↦ absurd (cc ((same_opt_iff none (some version)).0 (rw invalid at h)))
  | inl valid ↦ elim (Option-cases (newest user_id document rows)) [
    | inl none_found ↦
        absurd (cc ((same_opt_iff none (some version)).0 (rw (valid, none_found) at h)))
    | inr (row, e) ↦
        let it : some row.version ≡ some version = (same_opt_iff _ _).0 (rw (valid, e) at h) in
        newest_assents user_id document rows row e
          (rw (published, it) ((same_opt_iff (some version) (some version)).1 refl))
  ]
]

-- Where nothing is outstanding for a user, the record has the user's assent to both documents.
pub outstanding-has_accepted :
    (user_id : Text) (rows : List AcceptanceRow)
    → length (outstanding_documents (latest_accepted_versions user_id rows)) ≡ 0
    → has_accepted user_id rows ≡ true
unfolding outstanding_documents outstanding_in has_accepted
outstanding-has_accepted user_id rows h =
    let latest = latest_accepted_versions user_id rows in
    let both : (same_opt (latest terms) (legal_versions terms) ≡ true)
        × (same_opt (latest privacy) (legal_versions privacy) ≡ true) =
      ground (arith, h) in
    rw (
      latest_assents user_id terms rows (codes "2026-08-10") refl both.0,
      latest_assents user_id privacy rows (codes "2026-08-01") refl both.1,
    )

-- The record only grows.
pub has_accepted-append :
    (user_id : Text) (rows more : List AcceptanceRow)
    → has_accepted user_id rows ≡ true
    → has_accepted user_id (rows ++ more) ≡ true
unfolding has_accepted
has_accepted-append user_id rows more h =
    rw (any-append (is_assent user_id terms), any-append (is_assent user_id privacy))
      (ground (arith, h))
