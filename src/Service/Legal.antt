-- ===== src/Service/Legal.antt =====
-- apps/service/src/legal.ts, and the acceptances of apps/service/src/store.ts.
pub mod Accepted
use crosscode.Prelude.{
  ℕ, Bool, true, false, not, ◌&&◌, List, [], ◌∷◌, ◌++◌, Option, none, some, is_some, length, ◌==◌,
  ltb, leb, if◌then◌else◌,
}
use crosscode.Prelude.Text.{Text, codes, same, same_opt}
use crosscode.Service.Invites.{is_uuid}

pub data LegalDocument : Type 0 where
  terms privacy dpa : LegalDocument

pub data AcceptanceSurface : Type 0 where
  signup signin device join cli : AcceptanceSurface

abbrev pub legal_documents : List LegalDocument
legal_documents = terms ∷ privacy ∷ dpa ∷ []

-- A table such as `Partial<Record<LegalDocument, string>>`.
abbrev pub Versions : Type 0
Versions = LegalDocument → Option Text

abbrev pub legal_versions : Versions
legal_versions terms = some (codes "2026-08-10")
legal_versions privacy = some (codes "2026-08-01")
legal_versions dpa = none

abbrev legal_urls : LegalDocument → Text
legal_urls terms = codes "/docs/terms.html"
legal_urls privacy = codes "/docs/privacy-policy.html"
legal_urls dpa = codes "/docs/dpa.html"

abbrev pub required_documents : List LegalDocument
required_documents = terms ∷ privacy ∷ []

pub record LegalDocumentInfo : Type 0 where
  pub document : LegalDocument
  pub version : Text
  pub url : Text

abbrev info_of : LegalDocument → Option Text → List LegalDocumentInfo
info_of document none = []
info_of document (some version) =
    record { document = document; version = version; url = legal_urls document } ∷ []

current_of : List LegalDocument → List LegalDocumentInfo
current_of [] = []
current_of (document ∷ documents) =
    info_of document (legal_versions document) ++ current_of documents

unfoldable pub current_legal_documents : List LegalDocumentInfo
unfolding current_of
current_legal_documents = current_of legal_documents

-- `current !== null && accepted[document] !== current`
abbrev is_outstanding : Versions → LegalDocument → Bool
is_outstanding accepted document =
    is_some (legal_versions document)
    && not (same_opt (accepted document) (legal_versions document))

outstanding_in : Versions → List LegalDocument → List LegalDocument
outstanding_in accepted [] = []
outstanding_in accepted (document ∷ documents) =
    let rest = outstanding_in accepted documents in
    if is_outstanding accepted document then document ∷ rest else rest

unfoldable pub outstanding_documents : Versions → List LegalDocument
unfolding outstanding_in
outstanding_documents accepted = outstanding_in accepted required_documents

unfoldable pub is_current_version : LegalDocument → Text → Bool
is_current_version document version = same_opt (legal_versions document) (some version)

-- A row of `terms_acceptances`.
pub record AcceptanceRow : Type 0 where
  pub user_id : Text
  pub document : LegalDocument
  pub version : Text
  pub surface : AcceptanceSurface
  pub ip : Text
  pub accepted_at : ℕ

abbrev number_of : LegalDocument → ℕ
number_of terms = 0
number_of privacy = 1
number_of dpa = 2

abbrev pub same_document : LegalDocument → LegalDocument → Bool
same_document a b = number_of a == number_of b

-- One row for each document, appended in one transaction.
unfoldable pub record_acceptances : List AcceptanceRow → List AcceptanceRow → List AcceptanceRow
record_acceptances acceptances table = table ++ acceptances

-- `ORDER BY document, accepted_at DESC`: of equal times the later row, where SQL may take either.
abbrev newer : AcceptanceRow → Option AcceptanceRow → Option AcceptanceRow
newer row none = some row
newer row (some later) = if ltb later.accepted_at row.accepted_at then some row else some later

newest : Text → LegalDocument → List AcceptanceRow → Option AcceptanceRow
newest user_id document [] = none
newest user_id document (row ∷ rows) =
    let rest = newest user_id document rows in
    if same row.user_id user_id && same_document row.document document then newer row rest else rest

abbrev version_of : Option AcceptanceRow → Option Text
version_of none = none
version_of (some row) = some row.version

unfoldable pub latest_accepted_versions : Text → List AcceptanceRow → Versions
unfolding newest is_uuid
latest_accepted_versions user_id table document =
    if not (is_uuid user_id) then none else version_of (newest user_id document table)
