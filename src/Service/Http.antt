-- ===== src/Service/Http.antt =====
-- apps/service/src/http.ts: a request, what the routes read and write, and what they answer. The
-- routes are in the modules below.
pub mod Action
pub mod Address
pub mod Body
pub mod Schemas
pub mod Routes
pub mod Consent
pub mod Guards
pub mod Publish
use crosscode.Prelude.{ℕ, Bool, List, Option}
use crosscode.Prelude.Text.{Text}
use crosscode.Prelude.Dict.{Dict}
use crosscode.Protocol.{FileVersion, Change}
use crosscode.Service.Changes.{Room, ChangePage}
use crosscode.Service.Devices.{Devices, DeviceSession, Drawn}
use crosscode.Service.Invites.{Tables, StoredInvite, StoreError, DrawnInvite}
use crosscode.Service.Replicas.{ReplicaRow}
use crosscode.Service.Legal.{
  LegalDocument, LegalDocumentInfo, AcceptanceRow, AcceptanceSurface, Versions,
}
use crosscode.Service.Limiter.{Window}
use crosscode.Service.Users.{UserRow, SupabaseAccessClaims}

-- A call of `gateway.broadcastChanges`.
pub record Broadcast : Type 0 where
  pub room : Room
  pub changes : List Change
  pub exclude_replica_id : Text

-- The limiter of the process, the tables of the store, and what has been handed to the gateway.
pub record Service : Type 0 where
  pub windows : Dict Window
  pub users : Dict UserRow
  pub acceptances : List AcceptanceRow
  pub tables : Tables
  pub replicas : Dict ReplicaRow
  pub devices : Devices
  pub log : List Change
  pub broadcasts : List Broadcast

-- `HttpError`, `ZodError`, the two errors of the store, and any other.
pub data ServiceError : Type 0 where
  http : (status : ℕ) → ServiceError
  zod : ServiceError
  store : StoreError → ServiceError
  unexpected : ServiceError

-- A JSON value by the shape of the object that it is: the routes' schemas take one each.
pub data Json : Type 0 where
  publish_body : (project_id branch replica_id : Text) → List FileVersion → Json
  project_body : (name repo : Text) → Json
  invite_body : (project_id : Text) → Option ℕ → Json
  replica_body : (project_id branch : Text) → Json
  poll_body : (device_code : Text) → Json
  bind_body : (user_code refresh_token : Text) → Option Text → Json
  acceptance_body : AcceptanceSurface → Versions → Json
  other_body : Json

pub record Request : Type 0 where
  pub method : Text
  pub pathname : Text
  pub origin : Option Text
  pub authorization : Option Text
  pub github_token : Option Text
  pub remote_address : Option Text
  pub forwarded_for : Option Text
  pub content_type : Option Text
  pub content_length : Option Text
  pub chunks : List Text
  pub query : Dict Text

-- The options of the server and what it calls: the verification of a token, the check of access at
-- GitHub (`none` where it throws), `JSON.parse`, `decodeURIComponent` and SHA-256.
pub record Options : Type 0 where
  pub trust_proxy : Bool
  pub allowed_origins : List Text
  pub body_limit_bytes : ℕ
  pub verify : Text → Option SupabaseAccessClaims
  pub check_repo_access : Text → Text → Option Bool
  pub parse_json : Text → Option Json
  pub decode_uri_component : Text → Option Text
  pub hash_device_code : Text → Text
  pub unreadable_tables : List Text

-- The clock and the random values of one request.
pub record Moment : Type 0 where
  pub now : ℕ
  pub created_at : Text
  pub project_id : Text
  pub replica_id : Text
  pub device_codes : List Drawn
  pub invite_codes : List DrawnInvite

pub data Response : Type 0 where
  preflight : (status : ℕ) → Response
  error : (status : ℕ) → Response
  degraded : List Text → Response
  healthy : Response
  legal : List LegalDocumentInfo → List LegalDocument → Response
  started : Drawn → Response
  poll_pending : Response
  poll_complete : DeviceSession → Response
  acceptance_recorded : Versions → List LegalDocument → Response
  acceptances : Versions → List LegalDocument → List LegalDocumentInfo → Response
  device_bound : Response
  project : (id name repo : Text) → Response
  redeemed : (project_id repo clone_command : Text) → Response
  invite : StoredInvite → Response
  replica : (id : Text) → (cursor : ℕ) → Response
  published : (cursor : ℕ) → Response
  changes : ChangePage → Response
