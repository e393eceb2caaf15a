-- ===== src/Service/Http/Consent/Steps.antt =====
-- The consent behind the service through the steps that the routes share.
use crosscode.Prelude.{ℕ, ◌≡◌, refl, ◌∙◌, true, false, not, List, some, arith, any, length, ltb}
use crosscode.Prelude.Text.{Text, same, same_iff}
use crosscode.Core.Redact.{redact_path}
use crosscode.Prelude.Dict.{Dict, lookup}
use crosscode.Protocol.{Change}
use crosscode.Service.Changes.{publish_changes}
use crosscode.Service.Replicas.{ReplicaRow, register_replica, touch_replica}
use crosscode.Service.Replicas.Touch.{touch_replica-IsSeen, touch_replica_sound}
use crosscode.Service.Http.Schemas.{PublishRequest}
use crosscode.Service.Devices.{Devices}
use crosscode.Service.Invites.{Reply, ok, refused, Tables, is_member}
use crosscode.Service.Invites.Admits.{Admits, require_membership-is_member}
use crosscode.Service.Users.{SupabaseAccessClaims}
use crosscode.Service.Legal.{outstanding_documents, latest_accepted_versions}
use crosscode.Service.Legal.Accepted.{has_accepted, outstanding-has_accepted}
use crosscode.Service.Http.{Service, Request, Options, Moment}
use crosscode.Service.Http.Action.{Action, of_reply, put}
use crosscode.Service.Http.Action.Meets.{
  Meets, Post, Post-both, Meets-pure, Meets-bind, Meets-gets, Meets-gets_any, Meets-settle_any,
  Meets-refuse, Meets-refuse_any, Meets-reply, Meets-weaken,
}
use crosscode.Service.Http.Routes.{
  allowed, on_tables, on_replicas, on_devices, charge_identity, authenticate, body,
  require_accepted_terms, upsert_caller,
}
use crosscode.Service.Http.Routes.Device.{post_device, post_device_token}
use crosscode.Service.Http.Routes.Open.{
  body_Meets, allowed_Meets, on_devices_Meets, post_device_Meets, post_device_token_Meets,
}
use crosscode.Service.Limiter.{Window}
use crosscode.Service.Http.Routes.Rooms.{membership_of, append, broadcast}
use crosscode.Service.Http.Consent.{IsConsented}
use crosscode.Service.Http.Consent.Store.{
  tables-IsConsented, members-IsConsented, touched-IsConsented, registered-IsConsented,
  appended-IsConsented,
}

abbrev pub Keeps : {A : Type 0} → Action A → Type 0
Keeps m = Meets IsConsented IsConsented m (λ a. IsConsented)

-- What the user has shown.
abbrev pub Accepted : Text → Service → Type 0
Accepted user_id s = IsConsented s × (has_accepted user_id s.acceptances ≡ true)

abbrev pub Joined : Text → Text → Service → Type 0
Joined project_id user_id s = IsConsented s × (is_member s.tables.members project_id user_id ≡ true)

same_tables :
    (s s' : Service)
    → s'.tables ≡ s.tables
    → s'.acceptances ≡ s.acceptances
    → s'.replicas ≡ s.replicas
    → s'.log ≡ s.log
    → IsConsented s
    → IsConsented s'
same_tables s s' t a r l h = record {
  members_accepted = λ p u there. rw a (h.members_accepted p u (rw t at there));
  replicas_members = λ id row there. rw t (h.replicas_members id row (rw r at there));
  log_sent = rw (r, l) h.log_sent;
}

windows_free :
    (s : Service) (windows : Dict Window)
    → IsConsented s
    → IsConsented (record s { windows = windows })
windows_free s windows h = same_tables s _ refl refl refl refl h

devices_free :
    (s : Service) (devices : Devices) → IsConsented s → IsConsented (record s { devices = devices })
devices_free s devices h = same_tables s _ refl refl refl refl h

pub allowed-Keeps : (key : Text) (maximum now : ℕ) → Keeps (allowed key maximum now)
allowed-Keeps = allowed_Meets windows_free devices_free

pub on_devices-Keeps : {A : Type 0} (op : Devices → Devices × A) → Keeps (on_devices op)
on_devices-Keeps = on_devices_Meets windows_free devices_free

pub post_device-Keeps :
    (options : Options) (request : Request) (moment : Moment)
    → Keeps (post_device options request moment)
post_device-Keeps = post_device_Meets windows_free devices_free

pub post_device_token-Keeps :
    (options : Options) (request : Request) (moment : Moment)
    → Keeps (post_device_token options request moment)
post_device_token-Keeps = post_device_token_Meets windows_free devices_free

pub charge-Keeps :
    (options : Options) (request : Request) (moment : Moment) (identity_key route : Text)
    → Keeps (charge_identity options request moment identity_key route)
unfolding charge_identity
charge-Keeps options request moment identity_key route =
    Meets-bind _ _ (allowed-Keeps _ _ _) λ pass. Meets-refuse_any _ _ (λ s h. h)

pub authenticate-Keeps :
    (options : Options) (request : Request) (moment : Moment) (route : Text)
    → Keeps (authenticate options request moment route)
unfolding authenticate
authenticate-Keeps options request moment route =
    Meets-bind _ _ (Meets-settle_any _ (λ s h. h)) λ caller.
      Meets-bind _ _ (charge-Keeps options request moment _ route) λ _. Meets-pure caller (λ s h. h)

pub upsert_Meets :
    (user_id : Text) (caller : SupabaseAccessClaims)
    → Meets IsConsented (Accepted user_id) (upsert_caller caller) (λ _. Accepted user_id)
unfolding upsert_caller put
upsert_Meets user_id caller = record { at = λ s h. (same_tables s _ refl refl refl refl h.0, h.1) }

pub body-Keeps :
    (options : Options) (request : Request) (moment : Moment) (n : ℕ)
    → Keeps (body options request moment n)
body-Keeps = body_Meets

none_outstanding :
    (user_id : Text) (s : Service)
    → ltb 0 (length (outstanding_documents (latest_accepted_versions user_id s.acceptances)))
      ≡ false
    → has_accepted user_id s.acceptances ≡ true
none_outstanding user_id s h = outstanding-has_accepted user_id s.acceptances (ground (arith, h))

module _ {P : Service → Type 0} (inv : (s : Service) → P s → IsConsented s) where
  pub terms_Meets :
      (user_id : Text)
      → Meets IsConsented P
          (require_accepted_terms user_id)
          (λ _ s. P s × (has_accepted user_id s.acceptances ≡ true))
  unfolding require_accepted_terms
  terms_Meets user_id = Meets-bind _ _ (Meets-gets _) λ outstanding.
      Meets-weaken _ (Meets-refuse _ 403 (λ s h. inv s h.0)) (λ s h. h)
        λ a s h. (h.0.0, none_outstanding user_id s (rw h.0.1 h.1))

  pub membership_Meets :
      (project_id user_id : Text)
      → Meets IsConsented P
          (membership_of project_id user_id)
          (λ _ s. P s × (is_member s.tables.members project_id user_id ≡ true))
  unfolding membership_of
  membership_Meets project_id user_id = Meets-bind _ _ (Meets-gets _) λ r.
      Meets-bind _ _ (Meets-reply r (λ s h. inv s h.0)) λ m.
        Meets-pure tt
          λ s h. (h.0.0, require_membership-is_member s.tables project_id user_id m (h.0.1 ∙ h.1))

-- An operation on the tables that admits a user who has accepted.
pub tables-Keeps :
    {A : Type 0} (user_id : Text) (op : Tables → Reply A × Tables)
    → Admits user_id op
    → Meets IsConsented (Accepted user_id) (on_tables op) (λ _. IsConsented)
unfolding on_tables
tables-Keeps user_id op admits = record {
  at = λ s h.
      Post-both IsConsented (of_reply (op s.tables).0) (record s { tables = (op s.tables).1 })
        (tables-IsConsented user_id op s admits h.0 h.1);
}

pub same_members-Keeps :
    {A : Type 0} (op : Tables → Reply A × Tables)
    → ((t : Tables) → (op t).1.members ≡ t.members)
    → Keeps (on_tables op)
unfolding on_tables
same_members-Keeps op e = record {
  at = λ s h.
      Post-both IsConsented (of_reply (op s.tables).0) (record s { tables = (op s.tables).1 })
        (members-IsConsented s (op s.tables).1 (e s.tables) h);
}

pub register_Meets :
    (id project_id user_id branch : Text) (now : ℕ)
    → Meets IsConsented
        (λ s.
          (IsConsented s × (has_accepted user_id s.acceptances ≡ true))
          × (is_member s.tables.members project_id user_id ≡ true))
        (on_replicas (register_replica id project_id user_id branch now))
        (λ _. IsConsented)
unfolding on_replicas
register_Meets id project_id user_id branch now = record {
  at = λ s h.
      Post-both IsConsented
        (of_reply (register_replica id project_id user_id branch now s.replicas).0)
        (record s { replicas = (register_replica id project_id user_id branch now s.replicas).1 })
        (registered-IsConsented id project_id user_id branch now s h.0.0 h.1);
}

-- The replica is registered, to the project and the branch.
pub IsReplica : Text → Text → Text → Dict ReplicaRow → Type 0
IsReplica project_id id branch replicas =
    (row : ReplicaRow) × (lookup id replicas ≡ some row)
    × (row.project_id ≡ project_id)
    × (row.branch ≡ branch)

touched_Post :
    (project_id id : Text) (r : Reply Text) (s : Service)
    → IsConsented s
    → ((branch : Text) → r ≡ ok branch → IsReplica project_id id branch s.replicas)
    → Post IsConsented
        (λ branch s. IsConsented s × IsReplica project_id id branch s.replicas)
        (of_reply r)
        s
touched_Post project_id id (ok branch) s h f = (h, f branch refl)
touched_Post project_id id (refused e) s h f = h

pub touch_Meets :
    (project_id user_id id : Text) (now : ℕ)
    → Meets IsConsented IsConsented
        (on_replicas (touch_replica project_id user_id id now))
        (λ branch s. IsConsented s × IsReplica project_id id branch s.replicas)
unfolding on_replicas IsReplica
touch_Meets project_id user_id id now = record {
  at = λ s h.
      touched_Post project_id id (touch_replica project_id user_id id now s.replicas).0
        (record s { replicas = (touch_replica project_id user_id id now s.replicas).1 })
        (touched-IsConsented (touch_replica project_id user_id id now s.replicas).1 s
          (touch_replica-IsSeen project_id user_id id now s.replicas) h)
        (λ branch e.
          let (row, there, p, u, b) =
            touch_replica_sound project_id user_id id branch now s.replicas e in
          (row, there, p, b));
}

appended_for :
    (r : PublishRequest) (at : Text) (s : Service)
    → IsConsented s
    → IsReplica r.project_id r.replica_id r.branch s.replicas
    → any (λ version. redact_path version.path) r.versions ≡ false
    → IsConsented (record s {
      log =
          (publish_changes s.log
            (record { project_id = r.project_id; branch = r.branch })
            r.replica_id
            at
            r.versions).0;
    })
unfolding IsReplica
appended_for r at s h (row, there, p, b) allowed =
    appended-IsConsented (record { project_id = r.project_id; branch = r.branch }) r.replica_id at
      r.versions row s h there p b allowed

pub append_Meets :
    (r : PublishRequest) (branch at : Text)
    → Meets IsConsented
        (λ s.
          (IsConsented s × IsReplica r.project_id r.replica_id branch s.replicas)
          × (not (same branch r.branch) ≡ false)
          × (any (λ version. redact_path version.path) r.versions ≡ false))
        (append r at)
        (λ _. IsConsented)
unfolding append put
append_Meets r branch at = Meets-bind _ _ (Meets-gets_any _) λ appended.
    Meets-bind _ _
      (record {
        at = λ s h.
            let it : branch ≡ r.branch = (same_iff branch r.branch).0 (ground (arith, h.1)) in
            appended_for r at s h.0.0 (rw it at h.0.1) h.2;
      })
      λ _. Meets-pure appended (λ s h. h)

pub broadcast-Keeps : (r : PublishRequest) (appended : List Change) → Keeps (broadcast r appended)
unfolding broadcast put
broadcast-Keeps r appended = record { at = λ s h. same_tables s _ refl refl refl refl h }
