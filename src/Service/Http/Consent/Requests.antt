-- ===== src/Service/Http/Consent/Requests.antt =====
-- The consent behind the service through every request of apps/service/src/http.ts.
use crosscode.Prelude.{Bool, List, Option, none, some}
use crosscode.Prelude.Text.{Text, truthy}
use crosscode.Service.Invites.{StoredInvite}
use crosscode.Service.Invites.Admits.{
  create_project-Admits, create_invite-members, redeem_invite-Admits,
}
use crosscode.Service.Users.{SupabaseAccessClaims}
use crosscode.Service.Legal.{AcceptanceRow, record_acceptances}
use crosscode.Service.Http.{Service, Request, Options, Moment, http}
use crosscode.Service.Http.Action.{pure, throw, put}
use crosscode.Service.Http.Action.Meets.{
  Meets, Meets-pure, Meets-throw, Meets-bind, Meets-gets_any, Meets-settle_any, Meets-refuse,
  Meets-refuse_any, Meets-if, Meets-weaken,
}
use crosscode.Service.Devices.{DeviceBindResult, unknown, expired, consumed, already_bound, bound}
use crosscode.Service.Http.Routes.Rooms.{
  or_404, or_403, checked, decoded, append, broadcast, post_projects, post_redeem, post_invites,
  post_replicas, post_changes, get_changes,
}
use crosscode.Service.Http.Routes.Device.{
  answer_bind, or_400, post_device_bind, post_acceptances, get_acceptances,
}
use crosscode.Service.Http.Consent.{IsConsented}
use crosscode.Service.Http.Consent.Store.{acceptances-IsConsented}
use crosscode.Service.Http.Consent.Steps.{
  Keeps, on_devices-Keeps, body-Keeps, upsert_Meets, terms_Meets, membership_Meets, tables-Keeps,
  same_members-Keeps, register_Meets, touch_Meets, append_Meets, broadcast-Keeps,
}

abbrev pub itself : (s : Service) → IsConsented s → IsConsented s
itself s h = h

answer_bind-Keeps : (result : DeviceBindResult) → Keeps (answer_bind result)
unfolding answer_bind
answer_bind-Keeps unknown = Meets-throw _ itself
answer_bind-Keeps expired = Meets-throw _ itself
answer_bind-Keeps consumed = Meets-throw _ itself
answer_bind-Keeps already_bound = Meets-throw _ itself
answer_bind-Keeps bound = Meets-pure _ itself

module _ {P : Service → Type 0} (inv : (s : Service) → P s → IsConsented s) where
  or_400_Meets : (code : Option Text) → Meets IsConsented P (or_400 code) (λ _. P)
  unfolding or_400
  or_400_Meets none = Meets-throw _ inv
  or_400_Meets (some code) = Meets-pure _ (λ s h. h)

  or_404_Meets : (found : Option StoredInvite) → Meets IsConsented P (or_404 found) (λ _. P)
  unfolding or_404
  or_404_Meets none = Meets-throw _ inv
  or_404_Meets (some offered) = Meets-pure _ (λ s h. h)

  or_403_Meets : (token : Option Text) → Meets IsConsented P (or_403 token) (λ _. P)
  unfolding or_403
  or_403_Meets none = Meets-throw _ inv
  or_403_Meets (some token) =
      Meets-if (truthy (some token)) (pure token) (throw (http 403))
        (λ _. Meets-pure token (λ s h. h)) (λ _. Meets-throw (http 403) inv)

  checked_Meets : (access : Option Bool) → Meets IsConsented P (checked access) (λ _. P)
  unfolding checked
  checked_Meets none = Meets-throw _ inv
  checked_Meets (some access) = Meets-refuse_any _ 403 inv

  decoded_Meets : (code : Option Text) → Meets IsConsented P (decoded code) (λ _. P)
  unfolding decoded
  decoded_Meets none = Meets-throw _ inv
  decoded_Meets (some code) = Meets-pure _ (λ s h. h)

acceptances_put :
    (rows : List AcceptanceRow)
    → Keeps (put (λ s. record s { acceptances = record_acceptances rows s.acceptances }))
unfolding put
acceptances_put rows = record { at = λ s h. acceptances-IsConsented rows s h }

pub get_acceptances-Keeps : (caller : SupabaseAccessClaims) → Keeps (get_acceptances caller)
unfolding get_acceptances
get_acceptances-Keeps caller = Meets-bind _ _ (Meets-gets_any _) λ accepted. Meets-pure _ itself

module _ (options : Options) (request : Request) (moment : Moment) where
  pub post_device_bind-Keeps :
      (caller : SupabaseAccessClaims) → Keeps (post_device_bind options request moment caller)
  unfolding post_device_bind
  post_device_bind-Keeps caller = Meets-bind _ _ (body-Keeps options request moment 16384) λ json.
      Meets-bind _ _ (Meets-settle_any _ itself) λ bind.
        Meets-bind _ _ (Meets-refuse_any _ 403 itself) λ _.
          Meets-bind _ _ (or_400_Meets itself _) λ user_code.
            Meets-bind _ _ (terms_Meets itself caller.user_id) λ _.
              Meets-bind _ _ (Meets-settle_any _ (λ s h. h.0)) λ token.
                Meets-bind _ _ (Meets-weaken _ (on_devices-Keeps _) (λ s h. h.0) (λ a s h. h))
                  λ result. answer_bind-Keeps result

  pub post_acceptances-Keeps :
      (caller : SupabaseAccessClaims) (remote : Text)
      → Keeps (post_acceptances options request moment caller remote)
  unfolding post_acceptances
  post_acceptances-Keeps caller remote =
      Meets-bind _ _ (body-Keeps options request moment 4096) λ json.
        Meets-bind _ _ (Meets-settle_any _ itself) λ accepted.
          Meets-bind _ _ (Meets-refuse_any _ 400 itself) λ _.
            Meets-bind _ _ (Meets-refuse_any _ 409 itself)
              λ _. Meets-bind _ _ (acceptances_put _) λ _. Meets-pure _ itself

  pub post_projects-Keeps :
      (caller : SupabaseAccessClaims) → Keeps (post_projects options request moment caller)
  unfolding post_projects
  post_projects-Keeps caller = Meets-bind _ _ (body-Keeps options request moment 16384) λ json.
      Meets-bind _ _ (Meets-settle_any _ itself) λ body.
        Meets-bind _ _ (terms_Meets itself caller.user_id) λ _.
          Meets-bind _ _ (upsert_Meets caller.user_id caller) λ _.
            Meets-bind _ _ (tables-Keeps caller.user_id _ (create_project-Admits _ _ _))
              λ id. Meets-pure _ itself

  pub post_redeem-Keeps :
      (caller : SupabaseAccessClaims) (segment : Text)
      → Keeps (post_redeem options request moment caller segment)
  unfolding post_redeem
  post_redeem-Keeps caller segment = Meets-bind _ _ (decoded_Meets itself _) λ code.
      Meets-bind _ _ (terms_Meets itself caller.user_id) λ _.
        Meets-bind _ _ (Meets-gets_any _) λ found.
          Meets-bind _ _ (or_404_Meets (λ s h. h.0) found) λ offered.
            Meets-bind _ _ (Meets-refuse_any _ 409 (λ s h. h.0)) λ _.
              Meets-bind _ _ (Meets-refuse_any _ 409 (λ s h. h.0)) λ _.
                Meets-bind _ _ (or_403_Meets (λ s h. h.0) _) λ token.
                  Meets-bind _ _ (checked_Meets (λ s h. h.0) _) λ _.
                    Meets-bind _ _ (upsert_Meets caller.user_id caller) λ _.
                      Meets-bind _ _ (tables-Keeps caller.user_id _ (redeem_invite-Admits _ _ _))
                        λ joined. Meets-pure _ itself

  pub post_invites-Keeps :
      (caller : SupabaseAccessClaims) → Keeps (post_invites options request moment caller)
  unfolding post_invites
  post_invites-Keeps caller = Meets-bind _ _ (body-Keeps options request moment 16384) λ json.
      Meets-bind _ _ (Meets-settle_any _ itself) λ query.
        Meets-bind _ _ (same_members-Keeps _ (create_invite-members _ _ _ _ _))
          λ created. Meets-pure _ itself

  pub post_replicas-Keeps :
      (caller : SupabaseAccessClaims) → Keeps (post_replicas options request moment caller)
  unfolding post_replicas
  post_replicas-Keeps caller = Meets-bind _ _ (body-Keeps options request moment 16384) λ json.
      Meets-bind _ _ (Meets-settle_any _ itself) λ query.
        Meets-bind _ _ (terms_Meets itself caller.user_id) λ _.
          Meets-bind _ _ (membership_Meets (λ s h. h.0) _ caller.user_id)
            λ _. Meets-bind _ _ (register_Meets _ _ caller.user_id _ _) λ id. Meets-pure _ itself

  pub post_changes-Keeps :
      (caller : SupabaseAccessClaims) → Keeps (post_changes options request moment caller)
  unfolding post_changes append broadcast
  post_changes-Keeps caller = Meets-bind _ _ (Meets-settle_any _ itself) λ json.
      Meets-bind _ _ (Meets-settle_any _ itself) λ r.
        Meets-bind _ _ (membership_Meets itself r.project_id caller.user_id) λ _.
          Meets-bind _ _
            (Meets-weaken _ (touch_Meets _ caller.user_id _ _) (λ s h. h.0) (λ a s h. h))
            λ branch. Meets-bind _ _ (Meets-refuse _ 409 (λ s h. h.0)) λ _.
              Meets-bind _ _ (Meets-refuse _ 400 (λ s h. h.0.0)) λ _.
                Meets-bind _ _
                  (Meets-weaken _ (append_Meets r branch moment.created_at)
                    (λ s h. (h.0.0, h.0.1, h.1)) (λ a s h. h))
                  λ appended. Meets-bind _ _ (broadcast-Keeps r appended) λ _. Meets-pure _ itself

  pub get_changes-Keeps :
      (caller : SupabaseAccessClaims) → Keeps (get_changes options request moment caller)
  unfolding get_changes
  get_changes-Keeps caller = Meets-bind _ _ (Meets-settle_any _ itself) λ since.
      Meets-bind _ _ (Meets-settle_any _ itself) λ limit.
        Meets-bind _ _ (Meets-settle_any _ itself) λ query.
          Meets-bind _ _ (membership_Meets itself query.project_id caller.user_id)
            λ _. Meets-bind _ _ (Meets-gets_any _) λ page. Meets-pure _ (λ s h. h.0)
