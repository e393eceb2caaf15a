-- ===== src/Service/Http/Routes/Open.antt =====
-- What the routes of apps/service/src/http.ts without a caller leave alone: all but the limiter's
-- windows and the device codes.
use crosscode.Prelude.{Option, none, some}
use crosscode.Prelude.Text.{Text}
use crosscode.Prelude.Dict.{Dict}
use crosscode.Prelude.{ℕ}
use crosscode.Service.Limiter.{Window}
use crosscode.Service.Devices.{
  Devices, DeviceClaimResult, unknown, expired, consumed, pending, complete, Drawn,
}
use crosscode.Service.Http.{Service, Request, Options, Moment}
use crosscode.Service.Http.Action.Meets.{
  Meets, Meets-pure, Meets-throw, Meets-bind, Meets-settle_any, Meets-refuse_any,
}
use crosscode.Service.Http.Routes.{allowed, on_devices, body}
use crosscode.Service.Http.Routes.Device.{
  answer_started, answer_claim, post_device, post_device_token,
}

module _ {I : Service → Type 0} where
  pub body_Meets :
      (options : Options) (request : Request) (moment : Moment) (n : ℕ)
      → Meets I I (body options request moment n) (λ _. I)
  unfolding body
  body_Meets options request moment n = Meets-settle_any _ λ s h. h

  answer_started_Meets : (drawn : Option Drawn) → Meets I I (answer_started drawn) (λ _. I)
  unfolding answer_started
  answer_started_Meets none = Meets-throw _ (λ s h. h)
  answer_started_Meets (some drawn) = Meets-pure _ (λ s h. h)

  answer_claim_Meets : (result : DeviceClaimResult) → Meets I I (answer_claim result) (λ _. I)
  unfolding answer_claim
  answer_claim_Meets unknown = Meets-throw _ (λ s h. h)
  answer_claim_Meets expired = Meets-throw _ (λ s h. h)
  answer_claim_Meets consumed = Meets-throw _ (λ s h. h)
  answer_claim_Meets pending = Meets-pure _ (λ s h. h)
  answer_claim_Meets (complete session) = Meets-pure _ (λ s h. h)

module _ {I : Service → Type 0}
    (windows_free : (s : Service) (windows : Dict Window)
      → I s
      → I (record s { windows = windows }))
    (devices_free : (s : Service) (devices : Devices)
      → I s
      → I (record s { devices = devices })) where
  pub allowed_Meets : (key : Text) (maximum now : ℕ) → Meets I I (allowed key maximum now) (λ _. I)
  unfolding allowed
  allowed_Meets key maximum now = record { at = λ s h. windows_free s _ h }

  pub on_devices_Meets :
      {A : Type 0} (op : Devices → Devices × A) → Meets I I (on_devices op) (λ _. I)
  unfolding on_devices
  on_devices_Meets op = record { at = λ s h. devices_free s _ h }

  pub post_device_Meets :
      (options : Options) (request : Request) (moment : Moment)
      → Meets I I (post_device options request moment) (λ _. I)
  unfolding post_device
  post_device_Meets options request moment =
      Meets-bind _ _ (on_devices_Meets _) λ drawn. answer_started_Meets drawn

  pub post_device_token_Meets :
      (options : Options) (request : Request) (moment : Moment)
      → Meets I I (post_device_token options request moment) (λ _. I)
  unfolding post_device_token
  post_device_token_Meets options request moment =
      Meets-bind _ _ (body_Meets options request moment 4096) λ json.
        Meets-bind _ _ (Meets-settle_any _ (λ s h. h)) λ device_code.
          Meets-bind _ _ (allowed_Meets _ _ _) λ pass.
            Meets-bind _ _ (Meets-refuse_any _ 429 (λ s h. h))
              λ _. Meets-bind _ _ (on_devices_Meets _) λ claimed. answer_claim_Meets claimed
