-- ===== src/Service/Http/Action.antt =====
-- Requests as actions on the service: what was written before an error stays written, so the state
-- comes back beside the error too.
pub mod Meets
use crosscode.Prelude.{ℕ, Bool, true, false, if◌then◌else◌}
use crosscode.Service.Invites.{Reply, ok, refused}
use crosscode.Service.Http.{Service, ServiceError, http, store}

pub data Outcome {ℓ} (A : Type ℓ) : Type ℓ where
  done : A → Outcome A
  thrown : ServiceError → Outcome A

abbrev pub Action : Type 0 → Type 0
Action A = Service → Outcome A × Service

module _ {A : Type 0} where
  unfoldable pub pure : A → Action A
  pure a s = (done a, s)

  unfoldable pub throw : ServiceError → Action A
  throw e s = (thrown e, s)

  unfoldable pub gets : (Service → A) → Action A
  gets f s = (done (f s), s)

  unfoldable pub settle : Outcome A → Action A
  settle r s = (r, s)

  -- A throw of the store goes on through the route.
  abbrev pub of_reply : Reply A → Outcome A
  of_reply (ok a) = done a
  of_reply (refused e) = thrown (store e)

  unfoldable pub reply : Reply A → Action A
  reply r s = (of_reply r, s)

unfoldable pub put : (Service → Service) → Action (Unit {0})
put f s = (done tt, f s)

module _ {A B : Type 0} where
  abbrev continue : Outcome A → (A → Action B) → Action B
  continue (done a) f s = f a s
  continue (thrown e) f s = (thrown e, s)

  infixl 10 ◌>>=◌ ◌>>◌
  unfoldable pub ◌>>=◌ : Action A → (A → Action B) → Action B
  ◌>>=◌ m f s = let (r, s') = m s in continue r f s'

  abbrev pub ◌>>◌ : Action A → Action B → Action B
  m >> n = m >>= λ _. n

-- `if (test) throw new HttpError(status, …)`
abbrev pub refuse_if : Bool → ℕ → Action (Unit {0})
refuse_if test status = if test then throw (http status) else pure tt
