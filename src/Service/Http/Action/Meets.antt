-- ===== src/Service/Http/Action/Meets.antt =====
-- What a request shows of the service: where the one predicate holds before an action, the other
-- holds of the answer and the service after it, and an invariant holds where it throws. One rule for
-- each way to build an action.
use crosscode.Prelude.{◌≡◌, refl, ℕ, Bool, true, false, if◌then◌else◌}
use crosscode.Service.Invites.{Reply, ok, refused}
use crosscode.Service.Http.{Service, ServiceError, http}
use crosscode.Service.Http.Action.{
  Outcome, done, thrown, Action, continue, of_reply, pure, throw, gets, settle, reply, refuse_if,
  ◌>>=◌,
}

abbrev pub Post :
    {A : Type 0} → (Service → Type 0) → (A → Service → Type 0) → Outcome A → Service → Type 0
Post I Q (done a) s = Q a s
Post I Q (thrown e) s = I s

-- The invariant, where it holds whatever the action answers.
pub Post-both :
    {A : Type 0} (I : Service → Type 0) (r : Outcome A) (s : Service) → I s → Post I (λ _. I) r s
Post-both I (done a) s h = h
Post-both I (thrown e) s h = h

pub record Meets {A : Type 0} (I P : Service → Type 0) (m : Action A) (Q : A → Service → Type 0)
    : Type 0 where
  pub at : (s : Service) → P s → Post I Q (m s).0 (m s).1

module _ {A : Type 0} {I P : Service → Type 0} where
  pub Meets-pure :
      {Q : A → Service → Type 0} (a : A) → ((s : Service) → P s → Q a s) → Meets I P (pure a) Q
  unfolding pure
  Meets-pure a h = record { at = h }

  pub Meets-throw :
      {Q : A → Service → Type 0} (e : ServiceError)
      → ((s : Service) → P s → I s)
      → Meets I P (throw e) Q
  unfolding throw
  Meets-throw e h = record { at = h }

  -- The value that is read is of the service as it then is.
  pub Meets-gets : (f : Service → A) → Meets I P (gets f) (λ a s. P s × (f s ≡ a))
  unfolding gets
  Meets-gets f = record { at = λ s h. (h, refl) }

  Post-settle :
      (r : Outcome A) (s : Service)
      → ((s : Service) → P s → I s)
      → P s
      → Post I (λ a s. P s × (r ≡ done a)) r s
  Post-settle (done a) s inv h = (h, refl)
  Post-settle (thrown e) s inv h = inv s h

  pub Meets-settle :
      (r : Outcome A)
      → ((s : Service) → P s → I s)
      → Meets I P (settle r) (λ a s. P s × (r ≡ done a))
  unfolding settle
  Meets-settle r inv = record { at = λ s h. Post-settle r s inv h }

  Post-reply :
      (r : Reply A) (s : Service)
      → ((s : Service) → P s → I s)
      → P s
      → Post I (λ a s. P s × (r ≡ ok a)) (of_reply r) s
  Post-reply (ok a) s inv h = (h, refl)
  Post-reply (refused e) s inv h = inv s h

  pub Meets-reply :
      (r : Reply A) → ((s : Service) → P s → I s) → Meets I P (reply r) (λ a s. P s × (r ≡ ok a))
  unfolding reply
  Meets-reply r inv = record { at = λ s h. Post-reply r s inv h }

  pub Meets-if :
      {Q : A → Service → Type 0} (b : Bool) (m n : Action A)
      → (b ≡ true → Meets I P m Q)
      → (b ≡ false → Meets I P n Q)
      → Meets I P (if b then m else n) Q
  Meets-if true m n hm hn = hm refl
  Meets-if false m n hm hn = hn refl

  -- A choice of which neither side needs the test.
  pub Meets-either :
      {Q : A → Service → Type 0} (b : Bool) (m n : Action A)
      → Meets I P m Q
      → Meets I P n Q
      → Meets I P (if b then m else n) Q
  Meets-either true m n hm hn = hm
  Meets-either false m n hm hn = hn

module _ {I P : Service → Type 0} where
  pub Meets-refuse :
      (test : Bool) (status : ℕ)
      → ((s : Service) → P s → I s)
      → Meets I P (refuse_if test status) (λ _ s. P s × (test ≡ false))
  Meets-refuse true status inv = Meets-throw (http status) inv
  Meets-refuse false status inv = Meets-pure tt (λ s h. (h, refl))

module _ {A B : Type 0} {I : Service → Type 0} where
  Post-continue :
      {Q : A → Service → Type 0} {R : B → Service → Type 0} (r : Outcome A) (f : A → Action B)
      (s : Service)
      → Post I Q r s
      → ((a : A) → Meets I (Q a) (f a) R)
      → Post I R (continue r f s).0 (continue r f s).1
  Post-continue (done a) f s h hf = (hf a).at s h
  Post-continue (thrown e) f s h hf = h

  pub Meets-bind :
      {P : Service → Type 0} {Q : A → Service → Type 0} {R : B → Service → Type 0} (m : Action A)
      (f : A → Action B)
      → Meets I P m Q
      → ((a : A) → Meets I (Q a) (f a) R)
      → Meets I P (m >>= f) R
  unfolding ◌>>=◌
  Meets-bind m f hm hf = record {
    at = λ s h. let (r, s') = m s in Post-continue r f s' (hm.at s h) hf;
  }

weaken-Post :
    {A : Type 0} (I : Service → Type 0) {Q Q' : A → Service → Type 0} (r : Outcome A) (s : Service)
    → ((a : A) (s : Service) → Q a s → Q' a s)
    → Post I Q r s
    → Post I Q' r s
weaken-Post I (done a) s post h = post a s h
weaken-Post I (thrown e) s post h = h

module _ {A : Type 0} {I P : Service → Type 0} where
  pub Meets-weaken :
      {P' : Service → Type 0} {Q Q' : A → Service → Type 0} (m : Action A)
      → Meets I P m Q
      → ((s : Service) → P' s → P s)
      → ((a : A) (s : Service) → Q a s → Q' a s)
      → Meets I P' m Q'
  Meets-weaken m h pre post = record {
    at = λ s h'. let (r, s') = m s in weaken-Post I r s' post (h.at s (pre s h'));
  }

  -- An action that reads, where what it reads does not matter.
  pub Meets-gets_any : (f : Service → A) → Meets I P (gets f) (λ a. P)
  Meets-gets_any f = Meets-weaken (gets f) (Meets-gets f) (λ s h. h) (λ a s h. h.0)

  pub Meets-settle_any :
      (r : Outcome A) → ((s : Service) → P s → I s) → Meets I P (settle r) (λ a. P)
  Meets-settle_any r inv = Meets-weaken (settle r) (Meets-settle r inv) (λ s h. h) (λ a s h. h.0)

module _ {I P : Service → Type 0} where
  pub Meets-refuse_any :
      (test : Bool) (status : ℕ)
      → ((s : Service) → P s → I s)
      → Meets I P (refuse_if test status) (λ _. P)
  Meets-refuse_any test status inv =
      Meets-weaken (refuse_if test status) (Meets-refuse test status inv) (λ s h. h) (λ a s h. h.0)

  -- A fact that does not speak of the service may be used to choose the proof of the rest.
  pub Meets-known :
      {F A : Type 0} {Q : A → Service → Type 0} (m : Action A)
      → (F → Meets I P m Q)
      → Meets I (λ s. P s × F) m Q
  Meets-known m f = record { at = λ s h. (f h.1).at s h.0 }
