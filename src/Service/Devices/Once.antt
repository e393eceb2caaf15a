-- ===== src/Service/Devices/Once.antt =====
-- The device codes of apps/service/src/store.ts over a run of the service: a session is handed over
-- at most once.
use crosscode.Prelude.{
  ℕ, ◌≡◌, ◌⊎◌, refl, ap, ◌∙◌, sym, Bool, true, false, not, [], Option, none, some, arith, leb,
  is_some, Bool-cases, Option-cases, inl, inr,
}
use crosscode.Prelude.Text.{Text, same, same_iff}
use crosscode.Prelude.Dict.{insert, lookup-insert, lookup-nil}
use crosscode.Service.Devices.{
  DeviceSession, DeviceClaimResult, complete, DeviceRow, Devices, collect, claim_row,
  claim_device_code,
}
use crosscode.Service.Rows.{find}
use crosscode.Service.Rows.Search.{find_sound}
use crosscode.Service.Devices.Table.{Holds, IsClosed}
use crosscode.Service.Devices.Steps.{Run, Run-closed}

insert_cases :
    (t : Devices) (k i : Text) (r s : DeviceRow)
    → Holds (insert k r t) i s
    → ((same k i ≡ true) × (r ≡ s)) ⊎ ((same k i ≡ false) × Holds t i s)
insert_cases t k i r s h = elim (Bool-cases (same k i)) [
  | inl here ↦ inl (here, cc (rw (lookup-insert, here) at h))
  | inr there ↦ inr (there, rw (lookup-insert, there) at h)
]

-- The UNIQUE constraint on the hash.
IsUnique : Devices → Type 0
IsUnique t =
    (i j : Text) (r s : DeviceRow)
    → Holds t i r
    → Holds t j s
    → same r.device_code_hash s.device_code_hash ≡ true
    → i ≡ j

-- What the rows of a hash have been used for.
IsSpent : Text → Devices → Type 0
IsSpent hash t =
    (id : Text) (row : DeviceRow)
    → Holds t id row
    → row.device_code_hash ≡ hash
    → is_some row.consumed_at ≡ true

IsUnique-updated :
    (t : Devices) (k : Text) (old row : DeviceRow)
    → Holds t k old
    → row.device_code_hash ≡ old.device_code_hash
    → IsUnique t
    → IsUnique (insert k row t)
unfolding IsUnique
IsUnique-updated t k old row there eq h i j r s hi hj e = elim (insert_cases t k i row r hi) [
  | inl (ki, ri) ↦ elim (insert_cases t k j row s hj) [
    | inl (kj, sj) ↦ ground (arith, (same_iff k i).0 ki, (same_iff k j).0 kj)
    | inr (kj, sj) ↦ sym ((same_iff k i).0 ki) ∙ h k j old s there sj (rw (← eq, ri) e)
  ]
  | inr (ki, ri) ↦ elim (insert_cases t k j row s hj) [
    | inl (kj, sj) ↦ h i k r old ri there (rw (← eq, sj) e) ∙ (same_iff k j).0 kj
    | inr (kj, sj) ↦ h i j r s ri sj e
  ]
]

IsUnique-created :
    (t : Devices) (k : Text) (row : DeviceRow)
    → ((j : Text) (other : DeviceRow)
        → Holds t j other
        → same other.device_code_hash row.device_code_hash ≡ false)
    → IsUnique t
    → IsUnique (insert k row t)
unfolding IsUnique
IsUnique-created t k row new h i j r s hi hj e = elim (insert_cases t k i row r hi) [
  | inl (ki, ri) ↦ elim (insert_cases t k j row s hj) [
    | inl (kj, sj) ↦ ground (arith, (same_iff k i).0 ki, (same_iff k j).0 kj)
    | inr (kj, sj) ↦ ground (
      arith,
      new j s sj,
      rw (← ri) at e,
      same_iff s.device_code_hash row.device_code_hash,
      same_iff row.device_code_hash s.device_code_hash,
    )
  ]
  | inr (ki, ri) ↦ elim (insert_cases t k j row s hj) [
    | inl (kj, sj) ↦ ground (arith, new i r ri, rw (← sj) at e)
    | inr (kj, sj) ↦ h i j r s ri sj e
  ]
]

IsUnique-closed : (fresh : Text → Bool) → IsClosed fresh IsUnique
unfolding IsUnique
IsUnique-closed fresh = record {
  deleted = λ t t' sub h i j r s hi hj e. h i j r s (sub i r hi) (sub j s hj) e;
  updated = λ t id old row there eq c h. IsUnique-updated t id old row there eq h;
  created = λ t id row f new h. IsUnique-created t id row new h;
}

abbrev pub other_than : Text → Text → Bool
other_than hash h = not (same h hash)

IsSpent-updated :
    (hash : Text) (t : Devices) (k : Text) (old row : DeviceRow)
    → Holds t k old
    → row.device_code_hash ≡ old.device_code_hash
    → is_some old.consumed_at ≡ false
    → IsSpent hash t
    → IsSpent hash (insert k row t)
unfolding IsSpent
IsSpent-updated hash t k old row there eq c h i r hi e = elim (insert_cases t k i row r hi) [
  | inl (ki, ri) ↦ cc (h k old there (sym eq ∙ ap (λ x. x.device_code_hash) ri ∙ e), c)
  | inr (ki, hr) ↦ h i r hr e
]

IsSpent-created :
    (hash : Text) (t : Devices) (k : Text) (row : DeviceRow)
    → other_than hash row.device_code_hash ≡ true
    → IsSpent hash t
    → IsSpent hash (insert k row t)
unfolding IsSpent
IsSpent-created hash t k row f h i r hi e = elim (insert_cases t k i row r hi) [
  | inl (ki, ri) ↦
      ground (arith, f, ap (λ x. x.device_code_hash) ri ∙ e, same_iff row.device_code_hash hash)
  | inr (ki, hr) ↦ h i r hr e
]

IsSpent-closed : (hash : Text) → IsClosed (other_than hash) (IsSpent hash)
unfolding IsSpent
IsSpent-closed hash = record {
  deleted = λ t t' sub h i r hi e. h i r (sub i r hi) e;
  updated = λ t id old row there eq c h. IsSpent-updated hash t id old row there eq c h;
  created = λ t id row f new h. IsSpent-created hash t id row f h;
}

abbrev pub hands_over : DeviceClaimResult → Bool
hands_over (complete session) = true
hands_over _ = false

module _ (hash_device_code : Text → Text) where
  collect-IsSpent :
      (hash : Text) (t : Devices) (now : ℕ) (id : Text) (row : DeviceRow) (o : Option DeviceSession)
      → IsUnique t
      → Holds t id row
      → row.device_code_hash ≡ hash
      → hands_over (collect t now id row o).1 ≡ true
      → IsSpent hash (collect t now id row o).0
  unfolding IsUnique IsSpent collect
  collect-IsSpent hash t now id row none unique there eq h i r hi e = cc
  collect-IsSpent hash t now id row (some session) unique there eq h i r hi e =
      elim (insert_cases t id i (record row { consumed_at = some now; session = none }) r hi) [
        | inl (ki, ri) ↦ rw (← ri) refl
        | inr (ki, hr) ↦ ground (
          arith,
          unique id i row r there hr
              ((same_iff row.device_code_hash r.device_code_hash).1 (eq ∙ sym e)),
          same_iff id i,
          ki,
        )
      ]

  claim-IsSpent :
      (t : Devices) (device_code : Text) (now : ℕ)
      → IsUnique t
      → hands_over (claim_device_code hash_device_code device_code now t).1 ≡ true
      → IsSpent
          (hash_device_code device_code)
          (claim_device_code hash_device_code device_code now t).0
  unfolding claim_device_code claim_row
  claim-IsSpent t device_code now unique h =
      let hash = hash_device_code device_code in
      let test : DeviceRow → Bool = λ row. same row.device_code_hash hash in
      elim (Option-cases (find test t)) [
        | inl missed ↦ cc (rw (missed, claim_device_code) at h)
        | inr ((id, row), hit) ↦
            let found = find_sound test t hit in
            elim (Bool-cases (is_some row.consumed_at)) [
              | inl c ↦ cc (rw (hit, claim_device_code, claim_row, c) at h)
              | inr c ↦ elim (Bool-cases (leb row.expires_at now)) [
                | inl late ↦ cc (rw (hit, claim_device_code, claim_row, c, late) at h)
                | inr late ↦
                    rw (hit, claim_device_code, claim_row, c, late)
                      (collect-IsSpent hash t now id row row.session unique found.0
                        ((same_iff row.device_code_hash hash).0 found.1)
                        (rw (hit, claim_device_code, claim_row, c, late) at h))
              ]
            ]
      ]

  spent_silent :
      (t : Devices) (device_code : Text) (now : ℕ)
      → IsSpent (hash_device_code device_code) t
      → hands_over (claim_device_code hash_device_code device_code now t).1 ≡ false
  unfolding claim_device_code claim_row IsSpent
  spent_silent t device_code now spent =
      let hash = hash_device_code device_code in
      let test : DeviceRow → Bool = λ row. same row.device_code_hash hash in
      elim (Option-cases (find test t)) [
        | inl missed ↦ rw (missed, claim_device_code)
        | inr ((id, row), hit) ↦
            let found = find_sound test t hit in
            rw (
              hit,
              claim_device_code,
              claim_row,
              spent id row found.0 ((same_iff row.device_code_hash hash).0 found.1),
            )
      ]

  -- In a table that the service has made from the empty one, once a claim has handed over a session,
  -- no claim with that device code does again, whatever the service has done in between, where it has
  -- drawn no device code with the same hash again.
  pub claim_device_code-once :
      (t later : Devices) (device_code : Text) (now at : ℕ)
      → Run hash_device_code (λ h. true) [] t
      → hands_over (claim_device_code hash_device_code device_code now t).1 ≡ true
      → Run hash_device_code
          (other_than (hash_device_code device_code))
          (claim_device_code hash_device_code device_code now t).0
          later
      → hands_over (claim_device_code hash_device_code device_code at later).1 ≡ false
  unfolding IsUnique
  claim_device_code-once t later device_code now at before handed after =
      let hash = hash_device_code device_code in
      let unique =
        Run-closed hash_device_code (λ h. true) IsUnique (IsUnique-closed (λ h. true)) before
          (λ i j r s hi hj e. cc (rw lookup-nil at hi)) in
      spent_silent later device_code at (
        Run-closed hash_device_code (other_than hash) (IsSpent hash) (IsSpent-closed hash) after
          (claim-IsSpent t device_code now unique handed))
