-- ===== src/Service/Devices/Steps.antt =====
-- Runs of the operations on device codes of apps/service/src/store.ts.
use crosscode.Prelude.{
  ℕ, ◌≡◌, refl, Bool, true, false, List, [], ◌∷◌, Option, none, some, arith, leb, is_some,
  Bool-cases, Option-cases, All, inl, inr,
}
use crosscode.Prelude.Text.{Text, same}
use crosscode.Prelude.Dict.{keys}
use crosscode.Service.Devices.{
  DeviceSession, DeviceRow, Devices, sweep, Drawn, collides, insert_row, fresh_row,
  start_device_code, bind_row, bind_device_code, collect, claim_row, claim_device_code,
}
use crosscode.Service.Rows.{find}
use crosscode.Service.Rows.Search.{find_sound, find_complete}
use crosscode.Service.Devices.Table.{sweep-kept, Holds, IsClosed}

module _ (hash_device_code : Text → Text) where
  -- A run of the service: the calls of its three operations, where the drawn codes are fresh.
  pub data Step (fresh : Text → Bool) : Devices → Devices → Type 0 where
    started :
        (draws : List Drawn) (expires_in_seconds now : ℕ) (t : Devices)
        → All (λ d. fresh (hash_device_code d.device_code) ≡ true) draws
        → Step fresh t (start_device_code hash_device_code draws expires_in_seconds now t).0
    bound :
        (user_code user_id : Text) (session : DeviceSession) (now : ℕ) (t : Devices)
        → Step fresh t (bind_device_code user_code user_id session now t).0
    claimed :
        (device_code : Text) (now : ℕ) (t : Devices)
        → Step fresh t (claim_device_code hash_device_code device_code now t).0

  pub data Run (fresh : Text → Bool) : Devices → Devices → Type 0 where
    done : (t : Devices) → Run fresh t t
    then_ : (t u v : Devices) → Step fresh t u → Run fresh u v → Run fresh t v

  module _ (fresh : Text → Bool) (P : Devices → Type 0) (closed : IsClosed fresh P) where
    insert_row-closed :
        (draws : List Drawn) (expires_at : ℕ) (t : Devices)
        → All (λ d. fresh (hash_device_code d.device_code) ≡ true) draws
        → P t
        → P (insert_row hash_device_code draws expires_at t).0
    unfolding insert_row collides
    insert_row-closed [] expires_at t news h = h
    insert_row-closed (drawn ∷ rest) expires_at t news h =
        elim (Bool-cases (collides hash_device_code drawn t)) [
          | inl c ↦ rw c (insert_row-closed rest expires_at t news.1 h)
          | inr free ↦ rw free (
              closed.created t drawn.id (fresh_row hash_device_code drawn expires_at) news.0
                (λ j other there.
                  find_complete
                    (λ row. same row.device_code_hash (hash_device_code drawn.device_code)) t j
                    other (ground (arith, free)) there)
                h)
        ]

    bind_row-closed :
        (user_id : Text) (session : DeviceSession) (now : ℕ) (t : Devices) (id : Text)
        (row : DeviceRow)
        → Holds t id row
        → P t
        → P (bind_row user_id session now t id row).0
    unfolding bind_row
    bind_row-closed user_id session now t id row there h =
        elim (Bool-cases (is_some row.consumed_at)) [
          | inl c ↦ rw c h
          | inr c ↦ rw c (elim (Bool-cases (leb row.expires_at now)) [
            | inl late ↦ rw late h
            | inr late ↦ rw late (elim (Bool-cases (is_some row.user_id)) [
              | inl u ↦ rw u h
              | inr u ↦ rw u (closed.updated t id row _ there refl c h)
            ])
          ])
        ]

    collect-closed :
        (t : Devices) (now : ℕ) (id : Text) (row : DeviceRow) (session : Option DeviceSession)
        → Holds t id row
        → is_some row.consumed_at ≡ false
        → P t
        → P (collect t now id row session).0
    unfolding collect
    collect-closed t now id row none there c h = h
    collect-closed t now id row (some session) there c h = closed.updated t id row _ there refl c h

    claim_row-closed :
        (now : ℕ) (t : Devices) (id : Text) (row : DeviceRow)
        → Holds t id row
        → P t
        → P (claim_row now t id row).0
    unfolding claim_row
    claim_row-closed now t id row there h = elim (Bool-cases (is_some row.consumed_at)) [
      | inl c ↦ rw c h
      | inr c ↦ rw c (elim (Bool-cases (leb row.expires_at now)) [
        | inl late ↦ rw late h
        | inr late ↦ rw late (collect-closed t now id row row.session there c h)
      ])
    ]

    Step-closed : {t u : Devices} → Step fresh t u → P t → P u
    unfolding start_device_code bind_device_code claim_device_code
    Step-closed (started draws seconds now t news) h =
        insert_row-closed draws _ (sweep now (keys t) t) news (
          closed.deleted t (sweep now (keys t) t)
            (λ id row there. sweep-kept now (keys t) t id there) h)
    Step-closed (bound user_code user_id session now t) h =
        elim (Option-cases (find (λ row. same row.user_code user_code) t)) [
          | inl missed ↦ rw (missed, bind_device_code) h
          | inr ((id, row), hit) ↦
              rw (hit, bind_device_code)
                (bind_row-closed user_id session now t id row
                  (find_sound (λ row. same row.user_code user_code) t hit).0 h)
        ]
    Step-closed (claimed device_code now t) h =
        let test : DeviceRow → Bool =
          λ row. same row.device_code_hash (hash_device_code device_code) in
        elim (Option-cases (find test t)) [
          | inl missed ↦ rw (missed, claim_device_code) h
          | inr ((id, row), hit) ↦
              rw (hit, claim_device_code)
                (claim_row-closed now t id row (find_sound test t hit).0 h)
        ]

    pub Run-closed : {t u : Devices} → Run fresh t u → P t → P u
    Run-closed (done t) h = h
    Run-closed (then_ t u v step run) h = Run-closed run (Step-closed step h)
