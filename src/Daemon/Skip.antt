-- ===== src/Daemon/Skip.antt =====
-- A change of apps/daemon/src/sync-daemon.ts that throws is skipped by the next.
use crosscode.Prelude.{
  ℕ, ◌≤◌, ◌≡◌, refl, some, none, true, false, List, Among, arith, Bool, Bool-cases, inl, inr,
}
use crosscode.Prelude.Text.{same}
use crosscode.Protocol.{Change}
use crosscode.Host.{Host}
use crosscode.Engine.{Engine, ApplyResult}
use crosscode.Engine.Apply.{receive_now}
use crosscode.Service.Changes.{Room, page, list_changes}
use crosscode.Service.Changes.Behind.{list_changes-AllBehind, Among-All}
use crosscode.Daemon.{
  Link, State, later, advance, is_paused, is_catchup, settle, settle_received, receive_options,
  retry, attempt, apply_with, catch_up, receive,
}
use crosscode.Daemon.Cursor.{cursor-settle}

later_le : (a b : ℕ) → b ≤ later a b
later_le a b = ground arith

module _ (host : Host) (link : Link) where
  settle_le :
      (change : Change) (d : State host link) (r : ApplyResult)
      → change.sequence ≤ (settle host link change d r).cursor
  settle_le change d r = rw (cursor-settle host link change d r) (later_le d.cursor change.sequence)

  settle_received_le :
      (change : Change) (d : State host link) (p : Engine host.World × ApplyResult)
      → change.sequence ≤ (settle_received host link change d p).cursor
  unfolding settle_received
  settle_received_le change d (e, r) = settle_le change (record d { engine = e }) r

  retry_le :
      (change : Change) (p : State host link × Bool)
      → (retry host link change p).1 ≡ false
      → change.sequence ≤ (retry host link change p).0.cursor
  unfolding retry
  retry_le change (d, true) h = cc
  retry_le change (d, false) h =
      settle_received_le change d
        (receive_now host d.engine change.version (receive_options host link change (some false)))

  attempt_le :
      (change : Change) (d : State host link) (p : Engine host.World × ApplyResult)
      → (attempt host link (catch_up host link) change d p).1 ≡ false
      → change.sequence ≤ (attempt host link (catch_up host link) change d p).0.cursor
  unfolding attempt
  attempt_le change d (e, r) h = elim (Bool-cases (is_catchup r.outcome)) [
    | inl t ↦ rw t (retry_le change (catch_up host link (record d { engine = e })) (rw t at h))
    | inr f ↦ rw f (settle_le change (record d { engine = e }) r)
  ]

  receive_le :
      (d : State host link) (change : Change)
      → is_paused d ≡ false
      → same change.branch d.branch ≡ true
      → (receive host link d change).1 ≡ false
      → change.sequence ≤ (receive host link d change).0.cursor
  unfolding receive apply_with advance
  receive_le d change awake here h = elim (Bool-cases (same change.replica_id d.replica_id)) [
    | inl own ↦ rw own (later_le d.cursor change.sequence)
    | inr other ↦
        rw (other, here, awake)
          (attempt_le change d
            (receive_now host d.engine change.version (receive_options host link change none))
            (rw (other, here, awake) at h))
  ]

  retry_threw :
      (change : Change) (p : State host link × Bool)
      → p.1 ≡ true
      → retry host link change p ≡ (p.0, true)
  unfolding retry
  retry_threw change (d, true) h = refl
  retry_threw change (d, false) h = cc

  -- The catch-up that the engine asks for when it is given a change.
  abbrev pub gap_filled : State host link → Change → State host link × Bool
  gap_filled d change = catch_up host link (record d {
    engine = (receive_now host d.engine change.version (receive_options host link change none)).0;
  })

  attempt_threw :
      (change : Change) (d : State host link) (p : Engine host.World × ApplyResult)
      → is_catchup p.1.outcome ≡ true
      → (catch_up host link (record d { engine = p.0 })).1 ≡ true
      → attempt host link (catch_up host link) change d p
        ≡ ((catch_up host link (record d { engine = p.0 })).0, true)
  unfolding attempt
  attempt_threw change d (e, r) asked threw =
      rw asked (retry_threw change (catch_up host link (record d { engine = e })) threw)

  receive_threw :
      (d : State host link) (change : Change)
      → same change.replica_id d.replica_id ≡ false
      → same change.branch d.branch ≡ true
      → is_paused d ≡ false
      → is_catchup
          (receive_now host d.engine change.version
            (receive_options host link change none)).1.outcome
        ≡ true
      → (gap_filled d change).1 ≡ true
      → receive host link d change ≡ ((gap_filled d change).0, true)
  unfolding receive apply_with
  receive_threw d change other here awake asked threw =
      rw (other, here, awake)
        (attempt_threw change d
          (receive_now host d.engine change.version (receive_options host link change none)) asked
          threw)

  -- When the engine asks to catch up for a change from the stream, and the catch-up throws, receiving
  -- the change throws with what the catch-up has left. The next change that is taken while the daemon is
  -- not paused then moves the cursor past the first: no page from that cursor on has it, whatever the
  -- log of the service.
  pub thrown_change_is_skipped :
      (d : State host link) (first second : Change) (table : List Change) (room : Room) (limit : ℕ)
      (changes : List Change) (next : ℕ)
      → same first.replica_id d.replica_id ≡ false
      → same first.branch d.branch ≡ true
      → is_paused d ≡ false
      → is_catchup
          (receive_now host d.engine first.version (receive_options host link first none)).1.outcome
        ≡ true
      → (gap_filled d first).1 ≡ true
      → is_paused (gap_filled d first).0 ≡ false
      → same second.branch (gap_filled d first).0.branch ≡ true
      → (receive host link (gap_filled d first).0 second).1 ≡ false
      → first.sequence ≤ second.sequence
      → list_changes table room (receive host link (gap_filled d first).0 second).0.cursor limit
        ≡ page changes next
      → (receive host link d first ≡ ((gap_filled d first).0, true)) × ¬ Among first changes
  thrown_change_is_skipped d first second table room limit changes next other here on asked threw
        awake there took le e =
      let d1 = (gap_filled d first).0 in
      let d2 = (receive host link d1 second).0 in
      let passed = receive_le d1 second awake there took in
      (
        receive_threw d first other here on asked threw,
        λ m.
            let behind =
              Among-All d2.cursor first changes
                (list_changes-AllBehind table room d2.cursor limit changes next e) m in
            absurd (omega (arith, behind, passed, le)),
      )
