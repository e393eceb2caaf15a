-- ===== src/Daemon/Checkout/Pause.antt =====
-- What the pause of apps/daemon/src/sync-daemon.ts holds back.
use crosscode.Prelude.{
  ℕ, zero, suc, ◌≡◌, refl, sym, ap, ◌∙◌, ◌++◌, not, ◌||◌, if◌then◌else◌, Bool, true, false, List,
  [], ◌∷◌, Option, none, some, ltb, Bool-cases, Option-cases, inl, inr,
}
use mathlib.Core.List.{append-nil, append_assoc}
use crosscode.Prelude.Text.{Text, same}
use crosscode.Protocol.{FileVersion, Change}
use crosscode.Host.{Host}
use crosscode.Engine.{Engine, ApplyResult}
use crosscode.Engine.Publish.{publish, publish_all}
use crosscode.Engine.Tree.{refresh_tracked}
use crosscode.Service.Changes.{page, cursor_too_old}
use crosscode.Engine.Apply.{receive_now}
use crosscode.Daemon.{
  sent, send, publish_and_send, settle, settle_received, attempt, retry, receive_options, is_merge,
  is_catchup, later, catch_up_within, walk, apply_with, is_skipped, resynchronize, drain_changes,
  catch_up, is_empty, Link, State, is_paused, advance, receive, retry_deferred_changes,
}
use crosscode.Daemon.Checkout.{Observation, Sync, publish_dirty, publish_checkout, resume}

-- The changes of other replicas for a branch, in order.
pub awaited : Text → Text → List Change → List Change
awaited replica_id branch [] = []
awaited replica_id branch (change ∷ changes) =
    let rest = awaited replica_id branch changes in
    if same change.replica_id replica_id || not (same change.branch branch)
    then rest
    else change ∷ rest

awaited_cons :
    (replica_id branch : Text) (change : Change) (changes : List Change)
    → awaited replica_id branch (change ∷ changes)
      ≡ awaited replica_id branch (change ∷ []) ++ awaited replica_id branch changes
unfolding awaited
awaited_cons replica_id branch change changes =
    elim (Bool-cases (same change.replica_id replica_id || not (same change.branch branch))) [
      | inl e ↦ rw e refl
      | inr e ↦ rw e refl
    ]

module _ (host : Host) (link : Link) where
  -- Changes from the stream, one after the other, whatever became of each.
  pub receive_all : State host link → List Change → State host link
  receive_all d [] = d
  receive_all d (change ∷ changes) = receive_all (receive host link d change).0 changes

  -- What `after` has of `before` when `more` was put behind the held changes.
  record Holds (before after : State host link) (more : List Change) : Type 0 where
    engine : after.engine ≡ before.engine
    net : after.net ≡ before.net
    replica_id : after.replica_id ≡ before.replica_id
    branch : after.branch ≡ before.branch
    paused : is_paused after ≡ is_paused before
    held : after.held ≡ before.held ++ more

  receive_held :
      (d : State host link) (change : Change)
      → is_paused d ≡ true
      → Holds d (receive host link d change).0 (awaited d.replica_id d.branch (change ∷ []))
  unfolding receive advance is_paused awaited
  receive_held d change h = elim (Bool-cases (same change.replica_id d.replica_id)) [
    | inl own ↦ rw own (record {
      engine = refl;
      net = refl;
      replica_id = refl;
      branch = refl;
      paused = refl;
      held = sym (append-nil d.held);
    })
    | inr other ↦ elim (Bool-cases (same change.branch d.branch)) [
      | inr elsewhere ↦
          rw (other, elsewhere)
            (record {
              engine = refl;
              net = refl;
              replica_id = refl;
              branch = refl;
              paused = refl;
              held = sym (append-nil d.held);
            })
      | inl here ↦
          rw (other, here, h)
            (record {
              engine = refl;
              net = refl;
              replica_id = refl;
              branch = refl;
              paused = refl;
              held = refl;
            })
    ]
  ]

  receive_all_held :
      (d : State host link) (changes : List Change)
      → is_paused d ≡ true
      → Holds d (receive_all d changes) (awaited d.replica_id d.branch changes)
  unfolding receive_all
  receive_all_held d [] h = record {
    engine = refl;
    net = refl;
    replica_id = refl;
    branch = refl;
    paused = refl;
    held = unfold awaited in sym (append-nil d.held);
  }
  receive_all_held d (change ∷ changes) h =
      let one = receive_held d change h in
      let rest = receive_all_held (receive host link d change).0 changes (one.paused ∙ h) in
      record {
        engine = rest.engine ∙ one.engine;
        net = rest.net ∙ one.net;
        replica_id = rest.replica_id ∙ one.replica_id;
        branch = rest.branch ∙ one.branch;
        paused = rest.paused ∙ one.paused;
        held =
            rest.held
            ∙ rw
                (
                  one.held,
                  one.replica_id,
                  one.branch,
                  awaited_cons d.replica_id d.branch change changes,
                )
                (append_assoc d.held (awaited d.replica_id d.branch (change ∷ []))
                  (awaited d.replica_id d.branch changes));
      }

  abbrev pub Sleeps : Observation → Sync host link → Type 0
  Sleeps o c =
      (is_paused c.daemon ≡ true)
      × (publish_dirty host link o c ≡ (c, false))
      × (publish_checkout host link o c ≡ (c, false))
      × (resume host link o c ≡ (c, false))
      × (retry_deferred_changes host link c.daemon ≡ c.daemon)

  sleeps : (o : Observation) (c : Sync host link) → is_paused c.daemon ≡ true → Sleeps o c
  unfolding publish_dirty publish_checkout resume retry_deferred_changes
  sleeps o c h = (h, rw h refl, rw h refl, rw h refl, rw h refl)

  -- However many changes the stream brings under a pause, they reach neither the engine nor the
  -- service: those of other replicas for this branch are held, in order, behind what was held. After
  -- them the pause still stands, and what the watcher and the timers call (publishing, sweeping,
  -- retrying, resuming) does nothing.
  pub pause_holds :
      (o : Observation) (c : Sync host link) (changes : List Change)
      → is_paused c.daemon ≡ true
      → ((receive_all c.daemon changes).engine ≡ c.daemon.engine)
        × ((receive_all c.daemon changes).net ≡ c.daemon.net)
        × ((receive_all c.daemon changes).held
            ≡ c.daemon.held ++ awaited c.daemon.replica_id c.daemon.branch changes)
        × Sleeps o (record c { daemon = receive_all c.daemon changes })
  pause_holds o c changes h =
      let all = receive_all_held c.daemon changes h in
      (
        all.engine,
        all.net,
        all.held,
        sleeps o (record c { daemon = receive_all c.daemon changes }) (all.paused ∙ h),
      )

  -- The daemon under another pause.
  abbrev pub paused_as : Bool → Bool → State host link → State host link
  paused_as user operation d = record d { user_paused = user; in_operation = operation }

  module _ (user operation : Bool) where
    abbrev under : State host link → State host link
    under = paused_as user operation

    sent-under :
        (d : State host link) (r : Option (Unit {0}) × link.Net)
        → sent host link (under d) r ≡ under (sent host link d r)
    unfolding sent
    sent-under d (none, net) = refl
    sent-under d (some u, net) = refl

    send-under :
        (d : State host link) (versions : List FileVersion)
        → send host link (under d) versions ≡ under (send host link d versions)
    unfolding send
    send-under d [] = refl
    send-under d (v ∷ versions) = sent-under d (link.publish d.net (v ∷ versions))

    publish_and_send-under :
        (d : State host link) (p : Engine host.World × List FileVersion)
        → publish_and_send host link (under d) p ≡ under (publish_and_send host link d p)
    publish_and_send-under d (e, versions) = send-under (record d { engine = e }) versions

    settle-under :
        (change : Change) (d : State host link) (r : ApplyResult)
        → settle host link change (under d) r ≡ under (settle host link change d r)
    unfolding settle advance
    settle-under change d r = elim (Bool-cases (is_merge r.outcome)) [
      | inr f ↦ rw f refl
      | inl t ↦ rw t (
          ap
            (λ (s : State host link). record s {
              cursor = later s.cursor change.sequence;
              persisted = some (s.branch, later s.cursor change.sequence);
            })
            (publish_and_send-under d (publish host d.engine (change.version.path ∷ []))))
    ]

    settle_received-under :
        (change : Change) (d : State host link) (p : Engine host.World × ApplyResult)
        → settle_received host link change (under d) p
          ≡ under (settle_received host link change d p)
    unfolding settle_received
    settle_received-under change d (e, r) = settle-under change (record d { engine = e }) r

    -- A result, with its state under the other pause.
    abbrev both : State host link × Bool → State host link × Bool
    both (d, threw) = (under d, threw)

    attempt-under :
        (change : Change) (d : State host link) (p : Engine host.World × ApplyResult)
        → attempt host link (catch_up_within host link) change (under d) p
          ≡ both (attempt host link (catch_up_within host link) change d p)
    unfolding attempt retry
    attempt-under change d (e, r) = elim (Bool-cases (is_catchup r.outcome)) [
      | inl t ↦ rw t (
          ap (λ (s : State host link). (s, false))
            (settle_received-under change (record d { engine = e })
              (receive_now host e change.version (receive_options host link change (some false)))))
      | inr f ↦ rw f (
          ap (λ (s : State host link). (s, false))
            (settle-under change (record d { engine = e }) r))
    ]

    walk-under :
        (d : State host link) (changes : List Change)
        → walk host link (under d) changes ≡ both (walk host link d changes)
    unfolding walk is_skipped apply_with advance
    walk-under d [] = refl
    walk-under d (change ∷ rest) = elim (Bool-cases (ltb 0 change.sequence)) [
      | inr none_such ↦ rw none_such (walk-under d rest)
      | inl counts ↦ elim (Bool-cases (is_skipped host link d change)) [
        | inl skip ↦ rw (counts, skip) (walk-under (advance d change.sequence) rest)
        | inr take_it ↦
            let r =
              attempt host link (catch_up_within host link) change d (
                receive_now host d.engine change.version (receive_options host link change none)) in
            rw
              (
                counts,
                take_it,
                attempt-under change d (
                    receive_now host d.engine change.version
                      (receive_options host link change none)),
              )
              (elim (Bool-cases r.1) [
                | inl threw ↦ rw threw refl
                | inr fine ↦ rw fine (walk-under r.0 rest)
              ])
      ]
    ]

    resynchronize-under :
        (d : State host link) (from : ℕ)
        → resynchronize host link (under d) from ≡ under (resynchronize host link d from)
    unfolding resynchronize
    resynchronize-under d from =
        publish_and_send-under (record d { cursor = from; persisted = some (d.branch, from) })
          (publish_all host (refresh_tracked host d.engine))

    drain_changes-under :
        (pages : ℕ) (d : State host link)
        → drain_changes host link pages (under d) ≡ both (drain_changes host link pages d)
    unfolding drain_changes advance
    drain_changes-under zero d = refl
    drain_changes-under (suc pages) d =
        let net = (link.changes d.net d.cursor).1 in
        elim (Option-cases (link.changes d.net d.cursor).0) [
          | inl lost ↦ rw (lost, drain_changes) refl
          | inr (cursor_too_old from days, e) ↦
              rw (e, drain_changes)
                (ap (λ (s : State host link). (s, false))
                  (resynchronize-under (record d { net = net }) from))
          | inr (page changes cursor, e) ↦
              let w = walk host link (record d { net = net }) changes in
              rw (e, drain_changes, walk-under (record d { net = net }) changes)
                (elim (Bool-cases w.1) [
                  | inl threw ↦ rw threw refl
                  | inr fine ↦ rw fine (elim (Bool-cases (is_empty host link changes)) [
                    | inl last ↦ rw last refl
                    | inr more ↦ rw more (drain_changes-under pages (advance w.0 cursor))
                  ])
                ])
        ]

    catch_up-under :
        (d : State host link) → catch_up host link (under d) ≡ both (catch_up host link d)
    unfolding catch_up
    catch_up-under d = elim (Bool-cases d.draining) [
      | inl busy ↦ rw busy refl
      | inr idle ↦ rw idle (
          ap (λ (r : State host link × Bool). (record (r.0) { draining = false }, r.1))
            (drain_changes-under 100 (record d { draining = true })))
    ]

  -- A catch-up does under any pause what it does under none: it fetches, applies and publishes, and
  -- leaves the pause as it was.
  pub catch_up_ignores_pause :
      (d : State host link) (user operation : Bool)
      → catch_up host link (paused_as user operation d)
        ≡ (paused_as user operation (catch_up host link d).0, (catch_up host link d).1)
  catch_up_ignores_pause d user operation = catch_up-under user operation d
