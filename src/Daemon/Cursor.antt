-- ===== src/Daemon/Cursor.antt =====
-- The cursor of apps/daemon/src/sync-daemon.ts.
use crosscode.Prelude.{
  ℕ, ◌+◌, ◌≡◌, refl, ◌∙◌, ap, false, List, [], ◌∷◌, Option, none, some, arith, length, ltb,
  Bool-cases, inl, inr,
}
use crosscode.Protocol.{FileVersion, Change}
use crosscode.Host.{Host}
use crosscode.Engine.{Engine, ApplyResult}
use crosscode.Engine.Publish.{publish}
use crosscode.Engine.Apply.{receive_now}
use crosscode.Service.Changes.Sequence.{Follows}
use crosscode.Daemon.{
  Link, State, later, advance, sent, send, publish_and_send, is_merge, is_catchup, settle,
  settle_received, receive_options, retry, attempt, apply_with, catch_up_within, is_skipped, walk,
}

-- The cursor after some changes: the greatest of it and their sequences.
pub after_all : ℕ → List Change → ℕ
after_all cursor [] = cursor
after_all cursor (change ∷ changes) = after_all (later cursor change.sequence) changes

module _ (host : Host) (link : Link) where
  cursor-sent :
      (d : State host link) (r : Option (Unit {0}) × link.Net)
      → (sent host link d r).cursor ≡ d.cursor
  unfolding sent
  cursor-sent d (none, net) = refl
  cursor-sent d (some u, net) = refl

  cursor-send :
      (d : State host link) (versions : List FileVersion)
      → (send host link d versions).cursor ≡ d.cursor
  unfolding send
  cursor-send d [] = refl
  cursor-send d (v ∷ vs) = cursor-sent d (link.publish d.net (v ∷ vs))

  cursor-publish_and_send :
      (d : State host link) (p : Engine host.World × List FileVersion)
      → (publish_and_send host link d p).cursor ≡ d.cursor
  cursor-publish_and_send d (e, versions) = cursor-send (record d { engine = e }) versions

  pub cursor-settle :
      (change : Change) (d : State host link) (r : ApplyResult)
      → (settle host link change d r).cursor ≡ later d.cursor change.sequence
  unfolding settle advance
  cursor-settle change d r = elim (Bool-cases (is_merge r.outcome)) [
    | inr f ↦ rw f refl
    | inl t ↦ rw t (
        ap (λ c. later c change.sequence)
          (cursor-publish_and_send d (publish host d.engine (change.version.path ∷ []))))
  ]

  cursor-attempt :
      (change : Change) (d : State host link) (p : Engine host.World × ApplyResult)
      → ((attempt host link (catch_up_within host link) change d p).0.cursor
          ≡ later d.cursor change.sequence)
        × ((attempt host link (catch_up_within host link) change d p).1 ≡ false)
  unfolding attempt retry settle_received
  cursor-attempt change d (e, r) = elim (Bool-cases (is_catchup r.outcome)) [
    | inl t ↦ rw t (
      cursor-settle change _
          (receive_now host e change.version (receive_options host link change (some false))).1,
      refl,
    )
    | inr f ↦ rw f (cursor-settle change (record d { engine = e }) r, refl)
  ]

  cursor-walk :
      (d : State host link) (changes : List Change)
      → ((walk host link d changes).0.cursor ≡ after_all d.cursor changes)
        × ((walk host link d changes).1 ≡ false)
  unfolding walk after_all apply_with advance
  cursor-walk d [] = (refl, refl)
  cursor-walk d (change ∷ rest) =
      let step =
        cursor-attempt change d
          (receive_now host d.engine change.version (receive_options host link change none)) in
      elim (Bool-cases (ltb 0 change.sequence)) [
        | inr zero_sequence ↦
            let kept : later d.cursor change.sequence ≡ d.cursor = ground (arith, zero_sequence) in
            rw (zero_sequence, kept) (cursor-walk d rest)
        | inl positive ↦ rw positive (elim (Bool-cases (is_skipped host link d change)) [
          | inl skipped ↦ rw skipped (cursor-walk (advance d change.sequence) rest)
          | inr kept ↦ rw (kept, step.1, ← step.0) (cursor-walk _ rest)
        ])
      ]

  after_all-Follows :
      (cursor : ℕ) (changes : List Change)
      → Follows cursor changes
      → after_all cursor changes ≡ cursor + length changes
  unfolding after_all Follows
  after_all-Follows cursor [] h = omega arith
  after_all-Follows cursor (change ∷ rest) (here, next) =
      let moved : later cursor change.sequence ≡ cursor + 1 = ground (arith, here) in
      rw moved (after_all-Follows (cursor + 1) rest next ∙ omega arith)

  -- Where no call of the engine and no write of the state file throws, a page without gaps from the
  -- cursor on is walked to its end, and then the cursor stands at its last sequence, whichever of its
  -- changes are the replica's own, of another branch, applied, merged, deferred, or in conflict.
  pub walk-Follows :
      (d : State host link) (changes : List Change)
      → Follows d.cursor changes
      → ((walk host link d changes).0.cursor ≡ d.cursor + length changes)
        × ((walk host link d changes).1 ≡ false)
  walk-Follows d changes h =
      ((cursor-walk d changes).0 ∙ after_all-Follows d.cursor changes h, (cursor-walk d changes).1)
