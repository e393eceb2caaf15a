-- ===== src/Daemon/Checkout/Head.antt =====
-- What apps/daemon/src/sync-daemon.ts has noticed of git when the engine cannot follow it.
use crosscode.Prelude.{◌≡◌, refl, sym, Bool, false, Bool-cases, inl, inr}
use crosscode.Prelude.Text.{same_opt, same_opt_refl, same_opt_iff}
use crosscode.Host.{Host}
use crosscode.Engine.{Engine}
use crosscode.Engine.Head.{reset_to_head, rebase_onto_head}
use crosscode.Daemon.{Link}
use crosscode.Daemon.Checkout.{Observation, Sync, rebased, track_head}

module _ (host : Host) (link : Link) where
  rebased-head :
      (c : Sync host link) (r : Engine host.World × Bool) → (rebased host link c r).0.head ≡ c.head
  unfolding rebased
  rebased-head c (e, threw) = refl

  noticed : (o : Observation) (c : Sync host link) → (track_head host link o c).0.head ≡ o.head
  unfolding track_head
  noticed o c = elim (Bool-cases (same_opt o.head c.head)) [
    | inl t ↦ rw t (sym ((same_opt_iff o.head c.head).0 t))
    | inr f ↦
        rw f
          (rebased-head (record c { head = o.head }) (rebase_onto_head host c.daemon.engine c.head))
  ]

  seen :
      (o : Observation) (c : Sync host link)
      → c.head ≡ o.head
      → track_head host link o c ≡ (c, false)
  unfolding track_head
  seen o c h = rw (h, same_opt_refl o.head) refl

  -- After a look at HEAD, also one whose rebase has thrown, the next look that finds the same HEAD does
  -- nothing: the agreed state is not rebased again.
  pub track_head_twice :
      (o : Observation) (c : Sync host link)
      → track_head host link o (track_head host link o c).0 ≡ ((track_head host link o c).0, false)
  track_head_twice o c = seen o (track_head host link o c).0 (noticed o c)

  -- The daemon after a look that has found another branch, where the engine's reset has thrown.
  abbrev halfway : Observation → Sync host link → Sync host link
  halfway o c = record c {
    daemon = record c.daemon {
      in_operation = o.in_operation;
      branch = o.branch;
      engine = (reset_to_head host c.daemon.engine).0;
    };
  }
