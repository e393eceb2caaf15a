-- ===== src/Engine/Deferral/Frozen.antt =====
-- What `retryDeferred` of packages/sync/src/engine.ts does to the conflicts and the quarantine.
use crosscode.Prelude.{
  ◌+◌, ◌⊎◌, ◌≡◌, refl, Bool, true, false, not, List, [], ◌∷◌, ◌++◌, none, ltb, Bool-cases,
  Option-cases, inl, inr,
}
use crosscode.Prelude.Text.{Text}
use crosscode.Prelude.Dict.{Dict, erase, member}
use crosscode.Host.{Host}
use crosscode.Shadow
use crosscode.Engine.State.{Engine, ApplyResult, Deferred, is_hot}
use crosscode.Engine.Tree.{read, disk_hash}
use crosscode.Engine.Conflict.Frozen.{
  Holds, IsKeyed, IsKeyed-erase, IsKeyed-insert, SameConflicts, SameConflicts-Holds, Outcome-Holds,
}
use crosscode.Engine.Apply.{ReceiveOptions}
use crosscode.Engine.Apply.Frozen.{apply_now-Outcome}
use crosscode.Engine.Deferral.{
  Retry, waited, applied, threw, back_up, force, apply_deferred, apply_forced, retry_path,
  retry_entries, retry_deferred,
}

module _ (host : Host) where
  open host use {World}

  erased :
      (e : Engine World) (path : Text)
      → Holds e
      → Holds (record e { deferrals = erase path e.deferrals })
  erased e path inv = record {
    conflicts = inv.conflicts;
    deferrals = IsKeyed-erase path e.deferrals inv.deferrals;
  }

  deferred-Holds :
      (e : Engine World) (path : Text) (entry : Deferred)
      → member entry.version.path e.quarantine ≡ false
      → Holds e
      → Holds (apply_deferred host e path entry).0
  unfolding apply_deferred
  deferred-Holds e path entry apart inv =
      let released : Engine World = record e { deferrals = erase path e.deferrals } in
      let options : ReceiveOptions = record { peer = entry.peer; allow_catchup = none } in
      Outcome-Holds host entry.version.path released (apply_deferred host e path entry).0
        (apply_now-Outcome host released entry.version options (disk_hash host released path)
          (Shadow.get released.shadow path))
        apart (erased e path inv)

  back_up-SameConflicts :
      (e : Engine World) (path : Text) → SameConflicts host e (back_up host e path)
  unfolding back_up
  back_up-SameConflicts e path = elim (Option-cases (read host e path)) [
    | inl gone ↦ rw (gone, back_up) (refl, refl, refl)
    | inr (current, here) ↦ rw (here, back_up) (refl, refl, refl)
  ]

  force-SameConflicts :
      (e : Engine World) (path : Text) → SameConflicts host e (force host e path).0
  unfolding force
  force-SameConflicts e path =
      let saved = back_up host e path in
      elim (Bool-cases (Shadow.flush host saved.backup saved.world).threw) [
        | inl t ↦ rw t (back_up-SameConflicts e path)
        | inr f ↦ rw f (back_up-SameConflicts e path)
      ]

  abbrev engine_of : Retry host → Engine World
  engine_of (waited e) = e
  engine_of (applied e r) = e
  engine_of (threw e) = e

  forced-Holds :
      (p : Engine World × Bool) (path : Text) (entry : Deferred)
      → member entry.version.path p.0.quarantine ≡ false
      → Holds p.0
      → Holds (engine_of (apply_forced host p path entry))
  forced-Holds (e, true) path entry apart inv = inv
  forced-Holds (e, false) path entry apart inv = deferred-Holds e path entry apart inv

  retry_path-Holds :
      (e : Engine World) (path : Text) (entry : Deferred)
      → entry.version.path ≡ path
      → Holds e
      → Holds (engine_of (retry_path host e path entry))
  unfolding retry_path
  retry_path-Holds e path entry named inv = elim (Bool-cases (member path e.quarantine)) [
    | inl t ↦ rw t (erased e path inv)
    | inr apart ↦ elim (Bool-cases (not (is_hot host e path))) [
      | inl cool ↦ rw (apart, cool) (deferred-Holds e path entry (rw named apart) inv)
      | inr hot ↦ elim (Bool-cases (ltb entry.attempts e.options.max_deferrals)) [
        | inl few ↦
            rw (apart, hot, few)
              (record {
                conflicts = inv.conflicts;
                deferrals =
                    IsKeyed-insert path (record entry { attempts = entry.attempts + 1 }) e.deferrals
                      named inv.deferrals;
              })
        | inr many ↦
            let same = force-SameConflicts e path in
            rw (apart, hot, many)
              (forced-Holds (force host e path) path entry (rw (same.1, named) apart)
                (SameConflicts-Holds host e (force host e path).0 same inv))
      ]
    ]
  ]

  Retry-cases :
      (r : Retry host)
      → ((e : Engine World) × (r ≡ waited e))
        ⊎ (((e : Engine World) × (s : ApplyResult) × (r ≡ applied e s))
            ⊎ ((e : Engine World) × (r ≡ threw e)))
  Retry-cases (waited e) = inl (e, refl)
  Retry-cases (applied e s) = inr (inl (e, s, refl))
  Retry-cases (threw e) = inr (inr (e, refl))

  entries-Holds :
      (e : Engine World) (entries : Dict Deferred) (results : List ApplyResult)
      → IsKeyed entries
      → Holds e
      → Holds (retry_entries host e entries results).0
  unfolding retry_entries
  entries-Holds e [] results keyed inv = inv
  entries-Holds e ((path, entry) ∷ rest) results keyed inv =
      let held = retry_path-Holds e path entry keyed.0 inv in
      elim (Retry-cases (retry_path host e path entry)) [
        | inl (e', r) ↦ rw (r, retry_entries) (entries-Holds e' rest results keyed.1 (rw r at held))
        | inr (inl (e', s, r)) ↦
            rw (r, retry_entries) (entries-Holds e' rest (results ++ s ∷ []) keyed.1 (rw r at held))
        | inr (inr (e', r)) ↦ rw (r, retry_entries) (rw r at held)
      ]

  pub retry_deferred-Holds : (e : Engine World) → Holds e → Holds (retry_deferred host e).0
  unfolding retry_deferred
  retry_deferred-Holds e inv = entries-Holds e e.deferrals [] inv.deferrals inv
