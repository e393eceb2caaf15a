-- ===== src/Engine/Conflict/Frozen.antt =====
-- The conflicts that an engine of packages/sync/src/engine.ts holds, and the paths that it quarantines.
use crosscode.Prelude.{
  ◌≡◌, refl, sym, ap, ◌∙◌, ◌⊎◌, inl, inr, true, false, List, [], ◌∷◌, All, Option, some, Bool-cases,
  Option-cases, arith,
}
use crosscode.Prelude.Text.{Text, same, same_iff, same_refl}
use crosscode.Prelude.Dict.{
  Dict, lookup, insert, erase, add, delete, member, lookup-insert, lookup-erase, member-add,
  member-delete,
}
use crosscode.Protocol.{FileMode, Conflict}
use crosscode.Host.{Host, Bytes}
use crosscode.Engine.State.{Engine, Deferred}
use crosscode.Engine.Conflict.{raise_conflict, resolve_conflict, dismiss_conflict, conflict_of}
use crosscode.Engine.Tree.{write_synced}

-- The path of every conflict is quarantined, and no path has two conflicts.
pub record IsFrozen (pending : Dict Conflict) (quarantine : List Text) : Type 0 where
  pub frozen :
      (id : Text) (c : Conflict) → lookup id pending ≡ some c → member c.path quarantine ≡ true
  pub single :
      (id other : Text) (c d : Conflict)
      → lookup id pending ≡ some c
      → lookup other pending ≡ some d
      → c.path ≡ d.path
      → id ≡ other

raised :
    (id j : Text) (c d : Conflict) (pending : Dict Conflict)
    → lookup j (insert id c pending) ≡ some d
    → ((id ≡ j) × (c ≡ d)) ⊎ (lookup j pending ≡ some d)
raised id j c d pending e = elim (Bool-cases (same id j)) [
  | inl t ↦ inl ((same_iff id j).0 t, let s = rw (lookup-insert j id c pending, t) at e in cc)
  | inr f ↦ inr (rw (lookup-insert j id c pending, f) at e)
]

kept_by_forget :
    (id j : Text) (d : Conflict) (pending : Dict Conflict)
    → lookup j (erase id pending) ≡ some d
    → (same id j ≡ false) × (lookup j pending ≡ some d)
kept_by_forget id j d pending e = elim (Bool-cases (same id j)) [
  | inl t ↦ absurd (let s = rw (lookup-erase j id pending, t) at e in cc)
  | inr f ↦ (f, rw (lookup-erase j id pending, f) at e)
]

-- A conflict on a path that is not quarantined.
pub raise-IsFrozen :
    (id : Text) (c : Conflict) (pending : Dict Conflict) (quarantine : List Text)
    → member c.path quarantine ≡ false
    → IsFrozen pending quarantine
    → IsFrozen (insert id c pending) (add c.path quarantine)
raise-IsFrozen id c pending quarantine apart inv = record {
  frozen = λ j d e. rw (member-add d.path c.path quarantine) (elim (raised id j c d pending e) [
    | inl (i, k) ↦ rw (ap (λ (x : Conflict). x.path) k, same_refl d.path) refl
    | inr old ↦ ground (arith, inv.frozen j d old)
  ]);
  single = λ j k d f e g same_path. elim (raised id j c d pending e) [
    | inl (i, is_c) ↦ elim (raised id k c f pending g) [
      | inl (i', is_c') ↦ sym i ∙ i'
      | inr old ↦ absurd (
          let q = inv.frozen k f old in
          cc (apart, q, same_path, ap (λ (x : Conflict). x.path) is_c))
    ]
    | inr old ↦ elim (raised id k c f pending g) [
      | inl (i', is_c) ↦ absurd (
          let q = inv.frozen j d old in
          cc (apart, q, same_path, ap (λ (x : Conflict). x.path) is_c))
      | inr old' ↦ inv.single j k d f old old' same_path
    ]
  ];
}

-- A conflict that is resolved or dismissed.
pub forget-IsFrozen :
    (id : Text) (c : Conflict) (pending : Dict Conflict) (quarantine : List Text)
    → lookup id pending ≡ some c
    → IsFrozen pending quarantine
    → IsFrozen (erase id pending) (delete c.path quarantine)
forget-IsFrozen id c pending quarantine here inv = record {
  frozen = λ j d e.
      let (apart, old) = kept_by_forget id j d pending e in
      rw (member-delete d.path c.path quarantine) (elim (Bool-cases (same c.path d.path)) [
        | inl t ↦ absurd (
            let is_id = inv.single id j c d here old ((same_iff c.path d.path).0 t) in
            let s = rw (is_id, same_refl j) at apart in cc)
        | inr f ↦ rw f (inv.frozen j d old)
      ]);
  single = λ j k d f e g same_path.
      inv.single j k d f (kept_by_forget id j d pending e).1 (kept_by_forget id k f pending g).1
        same_path;
}

-- Every deferred version is filed under its own path.
abbrev pub IsKeyed : Dict Deferred → Type 0
IsKeyed = All (λ (d : Text × Deferred). d.1.version.path ≡ d.0)

pub IsKeyed-erase : (path : Text) (m : Dict Deferred) → IsKeyed m → IsKeyed (erase path m)
unfolding erase
IsKeyed-erase path [] h = tt
IsKeyed-erase path ((key, d) ∷ m) h = elim (Bool-cases (same key path)) [
  | inl t ↦ rw t (IsKeyed-erase path m h.1)
  | inr f ↦ rw f (h.0, IsKeyed-erase path m h.1)
]

pub IsKeyed-insert :
    (path : Text) (d : Deferred) (m : Dict Deferred)
    → d.version.path ≡ path
    → IsKeyed m
    → IsKeyed (insert path d m)
unfolding insert
IsKeyed-insert path d [] e h = (e, tt)
IsKeyed-insert path d ((key, old) ∷ m) e h = elim (Bool-cases (same key path)) [
  | inl t ↦ rw t (e ∙ sym ((same_iff key path).0 t), h.1)
  | inr f ↦ rw f (h.0, IsKeyed-insert path d m e h.1)
]

pub record Holds {W : Type 0} (e : Engine W) : Type 0 where
  pub conflicts : IsFrozen e.pending_conflicts e.quarantine
  pub deferrals : IsKeyed e.deferrals

module _ (host : Host) where
  open host use {World}

  abbrev pub SameConflicts : Engine World → Engine World → Type 0
  SameConflicts e e' =
      (e'.pending_conflicts ≡ e.pending_conflicts)
      × (e'.quarantine ≡ e.quarantine)
      × (e'.deferrals ≡ e.deferrals)

  pub SameConflicts-Holds : (e e' : Engine World) → SameConflicts e e' → Holds e → Holds e'
  SameConflicts-Holds e e' (p, q, r) inv = record {
    conflicts = rw (p, q) inv.conflicts;
    deferrals = rw r inv.deferrals;
  }

  -- What an operation on one path may do: leave conflicts and quarantine, or raise a conflict there.
  pub data Outcome (path : Text) (e e' : Engine World) : Type 0 where
    same_conflicts :
        e'.pending_conflicts ≡ e.pending_conflicts
        → e'.quarantine ≡ e.quarantine
        → e'.deferrals ≡ e.deferrals
        → Outcome path e e'
    raises :
        (id : Text) (c : Conflict)
        → c.path ≡ path
        → e'.pending_conflicts ≡ insert id c e.pending_conflicts
        → e'.quarantine ≡ add c.path e.quarantine
        → e'.deferrals ≡ erase path e.deferrals
        → Outcome path e e'

  pub Outcome-Holds :
      (path : Text) (e e' : Engine World)
      → Outcome path e e'
      → member path e.quarantine ≡ false
      → Holds e
      → Holds e'
  Outcome-Holds path e e' (same_conflicts p q r) apart inv = record {
    conflicts = rw (p, q) inv.conflicts;
    deferrals = rw r inv.deferrals;
  }
  Outcome-Holds path e e' (raises id c is_path p q r) apart inv = record {
    conflicts =
        rw (p, q)
          (raise-IsFrozen id c e.pending_conflicts e.quarantine (rw is_path apart) inv.conflicts);
    deferrals = rw r (IsKeyed-erase path e.deferrals inv.deferrals);
  }

  pub raise_conflict-Outcome :
      (e : Engine World) (path : Text) (ours theirs ancestor : Option Bytes)
      (peer renamed_from : Option Text) (mode : Option FileMode)
      → Outcome path e (raise_conflict host e path ours theirs ancestor peer renamed_from mode).0
  unfolding raise_conflict
  raise_conflict-Outcome e path ours theirs ancestor peer renamed_from mode =
      raises (host.random_uuid e.world)
        (conflict_of host e.world path ours theirs ancestor peer renamed_from) refl refl refl refl

  pub resolve_conflict-Holds :
      (e : Engine World) (id content : Text)
      → Holds e
      → Holds (resolve_conflict host e id content).0
  unfolding resolve_conflict write_synced
  resolve_conflict-Holds e id content inv = elim (Option-cases (lookup id e.pending_conflicts)) [
    | inl none_such ↦ rw (none_such, resolve_conflict) inv
    | inr (c, found) ↦
        rw (found, resolve_conflict)
          (record {
            conflicts = forget-IsFrozen id c e.pending_conflicts e.quarantine found inv.conflicts;
            deferrals = inv.deferrals;
          })
  ]

  pub dismiss_conflict-Holds :
      (e : Engine World) (id : Text) → Holds e → Holds (dismiss_conflict host e id).0
  unfolding dismiss_conflict
  dismiss_conflict-Holds e id inv = elim (Option-cases (lookup id e.pending_conflicts)) [
    | inl none_such ↦ rw (none_such, dismiss_conflict) inv
    | inr (c, found) ↦
        rw (found, dismiss_conflict)
          (record {
            conflicts = forget-IsFrozen id c e.pending_conflicts e.quarantine found inv.conflicts;
            deferrals = inv.deferrals;
          })
  ]
