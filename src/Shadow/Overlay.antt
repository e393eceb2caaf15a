-- ===== src/Shadow/Overlay.antt =====
-- The tree in memory is the tree of the ref under the changes not yet written.
use crosscode.Prelude.{
  ◌≡◌, true, [], ◌∷◌, Option, none, some, arith, if◌then◌else◌, Bool-cases, inl, inr,
}
use crosscode.Prelude.Text.{Text, same, same_iff}
use crosscode.Prelude.Dict.{Dict, lookup, insert, has, lookup-insert, lookup-erase}
use crosscode.Host.{Host}
use crosscode.Shadow.{TreeEntry, ShadowTree, entry, is_entry, set, remove, put_back, finish}

is_entry-eq :
    (o : Option TreeEntry) (h m : Text)
    → is_entry o h m ≡ true
    → o ≡ some (record { mode = m; hash = h })
unfolding is_entry
is_entry-eq none h m e = cc
is_entry-eq (some x) h m e = ground (arith, same_iff x.hash h, same_iff x.mode m)

pub entry-set :
    (t : ShadowTree) (p q h m : Text)
    → entry (set t p h m) q ≡ (if same p q then some (record { mode = m; hash = h }) else entry t q)
unfolding set
entry-set t p q h m = elim (Bool-cases (is_entry (entry t p) h m)) [
  | inl e ↦ rw e (ground (arith, same_iff p q, is_entry-eq (entry t p) h m e))
  | inr e ↦ rw e (lookup-insert q p (record { mode = m; hash = h }) t.entries)
]

pub entry-remove :
    (t : ShadowTree) (p q : Text) → entry (remove t p) q ≡ (if same p q then none else entry t q)
unfolding remove
entry-remove t p q = ground (arith, lookup-erase q p t.entries, same_iff p q)

pub ruleset entry_laws = (entry-set, entry-remove)

abbrev over : Option (Option TreeEntry) → Option TreeEntry → Option TreeEntry
over none old = old
over (some change) old = change

-- What a path is at under some changes, over a tree.
abbrev pub overlay : Dict (Option TreeEntry) → (Text → Option TreeEntry) → Text → Option TreeEntry
overlay pending base path = over (lookup path pending) (base path)

-- The tree in memory shows `base`, what the ref's commit holds, under the pending changes.
abbrev pub Shows : (Text → Option TreeEntry) → ShadowTree → Type 0
Shows base t = (path : Text) → entry t path ≡ overlay t.pending base path

pub set-Shows :
    (base : Text → Option TreeEntry) (t : ShadowTree) (p h m : Text)
    → Shows base t
    → Shows base (set t p h m)
unfolding set
set-Shows base t p h m shows q = elim (Bool-cases (is_entry (entry t p) h m)) [
  | inl e ↦ rw e (shows q)
  | inr e ↦ rw e (simp lookup-insert (ground (arith, shows q)))
]

pub remove-Shows :
    (base : Text → Option TreeEntry) (t : ShadowTree) (p : Text)
    → Shows base t
    → Shows base (remove t p)
unfolding remove
remove-Shows base t p shows q = elim (Bool-cases (has p t.entries)) [
  | inl e ↦ rw e (simp (lookup-insert, lookup-erase) (ground (arith, shows q)))
  | inr e ↦ rw e (shows q)
]

pub lookup-put_back :
    (batch pending : Dict (Option TreeEntry)) (q : Text)
    → lookup q (put_back batch pending)
      ≡ (if has q pending then lookup q pending else lookup q batch)
unfolding put_back lookup
lookup-put_back [] pending q = ground arith
lookup-put_back ((p, c) ∷ batch) pending q = ground (
  arith,
  lookup-put_back batch pending q,
  lookup-put_back batch (insert p c pending) q,
  lookup-insert q p c pending,
  same_iff p q,
)

-- Commands that fail lose nothing: the batch goes back under whatever was set or removed while they
-- ran, and the tree shows the old commit again.
pub finish-Shows :
    (host : Host) (base : Text → Option TreeEntry) (batch : Dict (Option TreeEntry))
    (t : ShadowTree) (w : host.World)
    → Shows (overlay batch base) t
    → Shows base (finish host batch t (none, w)).tree
unfolding finish
finish-Shows host base batch t w shows q =
    ground (arith, shows q, lookup-put_back batch t.pending q)
