-- ===== src/Shadow/Rebase.antt =====
-- `rebaseOnto`, path by path: what was not edited since the commit last seen follows the new commit,
-- and every other agreement stays.
use crosscode.Prelude.{
  ◌≡◌, refl, ◌||◌, List, [], ◌∷◌, ◌++◌, Option, arith, if◌then◌else◌, Bool-cases, Option-cases, inl,
  inr,
}
use crosscode.Prelude.Text.{Text, same, same_iff, same_opt}
use crosscode.Prelude.Dict.{Dict, lookup, keys, member, to_set, member-to_set, has}
use crosscode.Shadow.{
  TreeEntry, ShadowTree, entry, hash_of, get, rebase_path, rebase_paths, rebase_trees,
}
use crosscode.Shadow.Overlay.{Shows, entry-set, entry-remove, set-Shows, remove-Shows}

-- The agreed entry of a path after a move of HEAD, from what it was and what the commits hold.
abbrev pub moved : Option TreeEntry → Option TreeEntry → Option TreeEntry → Option TreeEntry
moved before after agreed = if same_opt (hash_of agreed) (hash_of before) then after else agreed

module _ (before after : Dict TreeEntry) where
  entry-rebase_path :
      (t : ShadowTree) (p q : Text)
      → entry (rebase_path before after t p) q
        ≡ (if same p q then moved (lookup q before) (lookup q after) (entry t q) else entry t q)
  unfolding rebase_path
  entry-rebase_path t p q = elim (Option-cases (lookup p after)) [
    | inl e ↦ rw e (ground (arith, entry-remove t p q, same_iff p q))
    | inr (x, e) ↦ rw e (ground (arith, entry-set t p q x.hash x.mode, same_iff p q))
  ]

  entry-rebase_paths :
      (t : ShadowTree) (l : List Text) (q : Text)
      → entry (rebase_paths before after t l) q
        ≡ (if member q l then moved (lookup q before) (lookup q after) (entry t q) else entry t q)
  unfolding rebase_paths member
  entry-rebase_paths t [] q = refl
  entry-rebase_paths t (p ∷ l) q =
      ground (arith, entry-rebase_paths (rebase_path before after t p) l q, entry-rebase_path t p q)

  rebase_path-Shows :
      (base : Text → Option TreeEntry) (t : ShadowTree) (p : Text)
      → Shows base t
      → Shows base (rebase_path before after t p)
  unfolding rebase_path
  rebase_path-Shows base t p shows =
      elim (Bool-cases (same_opt (get t p) (hash_of (lookup p before)))) [
        | inr e ↦ rw e shows
        | inl e ↦ elim (Option-cases (lookup p after)) [
          | inl f ↦ rw (e, f) (remove-Shows base t p shows)
          | inr (x, f) ↦ rw (e, f) (set-Shows base t p x.hash x.mode shows)
        ]
      ]

  rebase_paths-Shows :
      (base : Text → Option TreeEntry) (t : ShadowTree) (l : List Text)
      → Shows base t
      → Shows base (rebase_paths before after t l)
  unfolding rebase_paths
  rebase_paths-Shows base t [] shows = shows
  rebase_paths-Shows base t (p ∷ l) shows =
      rebase_paths-Shows base (rebase_path before after t p) l (rebase_path-Shows base t p shows)

member-keys {ℓ} : {V : Type ℓ} (q : Text) (m : Dict V) → member q (keys m) ≡ has q m
unfolding member keys lookup
member-keys q [] = refl
member-keys q ((p, v) ∷ m) = ground (arith, member-keys q m)

member-append : (q : Text) (l m : List Text) → member q (l ++ m) ≡ (member q l || member q m)
unfolding member
member-append q [] m = refl
member-append q (p ∷ l) m = ground (arith, member-append q l m)

module _ (before after : Dict TreeEntry) (t : ShadowTree) where
  entry-rebase_trees :
      (q : Text)
      → entry (rebase_trees before after t) q ≡ moved (lookup q before) (lookup q after) (entry t q)
  unfolding rebase_trees member
  entry-rebase_trees q = ground (
    arith,
    entry-rebase_paths before after t (to_set [] (keys t.entries ++ keys after)) q,
    member-to_set q [] (keys t.entries ++ keys after),
    member-append q (keys t.entries) (keys after),
    member-keys q t.entries,
    member-keys q after,
  )

  -- After a move of HEAD, a path whose agreed hash was that of the commit last seen has the entry of
  -- the new commit, or is gone with it, and any other path keeps its agreed entry. Where the tree in
  -- memory showed the ref's commit under its pending changes, it still does.
  pub rebase_trees-follows :
      (base : Text → Option TreeEntry) (path : Text)
      → Shows base t
      → (entry (rebase_trees before after t) path ≡ (
          if same_opt (get t path) (hash_of (lookup path before))
          then lookup path after
          else entry t path))
        × Shows base (rebase_trees before after t)
  unfolding rebase_trees
  rebase_trees-follows base path shows = (
    entry-rebase_trees path,
    rebase_paths-Shows before after base t (to_set [] (keys t.entries ++ keys after)) shows,
  )
