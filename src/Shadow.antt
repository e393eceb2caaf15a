-- ===== src/Shadow.antt =====
-- packages/sync/src/shadow.ts: the agreed state, held in memory and written to its ref in batches.
pub mod Overlay
pub mod Rebase
pub mod Flush
use crosscode.Prelude.{
  ℕ, zero, suc, ◌+◌, ◌/◌, ◌%◌, ltb, get_or, Bool, true, false, not, ◌&&◌, List, [], ◌∷◌, ◌++◌,
  Option, none, some, is_some, length, ◌==◌, if◌then◌else◌,
}
use crosscode.Prelude.Text.{Text, codes, same, same_opt, truthy}
use crosscode.Prelude.Dict.{Dict, lookup, has, insert, erase, keys, to_set}
use crosscode.Paths.{split}
use crosscode.Host.{Host}
use crosscode.Git.{Git, ◌>>=◌, ◌>>◌, asked, empty_tree}

pub record TreeEntry : Type 0 where
  pub mode : Text
  pub hash : Text

-- `record.indexOf("\t")` and the two slices around it.
cut_at_tab : Text → Option (Text × Text)
cut_at_tab [] = none
cut_at_tab (c ∷ s) =
    let rest = cut_at_tab s in
    if c == b'\t' then some ([], s) else elim rest [ none ↦ none | some (a, b) ↦ some (c ∷ a, b) ]

-- `const [mode, , hash] = head.split(" ")`, skipped unless both are there.
tree_entry : List Text → Option TreeEntry
tree_entry (mode ∷ kind ∷ hash ∷ _) =
    if truthy (some mode) && truthy (some hash)
    then some (record { mode = mode; hash = hash })
    else none
tree_entry _ = none

add_record : Dict TreeEntry → Text → Dict TreeEntry
unfolding cut_at_tab tree_entry
add_record entries line = elim (cut_at_tab line) [
  | none ↦ entries
  | some (head, path) ↦ elim (tree_entry (split (λ c. c == b' ') head)) [
    | none ↦ entries
    | some entry ↦ insert path entry entries
  ]
]

add_records : Dict TreeEntry → List Text → Dict TreeEntry
add_records entries [] = entries
add_records entries (line ∷ lines) = add_records (add_record entries line) lines

-- The tree that `ls-tree -r -z` printed.
unfoldable pub parse_tree : Text → Dict TreeEntry
unfolding add_records add_record split
parse_tree output = add_records [] (split (λ c. c == 0) output)

pub record ShadowTree : Type 0 where
  pub ref : Text
  pub entries : Dict TreeEntry
  -- Changes not yet written to the ref; `none` means removed.
  pub pending : Dict (Option TreeEntry)

abbrev pub entry : ShadowTree → Text → Option TreeEntry
entry t path = lookup path t.entries

abbrev pub hash_of : Option TreeEntry → Option Text
hash_of none = none
hash_of (some e) = some e.hash

abbrev pub get : ShadowTree → Text → Option Text
get t path = hash_of (entry t path)

abbrev pub paths : ShadowTree → List Text
paths t = keys t.entries

is_entry : Option TreeEntry → Text → Text → Bool
is_entry none hash mode = false
is_entry (some e) hash mode = same e.hash hash && same e.mode mode

unfoldable pub set : ShadowTree → Text → Text → Text → ShadowTree
unfolding is_entry
set t path hash mode = if is_entry (entry t path) hash mode then t else record t {
  entries = insert path (record { mode = mode; hash = hash }) t.entries;
  pending = insert path (some (record { mode = mode; hash = hash })) t.pending;
}

unfoldable pub remove : ShadowTree → Text → ShadowTree
remove t path =
    if has path t.entries
    then record t { entries = erase path t.entries; pending = insert path none t.pending }
    else t

abbrev pub is_dirty : ShadowTree → Bool
is_dirty t = not (length t.pending == 0)

-- One path of `rebaseOnto`, against the trees of the commit last seen and of the new one.
unfoldable pub rebase_path : Dict TreeEntry → Dict TreeEntry → ShadowTree → Text → ShadowTree
unfolding set remove
rebase_path before after t path =
    if same_opt (get t path) (hash_of (lookup path before))
    then elim (lookup path after) [
      | some target ↦ set t path target.hash target.mode
      | none ↦ remove t path
    ]
    else t

unfoldable pub rebase_paths : Dict TreeEntry → Dict TreeEntry → ShadowTree → List Text → ShadowTree
rebase_paths before after t [] = t
rebase_paths before after t (path ∷ rest) =
    rebase_paths before after (rebase_path before after t path) rest

unfoldable pub rebase_trees : Dict TreeEntry → Dict TreeEntry → ShadowTree → ShadowTree
unfolding rebase_paths
rebase_trees before after t = rebase_paths before after t (to_set [] (keys t.entries ++ keys after))

-- The line of `update-index --index-info` for one change, and the batch of them.
abbrev pub index_line : Text × Option TreeEntry → Text
index_line (path, some e) = e.mode ++ (codes " " ++ (e.hash ++ (codes "\t" ++ path)))
index_line (path, none) = codes "0 0000000000000000000000000000000000000000\t" ++ path

pub index_info : Dict (Option TreeEntry) → Text
index_info [] = []
index_info (change ∷ []) = index_line change
index_info (change ∷ changes) = index_line change ++ (codes "\n" ++ index_info changes)

-- `for (…) if (!pending.has(path)) pending.set(path, entry)`
unfoldable pub put_back :
    Dict (Option TreeEntry) → Dict (Option TreeEntry) → Dict (Option TreeEntry)
put_back [] pending = pending
put_back ((path, change) ∷ batch) pending =
    put_back batch (if has path pending then pending else insert path change pending)

decimal_digits : ℕ → ℕ → Text → Text
decimal_digits zero n acc = acc
decimal_digits (suc fuel) n acc =
    let longer = decimal_digits fuel (n / 10) ((48 + n % 10) ∷ acc) in
    if ltb n 10 then (48 + n % 10) ∷ acc else longer

-- `String(n)`
pub decimal : ℕ → Text
unfolding decimal_digits
decimal n = decimal_digits (suc n) n []

-- What is left of an operation that may throw.
pub record Attempt (W : Type 0) : Type 0 where
  pub tree : ShadowTree
  pub threw : Bool
  pub world : W

module _ (host : Host) where
  open host use {World}

  load : ShadowTree → Git World ShadowTree
  load t w = elim (host.ls_tree w t.ref) [
    | none ↦ (none, w)
    | some output ↦ (some (record t { entries = parse_tree output }), w)
  ]

  -- A fresh checkout agrees with HEAD, or with the empty tree before the first commit.
  start_ref : Text → Git World (Unit {0})
  start_ref ref = do
    base ← asked (λ w. some (get_or (host.rev_parse w (codes "HEAD^{tree}")) empty_tree))
    commit ← host.commit_tree base none (codes "crosscode shadow")
    host.update_ref ref commit none

  unfoldable pub open_tree : Text → Git World ShadowTree
  unfolding load start_ref
  open_tree ref w =
      let fresh : ShadowTree = record { ref = ref; entries = []; pending = [] } in
      if truthy (host.rev_parse w (ref ++ codes "^{commit}"))
      then load fresh w
      else (start_ref ref >> load fresh) w

  point_ref : Text → Text → Git World (Unit {0})
  point_ref ref treeish = do
    tree ← asked (λ w. host.rev_parse w (treeish ++ codes "^{tree}"))
    parent ← asked (λ w. some (host.rev_parse w ref))
    commit ←
        host.commit_tree tree (if truthy parent then parent else none)
          (codes "crosscode shadow reset")
    host.update_ref ref commit none

  unfoldable pub reset_to : ShadowTree → Text → World → Attempt World
  unfolding point_ref load
  reset_to t treeish w =
      let cleared = record t { pending = [] } in
      let (r, w') = (point_ref t.ref treeish >> load cleared) w in
      elim r [
        | none ↦ record { tree = cleared; threw = true; world = w' }
        | some loaded ↦ record { tree = loaded; threw = false; world = w' }
      ]

  -- The tree of the commit last seen: empty if there was none, unknown if it cannot be read.
  tree_before : World → Option Text → Option (Dict TreeEntry)
  tree_before w none = some []
  tree_before w (some from) = elim (host.ls_tree w from) [
    | none ↦ none
    | some output ↦ some (parse_tree output)
  ]

  unfoldable pub rebase_onto : ShadowTree → Option Text → Text → World → Attempt World
  unfolding tree_before
  rebase_onto t from to w = elim (host.ls_tree w to) [
    | none ↦ record { tree = t; threw = false; world = w }
    | some output ↦ elim (tree_before w from) [
      | none ↦ reset_to t to w
      | some before ↦ record {
        tree = rebase_trees before (parse_tree output) t;
        threw = false;
        world = w;
      }
    ]
  ]

  -- The commands of one flush, through an index file of their own.
  pub write_batch : Text → Dict (Option TreeEntry) → Git World (Unit {0})
  unfolding index_info decimal
  write_batch ref batch = do
    parent ← asked (λ w. host.rev_parse w ref)
    index ← (λ w. host.read_tree w parent)
    index' ← host.update_index index (index_info batch ++ codes "\n")
    tree ← host.write_tree index'
    commit ←
        host.commit_tree tree (some parent)
          (codes "crosscode shadow (" ++ (decimal (length batch) ++ codes ")"))
    host.update_ref ref commit (some parent)

  -- The batch is taken before the first command. `finish` runs on the tree as the commands leave it.
  unfoldable pub finish :
      Dict (Option TreeEntry) → ShadowTree → Option (Unit {0}) × World → Attempt World
  finish batch t (some _, w) = record { tree = t; threw = false; world = w }
  finish batch t (none, w) = record {
    tree = record t { pending = put_back batch t.pending };
    threw = true;
    world = w;
  }

  unfoldable pub flush : ShadowTree → World → Attempt World
  unfolding write_batch finish
  flush t w =
      if length t.pending == 0
      then record { tree = t; threw = false; world = w }
      else let cleared = record t { pending = [] } in
        let (directory, w') = host.make_temporary w in
        elim directory [
          | none ↦ record { tree = cleared; threw = true; world = w' }
          | some _ ↦ finish t.pending cleared (write_batch t.ref t.pending w')
        ]
