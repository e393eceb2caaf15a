-- ===== src/Shadow/Flush.antt =====
-- What a flush comes to on every path.
use crosscode.Prelude.{◌≡◌, true, false, [], ◌++◌, Option, none, some, length, ◌⊎◌}
use crosscode.Prelude.Text.{Text, codes}
use crosscode.Prelude.Dict.{Dict}
use crosscode.Host.{Host}
use crosscode.Shadow.{TreeEntry, ShadowTree, Attempt, is_dirty, index_info, decimal}
use crosscode.Shadow.Overlay.{Shows}

module _ (host : Host) where
  -- The commands that have each succeeded, in the order in which they ran: the batch was put, as a
  -- whole, into an index of the commit that the ref named, and the ref was moved from that commit to
  -- one of the new tree.
  pub record IsCommitted (ref : Text) (batch : Dict (Option TreeEntry)) (before after : host.World)
      : Type 0 where
    pub parent : Text
    pub of_ref : host.rev_parse before ref ≡ some parent
    pub index : host.Index
    pub read : host.World
    pub is_read : host.read_tree before parent ≡ (some index, read)
    pub index' : host.Index
    pub updated : host.World
    pub is_updated :
        host.update_index index (index_info batch ++ codes "\n") read ≡ (some index', updated)
    pub tree : Text
    pub written : host.World
    pub is_written : host.write_tree index' updated ≡ (some tree, written)
    pub commit : Text
    pub made : host.World
    pub is_made :
        host.commit_tree tree
          (some parent)
          (codes "crosscode shadow (" ++ (decimal (length batch) ++ codes ")"))
          written
        ≡ (some commit, made)
    pub done : Unit {0}
    pub is_moved : host.update_ref ref commit (some parent) made ≡ (some done, after)

  -- A flush does nothing where nothing is pending, and else throws or commits. `Shows base` is that the
  -- tree in memory shows the old commit under its pending changes.
  abbrev pub Flushed :
      (Text → Option TreeEntry) → ShadowTree → host.World → Attempt host.World → Type 0
  Flushed base t w a =
      ((is_dirty t ≡ false) × (a ≡ record { tree = t; threw = false; world = w }))
      ⊎ (((host.make_temporary w).0 ≡ none)
          × (a ≡ record {
            tree = record t { pending = [] };
            threw = true;
            world = (host.make_temporary w).1;
          }))
      ⊎ (((a.threw ≡ true) × (a.tree.entries ≡ t.entries) × Shows base a.tree)
          ⊎ ((a ≡ record { tree = record t { pending = [] }; threw = false; world = a.world })
              × IsCommitted t.ref t.pending (host.make_temporary w).1 a.world))
