-- ===== src/Git.antt =====
-- packages/sync/src/git.ts over the host's `git`.
use crosscode.Prelude.{List, [], ◌∷◌, Option, none, some, ◌==◌, if◌then◌else◌}
use crosscode.Prelude.Text.{Text, codes, truthy}
use crosscode.Host.{Host, Bytes}
use crosscode.Paths.{split}

-- A command that may fail, and changes the world either way.
abbrev pub Git : Type 0 → Type 0 → Type 0
Git W A = W → Option A × W

infixl 5 ◌>>=◌ ◌>>◌
abbrev pub ◌>>=◌ : {W A B : Type 0} → Git W A → (A → Git W B) → Git W B
◌>>=◌ m f w = let (r, w') = m w in elim r [ none ↦ (none, w') | some a ↦ f a w' ]

abbrev pub ◌>>◌ : {W B : Type 0} → Git W (Unit {0}) → Git W B → Git W B
m >> k = m >>= λ _. k

-- A question that fails by throwing.
abbrev pub asked : {W A : Type 0} → (W → Option A) → Git W A
asked q w = (q w, w)

unfoldable pub filter_truthy : List Text → List Text
filter_truthy [] = []
filter_truthy (s ∷ l) = let rest = filter_truthy l in if truthy (some s) then s ∷ rest else rest

abbrev pub empty_tree : Text
empty_tree = codes "4b825dc642cb6eb9a060e54bf8d69288fbee4904"

module _ (host : Host) where
  open host use {World}

  abbrev pub hash_blob : Bytes → Text
  hash_blob content = host.hash_object content

  -- The hash, beside the world in which the object is there.
  abbrev pub write_blob : World → Bytes → Text × World
  write_blob w content = (host.hash_object content, host.store_object w content)

  unfoldable pub read_blob : World → Option Text → Option Bytes
  read_blob w none = none
  read_blob w (some hash) = if truthy (some hash) then host.cat_file w hash else none

  unfoldable pub tracked_paths : World → List Text
  unfolding filter_truthy split
  tracked_paths w = filter_truthy (split (λ c. c == 0) (host.ls_files w))
