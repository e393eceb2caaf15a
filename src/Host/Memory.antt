-- ===== src/Host/Memory.antt =====
-- A small host to run the engine on: files and objects in dictionaries, an object's bytes behind
-- a mark for its hash, and texts for bytes. A merge is clean if one side did not change.
use crosscode.Prelude.{
  ℕ, ◌+◌, ◌≡◌, refl, Bool, true, false, List, [], ◌∷◌, ◌++◌, Option, none, some, arith,
  if◌then◌else◌, ◌&&◌, ◌==◌,
}
use crosscode.Prelude.Text.{Text, codes, same, same_iff, same_refl, truthy}
use crosscode.Prelude.Dict.{
  Dict, lookup, insert, erase, keys, lookup-insert, lookup-erase, add, member, member-add,
}
use crosscode.Protocol.{FileMode}
use crosscode.Host.{Host, Bytes}
use crosscode.Host.Laws.{executes, FileLaws, ObjectLaws}

pub record Disk : Type 0 where
  pub files : Dict (Bytes × FileMode)
  pub objects : List Text
  pub clock : ℕ
  pub serial : ℕ

abbrev content : Option (Bytes × FileMode) → Option Bytes
content none = none
content (some (b, m)) = some b

abbrev execute_bit : Option (Bytes × FileMode) → Bool
execute_bit none = false
execute_bit (some (b, m)) = executes m

abbrev move : Disk → Text → Text → Option (Bytes × FileMode) → Disk
move w p q none = record w { files = erase p (erase q w.files) }
move w p q (some f) = record w { files = insert q f (erase p w.files) }

abbrev chmod : Disk → Text → FileMode → Option (Bytes × FileMode) → Disk
chmod w p m none = w
chmod w p m (some (b, _)) = record w { files = insert p (b, m) w.files }

abbrev merge : Bytes → Bytes → Bytes → ℕ × Bytes
merge ours base theirs =
    if same ours base then (0, theirs) else if same theirs base then (0, ours) else (1, [])

-- The object named by a hash.
abbrev found : Text → List Text → Option Bytes
found [] objects = none
found (c ∷ b) objects = if (c == b'#') && member b objects then some b else none

abbrev lines : List Text → Text
lines [] = []
lines (p ∷ ps) = p ++ (0 ∷ lines ps)

abbrev pub memory : Host
memory = record {
  World = Disk;
  Index = Text;
  read_file = λ w p. content (lookup p w.files);
  has_execute_bit = λ w p. execute_bit (lookup p w.files);
  is_symbolic_link = λ w p. some false;
  make_directory = λ w p. w;
  write_file = λ w p b m. record w { files = insert p (b, m) w.files };
  rename_file = λ w p q. move w p q (lookup p w.files);
  remove_file = λ w p. record w { files = erase p w.files };
  change_mode = λ w p m. chmod w p m (lookup p w.files);
  make_temporary = λ w. (some (codes "tmp"), w);
  join_path = λ d p. d ++ (b'/' ∷ p);
  directory_name = λ p. codes "tmp";
  base_name = λ p. p;
  hash_object = λ b. b'#' ∷ b;
  store_object = λ w b. record w { objects = add b w.objects };
  cat_file = λ w h. found h w.objects;
  merge_file = merge;
  diff = λ a b. (0, []);
  apply = λ a p. (1, []);
  ls_files = λ w. lines (keys w.files);
  ls_tree = λ w t. none;
  rev_parse = λ w t. none;
  read_tree = λ w t. (none, w);
  update_index = λ i t w. (none, w);
  write_tree = λ i w. (none, w);
  commit_tree = λ t p m w. (none, w);
  update_ref = λ r n o w. (none, w);
  is_utf8 = λ b. true;
  decode = λ b e. b;
  encode = λ t e. t;
  now = λ w. w.clock;
  timestamp = λ w. [];
  random_uuid = λ w. w.serial ∷ [];
  after_uuid = λ w. record w { serial = w.serial + 1 };
}

-- The same where the directory for temporary files cannot be written.
abbrev pub full_disk : Host
full_disk = record memory { make_temporary = λ w. (none, w) }

move_laws :
    (w : Disk) (p q r : Text) (o : Option (Bytes × FileMode))
    → (content (lookup r (move w p q o).files)
        ≡ (if same q r then content o else if same p r then none else content (lookup r w.files)))
      × (execute_bit (lookup q (move w p q o).files) ≡ execute_bit o)
move_laws w p q r none = simp (lookup-erase, same_refl) (ground arith)
move_laws w p q r (some f) = simp (lookup-insert, lookup-erase, same_refl) (ground arith)

chmod_laws :
    (w : Disk) (p q : Text) (m : FileMode) (o : Option (Bytes × FileMode))
    → lookup p w.files ≡ o
    → (content (lookup q (chmod w p m o).files) ≡ content (lookup q w.files))
      × ((b : Bytes)
          → content o ≡ some b
          → execute_bit (lookup p (chmod w p m o).files) ≡ executes m)
chmod_laws w p q m none e = (refl, λ b h. cc)
chmod_laws w p q m (some (c, n)) e =
    (simp lookup-insert (ground (arith, same_iff p q)), λ b h. simp (lookup-insert, same_refl))

pub memory_files : FileLaws memory
memory_files = record {
  quiet_store = λ b. (λ w p. refl, λ w p. refl);
  quiet_directory = λ d. (λ w p. refl, λ w p. refl);
  quiet_uuid = (λ w p. refl, λ w p. refl);
  read-write = λ w p q b m. simp lookup-insert (ground arith);
  execute-write = λ w p b m new. simp (lookup-insert, same_refl);
  read-rename = λ w p q r b there. rw⁻¹ there (move_laws w p q r (lookup p w.files)).0;
  execute-rename = λ w p q. (move_laws w p q q (lookup p w.files)).1;
  read-remove = λ w p q. simp lookup-erase (ground arith);
  read-change_mode = λ w p q m. (chmod_laws w p q m (lookup p w.files) refl).0;
  execute-change_mode = λ w p m {b} h. (chmod_laws w p p m (lookup p w.files) refl).1 b h;
}

kept_object :
    (h : Text) (objects : List Text) (b c : Bytes)
    → found h objects ≡ some c
    → found h (add b objects) ≡ some c
kept_object [] objects b c h = h
kept_object (d ∷ t) objects b c h = ground (arith, member-add t b objects)

pub memory_objects : ObjectLaws memory
memory_objects = record {
  hash_truthy = λ b. unfold truthy in refl;
  cat-store = λ w b. simp (member-add, same_refl);
  cat-store_kept = λ w b c h e. kept_object h w.objects b c e;
  encode-decode_utf8 = λ b h. refl;
  encode-decode_base64 = λ b. refl;
}
