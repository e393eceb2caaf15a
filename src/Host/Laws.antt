-- ===== src/Host/Laws.antt =====
-- What the engine relies on: files are what was last written to them, distinct paths are distinct
-- files, and the object store keeps every object under the hash of its bytes. This is for calls that
-- do not throw.
use crosscode.Prelude.{◌≡◌, Bool, true, false, none, some, if◌then◌else◌}
use crosscode.Prelude.Text.{Text, same, truthy}
use crosscode.Protocol.{utf8, base64, FileMode, regular, executable}
use crosscode.Host.{Host, Bytes}

abbrev pub executes : FileMode → Bool
executes regular = false
executes executable = true

-- A call that leaves every file as it is.
abbrev Quiet : (host : Host) → (host.World → host.World) → Type 0
Quiet host f =
    ((w : host.World) (p : Text) → host.read_file (f w) p ≡ host.read_file w p)
    × ((w : host.World) (p : Text) → host.has_execute_bit (f w) p ≡ host.has_execute_bit w p)

pub record FileLaws (host : Host) : Type 0 where
  pub quiet_store : (b : Bytes) → Quiet host (λ w. host.store_object w b)
  pub quiet_directory : (d : Text) → Quiet host (λ w. host.make_directory w d)
  pub quiet_uuid : Quiet host host.after_uuid
  pub read-write :
      (w : host.World) (p q : Text) (b : Bytes) (m : FileMode)
      → host.read_file (host.write_file w p b m) q
        ≡ (if same p q then some b else host.read_file w q)
  -- The mode is that of the call where the call creates the file, and else is left.
  pub execute-write :
      (w : host.World) (p : Text) (b : Bytes) (m : FileMode)
      → host.read_file w p ≡ none
      → host.has_execute_bit (host.write_file w p b m) p ≡ executes m
  pub read-rename :
      (w : host.World) (p q r : Text) (b : Bytes)
      → host.read_file w p ≡ some b
      → host.read_file (host.rename_file w p q) r
        ≡ (if same q r then some b else if same p r then none else host.read_file w r)
  pub execute-rename :
      (w : host.World) (p q : Text)
      → host.has_execute_bit (host.rename_file w p q) q ≡ host.has_execute_bit w p
  pub read-remove :
      (w : host.World) (p q : Text)
      → host.read_file (host.remove_file w p) q ≡ (if same p q then none else host.read_file w q)
  pub read-change_mode :
      (w : host.World) (p q : Text) (m : FileMode)
      → host.read_file (host.change_mode w p m) q ≡ host.read_file w q
  pub execute-change_mode :
      (w : host.World) (p : Text) (m : FileMode) {b : Bytes}
      → host.read_file w p ≡ some b
      → host.has_execute_bit (host.change_mode w p m) p ≡ executes m

pub record ObjectLaws (host : Host) : Type 0 where
  pub hash_truthy : (b : Bytes) → truthy (some (host.hash_object b)) ≡ true
  pub cat-store :
      (w : host.World) (b : Bytes)
      → host.cat_file (host.store_object w b) (host.hash_object b) ≡ some b
  pub cat-store_kept :
      (w : host.World) (b c : Bytes) (h : Text)
      → host.cat_file w h ≡ some c
      → host.cat_file (host.store_object w b) h ≡ some c
  pub encode-decode_utf8 :
      (b : Bytes) → host.is_utf8 b ≡ true → host.encode (host.decode b utf8) utf8 ≡ b
  pub encode-decode_base64 : (b : Bytes) → host.encode (host.decode b base64) base64 ≡ b
