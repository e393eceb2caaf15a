-- ===== src/Engine/Tree/Files.antt =====
-- What a file reads as, and its mode, after the engine's own writes.
use crosscode.Prelude.{◌≡◌, ◌∙◌, refl, none, some, arith, if◌then◌else◌}
use crosscode.Prelude.Text.{Text, same, same_refl}
use crosscode.Protocol.{FileMode, regular, executable}
use crosscode.Host.{Host, Bytes}
use crosscode.Host.Laws.{FileLaws, executes}
use crosscode.Engine.State.{Engine}
use crosscode.Engine.Tree.{place_file, temporary_name, mode_of}

module _ (host : Host) (laws : FileLaws host) where
  open host use {World, read_file, has_execute_bit}

  abbrev pub temporary : World → Text → Text
  temporary w path = temporary_name host (host.make_directory w (host.directory_name path)) path

  -- A file placed at a path is there, and nothing else has changed but the temporary name.
  pub read-place_file :
      (w : World) (p q : Text) (b : Bytes) (m : FileMode)
      → read_file (place_file host w p b m) q
        ≡ (if same p q then some b else if same (temporary w p) q then none else read_file w q)
  unfolding place_file
  read-place_file w p q b m =
      let made = host.make_directory w (host.directory_name p) in
      let t = temporary w p in
      let there : read_file (host.write_file (host.after_uuid made) t b m) t ≡ some b =
        rw (laws.read-write (host.after_uuid made) t t b m, same_refl t) refl in
      rw
        (
          laws.read-rename (host.write_file (host.after_uuid made) t b m) t p q b there,
          laws.read-write (host.after_uuid made) t q b m,
        )
        (ground
          (arith, laws.quiet_uuid.0 made q, (laws.quiet_directory (host.directory_name p)).0 w q))

  -- Where the temporary name is not in use.
  pub execute-place_file :
      (w : World) (p : Text) (b : Bytes) (m : FileMode)
      → read_file w (temporary w p) ≡ none
      → has_execute_bit (place_file host w p b m) p ≡ executes m
  unfolding place_file
  execute-place_file w p b m unused =
      let made = host.make_directory w (host.directory_name p) in
      let t = temporary w p in
      laws.execute-rename _ _ _
      ∙ laws.execute-write (host.after_uuid made) t b m
          (laws.quiet_uuid.0 made t ∙ (laws.quiet_directory (host.directory_name p)).0 w t ∙ unused)

  pub mode_of-executes :
      (e : Engine World) (p : Text) (m : FileMode)
      → has_execute_bit e.world p ≡ executes m
      → mode_of host e p ≡ m
  unfolding mode_of
  mode_of-executes e p regular h = rw h
  mode_of-executes e p executable h = rw h
