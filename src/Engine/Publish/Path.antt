-- ===== src/Engine/Publish/Path.antt =====
-- What publishing one path of packages/sync/src/engine.ts leaves settled.
use crosscode.Prelude.{
  ◌≡◌, ◌⊎◌, refl, ◌∙◌, sym, true, false, ◌&&◌, Option, none, some, arith, if◌then◌else◌, Bool-cases,
  Option-cases, inl, inr,
}
use crosscode.Prelude.Text.{Text, same, same_iff, same_refl, same_opt}
use crosscode.Protocol.{FileMode}
use crosscode.Host.{Host, Bytes}
use crosscode.Host.Laws.{FileLaws}
use crosscode.Shadow
use crosscode.Shadow.{TreeEntry, ShadowTree}
use crosscode.Shadow.Overlay.{entry-set, entry-remove}
use crosscode.Engine.State.{Engine, is_publishable, mode_text}
use crosscode.Engine.Tree.{mode_of, read}
use crosscode.Engine.Publish.{
  silent, same_entry_mode, publish_missing, publish_present, publish_path,
}

module _ (host : Host) (laws : FileLaws host) where
  open host use {World}

  -- The shadow has what is on the disk at a path: no file and no entry, or the same hash and mode.
  abbrev pub agreed_entry : Option Bytes → FileMode → Option TreeEntry
  agreed_entry none mode = none
  agreed_entry (some content) mode =
      some (record { mode = mode_text mode; hash = host.hash_object content })

  abbrev pub IsSettled : Engine World → Text → Type 0
  IsSettled e path =
      is_publishable e path ≡ true
      → Shadow.entry e.shadow path ≡ agreed_entry (read host e path) (mode_of host e path)

  mode_of-store :
      (e : Engine World) (path : Text) (b : Bytes)
      → mode_of host (record e { world = host.store_object e.world b }) path ≡ mode_of host e path
  unfolding mode_of
  mode_of-store e path b = rw ((laws.quiet_store b).1 e.world path)

  present_silent :
      (e : Engine World) (path : Text) (content : Bytes)
      → (publish_present host e path content (agreed_entry (some content) (mode_of host e path))).1
        ≡ silent
  unfolding publish_present same_entry_mode same_opt
  present_silent e path content = rw (
    mode_of-store e path content,
    same_refl (host.hash_object content),
    same_refl (mode_text (mode_of host e path)),
  )

  -- A settled path is passed over.
  pub settled_silent :
      (e : Engine World) (path : Text) → IsSettled e path → (publish_path host e path).1 ≡ silent
  unfolding publish_path publish_missing
  settled_silent e path settled = elim (Bool-cases (is_publishable e path)) [
    | inr out ↦ rw out
    | inl on ↦ elim (Option-cases (read host e path)) [
      | inl gone ↦ rw (on, gone, settled on, gone)
      | inr (content, there) ↦ rw (on, there, settled on, there) (present_silent e path content)
    ]
  ]

  -- What a publish of other paths leaves alone.
  pub record Frame (e e' : Engine World) : Type 0 where
    pub reads : (q : Text) → read host e' q ≡ read host e q
    pub modes : (q : Text) → mode_of host e' q ≡ mode_of host e q
    pub quarantine : e'.quarantine ≡ e.quarantine
    pub deferrals : e'.deferrals ≡ e.deferrals
    pub tracked : e'.tracked ≡ e.tracked

  store-Frame :
      (e : Engine World) (b : Bytes) (s : ShadowTree)
      → Frame e (record e { world = host.store_object e.world b; shadow = s })
  unfolding mode_of
  store-Frame e b s = record {
    reads = λ q. (laws.quiet_store b).0 e.world q;
    modes = λ q. rw ((laws.quiet_store b).1 e.world q);
    quarantine = refl;
    deferrals = refl;
    tracked = refl;
  }

  shadow-Frame : (e : Engine World) (s : ShadowTree) → Frame e (record e { shadow = s })
  unfolding mode_of
  shadow-Frame e s = record {
    reads = λ q. refl;
    modes = λ q. refl;
    quarantine = refl;
    deferrals = refl;
    tracked = refl;
  }

  -- The engine after a publish of one path: framed, and with the path's entry as on the disk.
  abbrev pub Published : Engine World → Text → Engine World → Type 0
  Published e path e' =
      Frame e e'
      × ((q : Text)
          → Shadow.entry e'.shadow q ≡ (
              if same path q
              then agreed_entry (read host e path) (mode_of host e path)
              else Shadow.entry e.shadow q))

  missing-Published :
      (e : Engine World) (path : Text)
      → read host e path ≡ none
      → Published e path (publish_missing host e path (Shadow.get e.shadow path)).0
  unfolding publish_missing
  missing-Published e path gone = elim (Option-cases (Shadow.entry e.shadow path)) [
    | inl absent ↦
        rw absent (shadow-Frame e e.shadow, λ q. rw gone (ground (arith, same_iff path q)))
    | inr (entry, present) ↦
        rw present (
          shadow-Frame e (Shadow.remove e.shadow path),
          λ q. rw gone (entry-remove e.shadow path q),
        )
  ]

  entry_of_same :
      (o : Option TreeEntry) (h : Text) (m : FileMode)
      → (same_opt (some h) (Shadow.hash_of o) && same_entry_mode m o) ≡ true
      → o ≡ some (record { mode = mode_text m; hash = h })
  unfolding same_opt same_entry_mode
  entry_of_same none h m e = cc
  entry_of_same (some x) h m e = ground (arith, same_iff h x.hash, same_iff (mode_text m) x.mode)

  present-Published :
      (e : Engine World) (path : Text) (content : Bytes)
      → read host e path ≡ some content
      → Published e path (publish_present host e path content (Shadow.entry e.shadow path)).0
  unfolding publish_present
  present-Published e path content there =
      let local = host.hash_object content in
      let mode = mode_of host e path in
      let entry = Shadow.entry e.shadow path in
      rw (mode_of-store e path content, there)
        (elim (Bool-cases
          (same_opt (some local) (Shadow.hash_of entry) && same_entry_mode mode entry)) [
            | inl same ↦ rw same (
              store-Frame e content e.shadow,
              λ q. ground (arith, same_iff path q, entry_of_same entry local mode same),
            )
            | inr other ↦ rw other (
              store-Frame e content (Shadow.set e.shadow path local (mode_text mode)),
              λ q. entry-set e.shadow path q local (mode_text mode),
            )
          ])

  pub publish_path-Published :
      (e : Engine World) (path : Text)
      → is_publishable e path ≡ true
      → Published e path (publish_path host e path).0
  unfolding publish_path
  publish_path-Published e path on = elim (Option-cases (read host e path)) [
    | inl gone ↦ rw (on, gone) (rw gone at (missing-Published e path gone))
    | inr (content, there) ↦ rw (on, there) (rw there at (present-Published e path content there))
  ]

  is_publishable-Frame :
      (e e' : Engine World) (q : Text)
      → Frame e e'
      → Shadow.entry e'.shadow q ≡ Shadow.entry e.shadow q
      → is_publishable e' q ≡ is_publishable e q
  unfolding is_publishable
  is_publishable-Frame e e' q f same_entry = rw (same_entry, f.quarantine, f.deferrals, f.tracked)

  IsSettled-Frame :
      (e e' : Engine World) (q : Text)
      → Frame e e'
      → Shadow.entry e'.shadow q ≡ Shadow.entry e.shadow q
      → IsSettled e q
      → IsSettled e' q
  IsSettled-Frame e e' q f same_entry settled on =
      rw (same_entry, f.reads q, f.modes q)
        (settled (sym (is_publishable-Frame e e' q f same_entry) ∙ on))

  pub unpublished :
      (e : Engine World) (path : Text)
      → is_publishable e path ≡ false
      → (publish_path host e path).0 ≡ e
  unfolding publish_path
  unpublished e path out = rw out

  -- A path is settled by its own publish, and stays so under any other.
  pub IsSettled-publish_path :
      (e : Engine World) (path q : Text)
      → (same path q ≡ true) ⊎ IsSettled e q
      → IsSettled (publish_path host e path).0 q
  IsSettled-publish_path e path q h = elim (Bool-cases (is_publishable e path)) [
    | inr out ↦ rw (unpublished e path out) λ on. elim h [
      | inl here ↦ cc ((same_iff path q).0 here, out, on)
      | inr settled ↦ settled on
    ]
    | inl on ↦
        let (f, entries) = publish_path-Published e path on in
        elim (Bool-cases (same path q)) [
          | inl here ↦ λ _. rw (entries q, here, f.reads q, f.modes q, (same_iff path q).0 here)
          | inr there ↦
              IsSettled-Frame e (publish_path host e path).0 q f (rw (entries q, there))
                (elim h [ inl here ↦ cc (here, there) | inr settled ↦ settled ])
        ]
  ]
