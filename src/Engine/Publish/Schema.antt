-- ===== src/Engine/Publish/Schema.antt =====
-- What is published the wire accepts, and it is about a path that may leave the machine.
use crosscode.Prelude.{
  ◌≡◌, refl, ap, ◌∙◌, sym, Bool, true, false, List, [], ◌∷◌, Option, none, some, arith,
  if◌then◌else◌, Bool-cases, Option-cases, All, All-append, map, inl, inr,
}
use crosscode.Prelude.Text.{Text, same, truthy}
use crosscode.Prelude.Dict.{Dict, to_set}
use crosscode.Paths.{is_safe_relative_path, is_denied}
use crosscode.Protocol.{FileVersion, FileMode, file_version_schema}
use crosscode.Host.{Host, Bytes}
use crosscode.Host.Laws.{FileLaws, ObjectLaws}
use crosscode.Git.{read_blob}
use crosscode.Shadow
use crosscode.Shadow.{TreeEntry}
use crosscode.Engine.State.{Engine, is_publishable}
use crosscode.Engine.Tree.{mode_of, read}
use crosscode.Engine.Publish.Path.{unpublished, publish_path-Published}
use crosscode.Engine.Publish.{
  SyncUnit, silent, sent, publish_missing, publish_present, publish_path, modify_version,
  delete_version, Batch, add_unit, publish_paths, publish, sort, link_rename,
}

-- A version that the schema accepts, of a path that is safe and not denied.
abbrev pub IsSendable : FileVersion → Type 0
IsSendable v =
    (file_version_schema v ≡ true)
    × (is_safe_relative_path v.path ≡ true)
    × (is_denied v.path ≡ false)

abbrev UnitIsSendable : SyncUnit → Type 0
UnitIsSendable silent = Unit
UnitIsSendable (sent v created) = IsSendable v

-- Every agreed hash is one that the wire can carry.
abbrev pub IsHashed : {W : Type 0} → Engine W → Type 0
IsHashed e =
    (q : Text) (x : TreeEntry) → Shadow.entry e.shadow q ≡ some x → truthy (some x.hash) ≡ true

non_empty_of_safe : (path : Text) → is_safe_relative_path path ≡ true → truthy (some path) ≡ true
unfolding is_safe_relative_path truthy
non_empty_of_safe [] h = cc
non_empty_of_safe (c ∷ path) h = refl

module _ {W : Type 0} where
  publishable_path :
      (e : Engine W) (path : Text)
      → is_publishable e path ≡ true
      → (is_safe_relative_path path ≡ true) × (is_denied path ≡ false)
  unfolding is_publishable
  publishable_path e path h = ground arith

module _ (host : Host) (objects : ObjectLaws host) where
  open host use {World}

  -- Full content goes with any base, a patch only with one that is there.
  modify_version_schema :
      (e : Engine World) (path : Text) (content : Bytes) (agreed : Option Text) (mode : FileMode)
      → truthy (some path) ≡ true
      → ((h : Text) → agreed ≡ some h → truthy (some h) ≡ true)
      → (file_version_schema
            (modify_version host e path content (host.hash_object content) agreed mode)
          ≡ true)
        × ((modify_version host e path content (host.hash_object content) agreed mode).path ≡ path)
  unfolding modify_version file_version_schema read_blob
  modify_version_schema e path content none mode named hashed =
      rw (named, objects.hash_truthy content) (refl, refl)
  modify_version_schema e path content (some h) mode named hashed =
      ground (arith, named, hashed h refl, objects.hash_truthy content)

  delete_version_schema :
      (path h : Text)
      → truthy (some path) ≡ true
      → truthy (some h) ≡ true
      → file_version_schema (delete_version path (some h)) ≡ true
  unfolding file_version_schema
  delete_version_schema path h named hashed = rw (named, hashed)

  get_hashed :
      (e : Engine World) (path h : Text)
      → IsHashed e
      → Shadow.get e.shadow path ≡ some h
      → truthy (some h) ≡ true
  get_hashed e path h hashed at = elim (Option-cases (Shadow.entry e.shadow path)) [
    | inl absent ↦ cc (absent, at)
    | inr (x, present) ↦ rw (← (rw present at at)) (hashed path x present)
  ]

  either_silent :
      (b : Bool) (e f : Engine World) (v : FileVersion) (created : Bool)
      → IsSendable v
      → UnitIsSendable
          (if◌then◌else◌ {A = Engine World × SyncUnit} b (e, silent) (f, sent v created)).1
  either_silent true e f v created h = tt
  either_silent false e f v created h = h

  missing_UnitIsSendable :
      (e : Engine World) (path : Text)
      → IsHashed e
      → (is_safe_relative_path path ≡ true) × (is_denied path ≡ false)
      → UnitIsSendable (publish_missing host e path (Shadow.get e.shadow path)).1
  unfolding publish_missing
  missing_UnitIsSendable e path hashed (safe, open_path) =
      elim (Option-cases (Shadow.entry e.shadow path)) [
        | inl absent ↦ rw absent tt
        | inr (x, present) ↦ rw present (
          delete_version_schema path x.hash (non_empty_of_safe path safe) (hashed path x present),
          safe,
          open_path,
        )
      ]

  present_UnitIsSendable :
      (e : Engine World) (path : Text) (content : Bytes)
      → IsHashed e
      → (is_safe_relative_path path ≡ true) × (is_denied path ≡ false)
      → UnitIsSendable (publish_present host e path content (Shadow.entry e.shadow path)).1
  unfolding publish_present
  present_UnitIsSendable e path content hashed (safe, open_path) =
      let stored = record e { world = host.store_object e.world content } in
      let agreed_hash : (h : Text) → Shadow.get e.shadow path ≡ some h → truthy (some h) ≡ true =
        λ h same_hash. get_hashed e path h hashed same_hash in
      let v =
        modify_version_schema stored path content (Shadow.get e.shadow path)
          (mode_of host stored path) (non_empty_of_safe path safe) agreed_hash in
      either_silent _ _ _ _ _ (v.0, rw v.1 safe, rw v.1 open_path)

  path_UnitIsSendable :
      (e : Engine World) (path : Text) → IsHashed e → UnitIsSendable (publish_path host e path).1
  unfolding publish_path
  path_UnitIsSendable e path hashed = elim (Bool-cases (is_publishable e path)) [
    | inr out ↦ rw out tt
    | inl on ↦ elim (Option-cases (read host e path)) [
      | inl gone ↦ rw (on, gone) (missing_UnitIsSendable e path hashed (publishable_path e path on))
      | inr (content, there) ↦
          rw (on, there) (present_UnitIsSendable e path content hashed (publishable_path e path on))
    ]
  ]

  path_IsHashed :
      FileLaws host
      → (e : Engine World) (path : Text) → IsHashed e
      → IsHashed (publish_path host e path).0
  path_IsHashed files e path hashed q x at = elim (Bool-cases (is_publishable e path)) [
    | inr out ↦ hashed q x (rw (unpublished host files e path out) at at)
    | inl on ↦
        let now : _ = sym ((publish_path-Published host files e path on).1 q) ∙ at in
        elim (Bool-cases (same path q)) [
          | inr there ↦ hashed q x (rw there at now)
          | inl here ↦ elim (Option-cases (read host e path)) [
            | inl gone ↦ cc (rw (here, gone) at now)
            | inr (content, there) ↦
                rw (← ap Shadow.hash_of (rw (here, there) at now)) (objects.hash_truthy content)
          ]
        ]
  ]

  add_unit-Sendable :
      (b : Batch host) (u : Engine World × SyncUnit)
      → IsHashed u.0
      → UnitIsSendable u.1
      → All (λ v. IsSendable v.0) b.versions
      → IsHashed (add_unit host b u).engine × All (λ v. IsSendable v.0) (add_unit host b u).versions
  unfolding add_unit
  add_unit-Sendable b (e, silent) hashed unit sendable = (hashed, sendable)
  add_unit-Sendable b (e, sent v created) hashed unit sendable =
      (hashed, All-append (λ v. IsSendable v.0) b.versions _ sendable (unit, tt))

  paths-Sendable :
      FileLaws host
      → (b : Batch host) (l : List Text) → IsHashed b.engine
      → All (λ v. IsSendable v.0) b.versions
      → IsHashed (publish_paths host b l).engine
        × All (λ v. IsSendable v.0) (publish_paths host b l).versions
  unfolding publish_paths
  paths-Sendable files b [] hashed sendable = (hashed, sendable)
  paths-Sendable files b (path ∷ l) hashed sendable =
      let step =
        add_unit-Sendable b (publish_path host b.engine path)
          (path_IsHashed files b.engine path hashed) (path_UnitIsSendable b.engine path hashed)
          sendable in
      paths-Sendable files (add_unit host b (publish_path host b.engine path)) l step.0 step.1

  renamed_schema :
      (v : FileVersion) (from : Option Text)
      → truthy from ≡ true
      → file_version_schema v ≡ true
      → file_version_schema (record v { renamed_from = from }) ≡ true
  unfolding file_version_schema
  renamed_schema v none t h = unfold truthy in cc t
  renamed_schema v (some from) t h = ground arith

  named-Sendable :
      (v : FileVersion) (from : Option Text) (b : Bool)
      → (b ≡ true → truthy from ≡ true)
      → IsSendable v
      → IsSendable (if b then record v { renamed_from = from } else v)
  named-Sendable v from true t h = (renamed_schema v from (t refl) h.0, h.1, h.2)
  named-Sendable v from false t h = h

  link-Sendable :
      (paths : Dict Text) (l : List (FileVersion × Bool))
      → All (λ v. IsSendable v.0) l
      → All IsSendable (map (link_rename host paths) l)
  unfolding link_rename
  link-Sendable paths [] h = tt
  link-Sendable paths ((v, created) ∷ l) h =
      (named-Sendable v _ _ (λ t. ground arith) h.0, link-Sendable paths l h.1)

  -- Every version of a publish passes `fileVersionSchema`, so that its `parse` does not throw, and is
  -- of a safe path that is not on the denylist; and every agreed hash stays one that can be sent.
  -- This is for an engine whose agreed hashes are not empty.
  pub publish-Sendable :
      FileLaws host
      → (e : Engine World) (paths : List Text) → IsHashed e
      → All IsSendable (publish host e paths).1 × IsHashed (publish host e paths).0
  unfolding publish
  publish-Sendable files e paths hashed =
      let b =
        publish_paths host (record { engine = e; versions = []; deleted_base = [] })
          (sort (to_set [] paths)) in
      let h =
        paths-Sendable files (record { engine = e; versions = []; deleted_base = [] })
          (sort (to_set [] paths)) hashed tt in
      (link-Sendable b.deleted_base b.versions h.1, h.0)
