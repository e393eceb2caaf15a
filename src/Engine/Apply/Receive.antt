-- ===== src/Engine/Apply/Receive.antt =====
-- `receiveNow` of packages/sync/src/engine.ts: what a received version does to the files.
use crosscode.Prelude.{
  ◌≡◌, refl, true, not, ◌&&◌, ◌||◌, Option, none, some, arith, is_some, Bool-cases, inl, inr,
}
use crosscode.Prelude.Text.{Text, same_opt}
use crosscode.Prelude.Dict.{member}
use crosscode.Protocol.{FileVersion, FileMode, same_mode}
use crosscode.Host.{Host}
use crosscode.Host.Laws.{FileLaws}
use crosscode.Shadow
use crosscode.Engine.State.{Engine, is_receivable, is_hot}
use crosscode.Engine.Tree.{disk_hash, mode_of, set_mode}
use crosscode.Engine.Apply.{
  ReceiveOptions, same_content, same_bytes, already_gone, is_modify, defer, receive_now,
}
use crosscode.Engine.Apply.Effect.{SameFiles, IsUnused, Effect, kept}
use crosscode.Engine.Apply.Now.{apply_now-Effect}

module _ (host : Host) (laws : FileLaws host) (e : Engine host.World) (v : FileVersion)
    (options : ReceiveOptions) where
  same_content-SameFiles :
      (local agreed : Option Text) → SameFiles host laws e (same_content host e v local agreed).0
  unfolding same_content
  same_content-SameFiles local agreed q = elim (Bool-cases (same_opt agreed local)) [
    | inl t ↦ rw t refl
    | inr t ↦ rw t refl
  ]

  same_bytes-SameFiles :
      (local agreed : Option Text) (m : Option FileMode)
      → SameFiles host laws e (same_bytes host e v local agreed m).0
  unfolding same_bytes set_mode
  same_bytes-SameFiles local agreed none q = same_content-SameFiles local agreed q
  same_bytes-SameFiles local agreed (some m) q =
      elim (Bool-cases
        (not (same_mode m (mode_of host e v.path)) && not (member v.path e.quarantine))) [
          | inl t ↦ rw t (laws.read-change_mode e.world v.path q m)
          | inr t ↦ rw t (same_content-SameFiles local agreed q)
        ]

  already_gone-SameFiles :
      (agreed : Option Text) → SameFiles host laws e (already_gone host e v agreed).0
  unfolding already_gone
  already_gone-SameFiles agreed q = elim (Bool-cases (is_some agreed)) [
    | inl t ↦ rw t refl
    | inr t ↦ rw t refl
  ]

  -- Where no call of the file system or of git fails, and the temporary name that a write would take is
  -- free, receiving a version has one of four effects, whatever the engine's state. The files stay. The
  -- sender's bytes replace one file that was the agreed state that the sender built on, and the shadow
  -- then has their hash and the file's mode. The sender's delete removes such a file, and its entry of
  -- the shadow. Or one file takes a clean merge of the bytes on disk with the sender's, from the
  -- sender's base. The sender's bytes have the hash that it sent.
  pub receive_now-Effect :
      IsUnused host laws e v.path → Effect host laws e v (receive_now host e v options)
  unfolding receive_now defer
  receive_now-Effect unused =
      let local = disk_hash host e v.path in
      let agreed = Shadow.get e.shadow v.path in
      elim (Bool-cases (not (is_receivable e v.path))) [
        | inl t ↦ rw t (kept λ q. refl)
        | inr f ↦ rw f (elim (Bool-cases (is_modify host v.op && same_opt v.content_hash local)) [
          | inl t ↦ rw t (kept (same_bytes-SameFiles local agreed v.mode))
          | inr f ↦ rw f (elim (Bool-cases (not (is_modify host v.op) && not (is_some local))) [
            | inl t ↦ rw t (kept (already_gone-SameFiles agreed))
            | inr f ↦ rw f (elim (Bool-cases (member v.path e.quarantine)) [
              | inl t ↦ rw t (kept λ q. refl)
              | inr f ↦ rw f (elim (Bool-cases (is_hot host e v.path)) [
                | inl t ↦ rw t (kept λ q. refl)
                | inr f ↦ rw f (apply_now-Effect host laws e v options unused)
              ])
            ])
          ])
        ])
      ]

  -- Where the path may not be received, or is quarantined, or its file is hot, receiving a version
  -- leaves the content of every file as it was.
  pub receive_now-guards :
      (not (is_receivable e v.path) || member v.path e.quarantine || is_hot host e v.path) ≡ true
      → SameFiles host laws e (receive_now host e v options).0
  unfolding receive_now defer
  receive_now-guards guarded q =
      let local = disk_hash host e v.path in
      let agreed = Shadow.get e.shadow v.path in
      elim (Bool-cases (not (is_receivable e v.path))) [
        | inl t ↦ rw t refl
        | inr f ↦ rw f (elim (Bool-cases (is_modify host v.op && same_opt v.content_hash local)) [
          | inl t ↦ rw t (same_bytes-SameFiles local agreed v.mode q)
          | inr g ↦ rw g (elim (Bool-cases (not (is_modify host v.op) && not (is_some local))) [
            | inl t ↦ rw t (already_gone-SameFiles agreed q)
            | inr h ↦ rw h (elim (Bool-cases (member v.path e.quarantine)) [
              | inl t ↦ rw t refl
              | inr k ↦ rw k (elim (Bool-cases (is_hot host e v.path)) [
                | inl t ↦ rw t refl
                | inr l ↦ ground (arith, guarded, f, k, l)
              ])
            ])
          ])
        ])
      ]
