-- ===== src/Engine/Apply/Content.antt =====
-- `contentOf` of packages/sync/src/engine.ts: bytes taken for the sender's have its hash.
use crosscode.Prelude.{◌≡◌, false, Option, none, some, arith, Option-cases, inl, inr}
use crosscode.Prelude.Text.{Text, same_opt_iff}
use crosscode.Protocol.{FileVersion}
use crosscode.Host.{Host, Bytes}
use crosscode.Engine.State.{Engine}
use crosscode.Engine.Apply.{mangled, verified, replayed, sent_bytes, content_of}
use crosscode.Engine.Apply.Effect.{op_cases}

module _ (host : Host) where
  open host use {World}

  verified_hash :
      (v : FileVersion) (o : Option Bytes) {b : Bytes}
      → verified host v o ≡ some b
      → v.content_hash ≡ some (host.hash_object b)
  unfolding verified
  verified_hash v none h = cc
  verified_hash v (some c) {b} h =
      ground (arith, same_opt_iff (some (host.hash_object c)) v.content_hash)

  whole_hash :
      (v : FileVersion) (text : Text)
      → v.content ≡ some text
      → mangled host v ≡ false
      → v.content_hash ≡ some (host.hash_object (host.encode text v.encoding))
  unfolding mangled
  whole_hash v text here whole =
      ground
        (arith, same_opt_iff (some (host.hash_object (host.encode text v.encoding))) v.content_hash)

  replayed_hash :
      (v : FileVersion) (patch : Text) (o : Option Bytes) {b : Bytes}
      → replayed host v patch o ≡ some b
      → v.content_hash ≡ some (host.hash_object b)
  unfolding replayed
  replayed_hash v patch none h = cc
  replayed_hash v patch (some ancestor) h = verified_hash v _ h

  sent_hash :
      (e : Engine World) (v : FileVersion) (base : Option Bytes) {b : Bytes}
      → mangled host v ≡ false
      → sent_bytes host e v base ≡ some b
      → v.content_hash ≡ some (host.hash_object b)
  unfolding sent_bytes
  sent_hash e v base {b} whole h = elim (Option-cases v.content) [
    | inr (text, here) ↦ ground (arith, whole_hash v text here whole)
    | inl missing ↦ elim (Option-cases v.patch) [
      | inl none_sent ↦ cc (rw (missing, none_sent) at h)
      | inr (patch, here) ↦ replayed_hash v patch _ (rw (missing, here) at h)
    ]
  ]

  -- Bytes that are taken for the sender's have the hash that it sent.
  pub content_hash_of :
      (e : Engine World) (v : FileVersion) (base : Option Bytes) {b : Bytes}
      → mangled host v ≡ false
      → content_of host e v base ≡ some b
      → v.content_hash ≡ some (host.hash_object b)
  unfolding content_of
  content_hash_of e v base whole h = elim (op_cases v.op) [
    | inl is_op ↦ sent_hash e v base whole (rw is_op at h)
    | inr is_op ↦ cc (rw is_op at h)
  ]
