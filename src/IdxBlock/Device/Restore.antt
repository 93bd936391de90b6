-- ===== src/IdxBlock/Device/Restore.antt =====
-- Putting an index block back after a write that failed.
use rust_fs_ntfs.Base.{
  ℕ, ◌+◌, ◌-◌, ◌<◌, ◌≡◌, refl, sym, ◌∙◌, ◌⊎◌, inl, inr, arith, Bool, true, false, Bool-cases, List,
  [], ◌∷◌, length, drop, All,
}
use rust_fs_ntfs.Base.{
  Result, ok, slice_lem, byte_at, byte_at-drop, bytes_between, length-bytes_between, byte_at-take,
}
use native.Mathlib.Decide.{dec_lt}
use rust_fs_ntfs.Bitmap.{MappedChunk}
use rust_fs_ntfs.Bitmap.Device.{BlockIo}
use rust_fs_ntfs.Bitmap.Device.Buffer.{InBuffer}
use rust_fs_ntfs.Bitmap.Device.Contents.{IsFaithful, Holds, Beside, AgreeBeside}
use rust_fs_ntfs.IdxBlock.Device.{restore_chunks}

-- An offset lies beside a chunk, or is one of its bytes.
pub chunk_cases :
    (i : ℕ) (c : MappedChunk) → Beside i c ⊎ ((k : ℕ) × (k < c.len) × (i ≡ c.disk_offset + k))
chunk_cases i c = elim (dec_lt i c.disk_offset) [
  | yes before ↦ inl (inl before)
  | no here ↦ elim (dec_lt i (c.disk_offset + c.len)) [
    | yes within ↦ inr (i - c.disk_offset, omega arith, omega arith)
    | no behind ↦ inl (inr (omega arith))
  ]
]

-- The bytes of a buffer for a chunk.
abbrev pub chunk_bytes : List ℕ → MappedChunk → List ℕ
chunk_bytes buf c = bytes_between buf c.cursor (c.cursor + c.len)

pub length-chunk_bytes :
    (buf : List ℕ) (c : MappedChunk) → InBuffer (length buf) c → length (chunk_bytes buf c) ≡ c.len
length-chunk_bytes buf c h =
    omega (arith, length-bytes_between buf c.cursor (c.cursor + c.len) (omega arith) h)

pub byte_at-chunk_bytes :
    (buf : List ℕ) (c : MappedChunk) (i : ℕ)
    → i < c.len
    → byte_at (chunk_bytes buf c) i ≡ byte_at buf (c.cursor + i)
byte_at-chunk_bytes buf c i h =
    byte_at-take (c.cursor + c.len - c.cursor) i (drop c.cursor buf) (omega arith)
    ∙ byte_at-drop c.cursor i buf

module _ {D : Type 0} (dev : BlockIo D) (contents : D → ℕ → ℕ)
    (faithful : IsFaithful dev contents) where
  -- A write of one chunk changes only its bytes, and if it succeeds the device holds the buffer's.
  pub write-Beside :
      (d : D) (buf : List ℕ) (c : MappedChunk) (i : ℕ)
      → InBuffer (length buf) c
      → Beside i c
      → contents (dev.write_all_at d c.disk_offset (chunk_bytes buf c)).0 i ≡ contents d i
  write-Beside d buf c i h apart =
      faithful.writes_beside d c.disk_offset (chunk_bytes buf c) i
        (rw (length-chunk_bytes buf c h) apart)

  pub write-Holds :
      (d : D) (buf : List ℕ) (c : MappedChunk)
      → InBuffer (length buf) c
      → (dev.write_all_at d c.disk_offset (chunk_bytes buf c)).1 ≡ true
      → Holds (contents (dev.write_all_at d c.disk_offset (chunk_bytes buf c)).0) buf c
  write-Holds d buf c h done i lt =
      faithful.writes d c.disk_offset (chunk_bytes buf c) done i
        (omega (arith, length-chunk_bytes buf c h))
      ∙ byte_at-chunk_bytes buf c i lt

  -- What putting chunks back gives: a state, and whether all writes succeeded. If they did, and the
  -- device differed from an earlier state only in the chunks, it has that state's bytes again.
  pub data Restored (d0 d : D) (touched : List MappedChunk) (p : D × Result Bool) : Type 0 where
    restored :
        (d2 : D) (all : Bool)
        → p ≡ (d2, ok all)
        → (AgreeBeside touched (contents d0) (contents d)
            → all ≡ true
            → (i : ℕ) → contents d2 i ≡ contents d0 i)
        → Restored d0 d touched p

  -- One chunk put back: what lies beside the others is as it was.
  agree_rest :
      (d0 d : D) (c : MappedChunk) (touched : List MappedChunk) (previous : List ℕ)
      → InBuffer (length previous) c
      → Holds (contents d0) previous c
      → (dev.write_all_at d c.disk_offset (chunk_bytes previous c)).1 ≡ true
      → AgreeBeside (c ∷ touched) (contents d0) (contents d)
      → AgreeBeside touched
          (contents d0)
          (contents (dev.write_all_at d c.disk_offset (chunk_bytes previous c)).0)
  agree_rest d0 d c touched previous in_c held done agree i apart = elim (chunk_cases i c) [
    | inl out ↦ write-Beside d previous c i in_c out ∙ agree i (out, apart)
    | inr (k, lt, e) ↦ rw e (write-Holds d previous c in_c done k lt ∙ sym (held k lt))
  ]

  pub restore_chunks-Restored :
      (d0 d : D) (touched : List MappedChunk) (previous : List ℕ)
      → All (InBuffer (length previous)) touched
      → All (Holds (contents d0) previous) touched
      → Restored d0 d touched (restore_chunks dev d touched previous)
  unfolding restore_chunks
  restore_chunks-Restored d0 d [] previous inside held =
      restored d true refl (λ agree e i. agree i tt)
  restore_chunks-Restored d0 d (c ∷ touched) previous (in_c, inside) (held_c, held) =
      let sliced = slice_lem previous c.cursor (c.cursor + c.len) (omega arith) in_c in
      let b : List ℕ = chunk_bytes previous c in
      let d1 : D = (dev.write_all_at d c.disk_offset b).0 in
      rw (sliced, restore_chunks)
        (elim (restore_chunks-Restored d0 d1 touched previous inside held) [
          | restored d2 all e after ↦
              rw e (elim (Bool-cases (dev.write_all_at d c.disk_offset b).1) [
                | inl written ↦ rw written (
                    restored d2 all refl (λ agree done i.
                      after (agree_rest d0 d c touched previous in_c held_c written agree) done i))
                | inr failed ↦ rw failed (restored d2 false refl (λ agree done i. absurd cc))
              ])
        ])
