-- ===== src/IdxBlock/Device.antt =====
-- The part of src/idx_block.rs that reads and writes the device.
pub mod Restore
pub mod Update
pub mod ReadBack
use rust_fs_ntfs.Base.{
  ℕ, ◌+◌, Bool, true, false, not, ◌&&◌, ◌==◌, if◌then◌else◌, List, [], ◌∷◌, ◌++◌, length, replicate,
}
use rust_fs_ntfs.Base.{Result, ok, err, fault, io, ◌>>=◌, slice, bytes_eq}
use rust_fs_ntfs.Fixup.{apply_fixup_on_read_magic, apply_fixup_on_write_magic}
use rust_fs_ntfs.Bitmap.{MappedChunk}
use rust_fs_ntfs.Bitmap.Device.{BlockIo, read_chunks}
use rust_fs_ntfs.IdxBlock.{IndexAllocation, indx_magic, map_indx_block}

module _ {D : Type 0} (dev : BlockIo D) where
  unfoldable pub read_raw_indx_block_io :
      D → IndexAllocation → ℕ → Result (List ℕ × List MappedChunk)
  read_raw_indx_block_io d ia vcn = do
    chunks ← map_indx_block ia vcn (dev.size d)
    block ← read_chunks dev d chunks (replicate ia.block_size 0)
    ok (block, chunks)

  -- The message of the error names the first chunk.
  pub not_an_indx_record : List MappedChunk → Result (List ℕ)
  not_an_indx_record [] = fault
  not_an_indx_record (c ∷ chunks) = err io

  unfoldable pub read_indx_block_io : D → IndexAllocation → ℕ → Result (List ℕ)
  read_indx_block_io d ia vcn = do
    (buf, chunks) ← read_raw_indx_block_io d ia vcn
    magic ← slice buf 0 4
    if bytes_eq magic indx_magic
        then apply_fixup_on_read_magic buf ia.params.bytes_per_sector indx_magic
        else not_an_indx_record chunks

  -- `for touched in &chunks[..=i]`: every chunk is put back, also behind a failure. The answer says
  -- whether all of the writes succeeded.
  pub restore_chunks : D → List MappedChunk → List ℕ → D × Result Bool
  restore_chunks d [] previous = (d, ok true)
  restore_chunks d (c ∷ touched) previous = elim (slice previous c.cursor (c.cursor + c.len)) [
    | ok b ↦
        let (d1, written) = dev.write_all_at d c.disk_offset b in
        let (d2, rest) = restore_chunks d1 touched previous in
        (d2, (do others ← rest; ok (written && others)))
    | err e ↦ (d, err e)
    | fault ↦ (d, fault)
  ]

  -- What follows a write that failed: the chunks put back, a sync, and the error, which has one kind
  -- whatever failed.
  pub undo : D → List MappedChunk → List ℕ → D × Result (Unit {0})
  undo d touched previous =
      let (d1, restored) = restore_chunks d touched previous in
      elim restored [
        | ok all ↦ ((dev.sync d1).0, err io)
        | err e ↦ (d1, err e)
        | fault ↦ (d1, fault)
      ]

  -- The loop of `update_indx_block_io` and the sync behind it; `done` is `chunks[..i]`.
  unfoldable pub write_block :
      D → List MappedChunk → List MappedChunk → List ℕ → List ℕ → D × Result (Unit {0})
  write_block d done [] block previous =
      let (d', synced) = dev.sync d in (d', (if synced then ok tt else err io))
  write_block d done (c ∷ chunks) block previous = elim (slice block c.cursor (c.cursor + c.len)) [
    | ok b ↦
        let (d', written) = dev.write_all_at d c.disk_offset b in
        let reached = done ++ (c ∷ []) in
        if written then write_block d' reached chunks block previous else undo d' reached previous
    | err e ↦ (d, err e)
    | fault ↦ (d, fault)
  ]

  -- The block to write, the block before, and the chunks.
  unfoldable pub prepare_block :
      D
      → IndexAllocation
      → ℕ
      → (List ℕ → Result (List ℕ))
      → Result (List ℕ × List ℕ × List MappedChunk)
  prepare_block d ia vcn mutate = do
    (previous, chunks) ← read_raw_indx_block_io d ia vcn
    clean ← apply_fixup_on_read_magic previous ia.params.bytes_per_sector indx_magic
    changed ← mutate clean
    block ← apply_fixup_on_write_magic changed ia.params.bytes_per_sector indx_magic
    ok (block, previous, chunks)

  unfoldable pub update_indx_block_io :
      D → IndexAllocation → ℕ → (List ℕ → Result (List ℕ)) → D × Result (Unit {0})
  update_indx_block_io d ia vcn mutate = elim (prepare_block d ia vcn mutate) [
    | ok (block, previous, chunks) ↦ write_block d [] chunks block previous
    | err e ↦ (d, err e)
    | fault ↦ (d, fault)
  ]

  -- The loop of `write_indx_block_io`, with no sync and nothing put back.
  pub put_chunks : D → List MappedChunk → List ℕ → D × Result (Unit {0})
  put_chunks d [] block = (d, ok tt)
  put_chunks d (c ∷ chunks) block = elim (slice block c.cursor (c.cursor + c.len)) [
    | ok b ↦
        let (d', written) = dev.write_all_at d c.disk_offset b in
        let rest = put_chunks d' chunks block in if written then rest else (d', err io)
    | err e ↦ (d, err e)
    | fault ↦ (d, fault)
  ]

  -- What `write_indx_block_io` does before it writes.
  pub prepare_whole : D → IndexAllocation → ℕ → List ℕ → Result (List ℕ × List MappedChunk)
  prepare_whole d ia vcn clean = if not (length clean == ia.block_size) then err io else do
    chunks ← map_indx_block ia vcn (dev.size d)
    block ← apply_fixup_on_write_magic clean ia.params.bytes_per_sector indx_magic
    ok (block, chunks)

  pub write_indx_block_io : D → IndexAllocation → ℕ → List ℕ → D × Result (Unit {0})
  write_indx_block_io d ia vcn clean = elim (prepare_whole d ia vcn clean) [
    | ok (block, chunks) ↦ put_chunks d chunks block
    | err e ↦ (d, err e)
    | fault ↦ (d, fault)
  ]
