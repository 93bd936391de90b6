-- ===== src/Bitmap/Device.antt =====
-- The part of src/bitmap.rs that reads and writes the device. The device is a parameter: what
-- `BlockIo` does is not in the model, but for the size of what a read gives. A read leaves the
-- state of the device alone; a write and a sync give a state, and whether they succeeded.
pub mod Buffer
pub mod Safety
pub mod Contents
pub mod Read
mod Tests
use rust_fs_ntfs.Base.{
  ℕ, zero, suc, ◌+◌, ◌-◌, ◌*◌, ◌/◌, ◌%◌, ◌^◌, Bool, true, false, ltb, leb, ◌==◌, if◌then◌else◌,
}
use rust_fs_ntfs.Base.{List, [], ◌∷◌, ◌++◌, length, take, drop, replicate, Option, none, some}
use rust_fs_ntfs.Base.{Result, ok, err, fault, io, ◌>>=◌, ok_or, index, slice, checked_add}
use rust_fs_ntfs.Bitmap.{
  BitmapLocation, MappedChunk, map_bitmap_range, mutate_loop, bit_is_set, bytes_for,
}
use rust_fs_ntfs.Bitmap.{covers_the_volumes_own}

-- `BlockIo` of src/block_io.rs.
pub record BlockIo (D : Type 0) : Type 0 where
  pub read_exact_at : D → ℕ → ℕ → Option (List ℕ)
  pub write_all_at : D → ℕ → List ℕ → D × Bool
  pub sync : D → D × Bool
  pub size : D → ℕ

module _ {D : Type 0} (dev : BlockIo D) where
  -- `io.read_exact_at(c.disk_offset, &mut out[c.cursor..c.cursor + c.len])` for every chunk.
  unfoldable pub read_chunks : D → List MappedChunk → List ℕ → Result (List ℕ)
  read_chunks d [] out = ok out
  read_chunks d (c ∷ chunks) out =
      let more = (do
        b ← ok_or (dev.read_exact_at d c.disk_offset c.len) io
        read_chunks d chunks (take c.cursor out ++ (b ++ drop (c.cursor + c.len) out))) in
      if ltb (length out) (c.cursor + c.len) then fault else more

  unfoldable pub read_bitmap_bytes_io : D → BitmapLocation → ℕ → ℕ → Result (List ℕ)
  read_bitmap_bytes_io d bm start_byte len = do
    chunks ← map_bitmap_range bm start_byte len (dev.size d)
    read_chunks d chunks (replicate len 0)

  -- The chunks that were written or may be, put back; a failure ends the loop. The sync is made
  -- in any case, and the outcome is an error.
  pub rollback : D → List MappedChunk → List ℕ → D × Result (Unit {0})
  rollback d [] previous = ((dev.sync d).0, err io)
  rollback d (c ∷ chunks) previous = elim (slice previous c.cursor (c.cursor + c.len)) [
    | ok b ↦
        let (d', written) = dev.write_all_at d c.disk_offset b in
        if written then rollback d' chunks previous else ((dev.sync d').0, err io)
    | err e ↦ (d, err e)
    | fault ↦ (d, fault)
  ]

  -- The loop of `write_bitmap_bytes_io`; `done` is `chunks[..i]`.
  pub write_chunks :
      D → List MappedChunk → List MappedChunk → List ℕ → List ℕ → D × Result (Unit {0})
  write_chunks d done [] bytes previous =
      let (d', synced) = dev.sync d in (d', (if synced then ok tt else err io))
  write_chunks d done (c ∷ chunks) bytes previous = elim (slice bytes c.cursor (c.cursor + c.len)) [
    | ok b ↦
        let (d', written) = dev.write_all_at d c.disk_offset b in
        let reached = done ++ (c ∷ []) in
        if written
        then write_chunks d' reached chunks bytes previous
        else rollback d' reached previous
    | err e ↦ (d, err e)
    | fault ↦ (d, fault)
  ]

  -- The assertion on the lengths panics in a debug build.
  pub write_bitmap_bytes_io : D → BitmapLocation → ℕ → List ℕ → List ℕ → D × Result (Unit {0})
  write_bitmap_bytes_io d bm start_byte bytes previous =
      if length bytes == length previous
      then (elim (map_bitmap_range bm start_byte (length bytes) (dev.size d)) [
        | ok chunks ↦ write_chunks d [] chunks bytes previous
        | err e ↦ (d, err e)
        | fault ↦ (d, fault)
      ])
      else (d, fault)

  -- What `mutate_bits_io` does before it writes: the bytes to write and the bytes before.
  pub prepare : D → BitmapLocation → ℕ → ℕ → Bool → Result (List ℕ × List ℕ)
  prepare d bm lcn n set = do
    last ← ok_or (checked_add lcn n) io
    if ltb bm.total_bits last then err io else (do
      bytes ← read_bitmap_bytes_io d bm (lcn / 8) (bytes_for last - lcn / 8)
      bytes' ← mutate_loop n (lcn - lcn / 8 * 8) set bytes
      ok (bytes', bytes))

  pub mutate_bits_io : D → BitmapLocation → ℕ → ℕ → Bool → D × Result (Unit {0})
  mutate_bits_io d bm lcn n set = if n == 0 then (d, ok tt) else elim (prepare d bm lcn n set) [
    | ok (bytes, before) ↦ write_bitmap_bytes_io d bm (lcn / 8) bytes before
    | err e ↦ (d, err e)
    | fault ↦ (d, fault)
  ]

  pub allocate_io : D → BitmapLocation → ℕ → ℕ → D × Result (Unit {0})
  allocate_io d bm lcn n = mutate_bits_io d bm lcn n true

  pub free_io : D → BitmapLocation → ℕ → ℕ → D × Result (Unit {0})
  free_io d bm lcn n =
      if covers_the_volumes_own bm lcn n then (d, err io) else mutate_bits_io d bm lcn n false

  pub is_allocated_io : D → BitmapLocation → ℕ → Result Bool
  is_allocated_io d bm lcn = if leb bm.total_bits lcn then err io else (do
    bytes ← read_bitmap_bytes_io d bm (lcn / 8) 1
    byte ← index bytes 0
    ok (bit_is_set byte (lcn % 8)))
