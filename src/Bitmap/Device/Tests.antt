-- ===== src/Bitmap/Device/Tests.antt =====
-- An allocation on a device in memory.
use rust_fs_ntfs.Base.{◌≡◌, ◌≢◌, refl, arith, true, All}
use rust_fs_ntfs.DataRuns.Lookup.{RunEnds}
use rust_fs_ntfs.Base.{◌∷◌, ◌++◌, replicate, ok, fault}
use rust_fs_ntfs.Base.{index, store, slice}
use rust_fs_ntfs.Bitmap.{map_bitmap_range, map_loop, map_chunk}
use rust_fs_ntfs.Bitmap.{
  find_run, remaining_after, cluster_span, volume_bytes, mutate_loop, set_bit,
}
use rust_fs_ntfs.Bitmap.{bit_is_set}
use rust_fs_ntfs.Bitmap.Device.{allocate_io, free_io, mutate_bits_io, prepare}
use rust_fs_ntfs.Bitmap.Device.{
  read_bitmap_bytes_io, write_bitmap_bytes_io, read_chunks, write_chunks,
}
use rust_fs_ntfs.Bitmap.Device.Safety.{Outcome, mutate_bits_io-Outcome, mutate_bits_io-ne-fault}
use rust_fs_ntfs.Bitmap.Memory.{small_bitmap, memory, memory-FillsBuffer, blank}

-- Clusters 6 to 9 are in two bytes.
allocate_four :
    allocate_io memory blank small_bitmap 6 4
    ≡ (replicate 8 0 ++ (0xc0 ∷ 0x03 ∷ replicate 6 0), ok tt)
unfolding allocate_io mutate_bits_io prepare read_bitmap_bytes_io write_bitmap_bytes_io read_chunks
    write_chunks map_bitmap_range map_loop map_chunk find_run remaining_after cluster_span
    volume_bytes mutate_loop set_bit bit_is_set index store slice
allocate_four = refl

mutate_bits_io-Outcome_example :
    Outcome memory blank small_bitmap 6 4 true (mutate_bits_io memory blank small_bitmap 6 4 true)
mutate_bits_io-Outcome_example =
    mutate_bits_io-Outcome memory memory-FillsBuffer blank small_bitmap 6 4 true (omega arith)

mutate_bits_io-ne-fault_example :
    All RunEnds small_bitmap.runs
    × ((allocate_io memory blank small_bitmap 6 4).1 ≢ fault)
    × ((free_io memory blank small_bitmap 6 4).1 ≢ fault)
mutate_bits_io-ne-fault_example =
    mutate_bits_io-ne-fault memory memory-FillsBuffer blank small_bitmap 6 4 (omega arith)
      (omega arith)
