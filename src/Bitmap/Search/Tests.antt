-- ===== src/Bitmap/Search/Tests.antt =====
-- Searches on a blank bitmap of 16 clusters.
use rust_fs_ntfs.Base.{◌≡◌, refl, arith, none, some, ok, index}
use rust_fs_ntfs.Bitmap.{
  map_bitmap_range, map_loop, map_chunk, find_run, remaining_after, cluster_span, volume_bytes,
  bit_is_set,
}
use rust_fs_ntfs.Bitmap.Device.{read_bitmap_bytes_io, read_chunks}
use rust_fs_ntfs.Bitmap.Memory.{small_bitmap, memory, blank, memory-FillsBuffer}
use rust_fs_ntfs.Bitmap.Search.{find_free_run_io, pass_loop, scan_bits, start_of, longer}
use rust_fs_ntfs.Bitmap.Search.Sound.{Found, find_free_run_io-Found}

find_five : find_free_run_io memory blank small_bitmap 5 8 ≡ ok (some 8)
unfolding find_free_run_io pass_loop scan_bits start_of longer read_bitmap_bytes_io read_chunks
    map_bitmap_range map_loop map_chunk find_run remaining_after cluster_span volume_bytes
    bit_is_set index
find_five = refl

-- The clusters on the two sides of the hint are free, but they are not joined.
find_ten_across_hint : find_free_run_io memory blank small_bitmap 10 8 ≡ ok none
unfolding find_free_run_io pass_loop scan_bits start_of longer read_bitmap_bytes_io read_chunks
    map_bitmap_range map_loop map_chunk find_run remaining_after cluster_span volume_bytes
    bit_is_set index
find_ten_across_hint = refl

find_free_run_io-Found_example :
    Found memory blank small_bitmap 5 (find_free_run_io memory blank small_bitmap 5 8)
find_free_run_io-Found_example =
    find_free_run_io-Found memory memory-FillsBuffer blank small_bitmap 5 8 (omega arith)
