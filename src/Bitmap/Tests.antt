-- ===== src/Bitmap/Tests.antt =====
-- A byte range of a small bitmap, and a change of four bits.
use rust_fs_ntfs.Base.{◌≡◌, ◌≢◌, arith, min}
use rust_fs_ntfs.Base.{List, All, ok, fault}
use rust_fs_ntfs.DataRuns.Lookup.{RunEnds}
use rust_fs_ntfs.Bitmap.{MappedChunk, map_bitmap_range}
use rust_fs_ntfs.Bitmap.{volume_bytes}
use rust_fs_ntfs.Bitmap.Mapped.{Tiles, map_bitmap_range-Tiles}
use rust_fs_ntfs.Bitmap.Memory.{small_bitmap}

map_bitmap_range-Tiles_example :
    All RunEnds small_bitmap.runs
    × (map_bitmap_range small_bitmap 1 2 16 ≢ fault)
    × ((chunks : List MappedChunk)
        → map_bitmap_range small_bitmap 1 2 16 ≡ ok chunks
        → Tiles (min (volume_bytes small_bitmap.params) 16) 0 2 chunks)
map_bitmap_range-Tiles_example =
    map_bitmap_range-Tiles small_bitmap 1 2 16 (omega arith) (omega arith) (omega arith)
