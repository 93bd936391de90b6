-- ===== src/IdxBlock/Tests.antt =====
-- A block of 16 bytes in two runs of a device in memory.
use rust_fs_ntfs.Base.{
  ℕ, ◌+◌, ◌*◌, ◌<◌, ◌^◌, ◌≡◌, refl, List, [], ◌∷◌, ◌++◌, length, replicate, min, some, Result, ok,
  err, io, store, arith, IoOr,
}
use mathlib.Core.Path.{subst}
use rust_fs_ntfs.Base.{
  ◌≤◌, ◌∙◌, sym, inl, ◌⊎◌, byte_at, ok-injective, index, store, read_le, slice, bytes_eq, replicate,
  ◌++◌,
}
use rust_fs_ntfs.Fixup.{
  apply_fixup_on_read_magic, apply_fixup_on_write_magic, check_record, read_usa_header,
  validate_usa_geometry, read_sectors, write_sectors, next_usn,
}
use rust_fs_ntfs.Fixup.Loops.{saved_at}
use rust_fs_ntfs.Fixup.RoundTrip.{IsLaidOut}
use rust_fs_ntfs.Bitmap.Device.{read_chunks}
use rust_fs_ntfs.Bitmap.Device.Contents.{Apart}
use rust_fs_ntfs.Bitmap.Memory.{memory_reads}
use rust_fs_ntfs.IdxBlock.{indx_magic}
use rust_fs_ntfs.IdxBlock.Device.{
  read_indx_block_io, read_raw_indx_block_io, prepare_block, write_block,
}
use rust_fs_ntfs.IdxBlock.Device.ReadBack.{read_indx_block_io-update}
use rust_fs_ntfs.Fixup.Lengths.{KeepsLength}
use rust_fs_ntfs.Base.{store-eq-ok}
use rust_fs_ntfs.DataRuns.{DataRun}
use rust_fs_ntfs.Bitmap.{MappedChunk, volume_bytes, cluster_span, bit_is_set}
use rust_fs_ntfs.Bitmap.Mapped.{Tiles}
use rust_fs_ntfs.Bitmap.Memory.{memory, memory_contents, memory-IsFaithful}
use rust_fs_ntfs.IdxBlock.{
  IndexAllocation, map_indx_block, block_loop, block_chunk, bytes_in_run, find_mapped, run_holds,
  check_declared_block_extent, vcn_to_disk_offset, allocated_block_vcns, vcns_from, vcns_of_byte,
}
use rust_fs_ntfs.IdxBlock.Mapped.{map_indx_block-Tiles}
use rust_fs_ntfs.IdxBlock.Whole.{whole_chunk, vcn_to_disk_offset-map_indx_block}
use rust_fs_ntfs.IdxBlock.Device.{update_indx_block_io}
use rust_fs_ntfs.IdxBlock.Device.Update.{Updated, update_indx_block_io-Updated}

abbrev small_index : IndexAllocation
small_index = record {
  params = record {
    bytes_per_sector = 16;
    sectors_per_cluster = 1;
    cluster_size = 4;
    mft_lcn = 1;
    file_record_size = 16;
    total_sectors = 4;
    serial_number = 0;
    index_block_size = 16;
    oem_id = [];
  };
  block_size = 16;
  runs =
      record { starting_vcn = 0; length = 3; lcn = some 2 }
      ∷ record { starting_vcn = 3; length = 6; lcn = some 8 }
      ∷ [];
  bitmap = 3 ∷ [];
  data_length = 32;
}

-- An empty block as it lies on the device, with the first update sequence number.
abbrev block_tail : List ℕ
block_tail = 8 ∷ 0 ∷ 2 ∷ 0 ∷ 1 ∷ 0 ∷ 0 ∷ 0 ∷ []

abbrev small_device : List ℕ
small_device =
    replicate 8 0
    ++ (0x49 ∷ 0x4e ∷ 0x44 ∷ 0x58 ∷ block_tail)
    ++ replicate 12 0
    ++ (0 ∷ 0 ∷ 1 ∷ 0 ∷ [])
    ++ replicate 28 0

two_chunks :
    map_indx_block small_index 0 64
    ≡ ok (
        record { disk_offset = 8; cursor = 0; len = 12 }
        ∷ record { disk_offset = 32; cursor = 12; len = 4 }
        ∷ [])
unfolding map_indx_block block_loop block_chunk bytes_in_run find_mapped run_holds
    check_declared_block_extent cluster_span volume_bytes
two_chunks = refl

-- The block at VCN 4 lies in one run; that at VCN 0 does not.
in_one_run : vcn_to_disk_offset small_index 4 64 ≡ ok 36
unfolding vcn_to_disk_offset find_mapped run_holds check_declared_block_extent cluster_span
    volume_bytes
in_one_run = refl

across_two_runs : vcn_to_disk_offset small_index 0 64 ≡ err io
unfolding vcn_to_disk_offset find_mapped run_holds check_declared_block_extent cluster_span
    volume_bytes
across_two_runs = refl

blocks_in_use : allocated_block_vcns small_index ≡ ok (0 ∷ 4 ∷ [])
unfolding allocated_block_vcns vcns_from vcns_of_byte bit_is_set
blocks_in_use = refl

run_fits :
    (r : DataRun)
    → find_mapped small_index.runs 4 ≡ some r
    → (r.starting_vcn + r.length) * 4 < 2 ^ 64
unfolding find_mapped run_holds
run_fits r e =
    let second : DataRun = record { starting_vcn = 3; length = 6; lcn = some 8 } in
    let same : second ≡ r = cc in rw (← same) (omega arith)

map_indx_block-Tiles_example :
    IoOr (Tiles (min (volume_bytes small_index.params) 64) 0 16) (map_indx_block small_index 0 64)
map_indx_block-Tiles_example = map_indx_block-Tiles small_index 0 64

vcn_to_disk_offset-map_indx_block_example :
    map_indx_block small_index 4 64 ≡ ok (whole_chunk small_index 36 ∷ [])
vcn_to_disk_offset-map_indx_block_example =
    vcn_to_disk_offset-map_indx_block small_index 4 64 36 (omega arith) (omega arith) run_fits
      in_one_run

-- A change of one byte.
abbrev change_byte : List ℕ → Result (List ℕ)
change_byte r = store r 13 7

change_byte-KeepsLength : (r : List ℕ) → KeepsLength (length r) (change_byte r)
unfolding KeepsLength
change_byte-KeepsLength r = λ x e. store-eq-ok r 13 7 e

update_indx_block_io-Updated_example :
    Updated memory memory_contents memory-IsFaithful small_device small_index 0 change_byte
      (update_indx_block_io memory small_device small_index 0 change_byte)
update_indx_block_io-Updated_example =
    update_indx_block_io-Updated memory memory_contents memory-IsFaithful small_device small_index 0
      change_byte change_byte-KeepsLength

-- The block with its sector's end restored, the block with the byte changed, and the device after it.
abbrev block_with : ℕ → List ℕ
block_with b = 0x49 ∷ 0x4e ∷ 0x44 ∷ 0x58 ∷ 8 ∷ 0 ∷ 2 ∷ 0 ∷ 1 ∷ 0 ∷ 0 ∷ 0 ∷ 0 ∷ b ∷ 0 ∷ 0 ∷ []

abbrev device_after : List ℕ
device_after =
    replicate 8 0
    ++ (0x49 ∷ 0x4e ∷ 0x44 ∷ 0x58 ∷ 8 ∷ 0 ∷ 2 ∷ 0 ∷ 2 ∷ 0 ∷ 0 ∷ 0 ∷ [])
    ++ replicate 12 0
    ++ (0 ∷ 7 ∷ 2 ∷ 0 ∷ [])
    ++ replicate 28 0

block_read : read_indx_block_io memory small_device small_index 0 ≡ ok (block_with 0)
unfolding read_indx_block_io read_raw_indx_block_io read_chunks map_indx_block block_loop
    block_chunk bytes_in_run find_mapped run_holds check_declared_block_extent cluster_span
    volume_bytes apply_fixup_on_read_magic check_record read_usa_header validate_usa_geometry
    read_sectors index store read_le slice bytes_eq
block_read = refl

block_updated :
    update_indx_block_io memory small_device small_index 0 change_byte ≡ (device_after, ok tt)
unfolding update_indx_block_io prepare_block write_block read_raw_indx_block_io read_chunks
    map_indx_block block_loop block_chunk bytes_in_run find_mapped run_holds
    check_declared_block_extent cluster_span volume_bytes apply_fixup_on_read_magic
    apply_fixup_on_write_magic check_record read_usa_header validate_usa_geometry read_sectors
    write_sectors next_usn index store read_le slice bytes_eq
block_updated = refl

byte_changed : change_byte (block_with 0) ≡ ok (block_with 7)
unfolding store
byte_changed = refl

block-IsLaidOut : IsLaidOut (block_with 7) 16 indx_magic 8 1
unfolding read_le
block-IsLaidOut = record {
  accepted = record {
    magic_fits = refl;
    long = omega arith;
    offset = refl;
    count = refl;
    inside = omega arith;
    covers = refl;
    wide = omega arith;
  };
  behind_header = omega arith;
  clear = omega arith;
}

chunks-Apart :
    (chunks : List MappedChunk) → map_indx_block small_index 0 64 ≡ ok chunks → Apart chunks
chunks-Apart chunks e =
    let both : List MappedChunk =
      record { disk_offset = 8; cursor = 0; len = 12 }
      ∷ record { disk_offset = 32; cursor = 12; len = 4 }
      ∷ [] in
    let same : both ≡ chunks = ok-injective (sym two_chunks ∙ e) in
    subst Apart same ((inl (omega arith), tt), (tt, tt))

read_indx_block_io-update_example :
    (x : List ℕ) × (read_indx_block_io memory device_after small_index 0 ≡ ok x)
    × (length x ≡ length (block_with 7))
    × ((j : ℕ) → (j < 8) ⊎ (saved_at 8 1 ≤ j) → byte_at x j ≡ byte_at (block_with 7) j)
read_indx_block_io-update_example =
    read_indx_block_io-update memory memory_contents memory-IsFaithful small_device device_after
      small_index 0 change_byte (block_with 0) (block_with 7) 8 1 change_byte-KeepsLength
      chunks-Apart block_read byte_changed block-IsLaidOut block_updated refl
      (memory_reads device_after)
