-- ===== src/Mft/Tests.antt =====
-- Records of a small volume in memory.
use rust_fs_ntfs.Base.{ℕ, ◌≡◌, refl, List, ◌∷◌, ◌++◌, [], replicate, length, ok, Result}
use rust_fs_ntfs.Base.{store, store-eq-ok, get_le, read_le, slice, bytes_eq, index}
use rust_fs_ntfs.Fixup.{
  apply_fixup_on_read, apply_fixup_on_write, apply_fixup_on_read_magic, apply_fixup_on_write_magic,
  check_record, read_usa_header, validate_usa_geometry, read_sectors, write_sectors, next_usn,
}
use rust_fs_ntfs.Fixup.Lengths.{KeepsLength}
use rust_fs_ntfs.Mft.Safety.{read_mft_record_io-ne-fault}
use rust_fs_ntfs.Base.{fault, ◌≢◌}
use rust_fs_ntfs.Mft.{read_mft_record_io}
use rust_fs_ntfs.Bitmap.Memory.{memory-FillsBuffer, memory, memory_contents, memory-IsFaithful}
use rust_fs_ntfs.Boot.{
  parse_boot_params_from_bytes, mft_record_offset, sectors_of, record_size_of, index_block_size_of,
  saturating_u64, is_power_of_two,
}
use rust_fs_ntfs.Mft.{
  sync_mftmirr_record_io, next_sequence, update_mft_record_io, prepare_record, change_record,
  read_boot_params_io, mft_record_offset_maybe_io, write_and_sync, record_flags, is_free,
  check_record_header, check_lengths,
}
use rust_fs_ntfs.Mft.Mirror.{Mirrored, sync_mftmirr_record_io-Mirrored}
use rust_fs_ntfs.Mft.Update.{Recorded, update_mft_record_io-Recorded}

-- A boot sector with sectors and clusters of 512 bytes, five of them, the MFT in cluster 1 and records
-- of 512 bytes.
abbrev boot_sector : List ℕ
boot_sector =
    replicate 11 0
    ++ (0 ∷ 2 ∷ 1 ∷ [])
    ++ replicate 26 0
    ++ (5 ∷ 0 ∷ [])
    ++ replicate 6 0
    ++ (1 ∷ [])
    ++ replicate 15 0
    ++ (247 ∷ 0 ∷ 0 ∷ 0 ∷ 1 ∷ [])
    ++ replicate 443 0

-- The unnamed `$DATA` with one run of `clusters` clusters from `lcn` on.
abbrev data_attribute : ℕ → ℕ → List ℕ
data_attribute clusters lcn =
    (0x80 ∷ 0 ∷ 0 ∷ 0 ∷ 0x48 ∷ 0 ∷ 0 ∷ 0 ∷ 1 ∷ 0 ∷ 0x40 ∷ 0 ∷ [])
    ++ replicate 20 0
    ++ (0x40 ∷ [])
    ++ replicate 31 0
    ++ (0x11 ∷ clusters ∷ lcn ∷ [])
    ++ replicate 5 0

-- A record in use, with its update sequence array at 0x30.
abbrev record_with : List ℕ → List ℕ
record_with attribute =
    (0x46 ∷ 0x49 ∷ 0x4c ∷ 0x45 ∷ 0x30 ∷ 0 ∷ 2 ∷ 0 ∷ [])
    ++ replicate 8 0
    ++ (1 ∷ 0 ∷ 1 ∷ 0 ∷ 0x38 ∷ 0 ∷ 1 ∷ 0 ∷ 0x88 ∷ 0 ∷ 0 ∷ 0 ∷ 0 ∷ 2 ∷ 0 ∷ 0 ∷ [])
    ++ replicate 16 0
    ++ (1 ∷ 0 ∷ 0 ∷ 0 ∷ 0 ∷ 0 ∷ 0 ∷ 0 ∷ [])
    ++ attribute
    ++ replicate 4 255
    ++ replicate 378 0
    ++ (1 ∷ 0 ∷ [])

-- `$MFT` with records 0 and 1, and `$MFTMirr` with the mirror in clusters 3 and 4.
abbrev volume : List ℕ
volume =
    boot_sector
    ++ record_with (data_attribute 2 1)
    ++ record_with (data_attribute 2 3)
    ++ replicate 1024 0

abbrev set_byte : List ℕ → Result (List ℕ)
set_byte r = store r 100 7

set_byte-KeepsLength : (r : List ℕ) → KeepsLength (length r) (set_byte r)
unfolding KeepsLength
set_byte-KeepsLength r = λ x e. store-eq-ok r 100 7 e

sequence_wraps : next_sequence 65535 ≡ 1
unfolding next_sequence
sequence_wraps = refl

record_rewritten : (update_mft_record_io memory volume 0 set_byte).1 ≡ ok tt
unfolding update_mft_record_io prepare_record write_and_sync change_record read_boot_params_io
    mft_record_offset_maybe_io record_flags is_free check_record_header check_lengths
    parse_boot_params_from_bytes mft_record_offset sectors_of record_size_of index_block_size_of
    saturating_u64 is_power_of_two apply_fixup_on_read apply_fixup_on_write
    apply_fixup_on_read_magic apply_fixup_on_write_magic check_record read_usa_header
    validate_usa_geometry read_sectors write_sectors next_usn store read_le get_le slice bytes_eq
    index
record_rewritten = refl

update_mft_record_io-Recorded_example :
    Recorded memory memory_contents memory-IsFaithful volume 1 set_byte
      (update_mft_record_io memory volume 1 set_byte)
update_mft_record_io-Recorded_example =
    update_mft_record_io-Recorded memory memory_contents memory-IsFaithful volume 1 set_byte
      set_byte-KeepsLength

sync_mftmirr_record_io-Mirrored_example :
    Mirrored memory memory_contents memory-IsFaithful volume 1
      (sync_mftmirr_record_io memory volume 1)
sync_mftmirr_record_io-Mirrored_example =
    sync_mftmirr_record_io-Mirrored memory memory_contents memory-IsFaithful volume 1

read_mft_record_io-ne-fault_example : read_mft_record_io memory volume 1 ≢ fault
read_mft_record_io-ne-fault_example = read_mft_record_io-ne-fault memory memory-FillsBuffer volume 1
