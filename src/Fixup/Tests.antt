-- ===== src/Fixup/Tests.antt =====
-- The update sequence of a small record: two sectors of 16 bytes, the array at offset 8.
use rust_fs_ntfs.Base.{
  ℕ, ◌+◌, ◌/◌, ◌%◌, ◌≤◌, ◌<◌, ◌≡◌, ◌≢◌, refl, arith, ◌⊎◌, List, [], ◌∷◌, length,
}
use rust_fs_ntfs.Base.{ok, fault, byte_at, index, store, read_le, bytes_eq}
use rust_fs_ntfs.Fixup.{apply_fixup_on_read_magic, apply_fixup_on_write_magic, file_magic}
use rust_fs_ntfs.Fixup.{check_record, read_usa_header, validate_usa_geometry, read_sectors}
use rust_fs_ntfs.Fixup.{write_sectors, next_usn}
use rust_fs_ntfs.Fixup.Usa.{tail_at}
use rust_fs_ntfs.Fixup.Loops.{saved_at}
use rust_fs_ntfs.Fixup.Safety.{apply_fixup_on_read-ne-fault}
use rust_fs_ntfs.Fixup.RoundTrip.{IsLaidOut, usn_after, read-write, read-EndsInUsn}

abbrev file_record : List ℕ
file_record =
    b'F' ∷ b'I' ∷ b'L' ∷ b'E' ∷ 8 ∷ 0 ∷ 3 ∷ 0 ∷ 7 ∷ 0 ∷ 0 ∷ 0 ∷ 0 ∷ 0 ∷ 21 ∷ 22 ∷ 31 ∷ 32 ∷ 33 ∷ 34
    ∷ 35 ∷ 36 ∷ 37 ∷ 38 ∷ 39 ∷ 40 ∷ 41 ∷ 42 ∷ 43 ∷ 44 ∷ 45 ∷ 46 ∷ []

abbrev on_disk : List ℕ
on_disk =
    b'F' ∷ b'I' ∷ b'L' ∷ b'E' ∷ 8 ∷ 0 ∷ 3 ∷ 0 ∷ 8 ∷ 0 ∷ 21 ∷ 22 ∷ 45 ∷ 46 ∷ 8 ∷ 0 ∷ 31 ∷ 32 ∷ 33
    ∷ 34 ∷ 35 ∷ 36 ∷ 37 ∷ 38 ∷ 39 ∷ 40 ∷ 41 ∷ 42 ∷ 43 ∷ 44 ∷ 8 ∷ 0 ∷ []

write_file_record : apply_fixup_on_write_magic file_record 16 file_magic ≡ ok on_disk
unfolding apply_fixup_on_write_magic check_record read_usa_header validate_usa_geometry
    write_sectors next_usn index store read_le bytes_eq
write_file_record = refl

-- A sector size of 0 reaches the division.
read_sector_size_zero : apply_fixup_on_read_magic file_record 0 file_magic ≡ fault
unfolding apply_fixup_on_read_magic check_record read_usa_header validate_usa_geometry read_sectors
    index store read_le bytes_eq
read_sector_size_zero = refl

file_record-IsLaidOut : IsLaidOut file_record 16 file_magic 8 2
unfolding read_le
file_record-IsLaidOut = record {
  accepted = record {
    magic_fits = refl;
    long = omega arith;
    offset = refl;
    count = refl;
    inside = omega arith;
    covers = refl;
    wide = omega arith;
  };
  behind_header = omega arith;
  clear = omega arith;
}

on_disk-IsLaidOut : IsLaidOut on_disk 16 file_magic 8 2
unfolding read_le
on_disk-IsLaidOut = record {
  accepted = record {
    magic_fits = refl;
    long = omega arith;
    offset = refl;
    count = refl;
    inside = omega arith;
    covers = refl;
    wide = omega arith;
  };
  behind_header = omega arith;
  clear = omega arith;
}

read_on_disk : (x : List ℕ) × (apply_fixup_on_read_magic on_disk 16 file_magic ≡ ok x)
unfolding apply_fixup_on_read_magic check_record read_usa_header validate_usa_geometry read_sectors
    index store read_le bytes_eq
read_on_disk = (_, refl)

read-write_example :
    (w x : List ℕ) × (apply_fixup_on_write_magic file_record 16 file_magic ≡ ok w)
    × ((k : ℕ)
        → k < 2
        → (byte_at w (tail_at 16 k) ≡ usn_after file_record 8 % 256)
          × (byte_at w (tail_at 16 k + 1) ≡ usn_after file_record 8 / 256))
    × (apply_fixup_on_read_magic w 16 file_magic ≡ ok x)
    × (length x ≡ length file_record)
    × ((j : ℕ) → (j < 8) ⊎ (saved_at 8 2 ≤ j) → byte_at x j ≡ byte_at file_record j)
read-write_example = read-write file_record 16 file_magic 8 2 file_record-IsLaidOut

read-EndsInUsn_example :
    (byte_at on_disk (tail_at 16 1) ≡ byte_at on_disk 8)
    × (byte_at on_disk (tail_at 16 1 + 1) ≡ byte_at on_disk 9)
read-EndsInUsn_example =
    read-EndsInUsn on_disk 16 file_magic 8 2 on_disk-IsLaidOut read_on_disk.0 read_on_disk.1 1
      (omega arith)

apply_fixup_on_read-ne-fault_example : apply_fixup_on_read_magic file_record 16 file_magic ≢ fault
apply_fixup_on_read-ne-fault_example =
    apply_fixup_on_read-ne-fault file_record 16 file_magic (omega arith)
