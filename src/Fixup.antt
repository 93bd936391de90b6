-- ===== src/Fixup.antt =====
-- The update sequence of multi-sector records: `apply_fixup_on_read_magic`,
-- `apply_fixup_on_write_magic` and their checks in src/mft_io.rs. A record is a list of bytes, and
-- every access is by index, so a panic of the source is a `fault` here.
pub mod Usa
pub mod Steps
pub mod Checks
pub mod Safety
pub mod RoundTrip
pub mod Lengths
mod Tests
pub mod Loops
use rust_fs_ntfs.Base.{ℕ, zero, suc, ◌+◌, ◌-◌, ◌*◌, ◌/◌, ◌%◌, ◌^◌, Bool, not, ◌&&◌, ◌||◌}
use rust_fs_ntfs.Base.{ltb, ◌==◌, if◌then◌else◌, List, [], ◌∷◌, length, take}
use rust_fs_ntfs.Base.{Result, ok, err, fault, io, ◌>>=◌, ok_or, index, store, read_le, bytes_eq}

-- `FILE_MAGIC`
abbrev pub file_magic : List ℕ
file_magic = b'F' ∷ b'I' ∷ b'L' ∷ b'E' ∷ []

abbrev pub sector_tail_bytes : ℕ
sector_tail_bytes = 2

abbrev pub off_usa_offset : ℕ
off_usa_offset = 0x04

abbrev pub off_usa_count : ℕ
off_usa_count = 0x06

-- The pair is (usa_offset, usa_count).
unfoldable pub read_usa_header : List ℕ → Result (ℕ × ℕ)
read_usa_header record' = if ltb (length record') 8 then err io else do
  usa_offset ← ok_or (read_le 2 record' off_usa_offset) io
  usa_count ← ok_or (read_le 2 record' off_usa_count) io
  if usa_count == 0 then err io else ok (usa_offset, usa_count)

-- The division panics on a sector size of 0. The sums of two `u16`s cannot overflow.
unfoldable pub validate_usa_geometry : ℕ → ℕ → ℕ → ℕ → Result (Unit {0})
validate_usa_geometry record_len bps usa_offset usa_count =
    if bps == 0
    then fault
    else if ltb record_len (usa_offset + usa_count * 2)
    then err io
    else if not (usa_count - 1 == record_len / bps)
    then err io
    else ok tt

-- The guards that both directions begin with; they give (usa_offset, sectors).
unfoldable pub check_record : List ℕ → ℕ → List ℕ → Result (ℕ × ℕ)
check_record record' bps magic =
    if ltb (length record') 4 || not (bytes_eq (take 4 record') magic) then err io else do
      (usa_offset, usa_count) ← read_usa_header record'
      _ ← validate_usa_geometry (length record') bps usa_offset usa_count
      ok (usa_offset, usa_count - 1)

-- The loop over the sectors when reading, `left` of them from `sector` on.
unfoldable pub read_sectors : ℕ → ℕ → ℕ → ℕ → ℕ → ℕ → List ℕ → Result (List ℕ)
read_sectors zero sector bps usa_offset usn0 usn1 record' = ok record'
read_sectors (suc left) sector bps usa_offset usn0 usn1 record' =
    let check = (sector + 1) * bps - sector_tail_bytes in
    let saved = usa_offset + 2 + sector * 2 in
    do
      c0 ← index record' check
      c1 ← index record' (check + 1)
      if not (c0 == usn0 && c1 == usn1) then err io else do
        s0 ← index record' saved
        r1 ← store record' check s0
        s1 ← index r1 (saved + 1)
        r2 ← store r1 (check + 1) s1
        read_sectors left (suc sector) bps usa_offset usn0 usn1 r2

unfoldable pub apply_fixup_on_read_magic : List ℕ → ℕ → List ℕ → Result (List ℕ)
apply_fixup_on_read_magic record' bps magic = do
  (usa_offset, sectors) ← check_record record' bps magic
  usn0 ← index record' usa_offset
  usn1 ← index record' (usa_offset + 1)
  read_sectors sectors 0 bps usa_offset usn0 usn1 record'

unfoldable pub apply_fixup_on_read : List ℕ → ℕ → Result (List ℕ)
apply_fixup_on_read record' bps = apply_fixup_on_read_magic record' bps file_magic

-- `match old_usn.wrapping_add(1) { 0 => 1, n => n }`
unfoldable pub next_usn : ℕ → ℕ
next_usn old = let n = (old + 1) % 2 ^ 16 in if n == 0 then 1 else n

-- The loop over the sectors when writing.
unfoldable pub write_sectors : ℕ → ℕ → ℕ → ℕ → ℕ → ℕ → List ℕ → Result (List ℕ)
write_sectors zero sector bps usa_offset usn0 usn1 record' = ok record'
write_sectors (suc left) sector bps usa_offset usn0 usn1 record' =
    let replace = (sector + 1) * bps - sector_tail_bytes in
    let saved = usa_offset + 2 + sector * 2 in
    do
      t0 ← index record' replace
      r1 ← store record' saved t0
      t1 ← index r1 (replace + 1)
      r2 ← store r1 (saved + 1) t1
      r3 ← store r2 replace usn0
      r4 ← store r3 (replace + 1) usn1
      write_sectors left (suc sector) bps usa_offset usn0 usn1 r4

unfoldable pub apply_fixup_on_write_magic : List ℕ → ℕ → List ℕ → Result (List ℕ)
apply_fixup_on_write_magic record' bps magic = do
  (usa_offset, sectors) ← check_record record' bps magic
  old0 ← index record' usa_offset
  old1 ← index record' (usa_offset + 1)
  let usn = next_usn (old0 + 256 * old1)
  r1 ← store record' usa_offset (usn % 256)
  r2 ← store r1 (usa_offset + 1) (usn / 256)
  write_sectors sectors 0 bps usa_offset (usn % 256) (usn / 256) r2

unfoldable pub apply_fixup_on_write : List ℕ → ℕ → Result (List ℕ)
apply_fixup_on_write record' bps = apply_fixup_on_write_magic record' bps file_magic
