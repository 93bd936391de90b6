-- ===== src/AttrResize.antt =====
-- Changing the attributes of an MFT record in place: src/attr_resize.rs. An operation takes the
-- bytes of the record and gives the bytes it leaves; it changes nothing when it fails. The typed
-- error `ResidentResizeError::Capacity` always holds an error of kind `no_space`, and `Other` holds
-- one of kind `io`, so that the kind tells them apart.
pub mod Shift
pub mod Resize
pub mod Value
pub mod Position
pub mod Insert
pub mod Sorted
pub mod Replace
mod Tests
use rust_fs_ntfs.Base.{
  ℕ, zero, suc, ◌+◌, ◌-◌, ◌*◌, ◌/◌, ◌%◌, ◌^◌, min, Bool, true, false, not, ◌&&◌, ◌||◌,
}
use rust_fs_ntfs.Base.{
  ltb, leb, ◌==◌, if◌then◌else◌, is_none, List, [], ◌∷◌, length, Option, none, some,
}
use rust_fs_ntfs.Base.{Result, ok, err, fault, io, no_space, ◌>>=◌, ◌>>◌, ok_or, index, replicate}
use rust_fs_ntfs.Base.{patch, copy_within, zero_range, put_le, get_le}

-- `REC_OFF_BYTES_USED`, `REC_OFF_BYTES_ALLOCATED`
abbrev pub bytes_used_at : ℕ
bytes_used_at = 0x18

abbrev pub bytes_allocated_at : ℕ
bytes_allocated_at = 0x1c

-- `(n + 7) & !7`: the mask clears the three low bits.
pub align_up_8 : ℕ → ℕ
align_up_8 n = (n + 7) / 8 * 8

-- The branch of a longer attribute: what follows the attribute moves up, and the gap is zeroed.
pub grow : List ℕ → ℕ → ℕ → ℕ → ℕ → Result (List ℕ)
grow bytes start diff used allocated = if ltb allocated (used + diff) then err no_space else do
  r1 ← copy_within bytes start used (start + diff)
  r2 ← zero_range r1 start (start + diff)
  put_le 4 r2 bytes_used_at (used + diff)

-- The branch of a shorter attribute: what follows moves down, and the tail is zeroed. If the
-- copy does not panic, the attribute ends inside `used`, and no subtraction goes below 0.
pub shrink : List ℕ → ℕ → ℕ → ℕ → Result (List ℕ)
shrink bytes start diff used = do
  r1 ← copy_within bytes start used (start - diff)
  r2 ← zero_range r1 (used - diff) used
  put_le 4 r2 bytes_used_at (used - diff)

-- `resize_resident_value_typed`
pub resize_resident_value : List ℕ → ℕ → ℕ → Result (List ℕ)
resize_resident_value bytes attr_offset new_value_length = do
  form ← index bytes (attr_offset + 0x08)
  if not (form == 0) then err io else do
    old_len ← get_le 4 bytes (attr_offset + 0x04)
    value_offset ← get_le 2 bytes (attr_offset + 0x14)
    let new_len = align_up_8 (value_offset + new_value_length)
    if new_len == old_len then put_le 4 bytes (attr_offset + 0x10) new_value_length else do
      used ← get_le 4 bytes bytes_used_at
      allocated ← get_le 4 bytes bytes_allocated_at
      r1 ←
          (if ltb old_len new_len
            then grow bytes (attr_offset + old_len) (new_len - old_len) used allocated
            else shrink bytes (attr_offset + old_len) (old_len - new_len) used)
      r2 ← put_le 4 r1 (attr_offset + 0x04) new_len
      put_le 4 r2 (attr_offset + 0x10) new_value_length

-- `set_resident_value_typed`
pub set_resident_value : List ℕ → ℕ → List ℕ → Result (List ℕ)
set_resident_value bytes attr_offset new_value = do
  r1 ← resize_resident_value bytes attr_offset (length new_value % 2 ^ 32)
  value_offset ← get_le 2 r1 (attr_offset + 0x14)
  patch r1 (attr_offset + value_offset) new_value

-- The checks on a whole new attribute: its length, and that its header has it.
pub check_new_attribute : List ℕ → Result (Unit {0})
check_new_attribute new_attr =
    if length new_attr == 0 || not (length new_attr % 8 == 0) then err io else do
      header_len ← get_le 4 new_attr 4
      if header_len == length new_attr then ok tt else err io

-- What `replace_attribute` does to the bytes behind the attribute.
pub make_room : List ℕ → ℕ → ℕ → ℕ → ℕ → ℕ → Result (List ℕ)
make_room bytes attr_offset old_len new_len used allocated =
    if ltb old_len new_len
    then (if ltb allocated (used + (new_len - old_len)) then err no_space else do
      r1 ←
          copy_within bytes (attr_offset + old_len) used
            (attr_offset + old_len + (new_len - old_len))
      put_le 4 r1 bytes_used_at (used + (new_len - old_len)))
    else if ltb new_len old_len
    then shrink bytes (attr_offset + old_len) (old_len - new_len) used
    else ok bytes

pub replace_attribute : List ℕ → ℕ → List ℕ → Result (List ℕ)
replace_attribute bytes attr_offset new_attr = do
  check_new_attribute new_attr
  old_len ← get_le 4 bytes (attr_offset + 0x04)
  used ← get_le 4 bytes bytes_used_at
  allocated ← get_le 4 bytes bytes_allocated_at
  r1 ← make_room bytes attr_offset old_len (length new_attr) used allocated
  patch r1 attr_offset new_attr

-- Where the scan for the insertion point ends: the end marker, and the first attribute with a
-- greater type.
pub record AttrScan : Type 0 where
  pub end_marker_pos : Option ℕ
  pub insert_pos : Option ℕ

abbrev pub ended : Option ℕ → Option ℕ → Result AttrScan
ended end_marker_pos insert_pos =
    let scan : AttrScan = record { end_marker_pos = end_marker_pos; insert_pos = insert_pos } in
    ok scan

-- `if insert_pos.is_none() && type_code > new_type { insert_pos = Some(cursor); }`
pub first_greater : Option ℕ → ℕ → ℕ → ℕ → Option ℕ
first_greater insert_pos type_code new_type cursor =
    if is_none insert_pos && ltb new_type type_code then some cursor else insert_pos

-- `while cursor + 4 <= scan_end`. Each round moves the cursor by a byte at least.
pub scan_loop : ℕ → List ℕ → ℕ → ℕ → ℕ → Option ℕ → Result AttrScan
scan_loop zero bytes cursor scan_end new_type insert_pos =
    if ltb scan_end (cursor + 4) then ended none insert_pos else fault
scan_loop (suc fuel) bytes cursor scan_end new_type insert_pos =
    let round = (do
      type_code ← get_le 4 bytes cursor
      let insert_pos' = first_greater insert_pos type_code new_type cursor
      let rest = (do
        attr_len ← get_le 4 bytes (cursor + 4)
        if attr_len == 0 || ltb scan_end (cursor + attr_len)
            then ended none insert_pos'
            else scan_loop fuel bytes (cursor + attr_len) scan_end new_type insert_pos')
      if type_code == 0xffffffff
          then ended (some cursor) insert_pos
          else if type_code == 0
          then ended none insert_pos
          else rest) in
    if ltb scan_end (cursor + 4) then ended none insert_pos else round

-- `insert_pos.unwrap_or(end_marker_pos)`
pub pos_or : Option ℕ → ℕ → ℕ
pos_or none end = end
pos_or (some p) end = p

-- The gap is opened, zeroed and filled.
pub put_attribute : List ℕ → ℕ → ℕ → List ℕ → Result (List ℕ)
put_attribute bytes pos used new_attr = do
  r1 ← copy_within bytes pos used (pos + length new_attr)
  r2 ← zero_range r1 pos (pos + length new_attr)
  r3 ← patch r2 pos new_attr
  put_le 4 r3 bytes_used_at (used + length new_attr)

-- The error that there is no room for the attribute. Its message subtracts the bytes used from the
-- bytes allocated, and panics, where overflow is checked, when more is used than allocated.
pub report_no_room : ℕ → ℕ → Result (List ℕ)
report_no_room used allocated = if ltb allocated used then fault else err no_space

-- `insert_attribute_sorted_typed`
pub insert_attribute_sorted : List ℕ → List ℕ → Result (List ℕ)
insert_attribute_sorted bytes new_attr = do
  check_new_attribute new_attr
  used ← get_le 4 bytes bytes_used_at
  allocated ← get_le 4 bytes bytes_allocated_at
  if ltb allocated (used + length new_attr) then report_no_room used allocated else do
    new_type ← get_le 4 new_attr 0
    attrs_offset ← get_le 2 bytes 0x14
    let scan_end = min used (length bytes - 4)
    scan ← scan_loop (suc scan_end) bytes attrs_offset scan_end new_type none
    end_marker_pos ← ok_or scan.end_marker_pos io
    put_attribute bytes (pos_or scan.insert_pos end_marker_pos) used new_attr

-- The record with the next identifier, and the identifier taken.
pub allocate_attribute_id : List ℕ → Result (List ℕ × ℕ)
allocate_attribute_id bytes = do
  cur ← get_le 2 bytes 0x28
  r1 ← put_le 2 bytes 0x28 ((cur + 1) % 2 ^ 16)
  ok (r1, cur)
