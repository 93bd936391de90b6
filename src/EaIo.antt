-- ===== src/EaIo.antt =====
-- Extended attributes: src/ea_io.rs. The cursor of `decode` stands as the bytes from there on.
pub mod Layout
pub mod RoundTrip
pub mod Decode
pub mod Names
pub mod Record
mod Tests
use rust_fs_ntfs.AttrIo.{AttrLocation, find_attribute}
use rust_fs_ntfs.Base.{none, some}
use rust_fs_ntfs.Base.{
  ℕ, zero, suc, ◌+◌, ◌-◌, ◌*◌, ◌/◌, ◌%◌, ◌^◌, Bool, true, false, not, ◌&&◌, ◌||◌,
}
use rust_fs_ntfs.Base.{
  ltb, leb, ◌==◌, if◌then◌else◌, List, [], ◌∷◌, ◌++◌, map, length, drop, replicate,
}
use rust_fs_ntfs.Base.{
  Result, ok, err, fault, io, ◌>>=◌, or_fault, ok_or, index, slice, read_le, to_le,
}
use rust_fs_ntfs.Base.{bit_and, bytes_eq, checked_add}

-- `Ea`
pub record Ea : Type 0 where
  pub flags : ℕ
  pub name : List ℕ
  pub value : List ℕ

-- `FLAG_NEED_EA`
abbrev pub flag_need_ea : ℕ
flag_need_ea = 0x80

-- `(n + 3) & !3`: the mask clears the two low bits.
pub align4 : ℕ → ℕ
align4 n = (n + 3) / 4 * 4

pub entry_encoded_size : ℕ → ℕ → ℕ
entry_encoded_size name_len value_len = align4 (8 + name_len + 1 + value_len)

-- The loop of `packed_ea_length`.
pub packed_loop : List Ea → ℕ → Result ℕ
packed_loop [] total = ok total
packed_loop (ea ∷ eas) total =
    if ltb 254 (length ea.name)
    then err io
    else if ltb 0xffff (length ea.value)
    then err io
    else (do
      total' ← ok_or (checked_add total (4 + length ea.name + 1 + length ea.value)) io
      packed_loop eas total')

pub packed_ea_length : List Ea → Result ℕ
packed_ea_length eas = do total ← packed_loop eas 0; if ltb total (2 ^ 16) then ok total else err io

-- `while out.len() & 3 != 0 { out.push(0); }`, which ends after three rounds at most.
pub pad_loop : ℕ → List ℕ → List ℕ
pad_loop zero out = out
pad_loop (suc fuel) out =
    let more = pad_loop fuel (out ++ (0 ∷ [])) in if bit_and (length out) 3 == 0 then out else more

-- What one entry pushes before the padding.
pub entry_bytes : ℕ → Ea → List ℕ
entry_bytes next_off ea =
    to_le 4 (next_off % 2 ^ 32)
    ++ (ea.flags ∷ length ea.name % 256 ∷ to_le 2 (length ea.value % 2 ^ 16))
    ++ ea.name
    ++ (0 ∷ ea.value)

-- The loop of `encode`; the last entry has the offset 0.
pub encode_loop : List Ea → List ℕ → Result (List ℕ)
encode_loop [] out = ok out
encode_loop (ea ∷ eas) out =
    let entry_len = entry_encoded_size (length ea.name) (length ea.value) in
    let next_off = if length eas == 0 then 0 else entry_len in
    let more = encode_loop eas (pad_loop 3 (out ++ entry_bytes next_off ea)) in
    if ltb 254 (length ea.name)
    then err io
    else if ltb 0xffff (length ea.value)
    then err io
    else more

pub encode : List Ea → Result (List ℕ)
encode eas = encode_loop eas []

-- The entry at the cursor, and its `next_off`.
pub decode_entry : List ℕ → Result (Ea × ℕ)
decode_entry bytes = do
  next_off ← or_fault (read_le 4 bytes 0)
  flags ← index bytes 4
  name_len ← index bytes 5
  value_len ← or_fault (read_le 2 bytes 6)
  if ltb (length bytes) (8 + name_len + 1 + value_len) then err io else (do
    name ← slice bytes 8 (8 + name_len)
    value ← slice bytes (8 + name_len + 1) (8 + name_len + 1 + value_len)
    ok (record { flags = flags; name = name; value = value }, next_off))

-- `while cursor + 8 <= bytes.len()`. Each round moves the cursor by 8 bytes at least.
pub decode_loop : ℕ → List ℕ → Result (List Ea)
decode_loop zero bytes = if leb 8 (length bytes) then fault else ok []
decode_loop (suc fuel) bytes =
    let round = (do
      (ea, next_off) ← decode_entry bytes
      let more = (do eas ← decode_loop fuel (drop next_off bytes); ok (ea ∷ eas))
      if next_off == 0
          then ok (ea ∷ [])
          else if ltb next_off 8 || ltb (length bytes) next_off
          then err io
          else more) in
    if leb 8 (length bytes) then round else ok []

pub decode : List ℕ → Result (List Ea)
decode bytes = decode_loop (length bytes) bytes

pub count_need_ea : List Ea → ℕ
count_need_ea [] = 0
count_need_ea (ea ∷ eas) =
    let rest = count_need_ea eas in if bit_and ea.flags flag_need_ea == 0 then rest else suc rest

pub build_ea_information_value : ℕ → ℕ → ℕ → List ℕ
build_ea_information_value packed need query = to_le 2 packed ++ to_le 2 need ++ to_le 4 query

-- `u8::to_ascii_lowercase`
pub ascii_lower : ℕ → ℕ
ascii_lower b = if leb 65 b && leb b 90 then b + 32 else b

-- `eq_ignore_ascii_case`
pub eq_ignore_ascii_case : List ℕ → List ℕ → Bool
eq_ignore_ascii_case a b = bytes_eq (map ascii_lower a) (map ascii_lower b)

pub upsert : List Ea → Ea → List Ea
upsert [] entry = entry ∷ []
upsert (e ∷ list) entry =
    let rest = upsert list entry in
    if eq_ignore_ascii_case e.name entry.name then entry ∷ list else e ∷ rest

-- `list.retain(..)`
pub retain_others : List Ea → List ℕ → List Ea
retain_others [] name = []
retain_others (e ∷ list) name =
    let rest = retain_others list name in
    if eq_ignore_ascii_case e.name name then rest else e ∷ rest

-- The list left, and whether an entry was removed.
pub remove_by_name : List Ea → List ℕ → List Ea × Bool
remove_by_name list name =
    let left = retain_others list name in (left, not (length left == length list))

-- `AttrType::ExtendedAttribute`
abbrev pub extended_attribute : ℕ
extended_attribute = 0xe0

pub read_from_record : List ℕ → Result (List Ea)
read_from_record bytes = do
  found ← find_attribute bytes extended_attribute
  elim found [
    | none ↦ ok []
    | some ea ↦ if not ea.is_resident then err io else do
      val_off ← ok_or ea.resident_value_offset io
      val_len ← ok_or ea.resident_value_length io
      let start = ea.attr_offset + val_off
      value ← slice bytes start (start + val_len)
      decode value
  ]
