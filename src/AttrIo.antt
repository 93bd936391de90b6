-- ===== src/AttrIo.antt =====
-- The attributes of an MFT record: src/attr_io.rs. `next` takes the cursor as an argument; the
-- iterator's new cursor is the end of the attribute it yields.
pub mod Located
pub mod Found
mod Tests
use rust_fs_ntfs.Base.{
  ℕ, zero, suc, ◌+◌, ◌*◌, ◌%◌, min, Bool, true, false, not, ◌&&◌, ◌||◌, ltb, ◌==◌,
}
use rust_fs_ntfs.Base.{if◌then◌else◌, List, [], ◌∷◌, length, get_or, drop, Option, none, some}
use mathlib.Core.Option
use rust_fs_ntfs.Base.{Result, ok, err, fault, ◌>>=◌, index, slice, read_le, checked_add}

-- `AttrLocation`
pub record AttrLocation : Type 0 where
  pub type_code : ℕ
  pub attr_offset : ℕ
  pub attr_length : ℕ
  pub is_resident : Bool
  pub name_length : ℕ
  pub name_offset : ℕ
  pub attribute_id : ℕ
  pub resident_value_offset : Option ℕ
  pub resident_value_length : Option ℕ
  pub non_resident_value_length : Option ℕ
  pub non_resident_mapping_pairs_offset : Option ℕ

-- `END_MARKER`
abbrev pub end_marker : ℕ
end_marker = 0xffffffff

-- `o?` in a function that returns an option: `none` returns.
abbrev pub on_some {ℓ κ} :
    {A : Type ℓ} {B : Type κ} → Option A → (A → Result (Option B)) → Result (Option B)
on_some none f = ok none
on_some (some a) f = f a

-- The smallest header of an attribute.
abbrev pub header_size : Bool → ℕ
header_size true = 0x40
header_size false = 0x18

-- Whether a name, where there is one, ends outside the attribute.
pub name_outside : ℕ → ℕ → ℕ → Bool
name_outside name_length name_offset length =
    not (name_length == 0) && ltb length (name_offset + name_length * 2)

-- `loc.resident_value_length = ..; loc.resident_value_offset = ..;`
pub with_resident : AttrLocation → ℕ → ℕ → AttrLocation
with_resident loc value_length value_offset = record {
  type_code = loc.type_code;
  attr_offset = loc.attr_offset;
  attr_length = loc.attr_length;
  is_resident = loc.is_resident;
  name_length = loc.name_length;
  name_offset = loc.name_offset;
  attribute_id = loc.attribute_id;
  resident_value_offset = some value_offset;
  resident_value_length = some value_length;
  non_resident_value_length = loc.non_resident_value_length;
  non_resident_mapping_pairs_offset = loc.non_resident_mapping_pairs_offset;
}

-- `loc.non_resident_value_length = ..; loc.non_resident_mapping_pairs_offset = ..;`
pub with_mapping : AttrLocation → ℕ → ℕ → AttrLocation
with_mapping loc value_length mapping_pairs_offset = record {
  type_code = loc.type_code;
  attr_offset = loc.attr_offset;
  attr_length = loc.attr_length;
  is_resident = loc.is_resident;
  name_length = loc.name_length;
  name_offset = loc.name_offset;
  attribute_id = loc.attribute_id;
  resident_value_offset = loc.resident_value_offset;
  resident_value_length = loc.resident_value_length;
  non_resident_value_length = some value_length;
  non_resident_mapping_pairs_offset = some mapping_pairs_offset;
}

-- The fields of a resident value, or of the mapping pairs: the last part of `next`.
pub with_value : List ℕ → Bool → AttrLocation → Result (Option AttrLocation)
with_value bytes false loc = on_some (read_le 4 bytes (loc.attr_offset + 0x10)) (λ value_length.
    on_some (read_le 2 bytes (loc.attr_offset + 0x14)) (λ value_offset.
      on_some (checked_add value_offset value_length) (λ value_end.
        if ltb value_offset 0x18 || ltb loc.attr_length value_end
        then ok none
        else ok (some (with_resident loc value_length value_offset)))))
with_value bytes true loc =
    on_some (read_le 2 bytes (loc.attr_offset + 0x20)) (λ mapping_pairs_offset.
      if ltb mapping_pairs_offset 0x40 || ltb loc.attr_length mapping_pairs_offset
      then ok none
      else on_some (read_le 8 bytes (loc.attr_offset + 0x30))
          (λ value_length. ok (some (with_mapping loc value_length mapping_pairs_offset))))

-- The part of `next` behind the check of the header's size.
pub with_names : List ℕ → ℕ → ℕ → ℕ → Bool → Result (Option AttrLocation)
with_names bytes cursor type_code len non_resident = do
  name_length ← index bytes (cursor + 0x09)
  on_some (read_le 2 bytes (cursor + 0x0a)) (λ name_offset.
      on_some (read_le 2 bytes (cursor + 0x0e)) (λ attribute_id.
        if name_outside name_length name_offset len
        then ok none
        else with_value bytes non_resident (record {
          type_code = type_code;
          attr_offset = cursor;
          attr_length = len;
          is_resident = not non_resident;
          name_length = name_length;
          name_offset = name_offset;
          attribute_id = attribute_id;
          resident_value_offset = none;
          resident_value_length = none;
          non_resident_value_length = none;
          non_resident_mapping_pairs_offset = none;
        })))

-- The part of `next` behind the check of the length.
pub with_header : List ℕ → ℕ → ℕ → ℕ → Result (Option AttrLocation)
with_header bytes cursor type_code len = do
  form ← index bytes (cursor + 0x08)
  let non_resident = not (form == 0)
  if ltb len (header_size non_resident)
      then ok none
      else with_names bytes cursor type_code len non_resident

-- `AttrIter::next`: what it yields. The state behind is the cursor plus the length yielded.
pub next : List ℕ → ℕ → ℕ → Result (Option AttrLocation)
next bytes cursor end =
    if ltb end (cursor + 4)
    then ok none
    else on_some (read_le 4 bytes cursor) (λ type_code.
      if type_code == end_marker
      then ok none
      else if ltb end (cursor + 16)
      then ok none
      else on_some (read_le 4 bytes (cursor + 4)) (λ len.
        if len == 0 || not (len % 8 == 0) || ltb end (cursor + len)
        then ok none
        else with_header bytes cursor type_code len))

-- `AttrIter::new`: the first cursor and the end.
pub attrs_offset : List ℕ → ℕ
attrs_offset bytes = elim (read_le 2 bytes 0x14) [ none ↦ 0 | some n ↦ n ]

pub bytes_used : List ℕ → ℕ
bytes_used bytes = min (elim (read_le 4 bytes 0x18) [ none ↦ 0 | some n ↦ n ]) (length bytes)

-- What the iterator yields from a cursor on. An attribute has 24 bytes at least.
pub attributes_from : ℕ → List ℕ → ℕ → ℕ → Result (List AttrLocation)
attributes_from zero bytes cursor end = fault
attributes_from (suc fuel) bytes cursor end = do
  found ← next bytes cursor end
  elim found [
    | none ↦ ok []
    | some loc ↦ do
      locs ← attributes_from fuel bytes (cursor + loc.attr_length) end
      ok (loc ∷ locs)
  ]

pub iter_attributes : List ℕ → Result (List AttrLocation)
iter_attributes bytes =
    attributes_from (suc (length bytes)) bytes (attrs_offset bytes) (bytes_used bytes)

-- `Iterator::find` with the test of `find_attribute` for no name. The iterator neither fails nor
-- changes anything, so that the search may look at its whole list.
unfoldable pub find_unnamed : List AttrLocation → ℕ → Option AttrLocation
find_unnamed [] type_code = none
find_unnamed (loc ∷ locs) type_code =
    let rest = find_unnamed locs type_code in
    if loc.type_code == type_code && loc.name_length == 0 then some loc else rest

-- `find_attribute(record, type_code, None)`
unfoldable pub find_attribute : List ℕ → ℕ → Result (Option AttrLocation)
find_attribute bytes type_code = do locs ← iter_attributes bytes; ok (find_unnamed locs type_code)

pub resident_value_start : AttrLocation → Option ℕ
resident_value_start loc = Option.map (λ off. loc.attr_offset + off) loc.resident_value_offset
