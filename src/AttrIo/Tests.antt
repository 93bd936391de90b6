-- ===== src/AttrIo/Tests.antt =====
-- A record with one empty resident attribute.
use rust_fs_ntfs.Base.{
  ℕ, ◌≤◌, ◌≡◌, refl, true, List, [], ◌∷◌, ◌++◌, length, replicate, some, none, ok, index, read_le,
}
use rust_fs_ntfs.AttrIo.{
  AttrLocation, iter_attributes, attributes_from, next, with_header, with_names,
}
use rust_fs_ntfs.AttrIo.{
  with_value, with_resident, with_mapping, name_outside, attrs_offset, bytes_used,
}
use rust_fs_ntfs.AttrIo.Located.{Located, iter_attributes-Located}

abbrev small_record : List ℕ
small_record =
    replicate 20 0
    ++ (32 ∷ 0 ∷ 0 ∷ 0 ∷ 60 ∷ 0 ∷ 0 ∷ 0 ∷ 0 ∷ 0 ∷ 0 ∷ 0 ∷ 0x80 ∷ 0 ∷ 0 ∷ 0 ∷ 24 ∷ 0 ∷ 0 ∷ 0 ∷ 0 ∷ 0
        ∷ 0 ∷ 0 ∷ 0 ∷ 0 ∷ 1 ∷ 0 ∷ 0 ∷ 0 ∷ 0 ∷ 0 ∷ 24 ∷ 0 ∷ 0 ∷ 0 ∷ 0xff ∷ 0xff ∷ 0xff ∷ 0xff ∷ [])

abbrev only_attribute : AttrLocation
only_attribute = record {
  type_code = 0x80;
  attr_offset = 32;
  attr_length = 24;
  is_resident = true;
  name_length = 0;
  name_offset = 0;
  attribute_id = 1;
  resident_value_offset = some 24;
  resident_value_length = some 0;
  non_resident_value_length = none;
  non_resident_mapping_pairs_offset = none;
}

iter_small : iter_attributes small_record ≡ ok (only_attribute ∷ [])
unfolding iter_attributes attributes_from next with_header with_names with_value with_resident
    with_mapping name_outside attrs_offset bytes_used index read_le
iter_small = refl

iter_attributes-Located_example :
    (locs : List AttrLocation) × (iter_attributes small_record ≡ ok locs)
    × (bytes_used small_record ≤ length small_record)
    × Located (bytes_used small_record) (attrs_offset small_record) locs
iter_attributes-Located_example = iter_attributes-Located small_record
