-- ===== src/AttrResize/Tests.antt =====
-- A record of 96 bytes with one empty resident attribute, and an attribute to insert.
use rust_fs_ntfs.Base.{length}
use rust_fs_ntfs.Base.{
  ℕ, ◌+◌, ◌-◌, ◌≡◌, refl, List, [], ◌∷◌, ◌++◌, replicate, ok, err, no_space, fault, index, read_le,
  splice, arith,
}
use rust_fs_ntfs.Base.{patch, copy_within, zero_range, slice}
use rust_fs_ntfs.AttrResize.{
  align_up_8, grow, resize_resident_value, set_resident_value, insert_attribute_sorted,
  replace_attribute, check_new_attribute, scan_loop, first_greater, pos_or, put_attribute,
  report_no_room,
}
use rust_fs_ntfs.AttrResize.Resize.{ResidentAt}
use rust_fs_ntfs.AttrResize.Value.{
  SetOutcome, set_resident_value_lem, resize_resident_value-ResidentAt,
}
use rust_fs_ntfs.AttrResize.Position.{Chain, stop, attr, insert_type}
use rust_fs_ntfs.AttrResize.Sorted.{
  Listed, IsAttr, InsertOutcome, insert_attribute_sorted_lem, Ascending,
  insert_attribute_sorted-Ascending,
}
use rust_fs_ntfs.AttrResize.Replace.{AttrAt, ReplaceOutcome, replace_attribute_lem}

-- The header, with 64 of 96 bytes used.
abbrev header : ℕ → List ℕ
header used = replicate 20 0 ++ (32 ∷ 0 ∷ 0 ∷ 0 ∷ used ∷ 0 ∷ 0 ∷ 0 ∷ 96 ∷ 0 ∷ 0 ∷ 0 ∷ [])

-- A resident attribute of 24 bytes with a value of no bytes.
abbrev attribute : ℕ → List ℕ
attribute t =
    t ∷ 0 ∷ 0 ∷ 0 ∷ 24 ∷ 0 ∷ 0 ∷ 0 ∷ 0 ∷ 0 ∷ 0 ∷ 0 ∷ 0 ∷ 0 ∷ 0 ∷ 0 ∷ 0 ∷ 0 ∷ 0 ∷ 0 ∷ 24 ∷ 0 ∷ 0 ∷ 0
    ∷ []

abbrev marker : List ℕ
marker = 0xff ∷ 0xff ∷ 0xff ∷ 0xff ∷ 0 ∷ 0 ∷ 0 ∷ 0 ∷ []

abbrev record_one : List ℕ
record_one = header 64 ++ attribute 0x80 ++ marker ++ replicate 32 0

-- The record with the value 7, 9.
abbrev record_grown : List ℕ
record_grown =
    header 72
    ++ (0x80
        ∷ 0
        ∷ 0
        ∷ 0
        ∷ 32
        ∷ 0
        ∷ 0
        ∷ 0
        ∷ 0
        ∷ 0
        ∷ 0
        ∷ 0
        ∷ 0
        ∷ 0
        ∷ 0
        ∷ 0
        ∷ 2
        ∷ 0
        ∷ 0
        ∷ 0
        ∷ 24
        ∷ 0
        ∷ 0
        ∷ 0
        ∷ replicate 8 0)
    ++ marker
    ++ replicate 24 0

abbrev record_two : List ℕ
record_two = header 88 ++ attribute 0x30 ++ attribute 0x80 ++ marker ++ replicate 8 0

resize_one : resize_resident_value record_one 32 2 ≡ ok record_grown
unfolding resize_resident_value grow index read_le patch copy_within zero_range align_up_8 splice
    slice
resize_one = refl

insert_two : insert_attribute_sorted record_one (attribute 0x30) ≡ ok record_two
unfolding insert_attribute_sorted check_new_attribute scan_loop first_greater pos_or put_attribute
    index read_le patch copy_within zero_range splice slice
insert_two = refl

too_long : resize_resident_value record_one 32 60 ≡ err no_space
unfolding resize_resident_value grow index read_le patch copy_within zero_range align_up_8 splice
    slice
too_long = refl

-- More is used than allocated: the message of the error cannot be written.
abbrev overfull : List ℕ
overfull =
    replicate 20 0 ++ (32 ∷ 0 ∷ 0 ∷ 0 ∷ 97 ∷ 0 ∷ 0 ∷ 0 ∷ 96 ∷ 0 ∷ 0 ∷ 0 ∷ []) ++ replicate 64 0

overfull_panics : insert_attribute_sorted overfull (attribute 0x30) ≡ fault
unfolding insert_attribute_sorted check_new_attribute report_no_room read_le slice
overfull_panics = refl

record_one-ResidentAt : ResidentAt record_one 32 24 24 64 96
unfolding read_le
record_one-ResidentAt = record {
  form = refl;
  length_field = refl;
  offset_field = refl;
  used_field = refl;
  allocated_field = refl;
  behind_header = omega arith;
  long = omega arith;
  value_behind = omega arith;
  inside = omega arith;
  used_inside = omega arith;
  allocated_inside = omega arith;
  small = omega arith;
}

record_one-AttrAt : AttrAt record_one 32 24 64 96
unfolding read_le
record_one-AttrAt = record {
  length_field = refl;
  used_field = refl;
  allocated_field = refl;
  behind_header = omega arith;
  inside = omega arith;
  used_inside = omega arith;
  allocated_inside = omega arith;
  small = omega arith;
}

record_one-Chain : Chain record_one 32 (0x80 ∷ []) 56
unfolding read_le
record_one-Chain =
    attr 32 0x80 24 [] 56 refl (λ e. omega arith) (λ e. omega arith) refl (omega arith) (stop 56)

record_one-Listed : Listed record_one 32 (0x80 ∷ []) 56 64 96
unfolding read_le
record_one-Listed = record {
  attrs_field = refl;
  used_field = refl;
  allocated_field = refl;
  chain = record_one-Chain;
  marker = refl;
  behind_header = omega arith;
  marked = omega arith;
  used_inside = omega arith;
  allocated_inside = omega arith;
  small = omega arith;
}

attribute-IsAttr : IsAttr (attribute 0x30) 0x30
unfolding read_le
attribute-IsAttr = record {
  type_field = refl;
  live = λ e. omega arith;
  used = λ e. omega arith;
  length_field = refl;
  aligned = refl;
  long = omega arith;
}

attribute_checked : check_new_attribute (attribute 0x30) ≡ ok tt
unfolding check_new_attribute read_le
attribute_checked = refl

resize_resident_value-ResidentAt_example :
    ResidentAt record_grown 32 (align_up_8 26) 24 (64 + (32 + align_up_8 26) - (32 + 24)) 96
resize_resident_value-ResidentAt_example =
    resize_resident_value-ResidentAt record_one record_grown 32 24 24 64 96 2 record_one-ResidentAt
      (omega arith) resize_one

set_resident_value_lem_example :
    SetOutcome record_one 32 24 24 64 96
      (7 ∷ 9 ∷ [])
      (set_resident_value record_one 32 (7 ∷ 9 ∷ []))
set_resident_value_lem_example =
    set_resident_value_lem record_one 32 24 24 64 96 (7 ∷ 9 ∷ []) record_one-ResidentAt
      (omega arith)

insert_attribute_sorted_lem_example :
    InsertOutcome record_one 32
      (0x80 ∷ [])
      56
      64
      96
      (attribute 0x30)
      0x30
      (insert_attribute_sorted record_one (attribute 0x30))
insert_attribute_sorted_lem_example =
    insert_attribute_sorted_lem record_one 32 (0x80 ∷ []) 56 64 96 (attribute 0x30) 0x30
      record_one-Listed attribute-IsAttr

types_ascend : Ascending (0x80 ∷ [])
unfolding Ascending
types_ascend = tt

insert_attribute_sorted-Ascending_example :
    Listed record_two 32 (insert_type 0x30 (0x80 ∷ [])) 80 88 96
    × Ascending (insert_type 0x30 (0x80 ∷ []))
    × (length record_two ≡ length record_one)
insert_attribute_sorted-Ascending_example =
    insert_attribute_sorted-Ascending record_one record_two 32 (0x80 ∷ []) 56 64 96 (attribute 0x30)
      0x30 record_one-Listed types_ascend attribute-IsAttr insert_two

replace_attribute_lem_example :
    ReplaceOutcome record_one 32 24 64 96
      (attribute 0x30)
      (replace_attribute record_one 32 (attribute 0x30))
replace_attribute_lem_example =
    replace_attribute_lem record_one 32 24 64 96 (attribute 0x30) record_one-AttrAt
      attribute_checked
