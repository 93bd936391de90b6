-- ===== src/AttrResize/Value.antt =====
-- The value of a resident attribute after `set_resident_value_typed` of src/attr_resize.rs, and the
-- layout that its operations keep.
use rust_fs_ntfs.Base.{ℕ, ◌+◌, ◌-◌, ◌%◌, ◌^◌, ◌≤◌, ◌<◌, ◌≡◌, refl, sym, ◌∙◌, inl, inr}
use rust_fs_ntfs.Base.{List, length, Result, ok, err, no_space, arith, byte_at}
use rust_fs_ntfs.Base.{
  splice, patch_lem, get_le, bytes_between, get_le-splice_apart, get_le_same, take-drop-splice,
}
use rust_fs_ntfs.AttrResize.{
  bytes_allocated_at, align_up_8, resize_resident_value, set_resident_value,
}
use rust_fs_ntfs.AttrResize.Resize.{
  ResidentAt, Resized, resized, no_room, align_up_8-bounds, resize_resident_value_lem,
}

pub Resized-ResidentAt :
    (r r' : List ℕ) (a old vo used allocated n : ℕ)
    → ResidentAt r a old vo used allocated
    → Resized r r' a old (align_up_8 (vo + n)) used n
    → ResidentAt r' a
        (align_up_8 (vo + n))
        vo
        (used + (a + align_up_8 (vo + n)) - (a + old))
        allocated
Resized-ResidentAt r r' a old vo used allocated n at it =
    let new : ℕ = align_up_8 (vo + n) in
    let (up, near) = align_up_8-bounds (vo + n) in
    let long : 0x18 ≤ new = omega (arith, at.value_behind) in
    record {
      form = it.kept 8 (omega (arith, at.long)) (inr (inl (omega arith, omega arith))) ∙ at.form;
      length_field = it.length_now;
      offset_field =
          get_le_same 2 r r' (a + 0x14) it.same_size (λ i lo hi. kept_at long i lo hi)
          ∙ at.offset_field;
      used_field = it.used_now;
      allocated_field =
          get_le_same 4 r r' bytes_allocated_at it.same_size
            (λ i lo hi. it.before i (omega (arith, at.behind_header)) (inr lo))
          ∙ at.allocated_field;
      behind_header = at.behind_header;
      long = long;
      value_behind = at.value_behind;
      inside = omega (arith, at.inside);
      used_inside = omega (arith, it.same_size, it.fits);
      allocated_inside = omega (arith, it.same_size, at.allocated_inside);
      small = omega (arith, it.same_size, at.small);
    }
  where
    kept_at :
        0x18 ≤ align_up_8 (vo + n)
        → (i : ℕ) → a + 0x14 ≤ i
        → i < a + 0x14 + 2
        → byte_at r' i ≡ byte_at r i
    kept_at long i lo hi =
        let e : a + (i - a) ≡ i = omega arith in
        rw (sym e) (it.kept (i - a) (omega (arith, at.long)) (inr (inr (omega arith))))

-- A resize that succeeds keeps the layout of the record: the attribute has its new length, its value
-- the same offset, the record its new number of used bytes and the same number of allocated bytes,
-- and the attribute lies inside the used bytes, these inside the record.
pub resize_resident_value-ResidentAt :
    (r r' : List ℕ) (a old vo used allocated n : ℕ)
    → ResidentAt r a old vo used allocated
    → vo + n + 8 ≤ 2 ^ 32
    → resize_resident_value r a n ≡ ok r'
    → ResidentAt r' a
        (align_up_8 (vo + n))
        vo
        (used + (a + align_up_8 (vo + n)) - (a + old))
        allocated
resize_resident_value-ResidentAt r r' a old vo used allocated n at small h =
    elim (resize_resident_value_lem r a old vo used allocated n at small) [
      | resized r1 done it ↦
          let e : r1 ≡ r' = cc in
          Resized-ResidentAt r r' a old vo used allocated n at (rw (sym e) it)
      | no_room refused over ↦ absurd cc
    ]

-- What setting a value gives: the record resized, with the value at its offset, or the error of no
-- room.
pub data SetOutcome (r : List ℕ) (a old vo used allocated : ℕ) (v : List ℕ) (m : Result (List ℕ))
    : Type 0 where
  value_set :
      (r1 : List ℕ)
      → m ≡ ok (splice r1 (a + vo) v)
      → Resized r r1 a old (align_up_8 (vo + length v)) used (length v)
      → get_le 2 (splice r1 (a + vo) v) (a + 0x14) ≡ ok vo
      → get_le 4 (splice r1 (a + vo) v) (a + 0x10) ≡ ok (length v)
      → bytes_between (splice r1 (a + vo) v) (a + vo) (a + vo + length v) ≡ v
      → SetOutcome r a old vo used allocated v m
  refused :
      m ≡ err no_space
      → allocated + old < used + align_up_8 (vo + length v)
      → SetOutcome r a old vo used allocated v m

-- Setting the value of a resident attribute, with the value and its header at most 2^32 - 8 bytes,
-- gives the error of no room only when the bytes used would exceed those allocated, and else a record
-- in which the attribute's value, read by the offset and the length of its header, is the new value;
-- the record is the resized one with the value written.
pub set_resident_value_lem :
    (r : List ℕ) (a old vo used allocated : ℕ) (v : List ℕ)
    → ResidentAt r a old vo used allocated
    → vo + length v + 8 ≤ 2 ^ 32
    → SetOutcome r a old vo used allocated v (set_resident_value r a v)
unfolding set_resident_value
set_resident_value_lem r a old vo used allocated v at small =
    let e : length v % 2 ^ 32 ≡ length v = omega arith in
    rw e (elim (resize_resident_value_lem r a old vo used allocated (length v) at small) [
      | no_room none_left over ↦ rw none_left (refused refl over)
      | resized r1 done it ↦
          let layout = Resized-ResidentAt r r1 a old vo used allocated (length v) at it in
          let (up, near) = align_up_8-bounds (vo + length v) in
          let fits : a + vo + length v ≤ length r1 =
            omega (arith, up, layout.inside, layout.used_inside) in
          let size : a + vo + length v - (a + vo) ≡ length v = omega arith in
          rw (done, layout.offset_field)
            (value_set r1 (patch_lem r1 (a + vo) v fits) it
              (get_le-splice_apart 2 r1 (a + vo) v (a + 0x14) (inl (omega (arith, at.value_behind)))
                ∙ layout.offset_field)
              (get_le-splice_apart 4 r1 (a + vo) v (a + 0x10) (inl (omega (arith, at.value_behind)))
                ∙ it.value_length_now)
              (rw size (take-drop-splice r1 (a + vo) v fits)))
    ])
