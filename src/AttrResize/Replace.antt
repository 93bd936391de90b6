-- ===== src/AttrResize/Replace.antt =====
-- A record after `replace_attribute` of src/attr_resize.rs.
use rust_fs_ntfs.Base.{ℕ, ◌+◌, ◌-◌, ◌^◌, ◌≤◌, ◌<◌, ◌≡◌, refl, sym, ap, ◌∙◌, inl, inr}
use rust_fs_ntfs.Base.{true, false, ltb, List, length, to_le, length-to_le}
use rust_fs_ntfs.Base.{
  Result, ok, err, no_space, arith, byte_at, get_le, get_le-splice_apart, splice, length-splice,
}
use rust_fs_ntfs.Base.{
  patch_lem, copy_within_lem, byte_at-splice_apart, byte_at-splice_in, bytes_between,
}
use native.Mathlib.Decide.{dec_lt, ℕ_discrete}
use rust_fs_ntfs.AttrResize.{
  bytes_used_at, bytes_allocated_at, make_room, replace_attribute, check_new_attribute,
}
use rust_fs_ntfs.AttrResize.Shift.{
  Moved, shifted, shrink-Shifted, Unfielded, Agree, copied, counted, counted-Moved,
}

-- An attribute of `old` bytes at `a` in a record with `used` of `allocated` bytes in use.
pub record AttrAt (r : List ℕ) (a old used allocated : ℕ) : Type 0 where
  pub length_field : get_le 4 r (a + 0x04) ≡ ok old
  pub used_field : get_le 4 r bytes_used_at ≡ ok used
  pub allocated_field : get_le 4 r bytes_allocated_at ≡ ok allocated
  pub behind_header : bytes_allocated_at + 4 ≤ a
  pub inside : a + old ≤ used
  pub used_inside : used ≤ length r
  pub allocated_inside : allocated ≤ length r
  pub small : length r < 2 ^ 32

-- What the replacement gives: the new attribute in the place of the old one, the bytes before it kept
-- and those behind it moved, or the error that there is no room.
pub data ReplaceOutcome (r : List ℕ) (a old used allocated : ℕ) (v : List ℕ) (m : Result (List ℕ))
    : Type 0 where
  replaced :
      (r' : List ℕ)
      → m ≡ ok r'
      → length r' ≡ length r
      → get_le 4 r' bytes_used_at ≡ ok (used + (a + length v) - (a + old))
      → ((i : ℕ) → i < a → Unfielded i → byte_at r' i ≡ byte_at r i)
      → ((i : ℕ) → i < length v → byte_at r' (a + i) ≡ byte_at v i)
      → ((i : ℕ) → a + old + i < used → byte_at r' (a + length v + i) ≡ byte_at r (a + old + i))
      → ReplaceOutcome r a old used allocated v m
  full :
      m ≡ err no_space
      → allocated + old < used + length v
      → ReplaceOutcome r a old used allocated v m

-- What `make_room` gives: the bytes behind the attribute moved, or the error.
data RoomOutcome (r : List ℕ) (a old new used allocated : ℕ) (m : Result (List ℕ)) : Type 0 where
  room :
      (r1 : List ℕ)
      → m ≡ ok r1
      → Moved r r1 (a + old) (a + new) used
      → RoomOutcome r a old new used allocated m
  no_room :
      m ≡ err no_space → allocated + old < used + new → RoomOutcome r a old new used allocated m

make_room-longer :
    (r : List ℕ) (a old new used allocated : ℕ)
    → AttrAt r a old used allocated
    → old < new
    → RoomOutcome r a old new used allocated (make_room r a old new used allocated)
unfolding make_room
make_room-longer r a old new used allocated at lt =
    let up : ltb old new ≡ true = ground arith in
    rw up (elim (dec_lt allocated (used + (new - old))) [
      | yes over ↦
          let test : ltb allocated (used + (new - old)) ≡ true = ground arith in
          rw test (no_room refl (omega arith))
      | no fits ↦
          let test : ltb allocated (used + (new - old)) ≡ false = ground arith in
          let to : a + old + (new - old) ≡ a + new = omega arith in
          let now : used + (new - old) ≡ used + (a + new) - (a + old) = omega arith in
          let base : List ℕ = copied r (a + old) (a + new) used in
          let size : length base ≡ length r =
            length-splice r (a + new) (bytes_between r (a + old) used) in
          let fits' : used + (a + new) - (a + old) ≤ length r =
            omega (arith, at.allocated_inside) in
          let agree : Agree base base (a + old) 0 = record {
            same_size = refl;
            same = λ i apart. refl;
          } in
          rw
            (
              test,
              to,
              now,
              copy_within_lem r (a + old) used (a + new) at.inside at.used_inside
                  (omega (arith, at.allocated_inside)),
              patch_lem base bytes_used_at (to_le 4 (used + (a + new) - (a + old))) (
                  omega (
                    arith,
                    size,
                    at.behind_header,
                    at.inside,
                    at.used_inside,
                    length-to_le 4 (used + (a + new) - (a + old)),
                  )),
            )
            (room (counted base (used + (a + new) - (a + old))) refl (
              counted-Moved r base (a + old) (a + new) used (a + old) 0 agree
                (omega (arith, at.behind_header)) (omega arith) (inl (omega arith)) at.inside
                at.used_inside fits' (omega (arith, at.small))))
    ])

-- Nothing moves.
make_room-same :
    (r : List ℕ) (a new used allocated : ℕ)
    → AttrAt r a new used allocated
    → RoomOutcome r a new new used allocated (make_room r a new new used allocated)
unfolding make_room
make_room-same r a new used allocated at =
    let test : ltb new new ≡ false = ground arith in
    let same : used ≡ used + (a + new) - (a + new) = omega arith in
    rw test (
      room r refl (record {
        same_size = refl;
        used_now = at.used_field ∙ ap ok same;
        fits = omega (arith, at.used_inside);
        before = λ i lt out. refl;
        moved = λ i lt. refl;
      }))

make_room-shorter :
    (r : List ℕ) (a old new used allocated : ℕ)
    → AttrAt r a old used allocated
    → new < old
    → RoomOutcome r a old new used allocated (make_room r a old new used allocated)
unfolding make_room
make_room-shorter r a old new used allocated at lt =
    let test : ltb old new ≡ false = ground arith in
    let test' : ltb new old ≡ true = ground arith in
    let to : a + old - (old - new) ≡ a + new = omega arith in
    rw (test, test')
      (elim (shrink-Shifted r (a + old) (old - new) used (omega (arith, at.behind_header)) at.inside
        at.used_inside (omega (arith, at.used_inside, at.small))) [
          | shifted r1 done move opened ↦ room r1 done (rw (sym to) move)
        ])

make_room_lem :
    (r : List ℕ) (a old new used allocated : ℕ)
    → AttrAt r a old used allocated
    → RoomOutcome r a old new used allocated (make_room r a old new used allocated)
make_room_lem r a old new used allocated at = elim (dec_lt old new) [
  | yes lt ↦ make_room-longer r a old new used allocated at lt
  | no ge ↦ elim (ℕ_discrete old new) [
    | yes e ↦ rw (sym e) (make_room-same r a old used allocated at)
    | no differ ↦ make_room-shorter r a old new used allocated at (omega arith)
  ]
]

-- The replacement of an attribute by a whole one gives the error of no room only when the bytes used
-- would exceed those allocated, and else a record with the new attribute in the place of the old one,
-- the bytes before it kept but for the number of used bytes, and the bytes behind it moved.
pub replace_attribute_lem :
    (r : List ℕ) (a old used allocated : ℕ) (v : List ℕ)
    → AttrAt r a old used allocated
    → check_new_attribute v ≡ ok tt
    → ReplaceOutcome r a old used allocated v (replace_attribute r a v)
unfolding replace_attribute
replace_attribute_lem r a old used allocated v at new =
    rw (new, at.length_field, at.used_field, at.allocated_field)
      (elim (make_room_lem r a old (length v) used allocated at) [
        | no_room none_left over ↦ rw none_left (full refl over)
        | room r1 done move ↦
            let fits : a + length v ≤ length r1 =
              omega (arith, move.same_size, move.fits, at.inside) in
            rw done (
              replaced (splice r1 a v) (patch_lem r1 a v fits)
                (length-splice r1 a v ∙ move.same_size)
                (get_le-splice_apart 4 r1 a v bytes_used_at (inl (omega (arith, at.behind_header)))
                  ∙ move.used_now)
                (λ i lt out.
                  byte_at-splice_apart r1 a v i (inl lt) ∙ move.before i (omega arith) out)
                (λ i lt. byte_at-splice_in r1 a v i lt fits)
                (λ i lt.
                  byte_at-splice_apart r1 a v (a + length v + i) (inr (omega arith))
                  ∙ move.moved i lt))
      ])
