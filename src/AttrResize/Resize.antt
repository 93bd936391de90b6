-- ===== src/AttrResize/Resize.antt =====
-- A resident attribute after `resize_resident_value_typed` and `set_resident_value_typed` of
-- src/attr_resize.rs.
use rust_fs_ntfs.Base.{ℕ, ◌+◌, ◌-◌, ◌^◌, ◌≤◌, ◌<◌, min, ◌≡◌, refl, sym, ap, ◌∙◌, ◌⊎◌, inl, inr}
use rust_fs_ntfs.Base.{true, false, ltb, ◌==◌, List, length}
use rust_fs_ntfs.Base.{
  Result, ok, err, no_space, ◌>>=◌, arith, byte_at, index, index_lem, to_le, length-to_le,
}
use rust_fs_ntfs.Base.{splice, length-splice, patch_lem, put_le, get_le}
use rust_fs_ntfs.Base.{get_le-put_le, byte_at-splice_apart, get_le-splice_apart}
use native.Mathlib.Decide.{dec_lt, ℕ_discrete}
use rust_fs_ntfs.AttrResize.{
  bytes_used_at, bytes_allocated_at, align_up_8, grow, shrink, resize_resident_value,
}
use rust_fs_ntfs.AttrResize.Shift.{
  Unfielded, Moved, Shifted, shifted, grow-Shifted, shrink-Shifted, grow-no_space,
}

-- A resident attribute of `old` bytes at `a`, whose value starts `vo` bytes behind its start, in a
-- record with `used` of `allocated` bytes in use.
pub record ResidentAt (r : List ℕ) (a old vo used allocated : ℕ) : Type 0 where
  pub form : byte_at r (a + 0x08) ≡ 0
  pub length_field : get_le 4 r (a + 0x04) ≡ ok old
  pub offset_field : get_le 2 r (a + 0x14) ≡ ok vo
  pub used_field : get_le 4 r bytes_used_at ≡ ok used
  pub allocated_field : get_le 4 r bytes_allocated_at ≡ ok allocated
  pub behind_header : bytes_allocated_at + 4 ≤ a
  pub long : 0x18 ≤ old
  pub value_behind : 0x18 ≤ vo
  pub inside : a + old ≤ used
  pub used_inside : used ≤ length r
  pub allocated_inside : allocated ≤ length r
  pub small : length r < 2 ^ 32

-- A byte of an attribute outside the fields of its length and of its value's length.
abbrev pub Unwritten : ℕ → Type 0
Unwritten i = (i < 0x04) ⊎ ((0x08 ≤ i) × (i < 0x10) ⊎ (0x14 ≤ i))

-- The record with the attribute of `new` bytes, for a value of `n` bytes.
pub record Resized (r r' : List ℕ) (a old new used n : ℕ) : Type 0 where
  pub same_size : length r' ≡ length r
  pub used_now : get_le 4 r' bytes_used_at ≡ ok (used + (a + new) - (a + old))
  pub fits : used + (a + new) - (a + old) ≤ length r
  pub length_now : get_le 4 r' (a + 0x04) ≡ ok new
  pub value_length_now : get_le 4 r' (a + 0x10) ≡ ok n
  pub before : (i : ℕ) → i < a → Unfielded i → byte_at r' i ≡ byte_at r i
  pub kept : (i : ℕ) → i < min old new → Unwritten i → byte_at r' (a + i) ≡ byte_at r (a + i)
  pub zeroed : (i : ℕ) → old ≤ i → i < new → byte_at r' (a + i) ≡ 0
  pub moved : (i : ℕ) → a + old + i < used → byte_at r' (a + new + i) ≡ byte_at r (a + old + i)

-- What the resize gives: the record resized, or the error that the record has no room for it.
pub data ResizeOutcome (r : List ℕ) (a old vo used allocated n : ℕ) (m : Result (List ℕ))
    : Type 0 where
  resized :
      (r' : List ℕ)
      → m ≡ ok r'
      → Resized r r' a old (align_up_8 (vo + n)) used n
      → ResizeOutcome r a old vo used allocated n m
  no_room :
      m ≡ err no_space
      → allocated + old < used + align_up_8 (vo + n)
      → ResizeOutcome r a old vo used allocated n m

pub align_up_8-bounds : (n : ℕ) → (n ≤ align_up_8 n) × (align_up_8 n < n + 8)
unfolding align_up_8
align_up_8-bounds n = (omega arith, omega arith)

-- The two fields of the header written behind a move.
headed : List ℕ → ℕ → ℕ → ℕ → List ℕ
headed r a new n = splice (splice r (a + 0x04) (to_le 4 new)) (a + 0x10) (to_le 4 n)

headed-Resized :
    (r r1 : List ℕ) (a old new used n : ℕ)
    → Moved r r1 (a + old) (a + new) used
    → ((i : ℕ) → a + old ≤ i → i < a + new → byte_at r1 i ≡ 0)
    → bytes_allocated_at + 4 ≤ a
    → 0x18 ≤ old
    → 0x18 ≤ new
    → a + old ≤ used
    → used ≤ length r
    → a + 0x18 ≤ length r
    → new < 2 ^ 32
    → n < 2 ^ 32
    → Resized r (headed r1 a new n) a old new used n
unfolding headed
headed-Resized r r1 a old new used n move opened low lo hi in_used h fits small small_n = record {
  same_size = size' ∙ move.same_size;
  used_now =
      get_le-splice_apart 4 r2 (a + 0x10) fn bytes_used_at (inl (omega arith))
      ∙ get_le-splice_apart 4 r1 (a + 0x04) fl bytes_used_at (inl (omega arith))
      ∙ move.used_now;
  fits = move.fits;
  length_now =
      get_le-splice_apart 4 r2 (a + 0x10) fn (a + 0x04) (inl (omega arith))
      ∙ get_le-put_le 4 r1 (a + 0x04) new (omega (arith, move.same_size)) small;
  value_length_now =
      get_le-put_le 4 r2 (a + 0x10) n
        (omega (arith, move.same_size, length-splice r1 (a + 0x04) fl)) small_n;
  before = λ i lt out.
      beside i (inl (omega arith)) (inl (omega arith)) ∙ move.before i (omega arith) out;
  kept = λ i lt out.
      beside (a + i) (left i out) (right i out)
      ∙ move.before (a + i) (omega arith) (inr (omega arith));
  zeroed = λ i from to.
      beside (a + i) (inr (omega arith)) (inr (omega arith))
      ∙ opened (a + i) (omega arith) (omega arith);
  moved = λ i lt. beside (a + new + i) (inr (omega arith)) (inr (omega arith)) ∙ move.moved i lt;
}
  where
    fl : List ℕ
    fl = to_le 4 new

    fn : List ℕ
    fn = to_le 4 n

    r2 : List ℕ
    r2 = splice r1 (a + 0x04) fl

    size' : length (splice r2 (a + 0x10) fn) ≡ length r1
    size' = length-splice r2 (a + 0x10) fn ∙ length-splice r1 (a + 0x04) fl

    beside :
        (i : ℕ)
        → (i < a + 0x04) ⊎ (a + 0x04 + 4 ≤ i)
        → (i < a + 0x10) ⊎ (a + 0x10 + 4 ≤ i)
        → byte_at (splice r2 (a + 0x10) fn) i ≡ byte_at r1 i
    beside i p q =
        byte_at-splice_apart r2 (a + 0x10) fn i q ∙ byte_at-splice_apart r1 (a + 0x04) fl i p

    left : (i : ℕ) → Unwritten i → (a + i < a + 0x04) ⊎ (a + 0x04 + 4 ≤ a + i)
    left i (inl p) = inl (omega arith)
    left i (inr (inl (p, q))) = inr (omega arith)
    left i (inr (inr p)) = inr (omega arith)

    right : (i : ℕ) → Unwritten i → (a + i < a + 0x10) ⊎ (a + 0x10 + 4 ≤ a + i)
    right i (inl p) = inl (omega arith)
    right i (inr (inl (p, q))) = inl (omega arith)
    right i (inr (inr p)) = inr (omega arith)

same-Resized :
    (r : List ℕ) (a old used n : ℕ)
    → get_le 4 r bytes_used_at ≡ ok used
    → get_le 4 r (a + 0x04) ≡ ok old
    → bytes_allocated_at + 4 ≤ a
    → 0x18 ≤ old
    → a + old ≤ length r
    → used ≤ length r
    → n < 2 ^ 32
    → Resized r (splice r (a + 0x10) (to_le 4 n)) a old old used n
same-Resized r a old used n used_at old_at low lo fits in_used small =
    let fn : List ℕ = to_le 4 n in
    let same : used + (a + old) - (a + old) ≡ used = omega arith in
    let beside : (i : ℕ)
        → (i < a + 0x10) ⊎ (a + 0x10 + 4 ≤ i)
        → byte_at (splice r (a + 0x10) fn) i ≡ byte_at r i =
      λ i p. byte_at-splice_apart r (a + 0x10) fn i p in
    record {
      same_size = length-splice r (a + 0x10) fn;
      used_now =
          get_le-splice_apart 4 r (a + 0x10) fn bytes_used_at (inl (omega arith))
          ∙ used_at
          ∙ ap ok (sym same);
      fits = omega arith;
      length_now = get_le-splice_apart 4 r (a + 0x10) fn (a + 0x04) (inl (omega arith)) ∙ old_at;
      value_length_now = get_le-put_le 4 r (a + 0x10) n (omega arith) small;
      before = λ i lt out. beside i (inl (omega arith));
      kept = λ i lt out. beside (a + i) (apart i out);
      zeroed = λ i from to. absurd (omega arith);
      moved = λ i lt. beside (a + old + i) (inr (omega arith));
    }
  where
    apart : (i : ℕ) → Unwritten i → (a + i < a + 0x10) ⊎ (a + 0x10 + 4 ≤ a + i)
    apart i (inl p) = inl (omega arith)
    apart i (inr (inl (p, q))) = inl (omega arith)
    apart i (inr (inr p)) = inr (omega arith)

put_header :
    (r1 : List ℕ) (a new n : ℕ)
    → a + 0x18 ≤ length r1
    → (put_le 4 r1 (a + 0x04) new >>= λ r2. put_le 4 r2 (a + 0x10) n) ≡ ok (headed r1 a new n)
unfolding headed
put_header r1 a new n fits =
    let size : length (splice r1 (a + 0x04) (to_le 4 new)) ≡ length r1 =
      length-splice r1 (a + 0x04) (to_le 4 new) in
    rw (patch_lem r1 (a + 0x04) (to_le 4 new) (omega (arith, length-to_le 4 new))) (
      patch_lem (splice r1 (a + 0x04) (to_le 4 new)) (a + 0x10) (to_le 4 n)
        (omega (arith, size, length-to_le 4 n)))

-- A move, then the two fields of the header.
finish-Resized :
    (r : List ℕ) (a old new vo used allocated n : ℕ) (m : Result (List ℕ))
    → ResidentAt r a old vo used allocated
    → 0x18 ≤ new
    → new < 2 ^ 32
    → n < 2 ^ 32
    → new ≡ align_up_8 (vo + n)
    → Shifted r (a + old) (a + new) used m
    → ResizeOutcome r a old vo used allocated n
        (m >>= λ r1. put_le 4 r1 (a + 0x04) new >>= λ r2. put_le 4 r2 (a + 0x10) n)
finish-Resized r a old new vo used allocated n m at long small small_n e
      (shifted r1 done move opened) =
    let done_header =
      put_header r1 a new n (omega (arith, move.same_size, at.inside, at.used_inside, at.long)) in
    let it =
      headed-Resized r r1 a old new used n move opened at.behind_header at.long long at.inside
        at.used_inside (omega (arith, at.inside, at.used_inside, at.long)) small small_n in
    rw done (resized (headed r1 a new n) done_header (rw (sym e) it))

longer_lem :
    (r : List ℕ) (a old new vo used allocated n : ℕ)
    → ResidentAt r a old vo used allocated
    → old < new
    → new < 2 ^ 32
    → n < 2 ^ 32
    → new ≡ align_up_8 (vo + n)
    → ResizeOutcome r a old vo used allocated n (
        grow r (a + old) (new - old) used allocated >>= λ r1.
        put_le 4 r1 (a + 0x04) new >>= λ r2. put_le 4 r2 (a + 0x10) n)
longer_lem r a old new vo used allocated n at lt small small_n e =
    elim (dec_lt allocated (used + (new - old))) [
      | yes over ↦
          rw (grow-no_space r (a + old) (new - old) used allocated over)
            (no_room refl (omega (arith, e)))
      | no fits ↦
          let there : a + old + (new - old) ≡ a + new = omega arith in
          let move =
            grow-Shifted r (a + old) (new - old) used allocated (omega (arith, at.behind_header))
              at.inside (omega arith) at.allocated_inside
              (omega (arith, at.small, at.allocated_inside)) in
          finish-Resized r a old new vo used allocated n
            (grow r (a + old) (new - old) used allocated) at (omega (arith, at.long)) small small_n
            e (rw (sym there) move)
    ]

shorter_lem :
    (r : List ℕ) (a old new vo used allocated n : ℕ)
    → ResidentAt r a old vo used allocated
    → new < old
    → 0x18 ≤ new
    → new < 2 ^ 32
    → n < 2 ^ 32
    → new ≡ align_up_8 (vo + n)
    → ResizeOutcome r a old vo used allocated n (
        shrink r (a + old) (old - new) used >>= λ r1.
        put_le 4 r1 (a + 0x04) new >>= λ r2. put_le 4 r2 (a + 0x10) n)
shorter_lem r a old new vo used allocated n at lt long small small_n e =
    let there : a + old - (old - new) ≡ a + new = omega arith in
    let move =
      shrink-Shifted r (a + old) (old - new) used (omega (arith, at.behind_header)) at.inside
        at.used_inside (omega (arith, at.small, at.used_inside)) in
    finish-Resized r a old new vo used allocated n (shrink r (a + old) (old - new) used) at long
      small small_n e (rw (sym there) move)

-- The resize of a resident attribute gives the error of no room exactly when the attribute does not
-- fit, and else the record with the attribute's two length fields and the bytes used changed, its
-- other bytes kept, its new bytes 0, and the bytes behind it moved.
pub resize_resident_value_lem :
    (r : List ℕ) (a old vo used allocated n : ℕ)
    → ResidentAt r a old vo used allocated
    → vo + n + 8 ≤ 2 ^ 32
    → ResizeOutcome r a old vo used allocated n (resize_resident_value r a n)
unfolding resize_resident_value
resize_resident_value_lem r a old vo used allocated n at small =
    let new : ℕ = align_up_8 (vo + n) in
    let (up, near) = align_up_8-bounds (vo + n) in
    let long : 0x18 ≤ new = omega (arith, at.value_behind) in
    let resident : index r (a + 0x08) ≡ ok 0 =
      index_lem r (a + 0x08) (omega (arith, at.inside, at.used_inside, at.long)) ∙ ap ok at.form in
    rw (resident, at.length_field, at.offset_field, at.used_field, at.allocated_field)
      (elim (ℕ_discrete new old) [
        | yes e ↦
            let test : (new == old) ≡ true = ground arith in
            rw test (
              resized (splice r (a + 0x10) (to_le 4 n))
                (patch_lem r (a + 0x10) (to_le 4 n)
                  (omega (arith, length-to_le 4 n, at.inside, at.used_inside, at.long)))
                (rw e (
                  same-Resized r a old used n at.used_field at.length_field at.behind_header at.long
                    (omega (arith, at.inside, at.used_inside)) at.used_inside (omega arith))))
        | no differ ↦
            let test : (new == old) ≡ false = ground arith in
            rw test (elim (dec_lt old new) [
              | yes lt ↦
                  let test' : ltb old new ≡ true = ground arith in
                  rw test' (
                    longer_lem r a old new vo used allocated n at lt (omega arith) (omega arith)
                      refl)
              | no ge ↦
                  let test' : ltb old new ≡ false = ground arith in
                  rw test' (
                    shorter_lem r a old new vo used allocated n at (omega arith) long (omega arith)
                      (omega arith) refl)
            ])
      ])
