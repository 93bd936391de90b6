-- ===== src/AttrResize/Shift.antt =====
-- Moving the bytes behind an attribute: the two branches of src/attr_resize.rs that make an
-- attribute longer or shorter.
use rust_fs_ntfs.Base.{ℕ, ◌+◌, ◌-◌, ◌^◌, ◌≤◌, ◌<◌, min, ◌≡◌, refl, sym, ◌∙◌, ◌⊎◌, inl, inr}
use rust_fs_ntfs.Base.{true, false, ltb, List, length, replicate, length-replicate, drop}
use rust_fs_ntfs.Base.{Result, ok, err, no_space, arith, byte_at, byte_at-drop, to_le, length-to_le}
use rust_fs_ntfs.Base.{
  splice, length-splice, patch_lem, copy_within_lem, zero_range_lem, get_le, bytes_between,
  length-bytes_between,
}
use rust_fs_ntfs.Base.{
  byte_at-take, byte_at-replicate, get_le-put_le, byte_at-splice_apart, byte_at-splice_in,
}
use rust_fs_ntfs.AttrResize.{bytes_used_at, grow, shrink}

-- A byte outside the field that says how many bytes of the record are used.
abbrev pub Unfielded : ℕ → Type 0
Unfielded i = (i < bytes_used_at) ⊎ (bytes_used_at + 4 ≤ i)

-- The bytes of the record from `from` up to `used` now start at `to`, and the field of the bytes
-- used says so.
pub record Moved (r r1 : List ℕ) (from to used : ℕ) : Type 0 where
  pub same_size : length r1 ≡ length r
  pub used_now : get_le 4 r1 bytes_used_at ≡ ok (used + to - from)
  pub fits : used + to - from ≤ length r
  pub before : (i : ℕ) → i < min from to → Unfielded i → byte_at r1 i ≡ byte_at r i
  pub moved : (i : ℕ) → from + i < used → byte_at r1 (to + i) ≡ byte_at r (from + i)

pub byte_at-bytes_between :
    (r : List ℕ) (start end i : ℕ)
    → start + i < end
    → byte_at (bytes_between r start end) i ≡ byte_at r (start + i)
byte_at-bytes_between r start end i h =
    byte_at-take (end - start) i (drop start r) (omega arith) ∙ byte_at-drop start i r

-- The bytes after the copy, and after the field is written too.
abbrev pub copied : List ℕ → ℕ → ℕ → ℕ → List ℕ
copied r from to used = splice r to (bytes_between r from used)

abbrev pub counted : List ℕ → ℕ → List ℕ
counted r used = splice r bytes_used_at (to_le 4 used)

-- Two buffers of one length that differ in `n` bytes from `at` on at most.
pub record Agree (r s : List ℕ) (at n : ℕ) : Type 0 where
  pub same_size : length s ≡ length r
  pub same : (i : ℕ) → (i < at) ⊎ (at + n ≤ i) → byte_at s i ≡ byte_at r i

pub splice-Agree :
    (r : List ℕ) (at : ℕ) (b : List ℕ) {n : ℕ} → length b ≡ n → Agree r (splice r at b) at n
splice-Agree r at b e = record {
  same_size = length-splice r at b;
  same = λ i apart. byte_at-splice_apart r at b i (rw e apart);
}

pub Agree-trans : {r s t : List ℕ} {at n : ℕ} → Agree r s at n → Agree s t at n → Agree r t at n
Agree-trans h k = record {
  same_size = k.same_size ∙ h.same_size;
  same = λ i apart. k.same i apart ∙ h.same i apart;
}

-- The move is the copy, then writes beside the moved bytes, then the field.
pub counted-Moved :
    (r s : List ℕ) (from to used at n : ℕ)
    → Agree (copied r from to used) s at n
    → bytes_used_at + 4 ≤ min from to
    → min from to ≤ at
    → (at + n ≤ to) ⊎ (used + to - from ≤ at)
    → from ≤ used
    → used ≤ length r
    → used + to - from ≤ length r
    → used + to - from < 2 ^ 32
    → Moved r (counted s (used + to - from)) from to used
counted-Moved r s from to used at n agree low le beside h k fits small = record {
  same_size = length-splice s bytes_used_at field ∙ size;
  used_now = get_le-put_le 4 s bytes_used_at (used + to - from) (omega (arith, size)) (omega arith);
  fits = fits;
  before = λ i lo out.
      unfielded i out
      ∙ agree.same i (inl (omega arith))
      ∙ byte_at-splice_apart r to tail i (inl (omega arith));
  moved = λ i lt.
      unfielded (to + i) (inr (omega arith))
      ∙ agree.same (to + i) (apart i lt beside)
      ∙ byte_at-splice_in r to tail i (omega (arith, tail_size)) (omega (arith, tail_size))
      ∙ byte_at-bytes_between r from used i lt;
}
  where
    field : List ℕ
    field = to_le 4 (used + to - from)

    tail : List ℕ
    tail = bytes_between r from used

    tail_size : length tail ≡ used - from
    tail_size = length-bytes_between r from used h k

    size : length s ≡ length r
    size = agree.same_size ∙ length-splice r to tail

    unfielded : (i : ℕ) → Unfielded i → byte_at (counted s (used + to - from)) i ≡ byte_at s i
    unfielded i out = byte_at-splice_apart s bytes_used_at field i out

    apart :
        (i : ℕ)
        → from + i < used
        → (at + n ≤ to) ⊎ (used + to - from ≤ at)
        → (to + i < at) ⊎ (at + n ≤ to + i)
    apart i lt (inl left) = inr (omega arith)
    apart i lt (inr right) = inl (omega arith)

-- The result of a move: it is done, or it does not fit.
pub data Shifted (r : List ℕ) (from to used : ℕ) (m : Result (List ℕ)) : Type 0 where
  shifted :
      (r1 : List ℕ)
      → m ≡ ok r1
      → Moved r r1 from to used
      → ((i : ℕ) → from ≤ i → i < to → byte_at r1 i ≡ 0)
      → Shifted r from to used m

pub shrink-Shifted :
    (r : List ℕ) (from diff used : ℕ)
    → bytes_used_at + 4 + diff ≤ from
    → from ≤ used
    → used ≤ length r
    → used < 2 ^ 32
    → Shifted r from (from - diff) used (shrink r from diff used)
unfolding shrink
shrink-Shifted r from diff used low h k small =
    let to : ℕ = from - diff in
    let count : length (replicate diff 0) ≡ diff = length-replicate diff 0 in
    let size : length (copied r from to used) ≡ length r =
      length-splice r to (bytes_between r from used) in
    let zeroed : List ℕ = splice (copied r from to used) (used - diff) (replicate diff 0) in
    let now : used + to - from ≡ used - diff = omega arith in
    let gap : used - (used - diff) ≡ diff = omega arith in
    let agree : Agree (copied r from to used) zeroed (used - diff) diff =
      splice-Agree (copied r from to used) (used - diff) (replicate diff 0) count in
    let move =
      counted-Moved r zeroed from to used (used - diff) diff agree (omega arith) (omega arith)
        (inr (omega arith)) h k (omega arith) (omega arith) in
    let size' : length zeroed ≡ length r = agree.same_size ∙ size in
    let e : shrink r from diff used ≡ ok (counted zeroed (used + to - from)) =
      rw
        (
          copy_within_lem r from used to h k (omega arith),
          zero_range_lem (copied r from to used) (used - diff) used (omega arith)
              (omega (arith, size)),
          gap,
          patch_lem zeroed bytes_used_at (to_le 4 (used - diff))
              (omega (arith, size', length-to_le 4 (used - diff))),
          now,
        )
        refl in
    shifted (counted zeroed (used + to - from)) e move (λ i lo hi. absurd (omega arith))

pub grow-Shifted :
    (r : List ℕ) (from diff used allocated : ℕ)
    → bytes_used_at + 4 ≤ from
    → from ≤ used
    → used + diff ≤ allocated
    → allocated ≤ length r
    → allocated < 2 ^ 32
    → Shifted r from (from + diff) used (grow r from diff used allocated)
unfolding grow
grow-Shifted r from diff used allocated low h fits k small =
    let to : ℕ = from + diff in
    let count : length (replicate diff 0) ≡ diff = length-replicate diff 0 in
    let base : List ℕ = copied r from to used in
    let size : length base ≡ length r = length-splice r to (bytes_between r from used) in
    let zeroed : List ℕ = splice base from (replicate diff 0) in
    let now : used + to - from ≡ used + diff = omega arith in
    let gap : to - from ≡ diff = omega arith in
    let room : ltb allocated (used + diff) ≡ false = ground arith in
    let agree : Agree base zeroed from diff = splice-Agree base from (replicate diff 0) count in
    let size' : length zeroed ≡ length r = agree.same_size ∙ size in
    let move =
      counted-Moved r zeroed from to used from diff agree (omega arith) (omega arith)
        (inl (omega arith)) h (omega arith) (omega arith) (omega arith) in
    let e : grow r from diff used allocated ≡ ok (counted zeroed (used + to - from)) =
      rw
        (
          room,
          copy_within_lem r from used to h (omega arith) (omega arith),
          zero_range_lem base from to (omega arith) (omega (arith, size)),
          gap,
          patch_lem zeroed bytes_used_at (to_le 4 (used + diff))
              (omega (arith, size', length-to_le 4 (used + diff))),
          now,
        )
        refl in
    let zero_there : (i : ℕ) → i < diff → byte_at zeroed (from + i) ≡ 0 = λ i lt.
      byte_at-splice_in base from (replicate diff 0) i (omega (arith, count))
        (omega (arith, count, size))
      ∙ byte_at-replicate diff i in
    shifted (counted zeroed (used + to - from)) e move (λ i lo hi.
      let at : from + (i - from) ≡ i = omega arith in
      byte_at-splice_apart zeroed bytes_used_at (to_le 4 (used + to - from)) i
        (inr (omega (arith, length-to_le 4 (used + to - from))))
      ∙ rw (sym at) (zero_there (i - from) (omega arith)))

pub grow-no_space :
    (r : List ℕ) (from diff used allocated : ℕ)
    → allocated < used + diff
    → grow r from diff used allocated ≡ err no_space
unfolding grow
grow-no_space r from diff used allocated over =
    let room : ltb allocated (used + diff) ≡ true = ground arith in rw room refl
