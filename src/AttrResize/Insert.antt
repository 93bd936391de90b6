-- ===== src/AttrResize/Insert.antt =====
-- A record after `insert_attribute_sorted_typed` of src/attr_resize.rs.
use rust_fs_ntfs.Base.{ℕ, ◌+◌, ◌-◌, ◌^◌, ◌≤◌, ◌<◌, ◌≡◌, refl, sym, ◌∙◌, inl, inr}
use rust_fs_ntfs.Base.{List, length, replicate, length-replicate}
use rust_fs_ntfs.Base.{Result, ok, arith, byte_at, to_le, length-to_le}
use rust_fs_ntfs.Base.{
  get_le, get_le-moved, get_le_same, splice, length-splice, patch_lem, copy_within_lem,
  zero_range_lem, bytes_between,
}
use rust_fs_ntfs.Base.{byte_at-splice_apart, byte_at-splice_in}
use rust_fs_ntfs.AttrResize.{bytes_used_at, put_attribute}
use rust_fs_ntfs.AttrResize.Shift.{
  Moved, Agree, splice-Agree, Agree-trans, copied, counted, counted-Moved,
}
use rust_fs_ntfs.AttrResize.Position.{Chain, stop, attr, Chain-le}

-- A chain whose bytes are kept is kept.
pub Chain-same :
    {r s : List ℕ} {at end : ℕ} {types : List ℕ}
    → length s ≡ length r
    → ((i : ℕ) → at ≤ i → i < end → byte_at s i ≡ byte_at r i)
    → Chain r at types end
    → Chain s at types end
Chain-same size same (stop at) = stop at
Chain-same {r} {s} size same (attr at t len types end ht n m hl big rest) =
    let le = Chain-le rest in
    attr at t len types end (get_le_same 4 r s at size (λ i lo hi. same i lo (omega arith)) ∙ ht) n
      m (get_le_same 4 r s (at + 4) size (λ i lo hi. same i (omega arith) (omega arith)) ∙ hl) big
      (Chain-same size (λ i lo hi. same i (omega arith) hi) rest)

-- A field of bytes that are moved as a whole.
pub field_moved :
    (r s : List ℕ) (at end by p q : ℕ) {v : ℕ}
    → length s ≡ length r
    → end + by ≤ length r
    → ((i : ℕ) → at ≤ i → i < end → byte_at s (i + by) ≡ byte_at r i)
    → at ≤ p
    → p + 4 ≤ end
    → q ≡ p + by
    → get_le 4 r p ≡ ok v
    → get_le 4 s q ≡ ok v
field_moved r s at end by p q size fits same lo hi there e =
    get_le-moved 4 r s p q (omega arith) (omega arith) (λ i lt.
      let here : q + i ≡ p + i + by = omega arith in
      rw here (same (p + i) (omega arith) (omega arith)))
    ∙ e

-- A chain that is moved as a whole.
pub Chain-moved :
    {r s : List ℕ} {at end : ℕ} {types : List ℕ} (by : ℕ)
    → length s ≡ length r
    → end + by ≤ length r
    → ((i : ℕ) → at ≤ i → i < end → byte_at s (i + by) ≡ byte_at r i)
    → Chain r at types end
    → Chain s (at + by) types (end + by)
Chain-moved by size fits same (stop at) = stop (at + by)
Chain-moved {r} {s} by size fits same (attr at t len types end ht n m hl big rest) =
    let le = Chain-le rest in
    let next : at + len + by ≡ at + by + len = omega arith in
    attr (at + by) t len types (end + by)
      (field_moved r s at end by at (at + by) size fits same (omega arith) (omega arith) refl ht) n
      m
      (field_moved r s at end by (at + 4) (at + by + 4) size fits same (omega arith) (omega arith)
        (omega arith) hl)
      big (rw (sym next) (Chain-moved by size fits (λ i lo hi. same i (omega arith) hi) rest))

-- The gap opened, zeroed and filled.
pub data Placed (r : List ℕ) (pos used : ℕ) (v : List ℕ) (m : Result (List ℕ)) : Type 0 where
  placed :
      (r' : List ℕ)
      → m ≡ ok r'
      → Moved r r' pos (pos + length v) used
      → ((i : ℕ) → i < length v → byte_at r' (pos + i) ≡ byte_at v i)
      → Placed r pos used v m

pub put_attribute-Placed :
    (r : List ℕ) (pos used : ℕ) (v : List ℕ)
    → bytes_used_at + 4 ≤ pos
    → pos ≤ used
    → used + length v ≤ length r
    → length r < 2 ^ 32
    → Placed r pos used v (put_attribute r pos used v)
unfolding put_attribute
put_attribute-Placed r pos used v low h fits small =
    let to : ℕ = pos + length v in
    let zeros : List ℕ = replicate (length v) 0 in
    let count : length zeros ≡ length v = length-replicate (length v) 0 in
    let base : List ℕ = copied r pos to used in
    let size : length base ≡ length r = length-splice r to (bytes_between r pos used) in
    let zeroed : List ℕ = splice base pos zeros in
    let size' : length zeroed ≡ length r = length-splice base pos zeros ∙ size in
    let filled : List ℕ = splice zeroed pos v in
    let size'' : length filled ≡ length r = length-splice zeroed pos v ∙ size' in
    let now : used + to - pos ≡ used + length v = omega arith in
    let gap : to - pos ≡ length v = omega arith in
    let agree : Agree base filled pos (length v) =
      Agree-trans (splice-Agree base pos zeros count) (splice-Agree zeroed pos v refl) in
    let e : put_attribute r pos used v ≡ ok (counted filled (used + to - pos)) =
      rw
        (
          copy_within_lem r pos used to h (omega arith) (omega arith),
          zero_range_lem base pos to (omega arith) (omega (arith, size)),
          gap,
          patch_lem zeroed pos v (omega (arith, size')),
          patch_lem filled bytes_used_at (to_le 4 (used + length v))
              (omega (arith, size'', length-to_le 4 (used + length v))),
          now,
        )
        refl in
    placed (counted filled (used + to - pos)) e
      (counted-Moved r filled pos to used pos (length v) agree (omega arith) (omega arith)
        (inl (omega arith)) h (omega arith) (omega arith) (omega arith))
      (λ i lt.
        byte_at-splice_apart filled bytes_used_at (to_le 4 (used + to - pos)) (pos + i)
          (inr (omega (arith, length-to_le 4 (used + to - pos))))
        ∙ byte_at-splice_in zeroed pos v i lt (omega (arith, size')))
