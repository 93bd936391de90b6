-- ===== src/Bitmap/Bits.antt =====
-- The bits of a byte, after one of them is set or cleared.
use rust_fs_ntfs.Base.{ℕ, zero, suc, ◌-◌, ◌*◌, ◌/◌, ◌%◌, ◌^◌, ◌<◌, ◌≡◌, refl, arith, min}
use rust_fs_ntfs.Base.{
  ap, sym, ◌∙◌, Bool, true, false, not, ◌&&◌, ◌==◌, if◌then◌else◌, bit_and, bit_or,
}
use rust_fs_ntfs.Base.Bits.{bit_or_step, bit_and_step, bit_and_mask}
use rust_fs_ntfs.Base.Tests.{all_below, all_below_sound}
use rust_fs_ntfs.Bitmap.{bit_is_set}
use Prim.Native.Nat.{max}
use native.Mathlib.Nat.{div-div-eq-div-mul, pow-suc}

shift_suc : (n j : ℕ) → n / 2 ^ suc j ≡ n / 2 / 2 ^ j
shift_suc n j =
    let e : 2 ^ suc j ≡ 2 * 2 ^ j = omega (arith, pow-suc 2 j) in
    ap (λ t. n / t) e ∙ sym (div-div-eq-div-mul n 2 (2 ^ j))

bit_or_at : (j a b : ℕ) → bit_or a b / 2 ^ j % 2 ≡ max (a / 2 ^ j % 2) (b / 2 ^ j % 2)
bit_or_at zero a b = omega (arith, bit_or_step a b)
bit_or_at (suc j) a b =
    let half : bit_or a b / 2 ≡ bit_or (a / 2) (b / 2) = omega (arith, bit_or_step a b) in
    rw (shift_suc (bit_or a b) j, shift_suc a j, shift_suc b j, half) (bit_or_at j (a / 2) (b / 2))

bit_and_at : (j a b : ℕ) → bit_and a b / 2 ^ j % 2 ≡ min (a / 2 ^ j % 2) (b / 2 ^ j % 2)
bit_and_at zero a b = omega (arith, bit_and_step a b)
bit_and_at (suc j) a b =
    let half : bit_and a b / 2 ≡ bit_and (a / 2) (b / 2) = omega (arith, bit_and_step a b) in
    rw (shift_suc (bit_and a b) j, shift_suc a j, shift_suc b j, half)
      (bit_and_at j (a / 2) (b / 2))

-- The bits of the two masks.
mask_test : ℕ → ℕ → Bool
mask_test k j =
    2 ^ k / 2 ^ j % 2 == (if k == j then 1 else 0)
    && (255 - 2 ^ k) / 2 ^ j % 2 == (if k == j then 0 else 1)

masks_hold : all_below 8 (λ k. all_below 8 (mask_test k)) ≡ true
unfolding all_below mask_test
masks_hold = refl

mask_lem : (k j : ℕ) → k < 8 → j < 8 → mask_test k j ≡ true
mask_lem k j hk hj =
    all_below_sound 8 (mask_test k) j
      (all_below_sound 8 (λ k. all_below 8 (mask_test k)) k masks_hold hk) hj

bit_is_set_lem : (b j : ℕ) → bit_is_set b j ≡ not (b / 2 ^ j % 2 == 0)
unfolding bit_is_set
bit_is_set_lem b j = rw (bit_and_mask 1 (b / 2 ^ j)) refl

pub bit_is_set-set :
    (b k j : ℕ)
    → k < 8
    → j < 8
    → bit_is_set (bit_or b (2 ^ k)) j ≡ (if k == j then true else bit_is_set b j)
unfolding mask_test
bit_is_set-set b k j hk hj =
    let e = mask_lem k j hk hj in
    rw (bit_is_set_lem (bit_or b (2 ^ k)) j, bit_is_set_lem b j, bit_or_at j b (2 ^ k))
      (ground (arith, e))

pub bit_is_set-clear :
    (b k j : ℕ)
    → k < 8
    → j < 8
    → bit_is_set (bit_and b (255 - 2 ^ k)) j ≡ (if k == j then false else bit_is_set b j)
unfolding mask_test
bit_is_set-clear b k j hk hj =
    let e = mask_lem k j hk hj in
    rw
      (bit_is_set_lem (bit_and b (255 - 2 ^ k)) j, bit_is_set_lem b j, bit_and_at j b (255 - 2 ^ k))
      (ground (arith, e))
