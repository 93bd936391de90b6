-- ===== src/Compression/Token.antt =====
-- `split_token`: the widths of the two fields, and that a token can be put together again.
use rust_fs_ntfs.Base.{ℕ, zero, suc, ◌+◌, ◌-◌, ◌*◌, ◌/◌, ◌%◌, ◌^◌, ◌≤◌, ◌<◌, ◌≡◌, refl, arith}
use rust_fs_ntfs.Base.{◌⊎◌, inl, inr, ap, ◌∙◌, Bool, true, false, ltb, leb, ◌==◌, ◌&&◌, ◌||◌, ap₂}
use rust_fs_ntfs.Base.{all_below, all_below_sound}
use rust_fs_ntfs.Base.{Result, ok, err, fault, io, bit_and}
use rust_fs_ntfs.Base.Bits.{bit_and_mask}
use rust_fs_ntfs.Compression.{narrow_length, split_token}
use native.Mathlib.Decide.{dec_lt}
use native.Mathlib.Nat.{
  pow-suc, pow-le-pow_right, one-le-pow, mod-eq_of_lt, div-eq_of_lt, mul-add-div_right,
}
use native.Mathlib.Nat.{mul-add-mod_self_right}

-- `bits` is the width of the displacement field at position `cur`: four bits, or the least number
-- that can address all the bytes before `cur`.
pub record IsWidth (cur bits : ℕ) : Type 0 where
  pub least : 4 ≤ bits
  pub most : bits ≤ 12
  pub reaches : cur ≤ 2 ^ bits
  pub tight : (bits ≡ 4) ⊎ (2 ^ bits < 2 * cur)

abbrev fits_position : ℕ → Result ℕ → Bool
fits_position cur (ok lb) =
    leb 4 lb && leb lb 12 && leb cur (2 ^ (16 - lb)) && (lb == 12 || ltb (2 ^ (16 - lb)) (2 * cur))
fits_position cur (err e) = false
fits_position cur fault = false

-- Every position in a chunk, checked one by one.
width_table : all_below 4096 (λ m. fits_position (suc m) (narrow_length 65 m 12)) ≡ true
unfolding all_below narrow_length
width_table = refl

fits_position-IsWidth :
    (cur : ℕ) (r : Result ℕ)
    → fits_position cur r ≡ true
    → (bits : ℕ) × (r ≡ ok (16 - bits)) × IsWidth cur bits
fits_position-IsWidth cur (ok lb) h = (
  16 - lb,
  ap ok (ground arith),
  record {
    least = ground arith;
    most = ground arith;
    reaches = ground arith;
    tight = ground arith;
  },
)
fits_position-IsWidth cur (err e) h = cc
fits_position-IsWidth cur fault h = cc

pub narrow_length-IsWidth :
    (cur : ℕ)
    → 1 ≤ cur
    → cur ≤ 4096
    → (bits : ℕ) × (narrow_length 65 (cur - 1) 12 ≡ ok (16 - bits)) × IsWidth cur bits
narrow_length-IsWidth zero h k = absurd (omega arith)
narrow_length-IsWidth (suc m) h k =
    let e : suc m - 1 ≡ m = omega arith in
    rw e (
      fits_position-IsWidth (suc m) (narrow_length 65 m 12)
        (all_below_sound 4096 _ m width_table (omega arith)))

-- No two widths fit one position.
not_narrower : (cur a b : ℕ) → IsWidth cur a → IsWidth cur b → a < b → ⊥
not_narrower cur a b wa wb h =
    let grows : 2 ^ suc a ≤ 2 ^ b = pow-le-pow_right (omega arith) (omega arith) in
    elim wb.tight [
      | inl four ↦ absurd (omega (arith, wa.least))
      | inr double ↦ absurd (omega (arith, grows, pow-suc 2 a, wa.reaches))
    ]

width_unique : (cur a b : ℕ) → IsWidth cur a → IsWidth cur b → a ≡ b
width_unique cur a b wa wb = elim (dec_lt a b) [
  | yes below ↦ absurd (not_narrower cur a b wa wb below)
  | no up ↦ elim (dec_lt b a) [
    | yes above ↦ absurd (not_narrower cur b a wb wa above)
    | no same ↦ omega arith
  ]
]

narrow_length_at :
    (cur bits : ℕ)
    → 1 ≤ cur
    → cur ≤ 4096
    → IsWidth cur bits
    → narrow_length 65 (cur - 1) 12 ≡ ok (16 - bits)
narrow_length_at cur bits h k w =
    let (bits', found, w') = narrow_length-IsWidth cur h k in
    rw (width_unique cur bits bits' w w') found

-- In a chunk of at most 4096 bytes, after `cur` of them, a token is split at the width for `cur`:
-- a displacement up to `cur`, and a length from 3 that fits the other bits, come back when they
-- are put together as an encoder does.
pub split_token-encoded :
    (cur bits len displacement : ℕ)
    → cur ≤ 4096
    → IsWidth cur bits
    → 1 ≤ displacement
    → displacement ≤ cur
    → 3 ≤ len
    → len < 2 ^ (16 - bits) + 3
    → split_token ((displacement - 1) * 2 ^ (16 - bits) + (len - 3)) cur ≡ ok (len, displacement)
unfolding split_token
split_token-encoded cur bits len displacement k width d1 dc l3 short =
    let found = narrow_length_at cur bits (omega arith) k width in
    let started : (cur == 0) ≡ false = ground arith in
    let unit = 2 ^ (16 - bits) in
    let token = (displacement - 1) * unit + (len - 3) in
    let positive : 0 < unit = one-le-pow (16 - bits) 2 (omega arith) in
    let low : token % unit ≡ len - 3 =
      mul-add-mod_self_right (displacement - 1) unit (len - 3)
      ∙ mod-eq_of_lt (omega (arith, short, positive)) in
    let high : token / unit ≡ displacement - 1 =
      mul-add-div_right positive (displacement - 1) (len - 3)
      ∙ ap (λ t. displacement - 1 + t) (div-eq_of_lt (omega (arith, short, positive)))
      ∙ omega arith in
    rw (started, found, bit_and_mask (16 - bits) token, low, high)
      (ap₂ (λ a b. ok (a, b)) (omega arith) (omega arith))

-- A split succeeds anywhere in a chunk, and gives a length of 3 at least and a displacement of 1.
pub split_token-cases :
    (token cur : ℕ)
    → cur ≤ 4096
    → ((cur ≡ 0) × (split_token token cur ≡ err io))
      ⊎ ((len displacement : ℕ) × (1 ≤ cur)
          × (3 ≤ len)
          × (1 ≤ displacement)
          × (split_token token cur ≡ ok (len, displacement)))
unfolding split_token
split_token-cases token zero k = inl (refl, refl)
split_token-cases token (suc m) k =
    let (bits, found, width) = narrow_length-IsWidth (suc m) (omega arith) k in
    let started : (suc m == 0) ≡ false = ground arith in
    inr (
      bit_and token (2 ^ (16 - bits) - 1) + 3,
      token / 2 ^ (16 - bits) + 1,
      omega arith,
      omega arith,
      omega arith,
      rw (started, found) refl,
    )
