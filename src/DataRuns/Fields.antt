-- ===== src/DataRuns/Fields.antt =====
-- The variable-width fields of a run: what `push_bytes` writes, `or_bytes` and `sign_extend_i64`
-- read back.
use rust_fs_ntfs.Base.{ℕ, zero, suc, ◌+◌, ◌-◌, ◌*◌, ◌/◌, ◌^◌, ◌≤◌, ◌<◌, ◌≡◌, refl, ap, ◌∙◌, arith}
use rust_fs_ntfs.Base.{List, [], ◌∷◌, length, take, All, ok, bit_or, if◌then◌else◌, ◌&&◌}
use rust_fs_ntfs.Base.{Bool, true, ltb, ◌==◌, all_below, all_below_sound}
use rust_fs_ntfs.Base.{ℤ, pos, negsuc, as_u8, as_i64, shr_i64, IsByte, from_le}
use rust_fs_ntfs.Base.Bits.{bit_or_high, bit_and_single}
use rust_fs_ntfs.DataRuns.{or_bytes, push_bytes, sign_extend_i64}
use rust_fs_ntfs.DataRuns.Width.{Fits}
use native.Mathlib.Nat.{div-div-eq-div-mul, pow-suc, one-le-pow, pow-le-pow_right}
use native.Mathlib.Decide.{dec_lt}
use native.Mathlib.Numerals.{towards_suc}

pub two-pow-byte : (i : ℕ) → 2 ^ (8 * suc i) ≡ 256 * 2 ^ (8 * i)
two-pow-byte i =
    let e : 8 * suc i ≡ 8 * i + 8 = omega arith in rw e (simp towards_suc (omega arith))

-- A byte placed above what fits below it.
place_byte : (i acc b : ℕ) → acc < 2 ^ (8 * i) → b < 256 → acc + b * 2 ^ (8 * i) < 2 ^ (8 * suc i)
place_byte i acc b h k = grind (arith, two-pow-byte i)

-- The loop of the decoder reads the little-endian number.
or_bytes_from :
    (n i acc : ℕ) (bytes : List ℕ)
    → All IsByte bytes
    → n ≤ length bytes
    → acc < 2 ^ (8 * i)
    → or_bytes n i acc bytes ≡ ok (acc + 2 ^ (8 * i) * from_le (take n bytes))
unfolding or_bytes
or_bytes_from zero i acc bytes hb hn ha = ap ok (omega arith)
or_bytes_from (suc n) i acc [] hb hn ha = absurd (omega arith)
or_bytes_from (suc n) i acc (b ∷ bytes) hb hn ha = rw (bit_or_high (8 * i) b acc ha) (
    or_bytes_from n (suc i) (acc + b * 2 ^ (8 * i)) bytes hb.1 (omega arith)
      (place_byte i acc b ha hb.0)
    ∙ ap ok (omega (arith, ap (λ (t : ℕ). t * from_le (take n bytes)) (two-pow-byte i))))

pub or_bytes_lem :
    (n : ℕ) (bytes : List ℕ)
    → All IsByte bytes
    → n ≤ length bytes
    → or_bytes n 0 0 bytes ≡ ok (from_le (take n bytes))
or_bytes_lem n bytes hb hn = or_bytes_from n 0 0 bytes hb hn (omega arith) ∙ ap ok (omega arith)

pub from_le-lt : (bytes : List ℕ) → All IsByte bytes → from_le bytes < 2 ^ (8 * length bytes)
from_le-lt [] h = omega arith
from_le-lt (b ∷ bytes) h = omega (arith, h.0, from_le-lt bytes h.1, two-pow-byte (length bytes))

-- What the encoder writes for each sign.
abbrev complement : ℕ → List ℕ → List ℕ
complement zero bs = []
complement (suc n) [] = []
complement (suc n) (b ∷ bs) = (255 - b) ∷ complement n bs

shift_byte : (v i : ℕ) → v / 2 ^ (8 * i) / 256 ≡ v / 2 ^ (8 * suc i)
shift_byte v i =
    div-div-eq-div-mul v (2 ^ (8 * i)) 256 ∙ ap (λ (t : ℕ). v / t) (omega (arith, two-pow-byte i))

push_bytes_value :
    (n i v : ℕ)
    → v / 2 ^ (8 * i) < 2 ^ (8 * n)
    → (from_le (push_bytes n i (pos v)) ≡ v / 2 ^ (8 * i))
      × (from_le (push_bytes n i (negsuc v)) + v / 2 ^ (8 * i) + 1 ≡ 2 ^ (8 * n))
unfolding push_bytes
push_bytes_value zero i v h = (omega arith, omega arith)
push_bytes_value (suc n) i v h =
    let ih = push_bytes_value n (suc i) v (omega (arith, shift_byte v i, two-pow-byte n)) in
    (omega (arith, ih.0, shift_byte v i), omega (arith, ih.1, shift_byte v i, two-pow-byte n))

pub length-push_bytes : (n i : ℕ) (z : ℤ) → length (push_bytes n i z) ≡ n
unfolding push_bytes
length-push_bytes zero i z = refl
length-push_bytes (suc n) i z = ap suc (length-push_bytes n (suc i) z)

as_u8-IsByte : (z : ℤ) → as_u8 z < 256
as_u8-IsByte (pos n) = omega arith
as_u8-IsByte (negsuc n) = omega arith

pub push_bytes-IsByte : (n i : ℕ) (z : ℤ) → All IsByte (push_bytes n i z)
unfolding push_bytes
push_bytes-IsByte zero i z = tt
push_bytes-IsByte (suc n) i z = (as_u8-IsByte (shr_i64 z (8 * i)), push_bytes-IsByte n (suc i) z)

-- The constants of `sign_extend_i64` at 1 to 7 bytes, checked one by one.
abbrev mask_test : ℕ → Bool
mask_test m =
    (2 ^ (8 * suc m) == 2 * 2 ^ (8 * suc m - 1))
    && (2 ^ 64 - 1 - (2 ^ (8 * suc m - 1) * 2 - 1) == (2 ^ (64 - 8 * suc m) - 1) * 2 ^ (8 * suc m))
    && ((2 ^ (64 - 8 * suc m) - 1) * 2 ^ (8 * suc m) == 2 ^ 64 - 2 ^ (8 * suc m))

mask_table : all_below 7 mask_test ≡ true
unfolding all_below
mask_table = refl

mask_laws :
    (n : ℕ)
    → 1 ≤ n
    → n ≤ 7
    → (2 ^ (8 * n) ≡ 2 * 2 ^ (8 * n - 1))
      × (2 ^ 64 - 1 - (2 ^ (8 * n - 1) * 2 - 1) ≡ (2 ^ (64 - 8 * n) - 1) * 2 ^ (8 * n))
      × ((2 ^ (64 - 8 * n) - 1) * 2 ^ (8 * n) ≡ 2 ^ 64 - 2 ^ (8 * n))
      × (2 ^ (8 * n) ≤ 2 ^ 56)
mask_laws zero h k = absurd (omega arith)
mask_laws (suc m) h k =
    let t = all_below_sound 7 mask_test m mask_table (omega arith) in
    ground (arith, t, pow-le-pow_right {n = 2} (omega arith) {i = 8 * suc m} {j = 56} (omega arith))

sign_extend_narrow :
    (n raw : ℕ)
    → 1 ≤ n
    → n ≤ 7
    → raw < 2 ^ (8 * n)
    → sign_extend_i64 raw n
      ≡ (if ltb raw (2 ^ (8 * n - 1)) then raw else raw + (2 ^ 64 - 2 ^ (8 * n)))
unfolding sign_extend_i64
sign_extend_narrow n raw h k f =
    let (double, mask, top, _) = mask_laws n h k in
    let (clear, set) = bit_and_single (8 * n - 1) raw in
    elim (dec_lt raw (2 ^ (8 * n - 1))) [
      | yes small ↦ ground (arith, clear small)
      | no large ↦ ground (
        arith,
        set (omega arith) (omega (arith, double, pow-suc 2 (8 * n - 1))),
        bit_or_high (8 * n) (2 ^ (64 - 8 * n) - 1) raw f,
        ap (λ (t : ℕ). bit_or raw t) mask,
        top,
        one-le-pow (8 * n - 1) 2,
      )
    ]

sign_extend_wide : (raw : ℕ) → sign_extend_i64 raw 8 ≡ raw
unfolding sign_extend_i64
sign_extend_wide raw = refl

value_narrow :
    (n : ℕ) (z : ℤ)
    → 1 ≤ n
    → n ≤ 7
    → Fits n z
    → as_i64 (sign_extend_i64 (from_le (push_bytes n 0 z)) n) ≡ z
value_narrow n (pos v) h k f =
    let (double, _, _, below) = mask_laws n h k in
    let (value, _) = push_bytes_value n 0 v (omega (arith, double)) in
    ground (arith, sign_extend_narrow n (from_le (push_bytes n 0 (pos v))) h k)
value_narrow n (negsuc v) h k f =
    let (double, _, _, below) = mask_laws n h k in
    let (_, value) = push_bytes_value n 0 v (omega (arith, double)) in
    ground (arith, sign_extend_narrow n (from_le (push_bytes n 0 (negsuc v))) h k)

value_wide : (z : ℤ) → Fits 8 z → as_i64 (sign_extend_i64 (from_le (push_bytes 8 0 z)) 8) ≡ z
value_wide (pos v) f =
    let (value, _) = push_bytes_value 8 0 v (omega arith) in
    ground (arith, sign_extend_wide (from_le (push_bytes 8 0 (pos v))))
value_wide (negsuc v) f =
    let (_, value) = push_bytes_value 8 0 v (omega arith) in
    ground (arith, sign_extend_wide (from_le (push_bytes 8 0 (negsuc v))))

-- What the encoder pushed at a width that holds `z` is read back as `z`.
pub sign_extend-push_bytes :
    (n : ℕ) (z : ℤ)
    → 1 ≤ n
    → n ≤ 8
    → Fits n z
    → as_i64 (sign_extend_i64 (from_le (push_bytes n 0 z)) n) ≡ z
sign_extend-push_bytes n z h k f = elim (dec_lt n 8) [
  | yes narrow ↦ value_narrow n z h (omega arith) f
  | no wide ↦ let e : n ≡ 8 = omega arith in rw e (value_wide z (rw e at f))
]

-- A length is read as an unsigned number.
pub push_bytes-unsigned : (n v : ℕ) → v < 2 ^ (8 * n) → from_le (push_bytes n 0 (pos v)) ≡ v
push_bytes-unsigned n v h =
    let (value, _) = push_bytes_value n 0 v (omega arith) in omega (arith, value)
