-- ===== src/DataRuns/Width.antt =====
-- `signed_bytes_needed`: the least width whose two's-complement range holds the value.
use rust_fs_ntfs.Base.{ℕ, zero, suc, ◌+◌, ◌-◌, ◌*◌, ◌/◌, ◌^◌, ◌≤◌, ◌<◌, ◌≡◌, refl, arith, inl, inr}
use rust_fs_ntfs.Base.{Bool, true, false, ◌&&◌, ltb, ◌==◌, ==_iff, all_below, all_below_sound}
use rust_fs_ntfs.Base.{Bool-cases, ℤ, pos, negsuc, leb_ℤ, i64_min, i64_max, shr_i64}
use native.Mathlib.Decide.{dec_lt}
use rust_fs_ntfs.DataRuns.{bytes_needed_from, signed_bytes_needed}

-- The value, or one less than the distance below 0: both ends of a range are symmetric in it.
abbrev pub magnitude : ℤ → ℕ
magnitude (pos n) = n
magnitude (negsuc n) = n

-- -2^(8n-1) <= z < 2^(8n-1)
abbrev pub Fits : ℕ → ℤ → Type 0
Fits n z = magnitude z < 2 ^ (8 * n - 1)

abbrev half_range_test : ℕ → Bool
half_range_test n = (2 ^ 63 - 1) / 2 ^ (64 - 8 * suc n) + 1 == 2 ^ (8 * suc n - 1)

half_range_table : all_below 8 half_range_test ≡ true
unfolding all_below
half_range_table = refl

half_range : (n : ℕ) → 1 ≤ n → n ≤ 8 → (2 ^ 63 - 1) / 2 ^ (64 - 8 * n) + 1 ≡ 2 ^ (8 * n - 1)
half_range zero h k = absurd (omega arith)
half_range (suc n) h k =
    (==_iff _ _).0 (all_below_sound 8 half_range_test n half_range_table (omega arith))

-- The test of one round.
round_test :
    (n : ℕ) (z : ℤ)
    → 1 ≤ n
    → n ≤ 8
    → let shift = 64 - 8 * n in
      (leb_ℤ (shr_i64 i64_min shift) z && leb_ℤ z (shr_i64 i64_max shift))
      ≡ ltb (magnitude z) (2 ^ (8 * n - 1))
round_test n (pos v) h k = ground (arith, half_range n h k)
round_test n (negsuc v) h k = ground (arith, half_range n h k)

-- The test of the last round cannot fail on an `i64`.
last_round :
    (n : ℕ) (z : ℤ) → n ≤ 8 → Fits 8 z → ltb (magnitude z) (2 ^ (8 * n - 1)) ≡ false → n ≤ 7
last_round n z k f miss = elim (dec_lt n 8) [
  | yes small ↦ omega arith
  | no large ↦ let e : n ≡ 8 = omega arith in absurd (ground (arith, f, rw e at miss))
]

bytes_needed_from_lem :
    (left n : ℕ) (z : ℤ)
    → left + n ≡ 9
    → 1 ≤ n
    → n ≤ 8
    → Fits 8 z
    → let w = bytes_needed_from left n z in (n ≤ w) × (w ≤ 8) × Fits w z
unfolding bytes_needed_from
bytes_needed_from_lem zero n z e h k f = absurd (omega arith)
bytes_needed_from_lem (suc left) n z e h k f =
    elim (Bool-cases (ltb (magnitude z) (2 ^ (8 * n - 1)))) [
      | inl hit ↦ rw (round_test n z h k, hit) (omega arith, k, ground (arith, hit))
      | inr miss ↦
          let small : n ≤ 7 = last_round n z k f miss in
          let (p, q, r) =
            bytes_needed_from_lem left (suc n) z (omega arith) (omega arith) (omega arith) f in
          rw (round_test n z h k, miss) (omega (arith, p), q, r)
    ]

-- No width before the answer is enough.
bytes_needed_from_least :
    (left n m : ℕ) (z : ℤ)
    → left + n ≡ 9
    → 1 ≤ n
    → n ≤ m
    → m < bytes_needed_from left n z
    → ¬ (Fits m z)
unfolding bytes_needed_from
bytes_needed_from_least zero n m z e h k lt f = omega arith
bytes_needed_from_least (suc left) n m z e h k lt f =
    elim (Bool-cases (ltb (magnitude z) (2 ^ (8 * n - 1)))) [
      | inl hit ↦ absurd (omega (arith, rw (round_test n z h (omega arith), hit) at lt))
      | inr miss ↦ elim (dec_lt n m) [
        | yes more ↦
            bytes_needed_from_least left (suc n) m z (omega arith) (omega arith) more
              (rw (round_test n z h (omega arith), miss) at lt) f
        | no last ↦ ground (arith, miss, f)
      ]
    ]

bytes_needed_lem :
    (z : ℤ)
    → Fits 8 z
    → let w = bytes_needed_from 8 1 z in
      (1 ≤ w) × (w ≤ 8) × Fits w z × ((m : ℕ) → 1 ≤ m → m < w → ¬ (Fits m z))
bytes_needed_lem z f =
    let (p, q, r) = bytes_needed_from_lem 8 1 z refl (omega arith) (omega arith) f in
    (p, q, r, λ m h. bytes_needed_from_least 8 1 m z refl (omega arith) h)

-- For every `i64` the answer is 1 to 8 bytes, they hold the value, and no fewer bytes do.
pub signed_bytes_needed_lem :
    (z : ℤ)
    → Fits 8 z
    → let w = signed_bytes_needed z in
      (1 ≤ w) × (w ≤ 8) × Fits w z × ((m : ℕ) → 1 ≤ m → m < w → ¬ (Fits m z))
unfolding signed_bytes_needed
signed_bytes_needed_lem (pos zero) f =
    (omega arith, omega arith, omega arith, λ m h k g. omega arith)
signed_bytes_needed_lem (pos (suc n)) f = bytes_needed_lem (pos (suc n)) f
signed_bytes_needed_lem (negsuc n) f = bytes_needed_lem (negsuc n) f
