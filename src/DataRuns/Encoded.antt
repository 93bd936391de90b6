-- ===== src/DataRuns/Encoded.antt =====
-- One run: what the encoder needs and writes, and how the decoder reads it back.
use rust_fs_ntfs.Base.{ℕ, ◌+◌, ◌*◌, ◌/◌, ◌%◌, ◌^◌, ◌≤◌, ◌<◌, ◌≡◌, refl, sym, ap, ◌∙◌, arith}
use rust_fs_ntfs.Base.{List, ◌++◌, take, drop, All, All-append, bit_and, bit_or}
use rust_fs_ntfs.Base.{take_length-append, drop_length-append, length-append}
use rust_fs_ntfs.Base.{Option, none, some, ok, checked_add}
use rust_fs_ntfs.Base.{Bool, true, false, ◌&&◌, ltb, ◌==◌, if◌then◌else◌}
use rust_fs_ntfs.Base.{all_below, all_below_sound, Bool-cases, inl, inr}
use rust_fs_ntfs.Base.{ℤ, pos, ◌+ℤ◌, ◌-ℤ◌, fits_i64, IsByte, from_le}
use native.Mathlib.Decide.{dec_lt}
use rust_fs_ntfs.DataRuns.{DataRun, or_bytes, push_bytes, decode_lcn}
use rust_fs_ntfs.DataRuns.{lcn_field_of, signed_bytes_needed}
use rust_fs_ntfs.DataRuns.Width.{Fits, signed_bytes_needed_lem}
use rust_fs_ntfs.DataRuns.Fields.{or_bytes_lem, length-push_bytes, push_bytes-IsByte}
use rust_fs_ntfs.DataRuns.Fields.{sign_extend-push_bytes}

-- The header byte, checked for every pair of widths.
abbrev header_test : ℕ → ℕ → Bool
header_test c l =
    (bit_or (c * 2 ^ 4 % 256) (l % 256) == c * 16 + l)
    && (bit_and (c * 16 + l) 0x0f == l)
    && (bit_and ((c * 16 + l) / 2 ^ 4) 0x0f == c)

header_table : all_below 9 (λ c. all_below 9 (header_test c)) ≡ true
unfolding all_below
header_table = refl

pub header_lem :
    (c l : ℕ)
    → c ≤ 8
    → l ≤ 8
    → (bit_or (c * 2 ^ 4 % 256) (l % 256) ≡ c * 16 + l)
      × (bit_and (c * 16 + l) 0x0f ≡ l)
      × (bit_and ((c * 16 + l) / 2 ^ 4) 0x0f ≡ c)
header_lem c l hc hl = ground (
  arith,
  all_below_sound 9 (header_test c) l
      (all_below_sound 9 (λ c. all_below 9 (header_test c)) c header_table (omega arith))
      (omega arith),
)

-- The loop of the decoder over pushed bytes.
pub or_bytes-push_bytes :
    (n : ℕ) (z : ℤ) (rest : List ℕ)
    → All IsByte rest
    → or_bytes n 0 0 (push_bytes n 0 z ++ rest) ≡ ok (from_le (push_bytes n 0 z))
or_bytes-push_bytes n z rest h =
    or_bytes_lem n _ (All-append IsByte _ rest (push_bytes-IsByte n 0 z) h)
      (omega (arith, length-append (push_bytes n 0 z) rest, length-push_bytes n 0 z))
    ∙ ap (λ t. ok (from_le t)) (taken n z rest)
  where
    taken : (n : ℕ) (z : ℤ) (rest : List ℕ) → take n (push_bytes n 0 z ++ rest) ≡ push_bytes n 0 z
    taken n z rest =
        ap (λ t. take t (push_bytes n 0 z ++ rest)) (sym (length-push_bytes n 0 z))
        ∙ take_length-append (push_bytes n 0 z) rest

pub drop-push_bytes : (n : ℕ) (z : ℤ) (rest : List ℕ) → drop n (push_bytes n 0 z ++ rest) ≡ rest
drop-push_bytes n z rest =
    ap (λ t. drop t (push_bytes n 0 z ++ rest)) (sym (length-push_bytes n 0 z))
    ∙ drop_length-append (push_bytes n 0 z) rest

-- The next `prev_lcn` of the encoder.
abbrev pub next_prev : ℕ → ℤ → ℤ → ℤ
next_prev lcn_bytes lcn_field prev_lcn = if ltb 0 lcn_bytes then prev_lcn +ℤ lcn_field else prev_lcn

-- What the encoder found out about a run that it wrote.
pub record IsEncoded (r : DataRun) (prev_lcn : ℤ) (vcn : ℕ) (lcn_bytes : ℕ) (lcn_field : ℤ)
    (next_vcn : ℕ) : Type 0 where
  pub starts : r.starting_vcn ≡ vcn
  pub occupied : 0 < r.length
  pub narrow : r.length < 2 ^ 63
  pub field : lcn_field_of r.lcn prev_lcn ≡ ok (lcn_bytes, lcn_field)
  pub sum : checked_add vcn r.length ≡ some next_vcn

-- The difference of two LCNs is an `i64`, and adding it gives the LCN back.
pub delta_lem :
    (a p : ℕ)
    → a < 2 ^ 63
    → p < 2 ^ 63
    → let d = pos a -ℤ pos p in
      Fits 8 d
      × (fits_i64 d ≡ some d)
      × (fits_i64 (pos p +ℤ d) ≡ some (pos a))
      × (pos p +ℤ d ≡ pos a)
delta_lem a p ha hp = elim (dec_lt a p) [
  | yes below ↦ (ground arith, ground arith, ground arith, ground arith)
  | no above ↦ (ground arith, ground arith, ground arith, ground arith)
]

lcn_field_of-some :
    (a p w : ℕ) (z : ℤ)
    → p < 2 ^ 63
    → lcn_field_of (some a) (pos p) ≡ ok (w, z)
    → (a < 2 ^ 63) × (pos a -ℤ pos p ≡ z) × (signed_bytes_needed z ≡ w)
unfolding lcn_field_of
lcn_field_of-some a p w z hp e = elim (Bool-cases (ltb a (2 ^ 63))) [
  | inl small ↦
      let d : ℤ = pos a -ℤ pos p in
      let fits : a < 2 ^ 63 = ground (arith, small) in
      let found : ok (signed_bytes_needed d, d) ≡ ok (w, z) =
        rw (small, (delta_lem a p fits hp).1) at e in
      let same : d ≡ z = cc found in (fits, same, cc (found, ap signed_bytes_needed same))
  | inr large ↦ absurd (cc (rw large at e))
]

-- The field of an LCN is read back.
decode_lcn-some :
    (a p : ℕ) (z : ℤ) (rest : List ℕ)
    → a < 2 ^ 63
    → p < 2 ^ 63
    → pos a -ℤ pos p ≡ z
    → All IsByte rest
    → let w = signed_bytes_needed z in
      decode_lcn w (push_bytes w 0 z ++ rest) (pos p) ≡ ok (some a, pos a)
unfolding decode_lcn
decode_lcn-some a p z rest ha hp e hr =
    let (fits, _, back, _) = delta_lem a p ha hp in
    let (lo, hi, holds, _) = signed_bytes_needed_lem z (rw e at fits) in
    let w = signed_bytes_needed z in
    let nonzero : (w == 0) ≡ false = ground arith in
    rw
      (
        nonzero,
        or_bytes-push_bytes w z rest hr,
        sign_extend-push_bytes w z lo hi holds,
        (let b : fits_i64 (pos p +ℤ z) ≡ some (pos a) = rw e at back in b),
      )
      refl

-- The LCN field is at most 8 bytes wide and is read back, from a non-negative `prev_lcn`.
pub decode_lcn-push_bytes :
    (lcn : Option ℕ) (p w : ℕ) (z : ℤ) (rest : List ℕ)
    → p < 2 ^ 63
    → lcn_field_of lcn (pos p) ≡ ok (w, z)
    → All IsByte rest
    → (q : ℕ) × (w ≤ 8)
      × (q < 2 ^ 63)
      × (next_prev w z (pos p) ≡ pos q)
      × (decode_lcn w (push_bytes w 0 z ++ rest) (pos p) ≡ ok (lcn, pos q))
unfolding lcn_field_of
decode_lcn-push_bytes none p w z rest hp e hr =
    let e' : 0 ≡ w = cc in
    (p, omega arith, hp, rw (← e') refl, rw (← e') (unfold decode_lcn push_bytes in refl))
decode_lcn-push_bytes (some a) p w z rest hp e hr =
    let (ha, dz, sw) = lcn_field_of-some a p w z hp e in
    let (fits, _, _, back) = delta_lem a p ha hp in
    let (lo, hi, _, _) = signed_bytes_needed_lem z (rw dz at fits) in
    let positive : ltb 0 w ≡ true = ground (arith, sw) in
    (
      a,
      omega (arith, sw, hi),
      ha,
      rw positive (rw dz at back),
      rw (← sw) (decode_lcn-some a p z rest ha hp dz hr),
    )
