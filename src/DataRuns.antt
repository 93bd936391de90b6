-- ===== src/DataRuns.antt =====
-- Mapping-pair (data run) lists: src/data_runs.rs.
-- A byte buffer is a list of numbers below 256, and the cursor `p` of `decode_runs` is the list of
-- the bytes from `p` on. A `u64` is a number, an `i64` an integer of `ℤ`; an `i64` that is put
-- together bit by bit is its 64-bit pattern until it is complete.
pub mod Width
pub mod Fields
pub mod Encoded
pub mod RoundTrip
pub mod Shape
pub mod Lookup
pub mod Holes
pub mod Total
mod Tests
use rust_fs_ntfs.Base.{ℕ, zero, suc, ◌+◌, ◌-◌, ◌*◌, ◌/◌, ◌%◌, ◌^◌, min, max, bit_and, bit_or}
use rust_fs_ntfs.Base.{Bool, true, false, not, ◌&&◌, ◌||◌, ltb, leb, ◌==◌, if◌then◌else◌}
use rust_fs_ntfs.Base.{Option, none, some, is_none, List, [], ◌∷◌, ◌++◌, length, drop}
use rust_fs_ntfs.Base.{Result, ok, err, fault, io, ◌>>=◌, ok_or, checked_add}
use rust_fs_ntfs.Base.{ℤ, pos, negsuc, pos_part, ◌+ℤ◌, ◌-ℤ◌, leb_ℤ, is_negative, i64_min, i64_max}
use rust_fs_ntfs.Base.{shr_i64, as_u8, as_i64, fits_i64, i64_try_from}
use mathlib.Core.Option

-- `DataRun`
pub record DataRun : Type 0 where
  pub starting_vcn : ℕ
  pub length : ℕ
  pub lcn : Option ℕ

-- `sign_extend_i64`, on the 64-bit pattern of `raw`: `!m` is 2^64 - 1 - m.
pub sign_extend_i64 : ℕ → ℕ → ℕ
sign_extend_i64 raw nbytes =
    let sign_bit = 2 ^ (8 * nbytes - 1) in
    let upper_bits_mask = 2 ^ 64 - 1 - (sign_bit * 2 - 1) in
    if leb 8 nbytes
    then raw
    else if not (bit_and raw sign_bit == 0)
    then bit_or raw upper_bits_mask
    else raw

-- `for i in 0..n { acc |= (bytes[p + i] as u64) << (8 * i); }`, from index `i` on.
pub or_bytes : ℕ → ℕ → ℕ → List ℕ → Result ℕ
or_bytes zero i acc bytes = ok acc
or_bytes (suc left) i acc [] = fault
or_bytes (suc left) i acc (b ∷ bytes) = or_bytes left (suc i) (bit_or acc (b * 2 ^ (8 * i))) bytes

-- The LCN of one run, and the next `prev_lcn`.
pub decode_lcn : ℕ → List ℕ → ℤ → Result (Option ℕ × ℤ)
decode_lcn lcn_bytes bytes prev_lcn = if lcn_bytes == 0 then ok (none, prev_lcn) else do
  raw ← or_bytes lcn_bytes 0 0 bytes
  new_lcn ← ok_or (fits_i64 (prev_lcn +ℤ as_i64 (sign_extend_i64 raw lcn_bytes))) io
  if is_negative new_lcn then err io else ok (some (pos_part new_lcn), new_lcn)

-- What one round of the loop leaves: the run, the bytes behind it, `prev_lcn`, `starting_vcn`.
pub record Round : Type 0 where
  pub run : DataRun
  pub rest : List ℕ
  pub prev_lcn : ℤ
  pub starting_vcn : ℕ

-- The body of the loop after the header byte, which is not 0.
pub decode_run : ℕ → List ℕ → ℤ → ℕ → Result Round
decode_run header bytes prev_lcn starting_vcn =
    let length_bytes = bit_and header 0x0f in
    let lcn_bytes = bit_and (header / 2 ^ 4) 0x0f in
    if length_bytes == 0 || (ltb 8 length_bytes || ltb 8 lcn_bytes)
    then err io
    else if ltb (length bytes) (length_bytes + lcn_bytes)
    then err io
    else do
      run_length ← or_bytes length_bytes 0 0 bytes
      if run_length == 0 then err io else do
        (lcn, new_prev) ← decode_lcn lcn_bytes (drop length_bytes bytes) prev_lcn
        next_vcn ← ok_or (checked_add starting_vcn run_length) io
        ok (record {
          run = record { starting_vcn = starting_vcn; length = run_length; lcn = lcn };
          rest = drop lcn_bytes (drop length_bytes bytes);
          prev_lcn = new_prev;
          starting_vcn = next_vcn;
        })

pub decode_loop : ℕ → List ℕ → ℤ → ℕ → Result (List DataRun)
decode_loop fuel [] prev_lcn starting_vcn = ok []
decode_loop zero (header ∷ bytes) prev_lcn starting_vcn = fault
decode_loop (suc fuel) (header ∷ bytes) prev_lcn starting_vcn =
    let more = (do
      r ← decode_run header bytes prev_lcn starting_vcn
      runs ← decode_loop fuel r.rest r.prev_lcn r.starting_vcn
      ok (r.run ∷ runs)) in
    if header == 0 then ok [] else more

-- Each round takes a byte at least, so the number of bytes is fuel enough.
pub decode_runs : List ℕ → Result (List DataRun)
decode_runs bytes = decode_loop (length bytes) bytes (pos 0) 0

-- `signed_bytes_needed`: the loop over 1..=8, with `left` rounds to go.
pub bytes_needed_from : ℕ → ℕ → ℤ → ℕ
bytes_needed_from zero n_bytes n = 8
bytes_needed_from (suc left) n_bytes n =
    let shift = 64 - 8 * n_bytes in
    let next = bytes_needed_from left (suc n_bytes) n in
    if leb_ℤ (shr_i64 i64_min shift) n && leb_ℤ n (shr_i64 i64_max shift) then n_bytes else next

pub signed_bytes_needed : ℤ → ℕ
signed_bytes_needed (pos zero) = 1
signed_bytes_needed n = bytes_needed_from 8 1 n

-- `for i in 0..n { out.push((z >> (8 * i)) as u8); }`, from index `i` on. (A `u64` below 2^63 is
-- shifted as the `i64` of the same value.)
pub push_bytes : ℕ → ℕ → ℤ → List ℕ
push_bytes zero i z = []
push_bytes (suc left) i z = as_u8 (shr_i64 z (8 * i)) ∷ push_bytes left (suc i) z

-- The width and the value of the LCN field.
pub lcn_field_of : Option ℕ → ℤ → Result (ℕ × ℤ)
lcn_field_of none prev_lcn = ok (0, pos 0)
lcn_field_of (some lcn) prev_lcn = do
  abs ← ok_or (i64_try_from lcn) io
  delta ← ok_or (fits_i64 (abs -ℤ prev_lcn)) io
  ok (signed_bytes_needed delta, delta)

-- The bytes of one run, header first.
pub push_run : ℕ → ℤ → ℕ → ℤ → List ℕ
push_run length_bytes len lcn_bytes lcn_field =
    bit_or (lcn_bytes * 2 ^ 4 % 256) (length_bytes % 256)
    ∷ (push_bytes length_bytes 0 len ++ push_bytes lcn_bytes 0 lcn_field)

pub encode_loop : List DataRun → ℤ → ℕ → Result (List ℕ)
encode_loop [] prev_lcn expected_vcn = ok (0 ∷ [])
encode_loop (r ∷ runs) prev_lcn expected_vcn =
    if not (r.starting_vcn == expected_vcn) || r.length == 0 then err io else do
      length_signed ← ok_or (i64_try_from r.length) io
      (lcn_bytes, lcn_field) ← lcn_field_of r.lcn prev_lcn
      next_vcn ← ok_or (checked_add expected_vcn r.length) io
      rest ← encode_loop runs (if ltb 0 lcn_bytes then prev_lcn +ℤ lcn_field else prev_lcn) next_vcn
      ok (push_run (signed_bytes_needed length_signed) length_signed lcn_bytes lcn_field ++ rest)

pub encode_runs : List DataRun → Result (List ℕ)
encode_runs runs = encode_loop runs (pos 0) 0

-- `vcn_to_lcn`. The source checks neither sum: they wrap in a release build.
pub vcn_to_lcn : List DataRun → ℕ → Option ℕ
vcn_to_lcn [] vcn = none
vcn_to_lcn (r ∷ runs) vcn =
    if ltb vcn r.starting_vcn
    then vcn_to_lcn runs vcn
    else if ltb vcn ((r.starting_vcn + r.length) % 2 ^ 64)
    then Option.map (λ base. (base + (vcn - r.starting_vcn)) % 2 ^ 64) r.lcn
    else vcn_to_lcn runs vcn

-- `range_has_hole_or_past_end`: the loop, with `covered_to`.
pub hole_loop : List DataRun → ℕ → ℕ → ℕ → Bool
hole_loop [] vcn_start end covered_to = ltb covered_to end
hole_loop (r ∷ runs) vcn_start end covered_to =
    let overlap_start = max r.starting_vcn vcn_start in
    let overlap_end = min (min (r.starting_vcn + r.length) (2 ^ 64 - 1)) end in
    let skip = hole_loop runs vcn_start end covered_to in
    let go_on = hole_loop runs vcn_start end overlap_end in
    if leb end r.starting_vcn
    then ltb covered_to end
    else if leb overlap_end overlap_start
    then skip
    else if is_none r.lcn
    then true
    else if ltb covered_to overlap_start
    then true
    else go_on

pub range_has_hole_or_past_end : List DataRun → ℕ → ℕ → Bool
range_has_hole_or_past_end runs vcn_start n_clusters = elim (checked_add vcn_start n_clusters) [
  | none ↦ true
  | some end ↦ hole_loop runs vcn_start end vcn_start
]
