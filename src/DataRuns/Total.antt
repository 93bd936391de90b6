-- ===== src/DataRuns/Total.antt =====
-- `encode_runs` succeeds on every contiguous list with lengths below 2^63.
use rust_fs_ntfs.Base.{ℕ, ◌+◌, ◌^◌, ◌<◌, ◌≡◌, refl, arith}
use rust_fs_ntfs.Base.{List, [], ◌∷◌, ◌++◌, All, Option, none, some, ok}
use rust_fs_ntfs.Base.{true, false, not, ◌||◌, ltb, ◌==◌, checked_add}
use rust_fs_ntfs.Base.{ℤ, pos, ◌-ℤ◌, i64_try_from}
use rust_fs_ntfs.DataRuns.{
  DataRun, signed_bytes_needed, lcn_field_of, push_run, encode_loop, encode_runs,
}
use rust_fs_ntfs.DataRuns.{decode_runs}
use rust_fs_ntfs.DataRuns.Width.{signed_bytes_needed_lem}
use rust_fs_ntfs.DataRuns.Encoded.{next_prev, delta_lem}
use rust_fs_ntfs.DataRuns.RoundTrip.{decode_runs-encode_runs}
use rust_fs_ntfs.DataRuns.Shape.{LcnFits, Contiguous, decode_runs-Contiguous}

abbrev pub IsNarrow : DataRun → Type 0
IsNarrow r = r.length < 2 ^ 63

data LcnField (lcn : Option ℕ) (p : ℕ) : Type 0 where
  field :
      (w : ℕ) (z : ℤ) (q : ℕ)
      → lcn_field_of lcn (pos p) ≡ ok (w, z)
      → next_prev w z (pos p) ≡ pos q
      → q < 2 ^ 63
      → LcnField lcn p

lcn_field : (lcn : Option ℕ) (p : ℕ) → LcnFits lcn → p < 2 ^ 63 → LcnField lcn p
unfolding lcn_field_of
lcn_field none p h hp = field 0 (pos 0) p refl refl hp
lcn_field (some a) p h hp =
    let small : i64_try_from a ≡ some (pos a) = ground arith in
    let (fits, is_i64, _, back) = delta_lem a p h hp in
    let (lo, _, _, _) = signed_bytes_needed_lem (pos a -ℤ pos p) fits in
    let positive : ltb 0 (signed_bytes_needed (pos a -ℤ pos p)) ≡ true = ground (arith, lo) in
    field (signed_bytes_needed (pos a -ℤ pos p)) (pos a -ℤ pos p) a (rw (small, is_i64))
      (rw positive back) h

encode_loop-total :
    (runs : List DataRun) (p vcn : ℕ)
    → p < 2 ^ 63
    → Contiguous vcn runs
    → All IsNarrow runs
    → (bytes : List ℕ) × (encode_loop runs (pos p) vcn ≡ ok bytes)
unfolding encode_loop
encode_loop-total [] p vcn hp c n = (0 ∷ [], refl)
encode_loop-total (r ∷ runs) p vcn hp (starts, occupied, below, fits, tail) (narrow, rest) =
    elim (lcn_field r.lcn p fits hp) [
      | field w z q found step hq ↦
          let (bytes, e) = encode_loop-total runs q (vcn + r.length) hq tail rest in
          let guards : (not (r.starting_vcn == vcn) || r.length == 0) ≡ false = ground arith in
          let small : i64_try_from r.length ≡ some (pos r.length) = ground arith in
          let sum : checked_add vcn r.length ≡ some (vcn + r.length) = ground arith in
          (
            push_run (signed_bytes_needed (pos r.length)) (pos r.length) w z ++ bytes,
            rw (guards, small, found, sum, step, e) refl,
          )
    ]

-- What was decoded, with run lengths below 2^63, can be encoded again, and the new bytes decode to
-- the same list.
pub encode_runs-decode_runs :
    (bytes : List ℕ) (runs : List DataRun)
    → decode_runs bytes ≡ ok runs
    → All IsNarrow runs
    → (again : List ℕ) × (encode_runs runs ≡ ok again) × (decode_runs again ≡ ok runs)
encode_runs-decode_runs bytes runs e n =
    let (again, e') : (again : List ℕ) × (encode_runs runs ≡ ok again) =
      unfold encode_runs in
      encode_loop-total runs 0 0 (omega arith) (decode_runs-Contiguous bytes runs e) n in
    (again, e', decode_runs-encode_runs runs again e')
