-- ===== src/DataRuns/RoundTrip.antt =====
-- `decode_runs` reads back every list that `encode_runs` writes.
use rust_fs_ntfs.Base.{ℕ, zero, suc, ◌+◌, ◌-◌, ◌*◌, ◌^◌, ◌≤◌, ◌<◌, ◌≡◌, refl, sym, ap, ◌∙◌, arith}
use rust_fs_ntfs.Base.{List, [], ◌∷◌, ◌++◌, length, All, All-append}
use rust_fs_ntfs.Base.{length-append, append_assoc}
use rust_fs_ntfs.Base.{some, ok, io, >>=-eq-ok, via, ok_or-eq-ok, ok-injective, ok_or, checked_add}
use rust_fs_ntfs.Base.{false, not, ◌||◌, ltb, ◌==◌}
use rust_fs_ntfs.Base.{Bool-cases, inl, inr}
use rust_fs_ntfs.Base.{ℤ, pos, i64_try_from, IsByte, from_le}
use native.Mathlib.Nat.{pow-suc}
use rust_fs_ntfs.DataRuns.{DataRun, Round, push_bytes, push_run, decode_run}
use rust_fs_ntfs.DataRuns.{lcn_field_of, signed_bytes_needed, encode_loop, decode_loop}
use rust_fs_ntfs.DataRuns.{encode_runs, decode_runs}
use rust_fs_ntfs.DataRuns.Width.{Fits, signed_bytes_needed_lem}
use rust_fs_ntfs.DataRuns.Fields.{length-push_bytes, push_bytes-IsByte}
use rust_fs_ntfs.DataRuns.Fields.{push_bytes-unsigned}
use rust_fs_ntfs.DataRuns.Encoded.{IsEncoded, next_prev, decode_lcn-push_bytes, header_lem}
use rust_fs_ntfs.DataRuns.Encoded.{or_bytes-push_bytes, drop-push_bytes}

i64_try_from-eq-some : (n : ℕ) (z : ℤ) → i64_try_from n ≡ some z → (n < 2 ^ 63) × (pos n ≡ z)
i64_try_from-eq-some n z e = ground arith

-- What the encoder did for the first run of a list that it accepted.
encode_loop_inversion :
    (r : DataRun) (runs : List DataRun) (prev : ℤ) (vcn : ℕ) (bytes : List ℕ)
    → encode_loop (r ∷ runs) prev vcn ≡ ok bytes
    → (w : ℕ) × (z : ℤ) × (next : ℕ) × (rest : List ℕ) × IsEncoded r prev vcn w z next
      × (encode_loop runs (next_prev w z prev) next ≡ ok rest)
      × (push_run (signed_bytes_needed (pos r.length)) (pos r.length) w z ++ rest ≡ bytes)
unfolding encode_loop
encode_loop_inversion r runs prev vcn bytes e =
    elim (Bool-cases (not (r.starting_vcn == vcn) || r.length == 0)) [
      | inl bad ↦ absurd (cc (rw bad at e))
      | inr good ↦ elim (>>=-eq-ok (ok_or (i64_try_from r.length) io) _ (rw good at e)) [
        | via len e1 e2 ↦ elim (>>=-eq-ok (lcn_field_of r.lcn prev) _ e2) [
          | via (w, z) e3 e4 ↦ elim (>>=-eq-ok (ok_or (checked_add vcn r.length) io) _ e4) [
            | via next e5 e6 ↦ elim (>>=-eq-ok (encode_loop runs (next_prev w z prev) next) _ e6) [
              | via rest e7 e8 ↦
                  let (fits, same) = i64_try_from-eq-some r.length len (ok_or-eq-ok _ io e1) in
                  (
                    w,
                    z,
                    next,
                    rest,
                    record {
                      starts = ground (arith, good);
                      occupied = ground (arith, good);
                      narrow = fits;
                      field = e3;
                      sum = ok_or-eq-ok _ io e5;
                    },
                    e7,
                    rw same (ok-injective e8),
                  )
            ]
          ]
        ]
      ]
    ]

-- A length that fits a signed field fits the unsigned field of the same width.
width_of : (w n : ℕ) → 1 ≤ w → Fits w (pos n) → n < 2 ^ (8 * w)
width_of w n h f =
    let e : 8 * w ≡ suc (8 * w - 1) = omega arith in rw e (omega (arith, f, pow-suc 2 (8 * w - 1)))

abbrev round_of : DataRun → ℕ → ℕ → ℕ → List ℕ → Round
round_of r vcn next q rest = record {
  run = record { starting_vcn = vcn; length = r.length; lcn = r.lcn };
  rest = rest;
  prev_lcn = pos q;
  starting_vcn = next;
}

-- One round of the decoder over one written run.
decode_run-push_run :
    (r : DataRun) (p vcn w next : ℕ) (z : ℤ) (rest : List ℕ)
    → p < 2 ^ 63
    → IsEncoded r (pos p) vcn w z next
    → All IsByte rest
    → let lw = signed_bytes_needed (pos r.length) in
      (q : ℕ) × (q < 2 ^ 63)
      × (next_prev w z (pos p) ≡ pos q)
      × (1 ≤ lw)
      × (lw ≤ 8)
      × (w ≤ 8)
      × (decode_run
            (w * 16 + lw)
            (push_bytes lw 0 (pos r.length) ++ (push_bytes w 0 z ++ rest))
            (pos p)
            vcn
          ≡ ok (record { run = r; rest = rest; prev_lcn = pos q; starting_vcn = next }))
unfolding decode_run
decode_run-push_run r p vcn w next z rest hp enc hr =
    let (lo, hi, fits, _) = signed_bytes_needed_lem (pos r.length) (omega (arith, enc.narrow)) in
    let lw = signed_bytes_needed (pos r.length) in
    let (q, w8, hq, step, back) = decode_lcn-push_bytes r.lcn p w z rest hp enc.field hr in
    let (_, low, high) = header_lem w lw w8 hi in
    let tail = All-append IsByte _ rest (push_bytes-IsByte w 0 z) hr in
    let value : from_le (push_bytes lw 0 (pos r.length)) ≡ r.length =
      push_bytes-unsigned lw r.length (width_of lw r.length lo fits) in
    let room : ltb (length (push_bytes lw 0 (pos r.length) ++ (push_bytes w 0 z ++ rest))) (lw + w)
        ≡ false =
      ground (
        arith,
        length-append (push_bytes lw 0 (pos r.length)) (push_bytes w 0 z ++ rest),
        length-append (push_bytes w 0 z) rest,
        length-push_bytes lw 0 (pos r.length),
        length-push_bytes w 0 z,
      ) in
    let widths : (lw == 0 || (ltb 8 lw || ltb 8 w)) ≡ false = ground (arith, lo, hi, w8) in
    let nonzero : (r.length == 0) ≡ false = ground (arith, enc.occupied) in
    (
      q,
      hq,
      step,
      lo,
      hi,
      w8,
      rw
          (
            low,
            high,
            widths,
            room,
            or_bytes-push_bytes lw (pos r.length) (push_bytes w 0 z ++ rest) tail,
            value,
            nonzero,
            drop-push_bytes lw (pos r.length) (push_bytes w 0 z ++ rest),
            back,
            enc.sum,
            drop-push_bytes w z rest,
          )
          (ap (λ t. ok (round_of r t next q rest)) (sym enc.starts)),
    )

-- The bytes of one run, with the header as a sum and the appends to the right.
push_run-append :
    (w lw : ℕ) (len z : ℤ) (rest : List ℕ)
    → w ≤ 8
    → lw ≤ 8
    → push_run lw len w z ++ rest
      ≡ (w * 16 + lw) ∷ (push_bytes lw 0 len ++ (push_bytes w 0 z ++ rest))
unfolding push_run
push_run-append w lw len z rest hw hl = rw ((header_lem w lw hw hl).0, append_assoc) refl

push_run-IsByte :
    (w lw : ℕ) (len z : ℤ) (rest : List ℕ)
    → w ≤ 8
    → lw ≤ 8
    → All IsByte rest
    → All IsByte (push_run lw len w z ++ rest)
push_run-IsByte w lw len z rest hw hl h = rw (push_run-append w lw len z rest hw hl) (
  omega arith,
  All-append IsByte _ _ (push_bytes-IsByte lw 0 len)
      (All-append IsByte _ rest (push_bytes-IsByte w 0 z) h),
)

decode_loop-push_run :
    (r : DataRun) (runs : List DataRun) (p vcn w next fuel : ℕ) (z : ℤ) (rest : List ℕ)
    → p < 2 ^ 63
    → IsEncoded r (pos p) vcn w z next
    → All IsByte rest
    → ((q : ℕ) → next_prev w z (pos p) ≡ pos q → decode_loop fuel rest (pos q) next ≡ ok runs)
    → decode_loop
        (suc fuel)
        (push_run (signed_bytes_needed (pos r.length)) (pos r.length) w z ++ rest)
        (pos p)
        vcn
      ≡ ok (r ∷ runs)
decode_loop-push_run r runs p vcn w next fuel z rest hp enc hr more =
    let (q, hq, step, lo, hi, w8, read) = decode_run-push_run r p vcn w next z rest hp enc hr in
    let lw = signed_bytes_needed (pos r.length) in
    let nonzero : (w * 16 + lw == 0) ≡ false = ground (arith, lo) in
    rw (push_run-append w lw (pos r.length) z rest w8 hi)
      (unfold decode_loop in rw (nonzero, read, more q step) refl)

push_run_longer :
    (lw w : ℕ) (len z : ℤ) (rest : List ℕ) → length rest < length (push_run lw len w z ++ rest)
unfolding push_run
push_run_longer lw w len z rest =
    omega (arith, length-append (push_bytes lw 0 len ++ push_bytes w 0 z) rest)

pos-injective : {a b : ℕ} → pos a ≡ pos b → a ≡ b
pos-injective h = cc

-- The list of an accepted head run, taken apart.
data Written (r : DataRun) (runs : List DataRun) (p vcn : ℕ) (bytes : List ℕ) : Type 0 where
  written :
      (w : ℕ) (z : ℤ) (next q : ℕ) (rest : List ℕ)
      → IsEncoded r (pos p) vcn w z next
      → w ≤ 8
      → q < 2 ^ 63
      → next_prev w z (pos p) ≡ pos q
      → encode_loop runs (pos q) next ≡ ok rest
      → push_run (signed_bytes_needed (pos r.length)) (pos r.length) w z ++ rest ≡ bytes
      → Written r runs p vcn bytes

head_run :
    (r : DataRun) (runs : List DataRun) (p vcn : ℕ) (bytes : List ℕ)
    → p < 2 ^ 63
    → encode_loop (r ∷ runs) (pos p) vcn ≡ ok bytes
    → Written r runs p vcn bytes
head_run r runs p vcn bytes hp e =
    let (w, z, next, rest, enc, more, whole) = encode_loop_inversion r runs (pos p) vcn bytes e in
    let (q, w8, hq, step, _) = decode_lcn-push_bytes r.lcn p w z [] hp enc.field tt in
    written w z next q rest enc w8 hq step (rw step at more) whole

encode_loop-nil :
    (p vcn : ℕ) (bytes : List ℕ) → encode_loop [] (pos p) vcn ≡ ok bytes → 0 ∷ [] ≡ bytes
unfolding encode_loop
encode_loop-nil p vcn bytes e = ok-injective e

encode_loop-IsByte :
    (runs : List DataRun) (p vcn : ℕ) (bytes : List ℕ)
    → p < 2 ^ 63
    → encode_loop runs (pos p) vcn ≡ ok bytes
    → All IsByte bytes
encode_loop-IsByte [] p vcn bytes hp e = rw (← encode_loop-nil p vcn bytes e) (omega arith)
encode_loop-IsByte (r ∷ runs) p vcn bytes hp e = elim (head_run r runs p vcn bytes hp e) [
  | written w z next q rest enc w8 hq step more whole ↦
      let (_, hi, _, _) = signed_bytes_needed_lem (pos r.length) (omega (arith, enc.narrow)) in
      rw (← whole) (
        push_run-IsByte w _ (pos r.length) z rest w8 hi
          (encode_loop-IsByte runs q next rest hq more))
]

decode_loop-encode_loop :
    (runs : List DataRun) (p vcn fuel : ℕ) (bytes : List ℕ)
    → p < 2 ^ 63
    → encode_loop runs (pos p) vcn ≡ ok bytes
    → length bytes ≤ fuel
    → decode_loop fuel bytes (pos p) vcn ≡ ok runs
decode_loop-encode_loop [] p vcn zero bytes hp e h =
    absurd (omega (arith, ap length (encode_loop-nil p vcn bytes e)))
decode_loop-encode_loop [] p vcn (suc fuel) bytes hp e h =
    rw (← encode_loop-nil p vcn bytes e) (unfold decode_loop in refl)
decode_loop-encode_loop (r ∷ runs) p vcn zero bytes hp e h =
    elim (head_run r runs p vcn bytes hp e) [
      | written w z next q rest enc w8 hq step more whole ↦ absurd (
          omega (
            arith,
            ap length whole,
            push_run_longer (signed_bytes_needed (pos r.length)) w (pos r.length) z rest,
          ))
    ]
decode_loop-encode_loop (r ∷ runs) p vcn (suc fuel) bytes hp e h =
    elim (head_run r runs p vcn bytes hp e) [
      | written w z next q rest enc w8 hq step more whole ↦ rw (← whole) (
          decode_loop-push_run r runs p vcn w next fuel z rest hp enc
            (encode_loop-IsByte runs q next rest hq more)
            (λ q' step'. rw (← pos-injective (sym step ∙ step')) (
              decode_loop-encode_loop runs q next fuel rest hq more (
                omega (
                  arith,
                  ap length whole,
                  push_run_longer (signed_bytes_needed (pos r.length)) w (pos r.length) z rest,
                )))))
    ]

-- Every list of runs that `encode_runs` accepts is read back by `decode_runs` exactly as it was.
pub decode_runs-encode_runs :
    (runs : List DataRun) (bytes : List ℕ)
    → encode_runs runs ≡ ok bytes
    → decode_runs bytes ≡ ok runs
unfolding encode_runs decode_runs
decode_runs-encode_runs runs bytes e =
    decode_loop-encode_loop runs 0 0 (length bytes) bytes (omega arith) e (omega arith)
