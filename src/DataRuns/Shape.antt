-- ===== src/DataRuns/Shape.antt =====
-- What `decode_runs` returns on any input: a contiguous list or an error, never a panic.
use rust_fs_ntfs.Base.{ℕ, zero, suc, ◌+◌, ◌/◌, ◌^◌, ◌≤◌, ◌<◌, ◌≡◌, ◌≢◌, refl, arith}
use rust_fs_ntfs.Base.{List, [], ◌∷◌, length, drop, length-drop, bit_and}
use rust_fs_ntfs.Base.{Option, none, some, Result, ok, err, fault, io, ◌>>=◌, >>=-eq-ok, via}
use rust_fs_ntfs.Base.{
  ok_or, ok_or-eq-ok, >>=-ne-fault, ok_or-ne-fault, ok-injective, checked_add, pos_part,
  is_negative,
}
use rust_fs_ntfs.Base.{◌||◌, ltb, ◌==◌, if◌then◌else◌}
use rust_fs_ntfs.Base.{Bool-cases, inl, inr}
use rust_fs_ntfs.Base.{ℤ, pos, ◌+ℤ◌, fits_i64, as_i64}
use rust_fs_ntfs.DataRuns.{
  DataRun, Round, or_bytes, decode_lcn, decode_run, decode_loop, decode_runs,
}
use rust_fs_ntfs.DataRuns.{sign_extend_i64}

-- An LCN that a run names is below 2^63.
abbrev pub LcnFits : Option ℕ → Type 0
LcnFits none = Unit {0}
LcnFits (some a) = a < 2 ^ 63

-- The runs follow one another from `vcn` on; none is empty, and the last ends below 2^64.
abbrev pub Contiguous : ℕ → List DataRun → Type 0
Contiguous vcn [] = Unit {0}
Contiguous vcn (r ∷ runs) =
    (r.starting_vcn ≡ vcn)
    × (0 < r.length)
    × (vcn + r.length < 2 ^ 64)
    × LcnFits r.lcn
    × Contiguous (vcn + r.length) runs

or_bytes-ne-fault :
    (n i acc : ℕ) (bytes : List ℕ) → n ≤ length bytes → or_bytes n i acc bytes ≢ fault
unfolding or_bytes
or_bytes-ne-fault zero i acc bytes h = λ e. cc
or_bytes-ne-fault (suc n) i acc [] h = absurd (omega arith)
or_bytes-ne-fault (suc n) i acc (b ∷ bytes) h = or_bytes-ne-fault n (suc i) _ bytes (omega arith)

-- The checks on a new LCN.
abbrev checked_lcn : ℤ → Result (Option ℕ × ℤ)
checked_lcn z = do
  new_lcn ← ok_or (fits_i64 z) io
  if is_negative new_lcn then err io else ok (some (pos_part new_lcn), new_lcn)

new_lcn-ne-fault : (z : ℤ) → checked_lcn z ≢ fault
new_lcn-ne-fault z = λ e. ground arith

new_lcn-LcnFits : (z new : ℤ) (lcn : Option ℕ) → checked_lcn z ≡ ok (lcn, new) → LcnFits lcn
new_lcn-LcnFits z new none e = tt
new_lcn-LcnFits z new (some a) e = ground arith

decode_lcn-ne-fault :
    (n : ℕ) (bytes : List ℕ) (prev : ℤ) → n ≤ length bytes → decode_lcn n bytes prev ≢ fault
unfolding decode_lcn
decode_lcn-ne-fault n bytes prev h = elim (Bool-cases (n == 0)) [
  | inl none_there ↦ rw none_there (λ e. cc)
  | inr there ↦ rw there (
      >>=-ne-fault (or_bytes n 0 0 bytes) _ (or_bytes-ne-fault n 0 0 bytes h)
        (λ raw _. new_lcn-ne-fault (prev +ℤ as_i64 (sign_extend_i64 raw n))))
]

decode_lcn-LcnFits :
    (n : ℕ) (bytes : List ℕ) (prev new : ℤ) (lcn : Option ℕ)
    → decode_lcn n bytes prev ≡ ok (lcn, new)
    → LcnFits lcn
unfolding decode_lcn
decode_lcn-LcnFits n bytes prev new lcn e = elim (Bool-cases (n == 0)) [
  | inl none_there ↦ let same : none ≡ lcn = cc (rw none_there at e) in rw (← same) tt
  | inr there ↦ elim (>>=-eq-ok (or_bytes n 0 0 bytes) _ (rw there at e)) [
    | via raw _ e2 ↦ new_lcn-LcnFits (prev +ℤ as_i64 (sign_extend_i64 raw n)) new lcn e2
  ]
]

-- What a successful round tells of its run and of the input that is left.
pub record IsRound (vcn : ℕ) (bytes : List ℕ) (r : Round) : Type 0 where
  pub starts : r.run.starting_vcn ≡ vcn
  pub occupied : 0 < r.run.length
  pub below : vcn + r.run.length < 2 ^ 64
  pub next : r.starting_vcn ≡ vcn + r.run.length
  pub lcn_fits : LcnFits r.run.lcn
  pub shorter : length r.rest ≤ length bytes

decoded-IsRound :
    (vcn len next lb cb : ℕ) (bytes : List ℕ) (lcn : Option ℕ) (new : ℤ)
    → 0 < len
    → checked_add vcn len ≡ some next
    → LcnFits lcn
    → IsRound vcn bytes (record {
      run = record { starting_vcn = vcn; length = len; lcn = lcn };
      rest = drop cb (drop lb bytes);
      prev_lcn = new;
      starting_vcn = next;
    })
decoded-IsRound vcn len next lb cb bytes lcn new full sum fits = record {
  starts = refl;
  occupied = full;
  below = ground (arith, sum);
  next = ground (arith, sum);
  lcn_fits = fits;
  shorter = omega (arith, length-drop cb (drop lb bytes), length-drop lb bytes);
}

decode_run-IsRound :
    (header : ℕ) (bytes : List ℕ) (prev : ℤ) (vcn : ℕ) (r : Round)
    → decode_run header bytes prev vcn ≡ ok r
    → IsRound vcn bytes r
unfolding decode_run
decode_run-IsRound header bytes prev vcn r e =
    let lb = bit_and header 0x0f in
    let cb = bit_and (header / 2 ^ 4) 0x0f in
    elim (Bool-cases (lb == 0 || (ltb 8 lb || ltb 8 cb))) [
      | inl bad ↦ absurd (cc (rw bad at e))
      | inr good ↦ elim (Bool-cases (ltb (length bytes) (lb + cb))) [
        | inl short ↦ absurd (cc (rw (good, short) at e))
        | inr long ↦ elim (>>=-eq-ok (or_bytes lb 0 0 bytes) _ (rw (good, long) at e)) [
          | via len e1 e2 ↦ elim (Bool-cases (len == 0)) [
            | inl empty ↦ absurd (cc (rw empty at e2))
            | inr full ↦ elim (>>=-eq-ok (decode_lcn cb (drop lb bytes) prev) _ (rw full at e2)) [
              | via (lcn, new) e3 e4 ↦ elim (>>=-eq-ok (ok_or (checked_add vcn len) io) _ e4) [
                | via next e5 e6 ↦ rw (← ok-injective e6) (
                    decoded-IsRound vcn len next lb cb bytes lcn new (ground (arith, full))
                      (ok_or-eq-ok _ io e5) (decode_lcn-LcnFits cb (drop lb bytes) prev new lcn e3))
              ]
            ]
          ]
        ]
      ]
    ]

decode_run-ne-fault :
    (header : ℕ) (bytes : List ℕ) (prev : ℤ) (vcn : ℕ) → decode_run header bytes prev vcn ≢ fault
unfolding decode_run
decode_run-ne-fault header bytes prev vcn =
    let lb = bit_and header 0x0f in
    let cb = bit_and (header / 2 ^ 4) 0x0f in
    elim (Bool-cases (lb == 0 || (ltb 8 lb || ltb 8 cb))) [
      | inl bad ↦ rw bad (λ e. cc)
      | inr good ↦ elim (Bool-cases (ltb (length bytes) (lb + cb))) [
        | inl short ↦ rw (good, short) (λ e. cc)
        | inr long ↦
            rw (good, long)
              (>>=-ne-fault (or_bytes lb 0 0 bytes) _
                (or_bytes-ne-fault lb 0 0 bytes (ground (arith, long)))
                (λ len _. elim (Bool-cases (len == 0)) [
                  | inl empty ↦ rw empty (λ e. cc)
                  | inr full ↦ rw full (
                      >>=-ne-fault (decode_lcn cb (drop lb bytes) prev) _
                        (decode_lcn-ne-fault cb (drop lb bytes) prev
                          (ground (arith, long, length-drop lb bytes)))
                        (λ lcn _.
                          >>=-ne-fault (ok_or (checked_add vcn len) io) _
                            (ok_or-ne-fault (checked_add vcn len) io) (λ next _ e. cc)))
                ]))
      ]
    ]

decode_loop-ne-fault :
    (fuel : ℕ) (bytes : List ℕ) (prev : ℤ) (vcn : ℕ)
    → length bytes ≤ fuel
    → decode_loop fuel bytes prev vcn ≢ fault
unfolding decode_loop
decode_loop-ne-fault zero [] prev vcn h = λ e. cc
decode_loop-ne-fault (suc fuel) [] prev vcn h = λ e. cc
decode_loop-ne-fault zero (header ∷ bytes) prev vcn h = absurd (omega arith)
decode_loop-ne-fault (suc fuel) (header ∷ bytes) prev vcn h = elim (Bool-cases (header == 0)) [
  | inl end ↦ rw end (λ e. cc)
  | inr more ↦ rw more (
      >>=-ne-fault (decode_run header bytes prev vcn) _ (decode_run-ne-fault header bytes prev vcn)
        (λ r e.
          >>=-ne-fault (decode_loop fuel r.rest r.prev_lcn r.starting_vcn) _
            (decode_loop-ne-fault fuel r.rest r.prev_lcn r.starting_vcn
              (omega (arith, (decode_run-IsRound header bytes prev vcn r e).shorter)))
            (λ runs _ e. cc)))
]

decode_loop-Contiguous :
    (fuel : ℕ) (bytes : List ℕ) (prev : ℤ) (vcn : ℕ) (runs : List DataRun)
    → decode_loop fuel bytes prev vcn ≡ ok runs
    → Contiguous vcn runs
unfolding decode_loop
decode_loop-Contiguous fuel [] prev vcn runs e = rw (← ok-injective e) tt
decode_loop-Contiguous zero (header ∷ bytes) prev vcn runs e = absurd (cc e)
decode_loop-Contiguous (suc fuel) (header ∷ bytes) prev vcn runs e =
    elim (Bool-cases (header == 0)) [
      | inl end ↦ rw (← ok-injective (rw end at e)) tt
      | inr more ↦ elim (>>=-eq-ok (decode_run header bytes prev vcn) _ (rw more at e)) [
        | via r e1 e2 ↦ elim (>>=-eq-ok (decode_loop fuel r.rest r.prev_lcn r.starting_vcn) _ e2) [
          | via rest e3 e4 ↦
              let round = decode_run-IsRound header bytes prev vcn r e1 in
              let tail = decode_loop-Contiguous fuel r.rest r.prev_lcn r.starting_vcn rest e3 in
              rw (← ok-injective e4)
                (round.starts, round.occupied, round.below, round.lcn_fits, (rw round.next at tail))
        ]
      ]
    ]

-- `decode_runs` ends on every input, with a list or an error: no byte is read out of range.
pub decode_runs-ne-fault : (bytes : List ℕ) → decode_runs bytes ≢ fault
unfolding decode_runs
decode_runs-ne-fault bytes = decode_loop-ne-fault (length bytes) bytes (pos 0) 0 (omega arith)

-- A list that `decode_runs` returns covers the VCNs from 0 on without a gap or an overlap; no run
-- is empty, the VCNs stay below 2^64 and every LCN below 2^63.
pub decode_runs-Contiguous :
    (bytes : List ℕ) (runs : List DataRun) → decode_runs bytes ≡ ok runs → Contiguous 0 runs
unfolding decode_runs
decode_runs-Contiguous bytes runs e = decode_loop-Contiguous (length bytes) bytes (pos 0) 0 runs e
