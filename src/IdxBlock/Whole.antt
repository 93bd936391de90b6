-- ===== src/IdxBlock/Whole.antt =====
-- An index block in one run: `vcn_to_disk_offset` of src/idx_block.rs against `map_indx_block`.
use rust_fs_ntfs.Base.{
  ℕ, zero, suc, ◌+◌, ◌-◌, ◌*◌, ◌/◌, ◌%◌, ◌^◌, ◌≤◌, ◌<◌, ◌≡◌, refl, sym, arith, min, max, inl, inr,
}
use rust_fs_ntfs.Base.{true, false, ltb, ◌==◌, Bool-cases, List, [], ◌∷◌}
use rust_fs_ntfs.Base.{
  some, ok, io, >>=-eq-ok, via, ok_or, ok_or-eq-ok, checked_add, checked_add-eq,
}
use mathlib.Core.Path.{subst}
use native.Mathlib.Nat.{div-lt_iff_lt-mul, zero-div, zero-mod, suc-mul, mul-le-mul_right}
use rust_fs_ntfs.DataRuns.{DataRun}
use rust_fs_ntfs.Bitmap.{MappedChunk, cluster_span}
use rust_fs_ntfs.IdxBlock.{
  IndexAllocation, check_declared_block_extent, find_mapped, run_holds, block_clusters,
  vcn_to_disk_offset, bytes_in_run, block_chunk, block_loop, map_indx_block,
}

-- Rounding up to clusters fits `m` of them when the bytes do.
ceil_fits :
    (bytes size m : ℕ) → 0 < size → (bytes + (max size 1 - 1)) / max size 1 ≤ m → bytes ≤ m * size
ceil_fits bytes size m pos h =
    let same : max size 1 ≡ size = omega arith in
    let h' : (bytes + (size - 1)) / size ≤ m = subst (λ k. (bytes + (k - 1)) / k ≤ m) same h in
    let below : bytes + (size - 1) < suc m * size =
      (div-lt_iff_lt-mul {k = size} {x = bytes + (size - 1)} {y = suc m} pos).0 (omega arith) in
    let split : suc m * size ≡ m * size + size = suc-mul m size in omega arith

find_mapped-holds :
    (runs : List DataRun) (vcn : ℕ) {r : DataRun} {end : ℕ}
    → find_mapped runs vcn ≡ some r
    → checked_add r.starting_vcn r.length ≡ some end
    → (r.starting_vcn ≤ vcn) × (vcn < end)
unfolding find_mapped run_holds
find_mapped-holds [] vcn e h = absurd cc
find_mapped-holds (q ∷ runs) vcn {r} {end} e h =
    elim (Bool-cases (run_holds q vcn (checked_add q.starting_vcn q.length))) [
      | inl here ↦
          let e' : some q ≡ some r = rw here at e in
          let same : q ≡ r = cc in
          let h' : checked_add q.starting_vcn q.length ≡ some end =
            subst (λ x. checked_add x.starting_vcn x.length ≡ some end) (sym same) h in
          let here' = rw h' at here in
          subst (λ x. (x.starting_vcn ≤ vcn) × (vcn < end)) same (ground (arith, here'))
      | inr on ↦ find_mapped-holds runs vcn (rw on at e) h
    ]

block_loop-done :
    (fuel : ℕ) (ia : IndexAllocation) (vcn cursor device_bytes : ℕ)
    → ia.block_size ≤ cursor
    → block_loop fuel ia vcn cursor device_bytes ≡ ok []
unfolding block_loop
block_loop-done zero ia vcn cursor device h =
    let done : ltb cursor ia.block_size ≡ false = ground arith in rw done refl
block_loop-done (suc fuel) ia vcn cursor device h =
    let done : ltb cursor ia.block_size ≡ false = ground arith in rw done refl

-- The run that holds the first cluster of a block, and where it ends.
record InRun (ia : IndexAllocation) (vcn lcn run_end : ℕ) (run : DataRun) : Type 0 where
  found : find_mapped ia.runs vcn ≡ some run
  stored : run.lcn ≡ some lcn
  ends : checked_add run.starting_vcn run.length ≡ some run_end
  holds : vcn < run_end
  whole : ia.block_size ≤ (run_end - vcn) * ia.params.cluster_size

-- The one chunk.
abbrev pub whole_chunk : IndexAllocation → ℕ → MappedChunk
whole_chunk ia start = record { disk_offset = start; cursor = 0; len = ia.block_size }

block_chunk-whole :
    (ia : IndexAllocation) (vcn device_bytes lcn run_end start : ℕ) (run : DataRun)
    → 0 < ia.block_size
    → run_end < 2 ^ 64
    → run_end * ia.params.cluster_size < 2 ^ 64
    → InRun ia vcn lcn run_end run
    → cluster_span ia.params lcn (vcn - run.starting_vcn) 0 ia.block_size device_bytes ≡ ok start
    → block_chunk ia vcn 0 device_bytes ≡ ok (whole_chunk ia start)
unfolding block_chunk bytes_in_run
block_chunk-whole ia vcn device lcn run_end start run pos small fits in_run span =
    let size : ℕ = ia.params.cluster_size in
    let first : 0 / size ≡ 0 = zero-div size in
    let within : 0 % size ≡ 0 = zero-mod size in
    let unmoved : vcn + 0 ≡ vcn = omega arith in
    let at : ltb vcn (2 ^ 64) ≡ true = ground (arith, in_run.holds) in
    let holds : ltb run_end vcn ≡ false = ground (arith, in_run.holds) in
    let product : ltb ((run_end - vcn) * size) (2 ^ 64) ≡ true =
      ground (arith, mul-le-mul_right {m = run_end - vcn} {n = run_end} size (omega arith), fits) in
    let rest : ltb ((run_end - vcn) * size) 0 ≡ false = ground arith in
    let clipped : min ((run_end - vcn) * size - 0) (ia.block_size - 0) ≡ ia.block_size =
      omega (arith, in_run.whole) in
    let some_len : (ia.block_size == 0) ≡ false = ground arith in
    rw
      (
        first, within, unmoved, at, in_run.found, in_run.stored, in_run.ends, holds, product, rest,
        clipped, some_len, span,
      )
      refl

-- A run whose end, in bytes, a `u64` holds.
abbrev pub RunFits : IndexAllocation → ℕ → Type 0
RunFits ia vcn =
    (r : DataRun)
    → find_mapped ia.runs vcn ≡ some r
    → (r.starting_vcn + r.length) * ia.params.cluster_size < 2 ^ 64

checked_add-bound : (a b : ℕ) {c : ℕ} → checked_add a b ≡ some c → c < 2 ^ 64
checked_add-bound a b e = elim (Bool-cases (ltb (a + b) (2 ^ 64))) [
  | inl below ↦ let e' = rw below at e in ground (arith, below, e')
  | inr past ↦ let e' = rw past at e in absurd cc
]

block_loop-one :
    (fuel : ℕ) (ia : IndexAllocation) (vcn device_bytes start : ℕ)
    → 0 < ia.block_size
    → block_chunk ia vcn 0 device_bytes ≡ ok (whole_chunk ia start)
    → block_loop (suc fuel) ia vcn 0 device_bytes ≡ ok (whole_chunk ia start ∷ [])
unfolding block_loop
block_loop-one fuel ia vcn device start pos chunk =
    let below : ltb 0 ia.block_size ≡ true = ground arith in
    rw (below, chunk, block_loop-done fuel ia vcn (0 + ia.block_size) device (omega arith)) refl

map_indx_block-one :
    (ia : IndexAllocation) (vcn device_bytes start : ℕ)
    → 0 < ia.block_size
    → 0 < ia.params.cluster_size
    → check_declared_block_extent ia vcn ≡ ok tt
    → block_chunk ia vcn 0 device_bytes ≡ ok (whole_chunk ia start)
    → map_indx_block ia vcn device_bytes ≡ ok (whole_chunk ia start ∷ [])
unfolding map_indx_block
map_indx_block-one ia vcn device start pos cpos declared chunk =
    let c1 : (ia.params.cluster_size == 0) ≡ false = ground arith in
    let c2 : (ia.block_size == 0) ≡ false = ground arith in
    rw (declared, c1, c2) (one ia.block_size refl)
  where
    one :
        (n : ℕ) → n ≡ ia.block_size → block_loop n ia vcn 0 device ≡ ok (whole_chunk ia start ∷ [])
    one zero e = absurd (omega arith)
    one (suc n) e = block_loop-one n ia vcn device start pos chunk

-- With a block size and a cluster size above 0, a block that the lookup of one transfer accepts, in a
-- run whose bytes a u64 can count, is mapped to exactly that transfer: one chunk of the whole block,
-- at the offset that the lookup gives.
pub vcn_to_disk_offset-map_indx_block :
    (ia : IndexAllocation) (vcn device_bytes start : ℕ)
    → 0 < ia.block_size
    → 0 < ia.params.cluster_size
    → RunFits ia vcn
    → vcn_to_disk_offset ia vcn device_bytes ≡ ok start
    → map_indx_block ia vcn device_bytes ≡ ok (whole_chunk ia start ∷ [])
unfolding vcn_to_disk_offset
vcn_to_disk_offset-map_indx_block ia vcn device start pos cpos fits e =
    elim (>>=-eq-ok (check_declared_block_extent ia vcn) _ e) [
      | via tt declared f0 ↦ elim (>>=-eq-ok (ok_or (find_mapped ia.runs vcn) io) _ f0) [
        | via run e1 f1 ↦ elim (>>=-eq-ok (ok_or run.lcn io) _ f1) [
          | via lcn e2 f2 ↦
              elim (>>=-eq-ok (ok_or (checked_add run.starting_vcn run.length) io) _ f2) [
                | via run_end e3 f3 ↦
                    elim (>>=-eq-ok (ok_or (checked_add vcn (block_clusters ia)) io) _ f3) [
                      | via block_end e4 f4 ↦
                          let found = ok_or-eq-ok (find_mapped ia.runs vcn) io e1 in
                          let ends = ok_or-eq-ok (checked_add run.starting_vcn run.length) io e3 in
                          let (lo, hi) = find_mapped-holds ia.runs vcn found ends in
                          let span_end =
                            checked_add-eq vcn (block_clusters ia)
                              (ok_or-eq-ok (checked_add vcn (block_clusters ia)) io e4) in
                          let run_bytes : run_end * ia.params.cluster_size < 2 ^ 64 =
                            subst (λ n. n * ia.params.cluster_size < 2 ^ 64)
                              (sym (checked_add-eq run.starting_vcn run.length ends))
                              (fits run found) in
                          elim (Bool-cases (ltb run_end block_end)) [
                            | inl past ↦ let f5 = rw past at f4 in absurd cc
                            | inr inside ↦
                                let f5 = rw inside at f4 in
                                let whole =
                                  ceil_fits ia.block_size ia.params.cluster_size (run_end - vcn)
                                    cpos (ground (arith, span_end, inside, hi)) in
                                map_indx_block-one ia vcn device start pos cpos declared (
                                  block_chunk-whole ia vcn device lcn run_end start run pos
                                    (checked_add-bound run.starting_vcn run.length ends) run_bytes
                                    (record {
                                      found = found;
                                      stored = ok_or-eq-ok run.lcn io e2;
                                      ends = ends;
                                      holds = hi;
                                      whole = whole;
                                    })
                                    f5)
                          ]
                    ]
              ]
        ]
      ]
    ]
