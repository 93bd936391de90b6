-- ===== src/Sparse/Plan.antt =====
-- The plan covers every cluster once, with the right kind, in runs that cannot be longer.
use rust_fs_ntfs.Base.{ℕ, zero, suc, ◌+◌, ◌-◌, ◌*◌, ◌≤◌, ◌<◌, ◌≡◌, ◌≢◌, refl, arith, min, inl, inr}
use rust_fs_ntfs.Base.{ap, Bool, true, false, ltb, ◌==◌, Bool-cases}
use rust_fs_ntfs.Base.{List, [], ◌∷◌, length, ok}
use rust_fs_ntfs.Sparse.{
  SparseSegment, hole, stored, is_hole, differ, extend_run, segment, plan_loop,
}
use rust_fs_ntfs.Sparse.{clusters_for, plan_sparse_segments}
use native.Mathlib.Nat.{div-mul-le_self}
use native.Mathlib.Decide.{dec_lt}

-- The clusters from `lo` up to `hi` are all of one kind.
abbrev pub AllOf : List ℕ → ℕ → Bool → ℕ → ℕ → Type 0
AllOf bytes cs kind lo hi = (v : ℕ) → lo ≤ v → v < hi → is_hole bytes cs v ≡ kind

-- A run that starts at `vcn`: not empty, inside the total, of one kind, and the next cluster, if
-- there is one, is of the other kind.
pub record IsRun (bytes : List ℕ) (cs total : ℕ) (kind : Bool) (vcn run : ℕ) : Type 0 where
  pub occupied : 1 ≤ run
  pub inside : vcn + run ≤ total
  pub same : AllOf bytes cs kind vcn (vcn + run)
  pub maximal : vcn + run < total → is_hole bytes cs (vcn + run) ≢ kind

differ→ne : (a b : Bool) → differ a b ≡ true → a ≢ b
unfolding differ
differ→ne true true h = cc
differ→ne true false h = λ e. cc
differ→ne false true h = λ e. cc
differ→ne false false h = cc

same→eq : (a b : Bool) → differ a b ≡ false → a ≡ b
unfolding differ
same→eq true true h = refl
same→eq true false h = cc
same→eq false true h = cc
same→eq false false h = refl

extend_run-IsRun :
    (fuel : ℕ) (bytes : List ℕ) (cs total : ℕ) (kind : Bool) (vcn run : ℕ)
    → total ≤ vcn + run + fuel
    → 1 ≤ run
    → vcn + run ≤ total
    → AllOf bytes cs kind vcn (vcn + run)
    → IsRun bytes cs total kind vcn (extend_run fuel bytes cs total kind vcn run)
unfolding extend_run
extend_run-IsRun zero bytes cs total kind vcn run f occ ins same = record {
  occupied = occ;
  inside = ins;
  same = same;
  maximal = λ h. absurd (omega arith);
}
extend_run-IsRun (suc fuel) bytes cs total kind vcn run f occ ins same =
    elim (Bool-cases (ltb (vcn + run) total)) [
      | inl below ↦ elim (Bool-cases (differ (is_hole bytes cs (vcn + run)) kind)) [
        | inl other ↦
            rw (below, other)
              (record {
                occupied = occ;
                inside = ins;
                same = same;
                maximal = λ h. differ→ne (is_hole bytes cs (vcn + run)) kind other;
              })
        | inr equal ↦
            rw (below, equal)
              (extend_run-IsRun fuel bytes cs total kind vcn (suc run) (omega arith) (omega arith)
                (ground (arith, below))
                (λ v lo hi. elim (dec_lt v (vcn + run)) [
                  | yes early ↦ same v lo early
                  | no last ↦
                      let e : v ≡ vcn + run = omega arith in
                      rw e (same→eq (is_hole bytes cs (vcn + run)) kind equal)
                ]))
      ]
      | inr end ↦ rw end (record {
        occupied = occ;
        inside = ins;
        same = same;
        maximal = λ h. absurd (ground (arith, end));
      })
    ]

-- The segments from `vcn` to the total.
abbrev pub Planned : List ℕ → ℕ → ℕ → ℕ → List SparseSegment → Type 0
Planned bytes cs total vcn [] = vcn ≡ total
Planned bytes cs total vcn (hole start run ∷ segments) =
    (start ≡ vcn) × IsRun bytes cs total true vcn run × Planned bytes cs total (vcn + run) segments
Planned bytes cs total vcn (stored start run byte_start byte_len ∷ segments) =
    (start ≡ vcn)
    × IsRun bytes cs total false vcn run
    × (byte_start ≡ vcn * cs)
    × (byte_start + byte_len ≡ min ((vcn + run) * cs) (length bytes))
    × Planned bytes cs total (vcn + run) segments

-- The first byte of a cluster below the total lies in the buffer.
start_inside : (len cs vcn : ℕ) → 0 < cs → vcn < clusters_for len cs → vcn * cs < len
unfolding clusters_for
start_inside len cs vcn h k = grind (arith, div-mul-le_self (len + (cs - 1)) cs)

Planned-segment :
    (bytes : List ℕ) (cs vcn run : ℕ) (kind : Bool) (segments : List SparseSegment)
    → let total = clusters_for (length bytes) cs in
      0 < cs
      → vcn < total
      → IsRun bytes cs total kind vcn run
      → Planned bytes cs total (vcn + run) segments
      → Planned bytes cs total vcn (segment bytes cs kind vcn run ∷ segments)
unfolding segment
Planned-segment bytes cs vcn run true segments pos below r p = (refl, r, p)
Planned-segment bytes cs vcn run false segments pos below r p =
    let low = start_inside (length bytes) cs vcn pos below in
    (refl, r, refl, grind (arith, r.occupied), p)

plan_loop-Planned :
    (fuel : ℕ) (bytes : List ℕ) (cs vcn : ℕ)
    → let total = clusters_for (length bytes) cs in
      0 < cs
      → total ≤ vcn + fuel
      → vcn ≤ total
      → (segments : List SparseSegment) × (plan_loop fuel bytes cs total vcn ≡ ok segments)
        × Planned bytes cs total vcn segments
unfolding plan_loop
plan_loop-Planned zero bytes cs vcn pos f h =
    let end : ltb vcn (clusters_for (length bytes) cs) ≡ false = ground arith in
    ([], rw end refl, omega arith)
plan_loop-Planned (suc fuel) bytes cs vcn pos f h =
    let total = clusters_for (length bytes) cs in
    elim (Bool-cases (ltb vcn total)) [
      | inl below ↦
          let kind = is_hole bytes cs vcn in
          let run = extend_run total bytes cs total kind vcn 1 in
          let r : IsRun bytes cs total kind vcn run =
            extend_run-IsRun total bytes cs total kind vcn 1 (omega arith) (omega arith)
              (ground (arith, below)) (λ v lo hi. ap (is_hole bytes cs) (omega arith)) in
          let (segments, e, p) =
            plan_loop-Planned fuel bytes cs (vcn + run) pos (omega (arith, r.occupied)) r.inside in
          (
            segment bytes cs kind vcn run ∷ segments,
            rw (below, e) refl,
            Planned-segment bytes cs vcn run kind segments pos (ground (arith, below)) r p,
          )
      | inr end ↦ ([], rw end refl, ground (arith, end))
    ]

-- With a cluster size above 0 the plan is made, and its segments cover the clusters of the buffer
-- from 0 on without a gap: a hole has only clusters of zeros and stored data only clusters that
-- are not, no segment could be longer, and a stored segment names its bytes of the buffer.
pub plan-Planned :
    (bytes : List ℕ) (cs : ℕ)
    → 0 < cs
    → (segments : List SparseSegment) × (plan_sparse_segments bytes cs ≡ ok segments)
      × Planned bytes cs (clusters_for (length bytes) cs) 0 segments
unfolding plan_sparse_segments
plan-Planned bytes cs pos =
    let (segments, e, p) =
      plan_loop-Planned (clusters_for (length bytes) cs) bytes cs 0 pos (omega arith)
        (omega arith) in
    let positive : (cs == 0) ≡ false = ground arith in (segments, rw (positive, e) refl, p)
