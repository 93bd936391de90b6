-- ===== src/Sparse.antt =====
-- Planning a sparse write: src/sparse.rs. The buffer is a list of bytes, and a slice of it is taken
-- by `take` and `drop`; all slices are in range by the bounds of the loops.
pub mod Plan
pub mod Runs
mod Tests
use rust_fs_ntfs.Base.{
  ◌%◌, ◌^◌, ℕ, zero, suc, ◌+◌, ◌-◌, ◌*◌, ◌/◌, min, Bool, true, false, not, ◌&&◌, ltb, ◌==◌,
}
use rust_fs_ntfs.Base.{if◌then◌else◌, List, [], ◌∷◌, length, take, drop, none, some}
use rust_fs_ntfs.Base.{Result, ok, err, fault, io, ◌>>=◌}
use rust_fs_ntfs.DataRuns.{DataRun}

-- `SparseSegment`
pub data SparseSegment : Type 0 where
  hole : ℕ → ℕ → SparseSegment
  stored : ℕ → ℕ → ℕ → ℕ → SparseSegment

-- `is_zero`
pub is_zero : List ℕ → Bool
is_zero [] = true
is_zero (b ∷ chunk) = b == 0 && is_zero chunk

-- `div_ceil`
pub clusters_for : ℕ → ℕ → ℕ
clusters_for len cluster_size = (len + (cluster_size - 1)) / cluster_size

-- `is_zero(&data[vcn * cs..min((vcn + 1) * cs, data.len())])`
pub is_hole : List ℕ → ℕ → ℕ → Bool
is_hole bytes cs vcn =
    let start = vcn * cs in
    is_zero (take (min ((vcn + 1) * cs) (length bytes) - start) (drop start bytes))

-- `a != b` of two Booleans.
pub differ : Bool → Bool → Bool
differ true b = not b
differ false b = b

-- The inner loop, which extends the run of clusters while the next one is of the same kind.
pub extend_run : ℕ → List ℕ → ℕ → ℕ → Bool → ℕ → ℕ → ℕ
extend_run zero bytes cs total kind vcn run = run
extend_run (suc fuel) bytes cs total kind vcn run =
    let more = extend_run fuel bytes cs total kind vcn (suc run) in
    if ltb (vcn + run) total
    then if differ (is_hole bytes cs (vcn + run)) kind then run else more
    else run

-- The segment of `run` clusters from `vcn` on.
pub segment : List ℕ → ℕ → Bool → ℕ → ℕ → SparseSegment
segment bytes cs true vcn run = hole vcn run
segment bytes cs false vcn run =
    stored vcn run (vcn * cs) (min ((vcn + run) * cs) (length bytes) - vcn * cs)

-- The outer loop. Each round takes a cluster at least.
pub plan_loop : ℕ → List ℕ → ℕ → ℕ → ℕ → Result (List SparseSegment)
plan_loop zero bytes cs total vcn = if ltb vcn total then fault else ok []
plan_loop (suc fuel) bytes cs total vcn =
    let kind = is_hole bytes cs vcn in
    let run = extend_run total bytes cs total kind vcn 1 in
    let more = (do
      segments ← plan_loop fuel bytes cs total (vcn + run)
      ok (segment bytes cs kind vcn run ∷ segments)) in
    if ltb vcn total then more else ok []

-- The assertion on the cluster size panics.
pub plan_sparse_segments : List ℕ → ℕ → Result (List SparseSegment)
plan_sparse_segments bytes cluster_size =
    let total = clusters_for (length bytes) cluster_size in
    if cluster_size == 0 then fault else plan_loop total bytes cluster_size total 0

-- The sum of `u64`s wraps in a release build.
pub allocated_clusters : List SparseSegment → ℕ
allocated_clusters [] = 0
allocated_clusters (hole vcn clusters ∷ segments) = allocated_clusters segments
allocated_clusters (stored vcn clusters start len ∷ segments) =
    (clusters + allocated_clusters segments) % 2 ^ 64

-- The list of LCNs is what the iterator has not reached; what is left at the end is an error.
pub build_runs : List SparseSegment → List ℕ → Result (List DataRun)
build_runs [] [] = ok []
build_runs [] (lcn ∷ lcns) = err io
build_runs (hole vcn clusters ∷ segments) lcns = do
  runs ← build_runs segments lcns
  ok (record { starting_vcn = vcn; length = clusters; lcn = none } ∷ runs)
build_runs (stored vcn clusters start len ∷ segments) [] = err io
build_runs (stored vcn clusters start len ∷ segments) (lcn ∷ lcns) = do
  runs ← build_runs segments lcns
  ok (record { starting_vcn = vcn; length = clusters; lcn = some lcn } ∷ runs)
