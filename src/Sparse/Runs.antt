-- ===== src/Sparse/Runs.antt =====
-- The runs that are built from a plan.
use rust_fs_ntfs.Base.{ℕ, suc, ◌+◌, ◌≤◌, ◌<◌, ◌%◌, ◌^◌, ◌≡◌, ◌≢◌, refl, arith, io}
use rust_fs_ntfs.Base.{◌↔◌, ap, true, List, [], ◌∷◌, length, none, some, Option}
use rust_fs_ntfs.Base.{ok, err}
use rust_fs_ntfs.DataRuns.{DataRun}
use rust_fs_ntfs.DataRuns.Shape.{Contiguous}
use rust_fs_ntfs.DataRuns.Lookup.{lcn_of}
use rust_fs_ntfs.Sparse.{SparseSegment, hole, stored, is_hole, build_runs, allocated_clusters}
use mathlib.Core.Option

-- How many LCNs a plan wants.
abbrev pub stored_count : List SparseSegment → ℕ
stored_count [] = 0
stored_count (hole vcn run ∷ segments) = stored_count segments
stored_count (stored vcn run start len ∷ segments) = suc (stored_count segments)

-- The clusters of the stored segments, as a number without a bound.
abbrev pub stored_clusters : List SparseSegment → ℕ
stored_clusters [] = 0
stored_clusters (hole vcn run ∷ segments) = stored_clusters segments
stored_clusters (stored vcn run start len ∷ segments) = run + stored_clusters segments

allocated_clusters-wraps :
    (segments : List SparseSegment)
    → allocated_clusters segments ≡ stored_clusters segments % 2 ^ 64
unfolding allocated_clusters
allocated_clusters-wraps [] = refl
allocated_clusters-wraps (hole vcn run ∷ segments) = allocated_clusters-wraps segments
allocated_clusters-wraps (stored vcn run start len ∷ segments) =
    rw (allocated_clusters-wraps segments) (omega arith)

-- The clusters of a run list that have an LCN.
abbrev pub mapped_clusters : List DataRun → ℕ
mapped_clusters [] = 0
mapped_clusters (r ∷ runs) = elim r.lcn [ none ↦ 0 | some a ↦ r.length ] + mapped_clusters runs

build_runs_count :
    (segments : List SparseSegment) (lcns : List ℕ)
    → (length lcns ≡ stored_count segments
        → (runs : List DataRun) × (build_runs segments lcns ≡ ok runs)
          × (mapped_clusters runs ≡ stored_clusters segments))
      × (length lcns ≢ stored_count segments → build_runs segments lcns ≡ err io)
unfolding build_runs
build_runs_count [] [] = (λ e. ([], refl, refl), λ n. absurd (n refl))
build_runs_count [] (lcn ∷ lcns) = (λ e. absurd (omega arith), λ n. refl)
build_runs_count (hole vcn run ∷ segments) lcns =
    let (good, bad) = build_runs_count segments lcns in
    (
      λ e.
          let (runs, built, count) = good e in
          (
            record { starting_vcn = vcn; length = run; lcn = none } ∷ runs,
            rw built refl,
            omega (arith, count),
          ),
      λ n. rw (bad n) refl,
    )
build_runs_count (stored vcn run start len ∷ segments) [] = (λ e. absurd (omega arith), λ n. refl)
build_runs_count (stored vcn run start len ∷ segments) (lcn ∷ lcns) =
    let (good, bad) = build_runs_count segments lcns in
    (
      λ e.
          let (runs, built, count) = good (omega arith) in
          (
            record { starting_vcn = vcn; length = run; lcn = some lcn } ∷ runs,
            rw built refl,
            ap (λ t. run + t) count,
          ),
      λ n. rw (bad (λ e. n (ap suc e))) refl,
    )

-- With one LCN for each stored segment, and fewer than 2^64 clusters in the stored segments, the runs
-- are built, and the clusters that they map are as many as the plan counts.
pub build_runs-allocated_clusters :
    (segments : List SparseSegment) (lcns : List ℕ)
    → length lcns ≡ stored_count segments
    → stored_clusters segments < 2 ^ 64
    → (runs : List DataRun) × (build_runs segments lcns ≡ ok runs)
      × (mapped_clusters runs ≡ allocated_clusters segments)
build_runs-allocated_clusters segments lcns e fits =
    let (runs, built, count) = (build_runs_count segments lcns).0 e in
    (runs, built, omega (arith, count, allocated_clusters-wraps segments))

-- With too few or too many LCNs there is an error.
pub build_runs-wrong_count :
    (segments : List SparseSegment) (lcns : List ℕ)
    → length lcns ≢ stored_count segments
    → build_runs segments lcns ≡ err io
build_runs-wrong_count segments lcns n = (build_runs_count segments lcns).1 n

-- The runs follow the plan: they are contiguous, and a cluster reads as a hole exactly where the
-- buffer has a cluster of zeros.
abbrev pub Follows : List ℕ → ℕ → ℕ → ℕ → List DataRun → Type 0
Follows bytes cs vcn total runs =
    Contiguous vcn runs
    × ((v : ℕ) → vcn ≤ v → v < total → (lcn_of runs v ≡ none) ↔ (is_hole bytes cs v ≡ true))
