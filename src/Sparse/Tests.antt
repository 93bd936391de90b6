-- ===== src/Sparse/Tests.antt =====
-- A plan of three clusters of two bytes, the second of them zeros.
use rust_fs_ntfs.Base.{ℕ, ◌≡◌, refl, arith, List, [], ◌∷◌, length, none, some, ok}
use rust_fs_ntfs.DataRuns.{DataRun}
use rust_fs_ntfs.Sparse.{SparseSegment, hole, stored, build_runs}
use rust_fs_ntfs.Sparse.{allocated_clusters}
use rust_fs_ntfs.Sparse.Runs.{mapped_clusters, build_runs-allocated_clusters}

abbrev buffer : List ℕ
buffer = 1 ∷ 0 ∷ 0 ∷ 0 ∷ 5 ∷ []

abbrev buffer_plan : List SparseSegment
buffer_plan = stored 0 1 0 2 ∷ hole 1 1 ∷ stored 2 1 4 1 ∷ []

abbrev buffer_runs : List DataRun
buffer_runs =
    record { starting_vcn = 0; length = 1; lcn = some 70 }
    ∷ record { starting_vcn = 1; length = 1; lcn = none }
    ∷ record { starting_vcn = 2; length = 1; lcn = some 90 }
    ∷ []

build_runs-allocated_clusters_example :
    (runs : List DataRun) × (build_runs buffer_plan (70 ∷ 90 ∷ []) ≡ ok runs)
    × (mapped_clusters runs ≡ allocated_clusters buffer_plan)
build_runs-allocated_clusters_example =
    build_runs-allocated_clusters buffer_plan (70 ∷ 90 ∷ []) refl (omega arith)
