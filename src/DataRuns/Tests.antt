-- ===== src/DataRuns/Tests.antt =====
-- Runs of the coder on concrete lists, and the theorems at them.
use rust_fs_ntfs.Base.{ℕ, ◌≡◌, ◌≢◌, refl, arith, ◌↔◌, List, [], ◌∷◌, some, none, All}
use rust_fs_ntfs.Base.{ok, err, fault, io, true, false}
use rust_fs_ntfs.DataRuns.{DataRun, encode_runs, encode_loop, decode_runs, decode_loop, decode_run}
use rust_fs_ntfs.DataRuns.{decode_lcn, or_bytes, sign_extend_i64, signed_bytes_needed}
use rust_fs_ntfs.DataRuns.{bytes_needed_from, push_bytes, push_run, lcn_field_of, vcn_to_lcn}
use rust_fs_ntfs.DataRuns.{range_has_hole_or_past_end, hole_loop}
use rust_fs_ntfs.DataRuns.RoundTrip.{decode_runs-encode_runs}
use rust_fs_ntfs.DataRuns.Shape.{Contiguous, decode_runs-ne-fault, decode_runs-Contiguous}
use rust_fs_ntfs.DataRuns.Lookup.{ClustersFit, clusters, cluster_at, vcn_to_lcn-clusters}
use rust_fs_ntfs.DataRuns.Holes.{Mapped, range_has_hole-Mapped_iff}
use rust_fs_ntfs.DataRuns.Total.{encode_runs-decode_runs}

abbrev first : DataRun
first = record { starting_vcn = 0; length = 3; lcn = some 100 }

abbrev hole : DataRun
hole = record { starting_vcn = 3; length = 2; lcn = none }

abbrev last : DataRun
last = record { starting_vcn = 5; length = 1; lcn = some 90 }

abbrev sample : List DataRun
sample = first ∷ hole ∷ last ∷ []

abbrev sample_bytes : List ℕ
sample_bytes = 0x11 ∷ 3 ∷ 100 ∷ 0x01 ∷ 2 ∷ 0x11 ∷ 1 ∷ 0xf6 ∷ 0 ∷ []

encode_sample : encode_runs sample ≡ ok sample_bytes
unfolding encode_runs encode_loop lcn_field_of signed_bytes_needed bytes_needed_from push_run
    push_bytes
encode_sample = refl

-- A run of length 0 is refused, and so is a run cut short.
decode_bad : (decode_runs (0x11 ∷ 0 ∷ 5 ∷ []) ≡ err io) × (decode_runs (0x21 ∷ 1 ∷ 5 ∷ []) ≡ err io)
unfolding decode_runs decode_loop decode_run decode_lcn or_bytes sign_extend_i64
decode_bad = (refl, refl)

sample-Contiguous : Contiguous 0 sample
sample-Contiguous = omega arith

sample-ClustersFit : All ClustersFit sample
sample-ClustersFit = (omega arith, (tt, (omega arith, tt)))

decode_runs-encode_runs_example : decode_runs sample_bytes ≡ ok sample
decode_runs-encode_runs_example = decode_runs-encode_runs sample sample_bytes encode_sample

decode_runs-ne-fault_example : decode_runs sample_bytes ≢ fault
decode_runs-ne-fault_example = decode_runs-ne-fault sample_bytes

decode_runs-Contiguous_example : Contiguous 0 sample
decode_runs-Contiguous_example =
    decode_runs-Contiguous sample_bytes sample decode_runs-encode_runs_example

encode_runs-decode_runs_example :
    (again : List ℕ) × (encode_runs sample ≡ ok again) × (decode_runs again ≡ ok sample)
encode_runs-decode_runs_example =
    encode_runs-decode_runs sample_bytes sample decode_runs-encode_runs_example (omega arith)

vcn_to_lcn-clusters_example : vcn_to_lcn sample 5 ≡ cluster_at (clusters sample) 5
vcn_to_lcn-clusters_example = vcn_to_lcn-clusters sample 5 sample-Contiguous sample-ClustersFit

vcn_to_lcn_last : vcn_to_lcn sample 5 ≡ some 90
unfolding vcn_to_lcn
vcn_to_lcn_last = refl

range_has_hole-Mapped_iff_example :
    (range_has_hole_or_past_end sample 1 2 ≡ false) ↔ Mapped sample 1 3
range_has_hole-Mapped_iff_example =
    range_has_hole-Mapped_iff sample 1 2 sample-Contiguous sample-ClustersFit (omega arith)

range_over_hole : range_has_hole_or_past_end sample 2 2 ≡ true
unfolding range_has_hole_or_past_end hole_loop
range_over_hole = refl
