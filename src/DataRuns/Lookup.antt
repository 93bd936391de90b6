-- ===== src/DataRuns/Lookup.antt =====
-- `vcn_to_lcn` and `range_has_hole_or_past_end` on contiguous lists, such as `decode_runs` returns.
use rust_fs_ntfs.Base.{ℕ, zero, suc, ◌+◌, ◌-◌, ◌≤◌, ◌<◌, ◌^◌, ◌%◌, ◌≡◌, refl, sym, ap, ◌∙◌, arith}
use rust_fs_ntfs.Base.{List, [], ◌∷◌, ◌++◌}
use rust_fs_ntfs.Base.{
  Option, none, some, true, false, ltb, if◌then◌else◌, Bool-cases, inl, inr, All,
}
use rust_fs_ntfs.DataRuns.{DataRun, vcn_to_lcn}
use rust_fs_ntfs.DataRuns.Shape.{Contiguous}
use native.Mathlib.Decide.{dec_lt}
use mathlib.Core.Option

-- What a list of runs stands for: one entry for each cluster of the attribute, in order, the LCN
-- or `none` in a hole.
abbrev pub run_clusters : Option ℕ → ℕ → ℕ → List (Option ℕ)
run_clusters lcn off zero = []
run_clusters lcn off (suc n) = Option.map (λ base. base + off) lcn ∷ run_clusters lcn (suc off) n

abbrev pub clusters : List DataRun → List (Option ℕ)
clusters [] = []
clusters (r ∷ runs) = run_clusters r.lcn 0 r.length ++ clusters runs

-- Past the end there is no cluster.
abbrev pub cluster_at : List (Option ℕ) → ℕ → Option ℕ
cluster_at [] i = none
cluster_at (c ∷ cs) zero = c
cluster_at (c ∷ cs) (suc i) = cluster_at cs i

cluster_at-run :
    (lcn : Option ℕ) (off n i : ℕ) (cs : List (Option ℕ))
    → i < n
    → cluster_at (run_clusters lcn off n ++ cs) i ≡ Option.map (λ base. base + (off + i)) lcn
cluster_at-run lcn off zero i cs h = absurd (omega arith)
cluster_at-run lcn off (suc n) zero cs h = ap (λ t. Option.map (λ base. base + t) lcn) (omega arith)
cluster_at-run lcn off (suc n) (suc i) cs h =
    cluster_at-run lcn (suc off) n i cs (omega arith)
    ∙ ap (λ t. Option.map (λ base. base + t) lcn) (omega arith)

cluster_at-past :
    (lcn : Option ℕ) (off n i : ℕ) (cs : List (Option ℕ))
    → cluster_at (run_clusters lcn off n ++ cs) (n + i) ≡ cluster_at cs i
cluster_at-past lcn off zero i cs = ap (cluster_at cs) (omega arith)
cluster_at-past lcn off (suc n) i cs =
    let e : suc n + i ≡ suc (n + i) = omega arith in rw e (cluster_at-past lcn (suc off) n i cs)

-- The LCN that a list of runs has for a VCN, as a number without a bound.
unfoldable pub lcn_of : List DataRun → ℕ → Option ℕ
lcn_of [] vcn = none
lcn_of (r ∷ runs) vcn =
    if ltb vcn r.starting_vcn
    then lcn_of runs vcn
    else if ltb vcn (r.starting_vcn + r.length)
    then Option.map (λ base. base + (vcn - r.starting_vcn)) r.lcn
    else lcn_of runs vcn

-- The two ways through one run.
pub lcn_of-inside :
    (r : DataRun) (runs : List DataRun) (v : ℕ)
    → r.starting_vcn ≤ v
    → v < r.starting_vcn + r.length
    → lcn_of (r ∷ runs) v ≡ Option.map (λ base. base + (v - r.starting_vcn)) r.lcn
unfolding lcn_of
lcn_of-inside r runs v h k =
    let above : ltb v r.starting_vcn ≡ false = ground arith in
    let inside : ltb v (r.starting_vcn + r.length) ≡ true = ground arith in rw (above, inside)

pub lcn_of-past :
    (r : DataRun) (runs : List DataRun) (v : ℕ)
    → r.starting_vcn + r.length ≤ v
    → lcn_of (r ∷ runs) v ≡ lcn_of runs v
unfolding lcn_of
lcn_of-past r runs v h =
    let above : ltb v r.starting_vcn ≡ false = ground arith in
    let past : ltb v (r.starting_vcn + r.length) ≡ false = ground arith in rw (above, past)

lcn_of-from :
    (runs : List DataRun) (base v : ℕ)
    → Contiguous base runs
    → lcn_of runs (base + v) ≡ cluster_at (clusters runs) v
lcn_of-from [] base v c = unfold lcn_of in refl
lcn_of-from (r ∷ runs) base v (starts, _, _, _, tail) = elim (dec_lt v r.length) [
  | yes inside ↦
      lcn_of-inside r runs (base + v) (omega arith) (omega arith)
      ∙ ap (λ t. Option.map (λ lcn. lcn + t) r.lcn) (omega arith)
      ∙ sym (cluster_at-run r.lcn 0 r.length v (clusters runs) inside)
  | no past ↦
      let e : v ≡ r.length + (v - r.length) = omega arith in
      lcn_of-past r runs (base + v) (omega arith)
      ∙ ap (lcn_of runs) (omega arith)
      ∙ lcn_of-from runs (base + r.length) (v - r.length) tail
      ∙ sym (cluster_at-past r.lcn 0 r.length (v - r.length) (clusters runs))
      ∙ ap (cluster_at (clusters (r ∷ runs))) (sym e)
]

-- A run whose end a `u64` holds.
abbrev pub RunEnds : DataRun → Type 0
RunEnds r = r.starting_vcn + r.length < 2 ^ 64

pub Contiguous-RunEnds : (vcn : ℕ) (runs : List DataRun) → Contiguous vcn runs → All RunEnds runs
Contiguous-RunEnds vcn [] c = tt
Contiguous-RunEnds vcn (r ∷ runs) (starts, _, below, _, tail) =
    (omega arith, Contiguous-RunEnds (vcn + r.length) runs tail)

-- The clusters of a run that is no hole end at 2^64 at most.
abbrev pub LcnEnds : Option ℕ → ℕ → Type 0
LcnEnds none n = Unit
LcnEnds (some base) n = base + n ≤ 2 ^ 64

abbrev pub ClustersFit : DataRun → Type 0
ClustersFit r = LcnEnds r.lcn r.length

sum_fits :
    (lcn : Option ℕ) (off n : ℕ)
    → LcnEnds lcn n
    → off < n
    → Option.map (λ base. (base + off) % 2 ^ 64) lcn ≡ Option.map (λ base. base + off) lcn
sum_fits none off n h k = refl
sum_fits (some base) off n h k = ap some (omega arith)

-- Where no sum reaches 2^64 the lookup of the source is that of the numbers.
pub vcn_to_lcn-lcn_of :
    (runs : List DataRun) (base v : ℕ)
    → Contiguous base runs
    → All ClustersFit runs
    → vcn_to_lcn runs v ≡ lcn_of runs v
unfolding vcn_to_lcn lcn_of
vcn_to_lcn-lcn_of [] base v c a = refl
vcn_to_lcn-lcn_of (r ∷ runs) base v (starts, _, below, _, tail) (ends, a) =
    let sum : (r.starting_vcn + r.length) % 2 ^ 64 ≡ r.starting_vcn + r.length = omega arith in
    let more = vcn_to_lcn-lcn_of runs (base + r.length) v tail a in
    elim (Bool-cases (ltb v r.starting_vcn)) [
      | inl above ↦ rw above more
      | inr behind ↦ elim (Bool-cases (ltb v (r.starting_vcn + r.length))) [
        | inl inside ↦
            rw (sum, behind, inside)
              (sum_fits r.lcn (v - r.starting_vcn) r.length ends (ground (arith, behind, inside)))
        | inr past ↦ rw (sum, behind, past) more
      ]
    ]

-- On a contiguous list whose clusters end at 2^64 at most, `vcn_to_lcn` finds the cluster that the
-- runs, written out one after the other, have at that position, and `none` in a hole or past the
-- end.
pub vcn_to_lcn-clusters :
    (runs : List DataRun) (vcn : ℕ)
    → Contiguous 0 runs
    → All ClustersFit runs
    → vcn_to_lcn runs vcn ≡ cluster_at (clusters runs) vcn
vcn_to_lcn-clusters runs vcn c a =
    vcn_to_lcn-lcn_of runs 0 vcn c a ∙ ap (lcn_of runs) (omega arith) ∙ lcn_of-from runs 0 vcn c
