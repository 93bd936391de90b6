-- ===== src/DataRuns/Holes.antt =====
-- `range_has_hole_or_past_end` against `lcn_of`.
use rust_fs_ntfs.Base.{ℕ, ◌+◌, ◌-◌, ◌^◌, ◌≤◌, ◌<◌, ◌≡◌, ◌≢◌, refl, sym, ap, ◌∙◌, arith}
use rust_fs_ntfs.Base.{List, [], ◌∷◌, min, max, All}
use rust_fs_ntfs.Base.{Option, none, some, is_none, true, false, ltb, leb, if◌then◌else◌}
use rust_fs_ntfs.Base.{Option-cases, inl, inr, ◌↔◌, checked_add}
use rust_fs_ntfs.DataRuns.{DataRun, vcn_to_lcn, hole_loop, range_has_hole_or_past_end}
use rust_fs_ntfs.DataRuns.Shape.{Contiguous}
use rust_fs_ntfs.DataRuns.Lookup.{
  lcn_of, lcn_of-inside, lcn_of-past, ClustersFit, vcn_to_lcn-lcn_of,
}
use native.Mathlib.Decide.{dec_lt, dec_le}
use mathlib.Core.Option

-- A lookup has an LCN for every VCN from `lo` up to `hi`.
abbrev pub HasLcns : (ℕ → Option ℕ) → ℕ → ℕ → Type 0
HasLcns lookup lo hi = (v : ℕ) → lo ≤ v → v < hi → lookup v ≢ none

abbrev pub Mapped : List DataRun → ℕ → ℕ → Type 0
Mapped runs lo hi = HasLcns (vcn_to_lcn runs) lo hi

abbrev HasClusters : List DataRun → ℕ → ℕ → Type 0
HasClusters runs lo hi = HasLcns (lcn_of runs) lo hi

-- `covered_to` of the loop, when the runs from `base` on are still to come.
abbrev covered : ℕ → ℕ → ℕ → ℕ
covered start base end = max start (min base end)

map-ne-none : (lcn : Option ℕ) (f : ℕ → ℕ) → lcn ≢ none → Option.map f lcn ≢ none
map-ne-none none f h = absurd (h refl)
map-ne-none (some a) f h = λ e. cc

-- One round of the loop: past the end, before the range, or a run that overlaps it.
round_past :
    (r : DataRun) (runs : List DataRun) (start end c : ℕ)
    → end ≤ r.starting_vcn
    → hole_loop (r ∷ runs) start end c ≡ ltb c end
unfolding hole_loop
round_past r runs start end c h = let past : leb end r.starting_vcn ≡ true = ground arith in rw past

round_before :
    (r : DataRun) (runs : List DataRun) (start end c : ℕ)
    → r.starting_vcn < end
    → r.starting_vcn + r.length < 2 ^ 64
    → min (r.starting_vcn + r.length) end ≤ max r.starting_vcn start
    → hole_loop (r ∷ runs) start end c ≡ hole_loop runs start end c
unfolding hole_loop
round_before r runs start end c h k b =
    let near : leb end r.starting_vcn ≡ false = ground arith in
    let before : leb (min (min (r.starting_vcn + r.length) (2 ^ 64 - 1)) end)
          (max r.starting_vcn start)
        ≡ true =
      ground arith in
    rw (near, before)

round_overlap :
    (r : DataRun) (runs : List DataRun) (start end c : ℕ)
    → r.starting_vcn < end
    → r.starting_vcn + r.length < 2 ^ 64
    → max r.starting_vcn start < min (r.starting_vcn + r.length) end
    → max r.starting_vcn start ≤ c
    → hole_loop (r ∷ runs) start end c ≡ (
        if is_none r.lcn
        then true
        else hole_loop runs start end (min (r.starting_vcn + r.length) end))
unfolding hole_loop
round_overlap r runs start end c h k o g =
    let near : leb end r.starting_vcn ≡ false = ground arith in
    let over : leb (min (min (r.starting_vcn + r.length) (2 ^ 64 - 1)) end)
          (max r.starting_vcn start)
        ≡ false =
      ground arith in
    let no_gap : ltb c (max r.starting_vcn start) ≡ false = ground arith in
    let short : min (min (r.starting_vcn + r.length) (2 ^ 64 - 1)) end
        ≡ min (r.starting_vcn + r.length) end =
      omega arith in
    rw (near, over, no_gap, short)

-- Where a run lies.
data Position (r : DataRun) (start end : ℕ) : Type 0 where
  past : end ≤ r.starting_vcn → Position r start end
  before :
      r.starting_vcn < end
      → min (r.starting_vcn + r.length) end ≤ max r.starting_vcn start
      → Position r start end
  overlap :
      r.starting_vcn < end
      → max r.starting_vcn start < min (r.starting_vcn + r.length) end
      → Position r start end

position : (r : DataRun) (start end : ℕ) → Position r start end
position r start end = elim (dec_le end r.starting_vcn) [
  | yes p ↦ past p
  | no near ↦ elim (dec_lt (max r.starting_vcn start) (min (r.starting_vcn + r.length) end)) [
    | yes o ↦ overlap (omega arith) o
    | no b ↦ before (omega arith) (omega arith)
  ]
]

hole_loop-nil : (start end c : ℕ) → hole_loop [] start end c ≡ ltb c end
unfolding hole_loop
hole_loop-nil start end c = refl

hole_loop→HasClusters :
    (runs : List DataRun) (base start end : ℕ)
    → Contiguous base runs
    → start ≤ end
    → hole_loop runs start end (covered start base end) ≡ false
    → HasClusters runs (covered start base end) end
hole_loop→HasClusters [] base start end c h e v lo hi =
    absurd (ground (arith, hole_loop-nil start end (covered start base end)))
hole_loop→HasClusters (r ∷ runs) base start end (starts, occupied, below, fits, tail) h e v lo hi =
    elim (position r start end) [
      | past p ↦ absurd (omega arith)
      | before n b ↦
          let same : covered start base end ≡ covered start (base + r.length) end = omega arith in
          let skipped = round_before r runs start end (covered start base end) n (omega arith) b in
          rw (lcn_of-past r runs v (omega arith)) (
            hole_loop→HasClusters runs (base + r.length) start end tail h
              (ap (hole_loop runs start end) (sym same) ∙ sym skipped ∙ e) v (omega arith) hi)
      | overlap n o ↦
          let stepped =
            round_overlap r runs start end (covered start base end) n (omega arith) o
              (omega arith) in
          let same : covered start (base + r.length) end ≡ min (r.starting_vcn + r.length) end =
            omega arith in
          elim (Option-cases r.lcn) [
            | inl hole ↦ absurd (cc (rw hole at (sym stepped ∙ e)))
            | inr (a, there) ↦ elim (dec_lt v (r.starting_vcn + r.length)) [
              | yes inside ↦ rw (lcn_of-inside r runs v (omega arith) inside, there) (λ q. cc)
              | no later ↦ rw (lcn_of-past r runs v (omega arith)) (
                  hole_loop→HasClusters runs (base + r.length) start end tail h
                    (ap (hole_loop runs start end) same ∙ rw there at (sym stepped ∙ e)) v
                    (omega arith) hi)
            ]
          ]
    ]

HasClusters→hole_loop :
    (runs : List DataRun) (base start end : ℕ)
    → Contiguous base runs
    → start ≤ end
    → HasClusters runs (covered start base end) end
    → hole_loop runs start end (covered start base end) ≡ false
HasClusters→hole_loop [] base start end c h m = elim (dec_lt (covered start base end) end) [
  | yes missing ↦ absurd (m (covered start base end) (omega arith) missing (unfold lcn_of in refl))
  | no done ↦ ground (arith, hole_loop-nil start end (covered start base end))
]
HasClusters→hole_loop (r ∷ runs) base start end (starts, occupied, below, fits, tail) h m =
    elim (position r start end) [
      | past p ↦ ground (arith, round_past r runs start end (covered start base end) p)
      | before n b ↦
          let same : covered start base end ≡ covered start (base + r.length) end = omega arith in
          round_before r runs start end (covered start base end) n (omega arith) b
          ∙ ap (hole_loop runs start end) same
          ∙ HasClusters→hole_loop runs (base + r.length) start end tail h
              (λ v lo hi. rw (lcn_of-past r runs v (omega arith)) at (m v (omega arith) hi))
      | overlap n o ↦
          let stepped =
            round_overlap r runs start end (covered start base end) n (omega arith) o
              (omega arith) in
          let same : covered start (base + r.length) end ≡ min (r.starting_vcn + r.length) end =
            omega arith in
          let first = covered start base end in
          elim (Option-cases r.lcn) [
            | inl hole ↦ absurd (
                m first (omega arith) (omega arith)
                  (lcn_of-inside r runs first (omega arith) (omega arith) ∙ rw hole refl))
            | inr (a, there) ↦
                stepped
                ∙ rw there (
                    ap (hole_loop runs start end) (sym same)
                    ∙ HasClusters→hole_loop runs (base + r.length) start end tail h (λ v lo hi.
                      rw (lcn_of-past r runs v (omega arith)) at (m v (omega arith) hi)))
          ]
    ]

range_as_loop :
    (runs : List DataRun) (s n : ℕ)
    → s + n < 2 ^ 64
    → range_has_hole_or_past_end runs s n ≡ hole_loop runs s (s + n) s
unfolding range_has_hole_or_past_end
range_as_loop runs s n h =
    let sum : checked_add s n ≡ some (s + n) = ground arith in rw (sum, range_has_hole_or_past_end)

-- On a contiguous list whose clusters end at 2^64 at most, and for a range that ends below 2^64, the
-- function answers false exactly when `vcn_to_lcn` finds an LCN for every VCN of the range.
pub range_has_hole-Mapped_iff :
    (runs : List DataRun) (vcn_start n : ℕ)
    → Contiguous 0 runs
    → All ClustersFit runs
    → vcn_start + n < 2 ^ 64
    → (range_has_hole_or_past_end runs vcn_start n ≡ false) ↔ Mapped runs vcn_start (vcn_start + n)
range_has_hole-Mapped_iff runs s n c a h =
    let first : covered s 0 (s + n) ≡ s = omega arith in
    let same : (v : ℕ) → vcn_to_lcn runs v ≡ lcn_of runs v = λ v. vcn_to_lcn-lcn_of runs 0 v c a in
    rw (range_as_loop runs s n h) (
      (λ e v lo hi. rw (same v) (
          hole_loop→HasClusters runs 0 s (s + n) c (omega arith)
            (ap (hole_loop runs s (s + n)) first ∙ e) v (omega arith) hi)),
      (λ m.
          ap (hole_loop runs s (s + n)) (sym first)
          ∙ HasClusters→hole_loop runs 0 s (s + n) c (omega arith)
              (λ v lo hi. rw (same v) at (m v (omega arith) hi))),
    )
