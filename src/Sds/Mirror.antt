-- ===== src/Sds/Mirror.antt =====
-- The whole stream that `build_sds` of src/sds.rs makes: every entry, and every entry again 256 KiB on.
use rust_fs_ntfs.Base.{ℕ, ◌+◌, ◌-◌, ◌≤◌, ◌<◌, ◌≡◌, refl, ◌∙◌, inl, arith}
use rust_fs_ntfs.Base.{List, [], ◌∷◌, length, drop, Result, ok, slice_lem, byte_at}
use rust_fs_ntfs.Base.{
  splice, length-splice, patch_lem, byte_at-splice_apart, byte_at-splice_in, bytes_between,
  length-bytes_between, byte_at-take, byte_at-drop,
}
use rust_fs_ntfs.Sds.{SdEntry, sds_mirror_gap, grown_to, entries_loop, mirror_loop, build_sds}
use rust_fs_ntfs.Sds.Entry.{total_of, length-grown_to, byte_at-grown_to, HasEntry, HasEntry-moved}
use rust_fs_ntfs.Sds.Write.{IsEntry, wrote, write_one_entry-Wrote}

-- The bytes that the entries take.
unfoldable pub total_size : List SdEntry → ℕ
total_size [] = 0
total_size (e ∷ es) = total_of e + total_size es

-- A property of every entry at its offset, the first at `off`.
unfoldable pub AllAt : (ℕ → SdEntry → Type 0) → ℕ → List SdEntry → Type 0
AllAt P off [] = Unit
AllAt P off (e ∷ es) = P off e × AllAt P (off + total_of e) es

AllAt-map :
    {P Q : ℕ → SdEntry → Type 0} (off : ℕ) (es : List SdEntry)
    → ((o : ℕ) (e : SdEntry) → off ≤ o → o + total_of e ≤ off + total_size es → P o e → Q o e)
    → AllAt P off es
    → AllAt Q off es
unfolding AllAt total_size
AllAt-map off [] f h = tt
AllAt-map off (e ∷ es) f (p, h) = (
  f off e (omega arith) (omega arith) p,
  AllAt-map (off + total_of e) es (λ o x lo hi. f o x (omega arith) (omega arith)) h,
)

-- Where the entries are, as `written` has it.
spans : ℕ → List SdEntry → List (ℕ × ℕ)
spans off [] = []
spans off (e ∷ es) = (off, total_of e) ∷ spans (off + total_of e) es

-- The stream with all entries once.
data Filled (out : List ℕ) (off : ℕ) (es : List SdEntry) (m : Result (List ℕ × List (ℕ × ℕ)))
    : Type 0 where
  filled :
      (final : List ℕ)
      → m ≡ ok (final, spans off es)
      → length final ≡ off + total_size es
      → AllAt (λ o e. HasEntry final o o e) off es
      → ((i : ℕ) → i < off → byte_at final i ≡ byte_at out i)
      → Filled out off es m

entries_loop-Filled :
    (out : List ℕ) (off : ℕ) (es : List SdEntry)
    → length out ≡ off
    → AllAt IsEntry off es
    → Filled out off es (entries_loop out off es)
unfolding entries_loop AllAt total_size spans
entries_loop-Filled out off [] end is = filled out refl (omega arith) tt (λ i lt. refl)
entries_loop-Filled out off (e ∷ es) end (is, rest) =
    elim (write_one_entry-Wrote out off e end is) [
      | wrote r size done l has kept ↦ elim (entries_loop-Filled r (off + total_of e) es l rest) [
        | filled final done' l' entries kept' ↦
            rw (done, done')
              (filled final refl (omega arith)
                (
                  HasEntry-moved r final off off off e has (omega arith)
                      (λ i lt. kept' (off + i) (omega arith)),
                  entries,
                )
                (λ i lt. kept' i (omega arith) ∙ kept i lt))
      ]
    ]

-- The stream with the entries from `off` on mirrored.
data Mirrored (out : List ℕ) (off : ℕ) (es : List SdEntry) (m : Result (List ℕ)) : Type 0 where
  mirrored :
      (final : List ℕ)
      → m ≡ ok final
      → length out ≤ length final
      → AllAt (λ o e. HasEntry final (o + sds_mirror_gap) o e) off es
      → ((i : ℕ) → i < off + sds_mirror_gap → byte_at final i ≡ byte_at out i)
      → Mirrored out off es m

mirror_loop-Mirrored :
    (out : List ℕ) (off : ℕ) (es : List SdEntry)
    → off + total_size es ≤ sds_mirror_gap
    → AllAt (λ o e. HasEntry out o o e) off es
    → Mirrored out off es (mirror_loop out (spans off es))
unfolding mirror_loop AllAt total_size spans
mirror_loop-Mirrored out off [] room has = mirrored out refl (omega arith) tt (λ i lt. refl)
mirror_loop-Mirrored out off (e ∷ es) room (here, rest) =
    let to : ℕ = off + sds_mirror_gap in
    let g : List ℕ = grown_to out (to + total_of e) in
    let lg = length-grown_to out (to + total_of e) in
    let src : List ℕ = bytes_between g off (off + total_of e) in
    let ls : length src ≡ total_of e =
      length-bytes_between g off (off + total_of e) (omega arith) (omega (arith, lg))
      ∙ omega arith in
    let out' : List ℕ = splice g to src in
    let l' : length out' ≡ length g = length-splice g to src in
    let below : (i : ℕ) → i < to → byte_at out' i ≡ byte_at out i =
      λ i lt. byte_at-splice_apart g to src i (inl lt) ∙ byte_at-grown_to out (to + total_of e) i in
    let copied : (i : ℕ) → i < total_of e → byte_at out' (to + i) ≡ byte_at out (off + i) = λ i lt.
      byte_at-splice_in g to src i (omega (arith, ls)) (omega (arith, ls, lg))
      ∙ byte_at-take (off + total_of e - off) i (drop off g) (omega arith)
      ∙ byte_at-drop off i g
      ∙ byte_at-grown_to out (to + total_of e) (off + i) in
    let entries' =
      AllAt-map (off + total_of e) es
        (λ o x lo hi p.
          HasEntry-moved out out' o o o x p (omega (arith, p.inside, l', lg))
            (λ i lt. below (o + i) (omega arith)))
        rest in
    rw
      (
        slice_lem g off (off + total_of e) (omega arith) (omega (arith, lg)),
        patch_lem g to src (omega (arith, ls, lg)),
      )
      (elim (mirror_loop-Mirrored out' (off + total_of e) es (omega arith) entries') [
        | mirrored final done l mirrors kept ↦
            mirrored final done (omega (arith, l', lg))
              (
                HasEntry-moved out final off to off e here (omega (arith, l', lg))
                    (λ i lt. kept (to + i) (omega arith) ∙ copied i lt),
                mirrors,
              )
              (λ i lt. kept i (omega arith) ∙ below i lt)
      ])

-- The stream of entries.
pub data Built (es : List SdEntry) (m : Result (List ℕ)) : Type 0 where
  built :
      (out : List ℕ)
      → m ≡ ok out
      → AllAt (λ o e. HasEntry out o o e) 0 es
      → AllAt (λ o e. HasEntry out (o + sds_mirror_gap) o e) 0 es
      → Built es m

-- Entries whose identifiers fit 32 bits and that take at most 256 KiB in all are built into a stream
-- that has every one of them twice: one behind the other from the start on, each with its hash, its
-- identifier, its offset, its size and its descriptor, and the same again 256 KiB on.
pub build_sds-Built :
    (es : List SdEntry)
    → total_size es ≤ sds_mirror_gap
    → AllAt IsEntry 0 es
    → Built es (build_sds es)
unfolding build_sds
build_sds-Built es room is = elim (entries_loop-Filled [] 0 es refl is) [
  | filled first done l entries kept ↦
      elim (mirror_loop-Mirrored first 0 es (omega (arith, room)) entries) [
        | mirrored final done' l' mirrors kept' ↦
            let primaries =
              AllAt-map 0 es
                (λ o x lo hi p.
                  HasEntry-moved first final o o o x p (omega (arith, p.inside))
                    (λ i lt. kept' (o + i) (omega (arith, room))))
                entries in
            rw (done, done') (built final refl primaries mirrors)
      ]
]
