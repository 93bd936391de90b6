-- ===== src/AttrResize/Sorted.antt =====
-- The list of attributes of a record after `insert_attribute_sorted_typed` of src/attr_resize.rs.
use rust_fs_ntfs.Base.{
  ℕ, suc, ◌+◌, ◌-◌, ◌%◌, ◌^◌, ◌≤◌, ◌<◌, min, ◌≡◌, ◌≢◌, refl, sym, ap, ◌∙◌, ◌⊎◌, inl, inr,
}
use rust_fs_ntfs.Base.{true, false, ltb, ◌==◌, List, [], ◌∷◌, length}
use rust_fs_ntfs.Base.{Result, ok, err, no_space, arith, byte_at, get_le, get_le-moved, get_le_same}
use mathlib.Core.Path.{subst}
use native.Mathlib.Decide.{dec_lt}
use rust_fs_ntfs.AttrIo.{end_marker}
use rust_fs_ntfs.AttrResize.{
  bytes_used_at, bytes_allocated_at, pos_or, report_no_room, put_attribute, insert_attribute_sorted,
  check_new_attribute,
}
use rust_fs_ntfs.AttrResize.Shift.{Moved}
use rust_fs_ntfs.AttrResize.Position.{
  Chain, attr, Chain-le, Chain-append, insert_type, Cut, cut, scanned, scan_loop-Cut,
}
use rust_fs_ntfs.AttrResize.Insert.{
  Chain-same, Chain-moved, field_moved, Placed, placed, put_attribute-Placed,
}

-- A record whose attributes, of these types, stand from `at` up to the end marker at `end`.
pub record Listed (r : List ℕ) (at : ℕ) (types : List ℕ) (end used allocated : ℕ) : Type 0 where
  pub attrs_field : get_le 2 r 0x14 ≡ ok at
  pub used_field : get_le 4 r bytes_used_at ≡ ok used
  pub allocated_field : get_le 4 r bytes_allocated_at ≡ ok allocated
  pub chain : Chain r at types end
  pub marker : get_le 4 r end ≡ ok end_marker
  pub behind_header : bytes_allocated_at + 4 ≤ at
  pub marked : end + 8 ≤ used
  pub used_inside : used ≤ allocated
  pub allocated_inside : allocated ≤ length r
  pub small : length r < 2 ^ 32

-- A whole attribute of type `t`.
pub record IsAttr (v : List ℕ) (t : ℕ) : Type 0 where
  pub type_field : get_le 4 v 0 ≡ ok t
  pub live : t ≢ end_marker
  pub used : t ≢ 0
  pub length_field : get_le 4 v 4 ≡ ok (length v)
  pub aligned : length v % 8 ≡ 0
  pub long : 8 ≤ length v

-- What the insertion gives: the list with the new attribute, its bytes at one position, the bytes
-- before it kept and those behind it moved, or the error that there is no room.
pub data InsertOutcome (r : List ℕ) (at : ℕ) (types : List ℕ) (end used allocated : ℕ) (v : List ℕ)
    (t : ℕ) (m : Result (List ℕ)) : Type 0 where
  inserted :
      (r' : List ℕ) (pos : ℕ)
      → m ≡ ok r'
      → Listed r' at (insert_type t types) (end + length v) (used + length v) allocated
      → ((i : ℕ) → i < length v → byte_at r' (pos + i) ≡ byte_at v i)
      → Moved r r' pos (pos + length v) used
      → InsertOutcome r at types end used allocated v t m
  full :
      m ≡ err no_space
      → allocated < used + length v
      → InsertOutcome r at types end used allocated v t m

Cut-bounds :
    {r : List ℕ} {at end t pos : ℕ} {types : List ℕ}
    → Cut r at types end t pos
    → (at ≤ pos) × (pos ≤ end)
Cut-bounds (cut before behind first last e) = (Chain-le first, Chain-le last)

Moved-Listed :
    (r r' : List ℕ) (at : ℕ) (types : List ℕ) (end used allocated : ℕ) (v : List ℕ) (t pos : ℕ)
    → Listed r at types end used allocated
    → IsAttr v t
    → used + length v ≤ allocated
    → Cut r at types end t pos
    → Moved r r' pos (pos + length v) used
    → ((i : ℕ) → i < length v → byte_at r' (pos + i) ≡ byte_at v i)
    → Listed r' at (insert_type t types) (end + length v) (used + length v) allocated
Moved-Listed r r' at types end used allocated v t pos it new fits (cut before behind first last e)
      move filled =
    let lo = Chain-le first in
    let hi = Chain-le last in
    let now : used + (pos + length v) - pos ≡ used + length v = omega arith in
    let kept_field : (w k : ℕ)
        → (k + w ≤ bytes_used_at) ⊎ (k ≡ bytes_allocated_at) × (w ≡ 4)
        → get_le w r' k ≡ get_le w r k =
      λ w k apart.
        get_le_same w r r' k move.same_size
          (λ i from to. move.before i (below w k i to apart lo) (out w k i from to apart)) in
    let shift : (i : ℕ) → pos ≤ i → i < end + 4 → byte_at r' (i + length v) ≡ byte_at r i =
      λ i from to.
        let e1 : i + length v ≡ pos + length v + (i - pos) = omega arith in
        let e2 : pos + (i - pos) ≡ i = omega arith in
        rw e1 (move.moved (i - pos) (omega (arith, it.marked)) ∙ ap (byte_at r) e2) in
    let tail : Chain r' (pos + length v) behind (end + length v) =
      Chain-moved (length v) move.same_size (omega (arith, it.marked, it.allocated_inside))
        (λ i from to. shift i from (omega arith)) last in
    let own : (k : ℕ) → k + 4 ≤ length v → get_le 4 r' (pos + k) ≡ get_le 4 v k = λ k h.
      get_le-moved 4 v r' k (pos + k) h
        (omega (arith, move.same_size, it.marked, it.allocated_inside))
        (λ i lt.
          let e : pos + k + i ≡ pos + (k + i) = omega arith in
          rw e (filled (k + i) (omega arith))) in
    let zero_off : pos + 0 ≡ pos = omega arith in
    let head : get_le 4 r' pos ≡ ok t =
      rw (sym zero_off) (own 0 (omega (arith, new.long)) ∙ new.type_field) in
    let mid : Chain r' pos (t ∷ behind) (end + length v) =
      attr pos t (length v) behind (end + length v) head new.live new.used
        (own 4 new.long ∙ new.length_field) new.long tail in
    let front : Chain r' at before pos =
      Chain-same move.same_size
        (λ i from to. move.before i (omega arith) (inr (omega (arith, it.behind_header)))) first in
    record {
      attrs_field = kept_field 2 0x14 (inl (omega arith)) ∙ it.attrs_field;
      used_field = move.used_now ∙ ap ok now;
      allocated_field = kept_field 4 bytes_allocated_at (inr (refl, refl)) ∙ it.allocated_field;
      chain = rw e (Chain-append front mid);
      marker =
          field_moved r r' pos (end + 4) (length v) end (end + length v) move.same_size
            (omega (arith, it.marked, it.allocated_inside)) shift (omega arith) (omega arith) refl
            it.marker;
      behind_header = it.behind_header;
      marked = omega (arith, it.marked);
      used_inside = fits;
      allocated_inside = omega (arith, move.same_size, it.allocated_inside);
      small = omega (arith, move.same_size, it.small);
    }
  where
    below :
        (w k i : ℕ)
        → i < k + w
        → (k + w ≤ bytes_used_at) ⊎ (k ≡ bytes_allocated_at) × (w ≡ 4)
        → at ≤ pos
        → i < min pos (pos + length v)
    below w k i to (inl p) lo = omega (arith, it.behind_header)
    below w k i to (inr (p, q)) lo = omega (arith, it.behind_header)

    out :
        (w k i : ℕ)
        → k ≤ i
        → i < k + w
        → (k + w ≤ bytes_used_at) ⊎ (k ≡ bytes_allocated_at) × (w ≡ 4)
        → (i < bytes_used_at) ⊎ (bytes_used_at + 4 ≤ i)
    out w k i from to (inl p) = inl (omega arith)
    out w k i from to (inr (p, q)) = inr (omega arith)

check_new_attribute-IsAttr : (v : List ℕ) (t : ℕ) → IsAttr v t → check_new_attribute v ≡ ok tt
unfolding check_new_attribute
check_new_attribute-IsAttr v t new =
    let some_bytes : (length v == 0) ≡ false = ground (arith, new.long) in
    let aligned : (length v % 8 == 0) ≡ true = ground (arith, new.aligned) in
    let same : (length v == length v) ≡ true = ground arith in
    rw (some_bytes, aligned, new.length_field, same) refl

report_no_room_lem :
    (used allocated : ℕ) → used ≤ allocated → report_no_room used allocated ≡ err no_space
unfolding report_no_room
report_no_room_lem used allocated h =
    let test : ltb allocated used ≡ false = ground arith in rw test refl

put_inserted :
    (r : List ℕ) (at : ℕ) (types : List ℕ) (end used allocated : ℕ) (v : List ℕ) (t pos : ℕ)
    → Listed r at types end used allocated
    → IsAttr v t
    → used + length v ≤ allocated
    → Cut r at types end t pos
    → Placed r pos used v (put_attribute r pos used v)
    → InsertOutcome r at types end used allocated v t (put_attribute r pos used v)
put_inserted r at types end used allocated v t pos it new fits there (placed r' done move filled) =
    inserted r' pos done
      (Moved-Listed r r' at types end used allocated v t pos it new fits there move filled) filled
      move

-- On a record whose attributes stand one behind the other up to the end marker, the insertion of an
-- attribute gives the error of no room only when the bytes used would exceed those allocated, and
-- else a record whose list of attributes is that list with the new one before the first of a greater
-- type, the new attribute's bytes there and all others kept.
pub insert_attribute_sorted_lem :
    (r : List ℕ) (at : ℕ) (types : List ℕ) (end used allocated : ℕ) (v : List ℕ) (t : ℕ)
    → Listed r at types end used allocated
    → IsAttr v t
    → InsertOutcome r at types end used allocated v t (insert_attribute_sorted r v)
unfolding insert_attribute_sorted
insert_attribute_sorted_lem r at types end used allocated v t it new =
    rw (check_new_attribute-IsAttr v t new, it.used_field, it.allocated_field)
      (elim (dec_lt allocated (used + length v)) [
        | yes over ↦
            let test : ltb allocated (used + length v) ≡ true = ground arith in
            rw (test, report_no_room_lem used allocated it.used_inside) (full refl over)
        | no fits ↦
            let test : ltb allocated (used + length v) ≡ false = ground arith in
            let scan_end : ℕ = min used (length r - 4) in
            let near : end + 4 ≤ scan_end =
              omega (arith, it.marked, it.used_inside, it.allocated_inside, new.long) in
            rw (test, new.type_field, it.attrs_field)
              (elim (scan_loop-Cut (suc scan_end) scan_end t it.chain it.marker near
                (omega arith)) [
                  | scanned ins done there ↦
                      let (lo, hi) = Cut-bounds there in
                      let put =
                        put_attribute-Placed r (pos_or ins end) used v
                          (omega (arith, it.behind_header)) (omega (arith, it.marked))
                          (omega (arith, it.allocated_inside)) it.small in
                      rw done (
                        put_inserted r at types end used allocated v t (pos_or ins end) it new
                          (omega arith) there put)
                ])
      ])

-- No type is greater than the one behind it.
unfoldable pub Ascending : List ℕ → Type 0
Ascending [] = Unit
Ascending (t ∷ []) = Unit
Ascending (t ∷ u ∷ ts) = (t ≤ u) × Ascending (u ∷ ts)

insert_type-Ascending : (t : ℕ) (ts : List ℕ) → Ascending ts → Ascending (insert_type t ts)
unfolding Ascending insert_type
insert_type-Ascending t [] h = tt
insert_type-Ascending t (u ∷ []) h = elim (dec_lt t u) [
  | yes lt ↦ let test : ltb t u ≡ true = ground arith in rw test (omega arith, tt)
  | no ge ↦ let test : ltb t u ≡ false = ground arith in rw test (omega arith, tt)
]
insert_type-Ascending t (u ∷ w ∷ ts) (le, h) = elim (dec_lt t u) [
  | yes lt ↦ let test : ltb t u ≡ true = ground arith in rw test (omega arith, (le, h))
  | no ge ↦
      let test : ltb t u ≡ false = ground arith in
      rw test (elim (dec_lt t w) [
        | yes lt ↦
            let test' : ltb t w ≡ true = ground arith in rw test' (omega arith, (omega arith, h))
        | no ge' ↦
            let test' : ltb t w ≡ false = ground arith in
            let rest : Ascending (insert_type t (w ∷ ts)) = insert_type-Ascending t (w ∷ ts) h in
            let e : insert_type t (w ∷ ts) ≡ w ∷ insert_type t ts = rw test' refl in
            rw test' (le, subst Ascending e rest)
      ])
]

-- An insertion of a whole attribute that succeeds on a record whose attributes ascend by type leaves a
-- record, of the same size and capacity, whose attributes ascend by type.
pub insert_attribute_sorted-Ascending :
    (r r' : List ℕ) (at : ℕ) (types : List ℕ) (end used allocated : ℕ) (v : List ℕ) (t : ℕ)
    → Listed r at types end used allocated
    → Ascending types
    → IsAttr v t
    → insert_attribute_sorted r v ≡ ok r'
    → Listed r' at (insert_type t types) (end + length v) (used + length v) allocated
      × Ascending (insert_type t types)
      × (length r' ≡ length r)
insert_attribute_sorted-Ascending r r' at types end used allocated v t it up new h =
    elim (insert_attribute_sorted_lem r at types end used allocated v t it new) [
      | inserted r1 pos done it' filled move ↦
          let e : r1 ≡ r' = cc in
          (rw (sym e) it', insert_type-Ascending t types up, ap length (sym e) ∙ move.same_size)
      | full none_left over ↦ absurd cc
    ]
