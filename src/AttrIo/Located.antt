-- ===== src/AttrIo/Located.antt =====
-- An attribute that the iterator yields describes something inside itself and inside the record.
use rust_fs_ntfs.Base.{ℕ, zero, suc, ◌+◌, ◌%◌, ◌≤◌, ◌<◌, ◌≡◌, refl, arith}
use rust_fs_ntfs.Base.{Bool, true, false, not, ltb, ◌==◌, if◌then◌else◌, ◌||◌}
use rust_fs_ntfs.Base.{List, [], ◌∷◌, length, byte_at, Option, some, none, Result, ok}
use rust_fs_ntfs.Base.{index_lem, read_le, checked_add, checked_add-eq}
use rust_fs_ntfs.AttrIo.{
  AttrLocation, header_size, end_marker, on_some, name_outside, with_value, with_names,
}
use rust_fs_ntfs.AttrIo.{
  with_header, with_resident, with_mapping, next, attributes_from, iter_attributes, bytes_used,
  attrs_offset,
}

-- The value or the mapping pairs lie inside the attribute, behind its header.
pub data HasValue (loc : AttrLocation) : Type 0 where
  resident :
      (offset len : ℕ)
      → loc.is_resident ≡ true
      → loc.resident_value_offset ≡ some offset
      → loc.resident_value_length ≡ some len
      → 0x18 ≤ offset
      → offset + len ≤ loc.attr_length
      → HasValue loc
  mapped :
      (offset len : ℕ)
      → loc.is_resident ≡ false
      → loc.non_resident_mapping_pairs_offset ≡ some offset
      → loc.non_resident_value_length ≡ some len
      → 0x40 ≤ offset
      → offset ≤ loc.attr_length
      → HasValue loc

pub record HasHeader (end cursor : ℕ) (loc : AttrLocation) : Type 0 where
  pub at_cursor : loc.attr_offset ≡ cursor
  pub inside : cursor + loc.attr_length ≤ end
  pub aligned : loc.attr_length % 8 ≡ 0
  pub long : header_size (not loc.is_resident) ≤ loc.attr_length
  pub named : name_outside loc.name_length loc.name_offset loc.attr_length ≡ false

-- What a step of the iterator may give.
data NextSound (end cursor : ℕ) (r : Result (Option AttrLocation)) : Type 0 where
  stop : r ≡ ok none → NextSound end cursor r
  found :
      (loc : AttrLocation)
      → r ≡ ok (some loc)
      → HasHeader end cursor loc
      → HasValue loc
      → NextSound end cursor r

-- A missing field and a failed check stop the iterator.
on_some-NextSound {ℓ} :
    {A : Type ℓ} (end cursor : ℕ) (o : Option A) (f : A → Result (Option AttrLocation))
    → ((a : A) → o ≡ some a → NextSound end cursor (f a))
    → NextSound end cursor (on_some o f)
on_some-NextSound end cursor none f h = stop refl
on_some-NextSound end cursor (some a) f h = h a refl

if-NextSound :
    (end cursor : ℕ) (c : Bool) (r : Result (Option AttrLocation))
    → (c ≡ false → NextSound end cursor r)
    → NextSound end cursor (if c then ok none else r)
if-NextSound end cursor true r h = stop refl
if-NextSound end cursor false r h = h refl

with_value-NextSound :
    (bytes : List ℕ) (end cursor : ℕ) (non_resident : Bool) (loc : AttrLocation)
    → HasHeader end cursor loc
    → loc.is_resident ≡ not non_resident
    → NextSound end cursor (with_value bytes non_resident loc)
unfolding with_value with_resident with_mapping
with_value-NextSound bytes end cursor false loc h form =
    on_some-NextSound end cursor (read_le 4 bytes (loc.attr_offset + 0x10)) _ (λ len _.
      on_some-NextSound end cursor (read_le 2 bytes (loc.attr_offset + 0x14)) _ (λ offset _.
        on_some-NextSound end cursor (checked_add offset len) _ (λ last e3.
          if-NextSound end cursor (ltb offset 0x18 || ltb loc.attr_length last) _ (λ good.
            found (with_resident loc len offset) refl
              (record {
                at_cursor = h.at_cursor;
                inside = h.inside;
                aligned = h.aligned;
                long = h.long;
                named = h.named;
              })
              (resident offset len form refl refl (ground (arith, good))
                (ground (arith, good, checked_add-eq offset len e3)))))))
with_value-NextSound bytes end cursor true loc h form =
    on_some-NextSound end cursor (read_le 2 bytes (loc.attr_offset + 0x20)) _ (λ offset _.
      if-NextSound end cursor (ltb offset 0x40 || ltb loc.attr_length offset) _ (λ good.
        on_some-NextSound end cursor (read_le 8 bytes (loc.attr_offset + 0x30)) _ (λ len _.
          found (with_mapping loc len offset) refl
            (record {
              at_cursor = h.at_cursor;
              inside = h.inside;
              aligned = h.aligned;
              long = h.long;
              named = h.named;
            })
            (mapped offset len form refl refl (ground (arith, good)) (ground (arith, good))))))

with_names-NextSound :
    (bytes : List ℕ) (end cursor type_code len : ℕ) (non_resident : Bool)
    → cursor + 16 ≤ length bytes
    → cursor + len ≤ end
    → len % 8 ≡ 0
    → header_size non_resident ≤ len
    → NextSound end cursor (with_names bytes cursor type_code len non_resident)
unfolding with_names
with_names-NextSound bytes end cursor type_code len non_resident room inside aligned long =
    rw (index_lem bytes (cursor + 0x09) (omega arith)) (
      on_some-NextSound end cursor (read_le 2 bytes (cursor + 0x0a)) _ (λ name_offset _.
        on_some-NextSound end cursor (read_le 2 bytes (cursor + 0x0e)) _ (λ attribute_id _.
          let loc : AttrLocation = record {
            type_code = type_code;
            attr_offset = cursor;
            attr_length = len;
            is_resident = not non_resident;
            name_length = byte_at bytes (cursor + 0x09);
            name_offset = name_offset;
            attribute_id = attribute_id;
            resident_value_offset = none;
            resident_value_length = none;
            non_resident_value_length = none;
            non_resident_mapping_pairs_offset = none;
          } in
          if-NextSound end cursor (name_outside loc.name_length name_offset len) _ (λ named.
            with_value-NextSound bytes end cursor non_resident loc
              (record {
                at_cursor = refl;
                inside = inside;
                aligned = aligned;
                long = header_twice non_resident len long;
                named = named;
              })
              refl))))
  where
    header_twice : (b : Bool) (len : ℕ) → header_size b ≤ len → header_size (not (not b)) ≤ len
    header_twice true len h = h
    header_twice false len h = h

with_header-NextSound :
    (bytes : List ℕ) (end cursor type_code len : ℕ)
    → cursor + 16 ≤ length bytes
    → cursor + len ≤ end
    → len % 8 ≡ 0
    → NextSound end cursor (with_header bytes cursor type_code len)
unfolding with_header
with_header-NextSound bytes end cursor type_code len room inside aligned =
    let non_resident = not (byte_at bytes (cursor + 0x08) == 0) in
    rw (index_lem bytes (cursor + 0x08) (omega arith)) (
      if-NextSound end cursor (ltb len (header_size non_resident)) _ (λ long.
        with_names-NextSound bytes end cursor type_code len non_resident room inside aligned
          (ground (arith, long))))

next-NextSound :
    (bytes : List ℕ) (end cursor : ℕ)
    → end ≤ length bytes
    → NextSound end cursor (next bytes cursor end)
unfolding next
next-NextSound bytes end cursor fits = if-NextSound end cursor (ltb end (cursor + 4)) _ (λ room.
    on_some-NextSound end cursor (read_le 4 bytes cursor) _ (λ type_code _.
      if-NextSound end cursor (type_code == end_marker) _ (λ more.
        if-NextSound end cursor (ltb end (cursor + 16)) _ (λ room'.
          on_some-NextSound end cursor (read_le 4 bytes (cursor + 4)) _ (λ len _.
            if-NextSound end cursor (len == 0 || not (len % 8 == 0) || ltb end (cursor + len)) _
              (λ good.
                with_header-NextSound bytes end cursor type_code len (ground (arith, room', fits))
                  (ground (arith, good)) (ground (arith, good))))))))

-- Attributes one behind the other from a cursor on, each inside the bytes in use.
abbrev pub Located : ℕ → ℕ → List AttrLocation → Type 0
Located end cursor [] = Unit {0}
Located end cursor (loc ∷ locs) =
    HasHeader end cursor loc × HasValue loc × Located end (cursor + loc.attr_length) locs

-- The iterator ends, and what it yields is located.
data AllLocated (end cursor : ℕ) (r : Result (List AttrLocation)) : Type 0 where
  located :
      (locs : List AttrLocation) → r ≡ ok locs → Located end cursor locs → AllLocated end cursor r

header_long : (b : Bool) (len : ℕ) → header_size b ≤ len → 1 ≤ len
header_long true len h = omega arith
header_long false len h = omega arith

attributes_from-AllLocated :
    (fuel : ℕ) (bytes : List ℕ) (cursor end : ℕ)
    → end ≤ length bytes
    → 1 ≤ fuel
    → end < cursor + fuel
    → AllLocated end cursor (attributes_from fuel bytes cursor end)
unfolding attributes_from
attributes_from-AllLocated zero bytes cursor end fits some_fuel f = absurd (omega arith)
attributes_from-AllLocated (suc fuel) bytes cursor end fits some_fuel f =
    elim (next-NextSound bytes end cursor fits) [
      | stop e ↦ rw e (located [] refl tt)
      | found loc e h v ↦
          let long = header_long (not loc.is_resident) loc.attr_length h.long in
          elim (attributes_from-AllLocated fuel bytes (cursor + loc.attr_length) end fits
            (omega (arith, h.inside)) (omega (arith, long))) [
              | located locs e' l ↦ rw (e, e') (located (loc ∷ locs) refl (h, v, l))
            ]
    ]

-- On the bytes of any record the iterator ends without a panic, and it yields attributes one
-- behind the other from the first offset on. Each lies inside the bytes in use, has a length that
-- is a multiple of 8 and at least its header, and holds its name, and its resident value or its
-- mapping pairs.
pub iter_attributes-Located :
    (bytes : List ℕ)
    → (locs : List AttrLocation) × (iter_attributes bytes ≡ ok locs)
      × (bytes_used bytes ≤ length bytes)
      × Located (bytes_used bytes) (attrs_offset bytes) locs
unfolding iter_attributes
iter_attributes-Located bytes =
    let fits : bytes_used bytes ≤ length bytes = unfold bytes_used in omega arith in
    elim (attributes_from-AllLocated (suc (length bytes)) bytes (attrs_offset bytes)
      (bytes_used bytes) fits (omega arith) (omega (arith, fits))) [
        | located locs e l ↦ (locs, e, fits, l)
      ]
