-- ===== src/EaIo/RoundTrip.antt =====
-- `decode` reads back what `encode` wrote.
use rust_fs_ntfs.Base.{ℕ, zero, suc, ◌+◌, ◌-◌, ◌%◌, ◌^◌, ◌≤◌, ◌<◌, ◌≡◌, refl, arith}
use rust_fs_ntfs.Base.{ap, sym, ◌∙◌, true, false, ltb, leb, ◌==◌, ◌||◌}
use rust_fs_ntfs.Base.{List, [], ◌∷◌, ◌++◌, append_assoc, length, length-append, replicate, drop}
use rust_fs_ntfs.Base.{
  All, some, ok, err, io, index, index_lem, slice, slice-middle, read_le, read_le_lem, to_le,
  drop_length-append,
}
use rust_fs_ntfs.EaIo.{Ea, entry_bytes, encode, decode, decode_loop, decode_entry}
use rust_fs_ntfs.EaIo.Layout.{
  IsEa, bare_size, entry_size, entry_size_bounds, length-entry_bytes, padded,
}
use rust_fs_ntfs.EaIo.Layout.{
  length-padded, offset_after, packed, encode_loop-packed, encode_loop-err,
}

header : ℕ → Ea → List ℕ
header next ea =
    to_le 4 (next % 2 ^ 32)
    ++ (ea.flags ∷ length ea.name % 256 ∷ to_le 2 (length ea.value % 2 ^ 16))

decode_entry-entry_bytes :
    (next : ℕ) (ea : Ea) (post : List ℕ)
    → IsEa ea
    → next < 2 ^ 32
    → decode_entry (entry_bytes next ea ++ post) ≡ ok (ea, next)
unfolding decode_entry entry_bytes header
decode_entry-entry_bytes next ea post (short, small) h =
    let bytes = entry_bytes next ea ++ post in
    let long : bare_size ea ≤ length bytes =
      omega (arith, length-append (entry_bytes next ea) post, length-entry_bytes next ea) in
    let inside : ltb (length bytes) (bare_size ea) ≡ false = ground (arith, long) in
    let field : read_le 4 bytes 0 ≡ some next =
      read_le_lem 4 bytes 0 (omega (arith, long)) ∙ ap some (omega arith) in
    let size : read_le 2 bytes 6 ≡ some (length ea.value) =
      read_le_lem 2 bytes 6 (omega (arith, long)) ∙ ap some (omega arith) in
    let name_len : index bytes 5 ≡ ok (length ea.name) =
      index_lem bytes 5 (omega (arith, long)) ∙ ap ok (omega arith) in
    let flags : index bytes 4 ≡ ok ea.flags = index_lem bytes 4 (omega (arith, long)) in
    let tail = append_assoc ea.name (0 ∷ ea.value) post in
    let back = tail ∙ sym (append_assoc ea.name (0 ∷ []) (ea.value ++ post)) in
    let pre = header next ea ++ (ea.name ++ (0 ∷ [])) in
    let name : slice bytes 8 (8 + length ea.name) ≡ ok ea.name =
      ap (λ t. slice (header next ea ++ t) 8 (8 + length ea.name)) tail
      ∙ slice-middle (header next ea) ea.name ((0 ∷ ea.value) ++ post) 8 (8 + length ea.name)
          (omega arith) (omega arith) in
    let value : slice bytes (8 + length ea.name + 1) (bare_size ea) ≡ ok ea.value =
      ap (λ t. slice (header next ea ++ t) (8 + length ea.name + 1) (bare_size ea)) back
      ∙ slice-middle pre ea.value post (8 + length ea.name + 1) (bare_size ea)
          (omega (arith, length-append ea.name (0 ∷ [])))
          (omega (arith, length-append ea.name (0 ∷ []))) in
    rw (field, flags, name_len, size, inside, name, value) refl

decode_entry-packed :
    (ea : Ea) (eas : List Ea)
    → IsEa ea
    → decode_entry (packed (ea ∷ eas)) ≡ ok (ea, offset_after ea eas)
decode_entry-packed ea eas bound =
    let next = offset_after ea eas in
    let zeros : List ℕ = replicate (entry_size ea - bare_size ea) 0 in
    ap decode_entry (append_assoc (entry_bytes next ea) zeros (packed eas))
    ∙ decode_entry-entry_bytes next ea (zeros ++ packed eas) bound (next_fits eas)
  where
    next_fits : (eas : List Ea) → offset_after ea eas < 2 ^ 32
    next_fits [] = omega arith
    next_fits (next ∷ eas) = omega (arith, entry_size_bounds ea, bound)

drop-packed : (ea : Ea) (eas : List Ea) → drop (entry_size ea) (packed (ea ∷ eas)) ≡ packed eas
drop-packed ea eas =
    let next = offset_after ea eas in
    ap (λ n. drop n (packed (ea ∷ eas))) (sym (length-padded next ea))
    ∙ drop_length-append (padded next ea) (packed eas)

packed_long :
    (ea : Ea) (eas : List Ea) → length (packed (ea ∷ eas)) ≡ entry_size ea + length (packed eas)
packed_long ea eas =
    let next = offset_after ea eas in
    length-append (padded next ea) (packed eas)
    ∙ ap (λ n. n + length (packed eas)) (length-padded next ea)

decode_loop-packed :
    (fuel : ℕ) (eas : List Ea)
    → All IsEa eas
    → length (packed eas) ≤ fuel
    → decode_loop fuel (packed eas) ≡ ok eas
unfolding decode_loop
decode_loop-packed zero [] a h = refl
decode_loop-packed zero (ea ∷ eas) a h =
    absurd (omega (arith, packed_long ea eas, entry_size_bounds ea))
decode_loop-packed (suc fuel) [] a h = refl
decode_loop-packed (suc fuel) (ea ∷ []) (bound, a) h =
    let enough : leb 8 (length (packed (ea ∷ []))) ≡ true =
      ground (arith, packed_long ea [], entry_size_bounds ea) in
    rw (enough, decode_entry-packed ea [] bound) refl
decode_loop-packed (suc fuel) (ea ∷ next ∷ eas) (bound, a) h =
    let rest : List Ea = next ∷ eas in
    let size = packed_long ea rest in
    let (low, high, aligned) = entry_size_bounds ea in
    let enough : leb 8 (length (packed (ea ∷ rest))) ≡ true = ground (arith, size, low) in
    let positive : (entry_size ea == 0) ≡ false = ground (arith, low) in
    let valid : (ltb (entry_size ea) 8 || ltb (length (packed (ea ∷ rest))) (entry_size ea))
        ≡ false =
      ground (arith, low, size) in
    let ih = decode_loop-packed fuel rest a (omega (arith, h, size, low)) in
    rw (enough, decode_entry-packed ea rest bound, positive, valid, drop-packed ea rest, ih) refl

packed_aligned : (eas : List Ea) → length (packed eas) % 4 ≡ 0
packed_aligned [] = refl
packed_aligned (ea ∷ eas) =
    omega (arith, packed_long ea eas, entry_size_bounds ea, packed_aligned eas)

-- Attributes with names of at most 254 and values of at most 65535 bytes are packed, in a multiple
-- of 4 bytes, and those decode to the same attributes.
pub encode-decode :
    (eas : List Ea)
    → All IsEa eas
    → (bytes : List ℕ) × (encode eas ≡ ok bytes) × (decode bytes ≡ ok eas) × (length bytes % 4 ≡ 0)
unfolding encode decode
encode-decode eas a = (
  packed eas,
  encode_loop-packed eas [] a refl,
  decode_loop-packed (length (packed eas)) eas a (omega arith),
  packed_aligned eas,
)

-- A list with an attribute whose name or value is too long is refused.
pub encode-too_long : (eas : List Ea) → ¬ All IsEa eas → encode eas ≡ err io
unfolding encode
encode-too_long eas n = encode_loop-err eas [] n
