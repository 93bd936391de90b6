-- ===== src/EaIo/Layout.antt =====
-- What `encode` writes, entry by entry.
use rust_fs_ntfs.Base.{ℕ, zero, suc, ◌+◌, ◌-◌, ◌%◌, ◌≤◌, ◌<◌, ◌≡◌, refl, arith, inl, inr}
use rust_fs_ntfs.Base.{ap, sym, ◌∙◌, true, false, ltb, ◌==◌, Bool-cases, if◌then◌else◌}
use rust_fs_ntfs.Base.{
  List, [], ◌∷◌, ◌++◌, append-nil, append_assoc, length, length-append, replicate, length-replicate,
}
use rust_fs_ntfs.Base.{All, ok, err, io, bit_and}
use rust_fs_ntfs.Base.Bits.{bit_and_mask}
use rust_fs_ntfs.EaIo.{Ea, align4, entry_encoded_size, entry_bytes, pad_loop, encode_loop}

-- The bounds that `encode` checks.
abbrev pub IsEa : Ea → Type 0
IsEa ea = (length ea.name ≤ 254) × (length ea.value ≤ 0xffff)

-- The size of an entry without its padding, and with it.
abbrev pub bare_size : Ea → ℕ
bare_size ea = 8 + length ea.name + 1 + length ea.value

abbrev pub entry_size : Ea → ℕ
entry_size ea = entry_encoded_size (length ea.name) (length ea.value)

pub entry_size_bounds :
    (ea : Ea)
    → (bare_size ea ≤ entry_size ea) × (entry_size ea < bare_size ea + 4) × (entry_size ea % 4 ≡ 0)
unfolding entry_encoded_size align4
entry_size_bounds ea = (omega arith, omega arith, omega arith)

pub length-entry_bytes : (next : ℕ) (ea : Ea) → length (entry_bytes next ea) ≡ bare_size ea
unfolding entry_bytes
length-entry_bytes next ea = omega (arith, length-append ea.name (0 ∷ ea.value))

pad_loop_lem :
    (fuel k : ℕ) (out : List ℕ)
    → k ≤ fuel
    → k < 4
    → (length out + k) % 4 ≡ 0
    → pad_loop fuel out ≡ out ++ replicate k 0
unfolding pad_loop
pad_loop_lem zero zero out f h e = sym (append-nil out)
pad_loop_lem zero (suc k) out f h e = absurd (omega arith)
pad_loop_lem (suc fuel) zero out f h e =
    let even : (bit_and (length out) 3 == 0) ≡ true =
      rw (bit_and_mask 2 (length out)) (ground arith) in
    rw even (sym (append-nil out))
pad_loop_lem (suc fuel) (suc k) out f h e =
    let odd : (bit_and (length out) 3 == 0) ≡ false =
      rw (bit_and_mask 2 (length out)) (ground arith) in
    rw odd (
      pad_loop_lem fuel k (out ++ (0 ∷ [])) (omega arith) (omega arith)
        (omega (arith, length-append out (0 ∷ [])))
      ∙ append_assoc out (0 ∷ []) (replicate k 0))

-- An entry with its padding.
abbrev pub padded : ℕ → Ea → List ℕ
padded next ea = entry_bytes next ea ++ replicate (entry_size ea - bare_size ea) 0

pub length-padded : (next : ℕ) (ea : Ea) → length (padded next ea) ≡ entry_size ea
length-padded next ea =
    let (low, high, even) = entry_size_bounds ea in
    let zeros : List ℕ = replicate (entry_size ea - bare_size ea) 0 in
    let count : length zeros ≡ entry_size ea - bare_size ea =
      length-replicate (entry_size ea - bare_size ea) 0 in
    omega (arith, low, count, length-append (entry_bytes next ea) zeros, length-entry_bytes next ea)

-- The offset to the next entry.
abbrev pub offset_after : Ea → List Ea → ℕ
offset_after ea [] = 0
offset_after ea (next ∷ eas) = entry_size ea

abbrev pub packed : List Ea → List ℕ
packed [] = []
packed (ea ∷ eas) = padded (offset_after ea eas) ea ++ packed eas

push_entry :
    (next : ℕ) (ea : Ea) (out : List ℕ)
    → length out % 4 ≡ 0
    → pad_loop 3 (out ++ entry_bytes next ea) ≡ out ++ padded next ea
push_entry next ea out even =
    let (low, high, aligned) = entry_size_bounds ea in
    let all = length-append out (entry_bytes next ea) in
    let size = length-entry_bytes next ea in
    pad_loop_lem 3 (entry_size ea - bare_size ea) (out ++ entry_bytes next ea)
      (omega (arith, low, high)) (omega (arith, low, high))
      (omega (arith, low, aligned, even, all, size))
    ∙ append_assoc out (entry_bytes next ea) (replicate (entry_size ea - bare_size ea) 0)

next_off_lem :
    (ea : Ea) (eas : List Ea) → (if length eas == 0 then 0 else entry_size ea) ≡ offset_after ea eas
next_off_lem ea [] = refl
next_off_lem ea (next ∷ eas) =
    let more : (suc (length eas) == 0) ≡ false = ground arith in rw more refl

pub encode_loop-packed :
    (eas : List Ea) (out : List ℕ)
    → All IsEa eas
    → length out % 4 ≡ 0
    → encode_loop eas out ≡ ok (out ++ packed eas)
unfolding encode_loop
encode_loop-packed [] out a even = ap ok (sym (append-nil out))
encode_loop-packed (ea ∷ eas) out ((short, small), a) even =
    let n : ltb 254 (length ea.name) ≡ false = ground (arith, short) in
    let v : ltb 0xffff (length ea.value) ≡ false = ground (arith, small) in
    let next = offset_after ea eas in
    let (low, high, aligned) = entry_size_bounds ea in
    rw (n, v, next_off_lem ea eas, push_entry next ea out even)
      (encode_loop-packed eas (out ++ padded next ea) a
          (omega (arith, even, aligned, length-append out (padded next ea), length-padded next ea))
        ∙ ap ok (append_assoc out (padded next ea) (packed eas)))

-- An entry that is out of bounds makes the whole list fail.
pub encode_loop-err :
    (eas : List Ea) (out : List ℕ) → (All IsEa eas → ⊥) → encode_loop eas out ≡ err io
unfolding encode_loop
encode_loop-err [] out n = absurd (n tt)
encode_loop-err (ea ∷ eas) out n = elim (Bool-cases (ltb 254 (length ea.name))) [
  | inl long ↦ rw long refl
  | inr short ↦ elim (Bool-cases (ltb 0xffff (length ea.value))) [
    | inl large ↦ rw (short, large) refl
    | inr small ↦
        rw (short, small)
          (encode_loop-err eas _ (λ a. n ((ground (arith, short), ground (arith, small)), a)))
  ]
]
