-- ===== src/Compression/Stream.antt =====
-- A compression unit: no panic and no endless loop on any bytes, and streams of stored chunks.
use rust_fs_ntfs.Base.{ℕ, zero, suc, ◌+◌, ◌-◌, ◌*◌, ◌/◌, ◌%◌, ◌^◌, ◌≤◌, ◌<◌, ◌≡◌, ◌≢◌, refl, arith}
use rust_fs_ntfs.Base.{
  ap, sym, ◌∙◌, Bool, true, false, not, ltb, ◌==◌, Bool-cases, bit_and, inl, inr,
}
use rust_fs_ntfs.Base.{
  if◌then◌else◌, List, [], ◌∷◌, ◌++◌, length, take, drop, length-take, length-drop,
}
use rust_fs_ntfs.Base.{
  take_length-append, drop_length-append, length-append, append_assoc, append-nil,
}
use rust_fs_ntfs.Base.{All, Result, ok, err, fault, ◌>>=◌, >>=-ne-fault, ok-injective, take_all}
use rust_fs_ntfs.Base.Bits.{bit_and_mask, bit_and_single}
use rust_fs_ntfs.Compression.{decompress_chunk, unit_loop, decompress_unit}
use rust_fs_ntfs.Compression.Chunk.{ChunkSound, decompress_chunk-ChunkSound}

ChunkSound-ne-fault :
    (start : ℕ) (out : List ℕ) (r : Result (List ℕ)) → ChunkSound start out r → r ≢ fault
ChunkSound-ne-fault start out (ok x) s = λ e. cc
ChunkSound-ne-fault start out (err x) s = λ e. cc
ChunkSound-ne-fault start out fault s = absurd s

-- The body of a chunk, copied or decoded.
body_of-ne-fault :
    (compressed : Bool) (body out : List ℕ)
    → (if compressed then decompress_chunk body out else ok (out ++ body)) ≢ fault
body_of-ne-fault true body out =
    ChunkSound-ne-fault (length out) out _ (decompress_chunk-ChunkSound body out)
body_of-ne-fault false body out = λ e. cc

unit_loop-ne-fault :
    (fuel max_len : ℕ) (input out : List ℕ)
    → length input ≤ fuel
    → unit_loop fuel max_len input out ≢ fault
unfolding unit_loop
unit_loop-ne-fault fuel max_len [] out h = λ e. cc
unit_loop-ne-fault fuel max_len (h0 ∷ []) out h = λ e. cc
unit_loop-ne-fault zero max_len (h0 ∷ h1 ∷ input) out h = absurd (omega arith)
unit_loop-ne-fault (suc fuel) max_len (h0 ∷ h1 ∷ input) out h =
    let header = h0 + 256 * h1 in
    let chunk_len = bit_and header 0x0fff + 1 in
    elim (Bool-cases (not (ltb (length out) max_len))) [
      | inl full ↦ rw full (λ e. cc)
      | inr room ↦ elim (Bool-cases (header == 0)) [
        | inl end ↦ rw (room, end) (λ e. cc)
        | inr go ↦ elim (Bool-cases (not (bit_and (header / 2 ^ 12) 0x7 == 3))) [
          | inl bad ↦ rw (room, go, bad) (λ e. cc)
          | inr good ↦ elim (Bool-cases (ltb (length input) chunk_len)) [
            | inl short ↦ rw (room, go, good, short) (λ e. cc)
            | inr fits ↦
                rw (room, go, good, fits)
                  (>>=-ne-fault _ _
                    (body_of-ne-fault (not (bit_and header 0x8000 == 0)) (take chunk_len input) out)
                    (λ out' _.
                      unit_loop-ne-fault fuel max_len (drop chunk_len input) out'
                        (omega (arith, length-drop chunk_len input))))
          ]
        ]
      ]
    ]

-- `decompress_unit` ends on every input, with an error or with at most `max_len` bytes, and it
-- never reads or copies out of range.
pub decompress_unit-ne-fault :
    (input : List ℕ) (max_len : ℕ)
    → (decompress_unit input max_len ≢ fault)
      × ((out : List ℕ) → decompress_unit input max_len ≡ ok out → length out ≤ max_len)
unfolding decompress_unit
decompress_unit-ne-fault input max_len = (
  >>=-ne-fault (unit_loop (length input) max_len input []) _
      (unit_loop-ne-fault (length input) max_len input [] (omega arith)) (λ out _ e. cc),
  λ out e. taken (unit_loop (length input) max_len input []) out e,
)
  where
    taken :
        (r : Result (List ℕ)) (out : List ℕ)
        → (r >>= λ o. ok (take max_len o)) ≡ ok out
        → length out ≤ max_len
    taken (ok o) out e = rw (← ok-injective e) (omega (arith, length-take max_len o))
    taken (err x) out e = absurd (cc e)
    taken fault out e = absurd (cc e)

-- A stored chunk: the header of its length, and its bytes; and a stream of such chunks.
abbrev pub stored_header : ℕ → ℕ
stored_header len = 0x3000 + (len - 1)

abbrev pub stored : List (List ℕ) → List ℕ
stored [] = []
stored (c ∷ cs) = stored_header (length c) % 256 ∷ stored_header (length c) / 256 ∷ (c ++ stored cs)

abbrev pub joined : List (List ℕ) → List ℕ
joined [] = []
joined (c ∷ cs) = c ++ joined cs

abbrev pub IsChunk : List ℕ → Type 0
IsChunk c = (1 ≤ length c) × (length c ≤ 4096)

header_fields :
    (h : ℕ)
    → 0x3000 ≤ h
    → h < 0x4000
    → (bit_and h 0x0fff ≡ h - 0x3000) × (bit_and (h / 2 ^ 12) 0x7 ≡ 3) × (bit_and h 0x8000 ≡ 0)
header_fields h lo hi = (
  bit_and_mask 12 h ∙ omega arith,
  bit_and_mask 3 (h / 2 ^ 12) ∙ omega arith,
  (bit_and_single 15 h).0 (omega arith),
)

stored_round :
    (fuel max_len : ℕ) (c rest out : List ℕ)
    → IsChunk c
    → length out < max_len
    → let h = stored_header (length c) in
      unit_loop (suc fuel) max_len (h % 256 ∷ h / 256 ∷ (c ++ rest)) out
      ≡ unit_loop fuel max_len rest (out ++ c)
unfolding unit_loop
stored_round fuel max_len c rest out (c1, c4096) room =
    let h = stored_header (length c) in
    let whole : h % 256 + 256 * (h / 256) ≡ h = omega arith in
    let (low, sign, top) = header_fields h (omega arith) (omega arith) in
    let size : bit_and h 0x0fff + 1 ≡ length c = omega (arith, low) in
    let inside : not (ltb (length out) max_len) ≡ false = ground (arith, room) in
    let some_header : (h == 0) ≡ false = ground arith in
    let fits : ltb (length (c ++ rest)) (length c) ≡ false = ground (arith, length-append c rest) in
    rw
      (
        whole,
        inside,
        some_header,
        sign,
        size,
        fits,
        top,
        take_length-append c rest,
        drop_length-append c rest,
      )
      refl

unit_loop-nil : (fuel max_len : ℕ) (out : List ℕ) → unit_loop fuel max_len [] out ≡ ok out
unfolding unit_loop
unit_loop-nil fuel max_len out = refl

unit_loop-stored :
    (chunks : List (List ℕ)) (fuel max_len : ℕ) (out : List ℕ)
    → All IsChunk chunks
    → length (out ++ joined chunks) ≤ max_len
    → length (stored chunks) ≤ fuel
    → unit_loop fuel max_len (stored chunks) out ≡ ok (out ++ joined chunks)
unit_loop-stored [] fuel max_len out a h f =
    unit_loop-nil fuel max_len out ∙ ap ok (sym (append-nil out))
unit_loop-stored (c ∷ cs) zero max_len out a h f = absurd (omega arith)
unit_loop-stored (c ∷ cs) (suc fuel) max_len out (ac, acs) h f =
    let same : (out ++ c) ++ joined cs ≡ out ++ (c ++ joined cs) = append_assoc out c (joined cs) in
    stored_round fuel max_len c (stored cs) out ac
      (omega (arith, length-append out (c ++ joined cs), length-append c (joined cs)))
    ∙ unit_loop-stored cs fuel max_len (out ++ c) acs (rw same h)
        (omega (arith, length-append c (stored cs)))
    ∙ ap ok same

-- A stream of stored chunks of 1 to 4096 bytes decodes to the chunks joined, when they fit the
-- limit.
pub decompress_unit-stored :
    (chunks : List (List ℕ)) (max_len : ℕ)
    → All IsChunk chunks
    → length (joined chunks) ≤ max_len
    → decompress_unit (stored chunks) max_len ≡ ok (joined chunks)
unfolding decompress_unit
decompress_unit-stored chunks max_len a h =
    rw (unit_loop-stored chunks (length (stored chunks)) max_len [] a h (omega arith))
      (ap ok (take_all (joined chunks) max_len h))
