-- ===== src/Compression/Chunk.antt =====
-- A compressed chunk: no panic, at most 4096 bytes, and the earlier output is kept.
use rust_fs_ntfs.Base.{ℕ, zero, suc, ◌+◌, ◌-◌, ◌*◌, ◌^◌, ◌≤◌, ◌<◌, ◌≡◌, refl, arith, inl, inr}
use rust_fs_ntfs.Base.{◌∙◌, true, false, leb, ◌==◌, Bool-cases, bit_and}
use rust_fs_ntfs.Base.{List, [], ◌∷◌, ◌++◌, length, length-append, byte_at, get_or-append_left}
use rust_fs_ntfs.Base.{Result, ok, err, fault, io, ◌>>=◌}
use native.Mathlib.Nat.{le_refl}
use rust_fs_ntfs.Compression.{chunk_size, back_reference, Progress, go_on, full, group_loop}
use rust_fs_ntfs.Compression.{chunk_loop, decompress_chunk}
use rust_fs_ntfs.Compression.Copy.{refused, copied, back_reference-Referred}

-- `out'` is `out` with more bytes of the chunk that began at `start`.
pub record IsGrown (start : ℕ) (out out' : List ℕ) : Type 0 where
  pub longer : length out ≤ length out'
  pub bounded : length out' ≤ start + chunk_size
  pub keeps : (j : ℕ) → j < length out → byte_at out' j ≡ byte_at out j

IsGrown-refl : (start : ℕ) (out : List ℕ) → length out ≤ start + chunk_size → IsGrown start out out
IsGrown-refl start out h = record { longer = omega arith; bounded = h; keeps = λ j k. refl }

IsGrown-trans :
    (start : ℕ) (a b c : List ℕ) → IsGrown start a b → IsGrown start b c → IsGrown start a c
IsGrown-trans start a b c p q = record {
  longer = omega (arith, p.longer, q.longer);
  bounded = q.bounded;
  keeps = λ j k. q.keeps j (omega (arith, p.longer)) ∙ p.keeps j k;
}

-- What holds of the outcome of a group of at most eight tokens.
abbrev GroupSound : ℕ → List ℕ → ℕ → Result Progress → Type 0
GroupSound start out room (ok (go_on rest out')) = IsGrown start out out' × (length rest ≤ room)
GroupSound start out room (ok (full out')) = IsGrown start out out'
GroupSound start out room (err e) = Unit {0}
GroupSound start out room fault = ⊥

GroupSound-after :
    (start room more : ℕ) (out mid : List ℕ) (r : Result Progress)
    → IsGrown start out mid
    → room ≤ more
    → GroupSound start mid room r
    → GroupSound start out more r
GroupSound-after start room more out mid (ok (go_on rest out')) g h s =
    (IsGrown-trans start out mid out' g s.0, omega (arith, s.1))
GroupSound-after start room more out mid (ok (full out')) g h s =
    IsGrown-trans start out mid out' g s
GroupSound-after start room more out mid (err e) g h s = tt
GroupSound-after start room more out mid fault g h s = s

-- The three ways on from a token.
module _ (left bit flags start b : ℕ) (body out : List ℕ) where
  group_full :
      leb chunk_size (length out - start) ≡ true
      → group_loop (suc left) bit flags start (b ∷ body) out ≡ ok (full out)
  unfolding group_loop
  group_full h = rw (h, group_loop) refl

  group_literal :
      leb chunk_size (length out - start) ≡ false
      → (bit_and flags (2 ^ bit) == 0) ≡ true
      → group_loop (suc left) bit flags start (b ∷ body) out
        ≡ group_loop left (suc bit) flags start body (out ++ (b ∷ []))
  unfolding group_loop
  group_literal h k = rw (h, k, group_loop) refl

  group_back :
      (b1 : ℕ) (rest : List ℕ)
      → leb chunk_size (length out - start) ≡ false
      → (bit_and flags (2 ^ bit) == 0) ≡ false
      → body ≡ b1 ∷ rest
      → group_loop (suc left) bit flags start (b ∷ body) out ≡ (
          back_reference (b + 256 * b1) start out >>= λ out'.
          group_loop left (suc bit) flags start rest out')
  unfolding group_loop
  group_back b1 rest h k e = rw (h, k, e, group_loop) refl

  group_cut :
      leb chunk_size (length out - start) ≡ false
      → (bit_and flags (2 ^ bit) == 0) ≡ false
      → body ≡ []
      → group_loop (suc left) bit flags start (b ∷ body) out ≡ err io
  unfolding group_loop
  group_cut h k e = rw (h, k, e, group_loop) refl

IsGrown-literal :
    (start b : ℕ) (out : List ℕ)
    → length out < start + chunk_size
    → IsGrown start out (out ++ (b ∷ []))
IsGrown-literal start b out h = record {
  longer = omega (arith, length-append out (b ∷ []));
  bounded = omega (arith, length-append out (b ∷ []));
  keeps = λ j k. get_or-append_left out (b ∷ []) j 0 k;
}

-- The back-reference branch, given that the rest of the group is sound.
group_back-GroupSound :
    (left bit flags start b : ℕ) (body out : List ℕ)
    → start ≤ length out
    → length out ≤ start + chunk_size
    → leb chunk_size (length out - start) ≡ false
    → (bit_and flags (2 ^ bit) == 0) ≡ false
    → ((rest out' : List ℕ)
        → start ≤ length out'
        → length out' ≤ start + chunk_size
        → GroupSound start out' (length rest) (group_loop left (suc bit) flags start rest out'))
    → GroupSound start out
        (suc (length body))
        (group_loop (suc left) bit flags start (b ∷ body) out)
group_back-GroupSound left bit flags start b [] out h k room back ih =
    rw (group_cut left bit flags start b [] out room back refl) tt
group_back-GroupSound left bit flags start b (b1 ∷ rest) out h k room back ih =
    rw (group_back left bit flags start b (b1 ∷ rest) out b1 rest room back refl)
      (elim (back_reference-Referred (b + 256 * b1) start out h k) [
        | refused e ↦ rw e tt
        | copied len d out' l3 d1 inside fits e c ↦
            let more : IsGrown start out out' = record {
              longer = omega (arith, c.grows);
              bounded = omega (arith, c.grows, fits);
              keeps = c.keeps;
            } in
            rw e (
              GroupSound-after start (length rest) (suc (suc (length rest))) out out' _ more
                (omega arith) (ih rest out' (omega (arith, more.longer)) more.bounded))
      ])

group_loop-GroupSound :
    (left bit flags start : ℕ) (body out : List ℕ)
    → start ≤ length out
    → length out ≤ start + chunk_size
    → GroupSound start out (length body) (group_loop left bit flags start body out)
group_loop-GroupSound zero bit flags start body out h k =
    unfold group_loop in (IsGrown-refl start out k, le_refl _)
group_loop-GroupSound (suc left) bit flags start [] out h k =
    unfold group_loop in (IsGrown-refl start out k, le_refl _)
group_loop-GroupSound (suc left) bit flags start (b ∷ body) out h k =
    elim (Bool-cases (leb chunk_size (length out - start))) [
      | inl is_full ↦
          rw (group_full left bit flags start b body out is_full) (IsGrown-refl start out k)
      | inr room ↦ elim (Bool-cases (bit_and flags (2 ^ bit) == 0)) [
        | inl literal ↦
            let more = IsGrown-literal start b out (ground (arith, room)) in
            rw (group_literal left bit flags start b body out room literal) (
              GroupSound-after start (length body) (suc (length body)) out (out ++ (b ∷ [])) _ more
                (omega arith)
                (group_loop-GroupSound left (suc bit) flags start body (out ++ (b ∷ []))
                  (omega (arith, more.longer)) more.bounded))
        | inr back ↦
            group_back-GroupSound left bit flags start b body out h k room back
              (λ rest out'. group_loop-GroupSound left (suc bit) flags start rest out')
      ]
    ]

-- What holds of the outcome of a chunk.
abbrev pub ChunkSound : ℕ → List ℕ → Result (List ℕ) → Type 0
ChunkSound start out (ok out') = IsGrown start out out'
ChunkSound start out (err e) = Unit {0}
ChunkSound start out fault = ⊥

ChunkSound-after :
    (start : ℕ) (out mid : List ℕ) (r : Result (List ℕ))
    → IsGrown start out mid
    → ChunkSound start mid r
    → ChunkSound start out r
ChunkSound-after start out mid (ok out') g s = IsGrown-trans start out mid out' g s
ChunkSound-after start out mid (err e) g s = tt
ChunkSound-after start out mid fault g s = s

-- One round of the loop, given that the next ones are sound.
chunk_round :
    (fuel start room flags : ℕ) (body out : List ℕ) (r : Result Progress)
    → GroupSound start out room r
    → ((rest out' : List ℕ)
        → length rest ≤ room
        → IsGrown start out out'
        → ChunkSound start out' (chunk_loop fuel start rest out'))
    → group_loop 8 0 flags start body out ≡ r
    → ChunkSound start out (chunk_loop (suc fuel) start (flags ∷ body) out)
unfolding chunk_loop
chunk_round fuel start room flags body out (ok (go_on rest out')) s ih e =
    rw (e, chunk_loop) (ChunkSound-after start out out' _ s.0 (ih rest out' s.1 s.0))
chunk_round fuel start room flags body out (ok (full out')) s ih e = rw (e, chunk_loop) s
chunk_round fuel start room flags body out (err x) s ih e = rw (e, chunk_loop) tt
chunk_round fuel start room flags body out fault s ih e = absurd s

chunk_loop-ChunkSound :
    (fuel start : ℕ) (body out : List ℕ)
    → length body ≤ fuel
    → start ≤ length out
    → length out ≤ start + chunk_size
    → ChunkSound start out (chunk_loop fuel start body out)
chunk_loop-ChunkSound fuel start [] out f h k = unfold chunk_loop in IsGrown-refl start out k
chunk_loop-ChunkSound zero start (flags ∷ body) out f h k = absurd (omega arith)
chunk_loop-ChunkSound (suc fuel) start (flags ∷ body) out f h k =
    chunk_round fuel start (length body) flags body out (group_loop 8 0 flags start body out)
      (group_loop-GroupSound 8 0 flags start body out h k)
      (λ rest out' shorter g.
        chunk_loop-ChunkSound fuel start rest out' (omega arith) (omega (arith, g.longer))
          g.bounded)
      refl

-- A chunk of any bytes is refused with an error, or it adds at most 4096 bytes behind the output,
-- which it keeps; it never reads out of range, and its loop ends.
pub decompress_chunk-ChunkSound :
    (body out : List ℕ) → ChunkSound (length out) out (decompress_chunk body out)
unfolding decompress_chunk
decompress_chunk-ChunkSound body out =
    chunk_loop-ChunkSound (length body) (length out) body out (omega arith) (omega arith)
      (omega arith)
