-- ===== src/Fixup/Loops.antt =====
-- The two loops as a whole, index by index.
use rust_fs_ntfs.Base.{ℕ, zero, suc, ◌+◌, ◌*◌, ◌≤◌, ◌<◌, ◌≡◌, ◌≢◌, refl, arith, ◌⊎◌, inl, inr}
use rust_fs_ntfs.Base.{◌∙◌}
use rust_fs_ntfs.Base.{List, length, byte_at, ok}
use native.Mathlib.Decide.{dec_lt}
use native.Mathlib.Nat.{le_refl}
use rust_fs_ntfs.Fixup.{read_sectors, write_sectors}
use rust_fs_ntfs.Fixup.Usa.{tail_at, tail_apart, tail_first, tail_last}
use rust_fs_ntfs.Fixup.Steps.{
  protect, restore, length-protect, length-restore, write_step, read_step,
}
use rust_fs_ntfs.Fixup.Steps.{protect_bytes, protect_rest, restore_bytes, restore_rest}

abbrev pub saved_at : ℕ → ℕ → ℕ
saved_at u k = u + 2 + k * 2

-- `j` is not one of the last two bytes of a sector from `s` up to `n`.
abbrev pub OffTails : ℕ → ℕ → ℕ → ℕ → Type 0
OffTails b s n j = (k : ℕ) → s ≤ k → k < n → (j ≢ tail_at b k) × (j ≢ tail_at b k + 1)

-- `w` is `r` with the ends of the sectors `s` up to `n` moved to the array and replaced.
pub record IsProtected (b u usn0 usn1 s n : ℕ) (r w : List ℕ) : Type 0 where
  pub same_length : length w ≡ length r
  pub saved :
      (k : ℕ)
      → s ≤ k
      → k < n
      → (byte_at w (saved_at u k) ≡ byte_at r (tail_at b k))
        × (byte_at w (saved_at u k + 1) ≡ byte_at r (tail_at b k + 1))
  pub tails :
      (k : ℕ)
      → s ≤ k
      → k < n
      → (byte_at w (tail_at b k) ≡ usn0) × (byte_at w (tail_at b k + 1) ≡ usn1)
  pub rest :
      (j : ℕ)
      → (j < saved_at u s) ⊎ (saved_at u n ≤ j)
      → OffTails b s n j
      → byte_at w j ≡ byte_at r j

-- `x` is `w` with the ends of the sectors put back from the array.
pub record IsRestored (b u s n : ℕ) (w x : List ℕ) : Type 0 where
  pub same_length : length x ≡ length w
  pub tails :
      (k : ℕ)
      → s ≤ k
      → k < n
      → (byte_at x (tail_at b k) ≡ byte_at w (saved_at u k))
        × (byte_at x (tail_at b k + 1) ≡ byte_at w (saved_at u k + 1))
  pub rest : (j : ℕ) → OffTails b s n j → byte_at x j ≡ byte_at w j

-- The array lies in the first sector, before its end.
module _ (b u n usn0 usn1 : ℕ) (wide : 2 ≤ b) (clear : saved_at u n + 2 ≤ b) where
  -- Indices below the end of the array are off the ends of all sectors, and so is the end of a
  -- sector before them.
  off_low : (s j : ℕ) → j < saved_at u n → OffTails b s n j
  off_low s j h k lo hi = let first = tail_first b k in (omega (arith, first), omega (arith, first))

  off_earlier : (s j : ℕ) → (j ≡ tail_at b s) ⊎ (j ≡ tail_at b s + 1) → OffTails b (suc s) n j
  off_earlier s j e k lo hi =
      let apart = tail_apart b s k wide lo in (omega (arith, apart), omega (arith, apart))

  protect-IsProtected :
      (s : ℕ) (r w : List ℕ)
      → s < n
      → n * b ≤ length r
      → IsProtected b u usn0 usn1 (suc s) n (protect (saved_at u s) (tail_at b s) usn0 usn1 r) w
      → IsProtected b u usn0 usn1 s n r w
  protect-IsProtected s r w below fits p =
      let first = tail_first b s in
      let last = tail_last b s n (length r) wide below fits in
      let (b0, b1, b2, b3) =
        protect_bytes (saved_at u s) (tail_at b s) usn0 usn1 r (omega arith) last in
      let others = protect_rest (saved_at u s) (tail_at b s) usn0 usn1 r (omega arith) last in
      record {
        same_length = p.same_length ∙ length-protect (saved_at u s) (tail_at b s) usn0 usn1 r;
        saved = λ k lo hi. elim (dec_lt s k) [
          | yes later ↦
              let apart = tail_apart b s k wide later in
              let low = tail_first b k in
              (
                (p.saved k later hi).0
                    ∙ others (tail_at b k) (omega arith) (omega arith) (omega arith) (omega arith),
                (p.saved k later hi).1
                    ∙ others (tail_at b k + 1) (omega arith) (omega arith) (omega arith)
                        (omega arith),
              )
          | no here ↦
              let same : k ≡ s = omega arith in
              rw same (
                p.rest (saved_at u s) (inl (omega arith))
                      (off_low (suc s) (saved_at u s) (omega arith))
                    ∙ b0,
                p.rest (saved_at u s + 1) (inl (omega arith))
                      (off_low (suc s) (saved_at u s + 1) (omega arith))
                    ∙ b1,
              )
        ];
        tails = λ k lo hi. elim (dec_lt s k) [
          | yes later ↦ p.tails k later hi
          | no here ↦
              let same : k ≡ s = omega arith in
              rw same (
                p.rest (tail_at b s) (inr (omega arith)) (off_earlier s (tail_at b s) (inl refl))
                    ∙ b2,
                p.rest (tail_at b s + 1) (inr (omega arith))
                      (off_earlier s (tail_at b s + 1) (inr refl))
                    ∙ b3,
              )
        ];
        rest = λ j side off.
            p.rest j (omega arith) (λ k lo hi. off k (omega arith) hi)
            ∙ others j (omega arith) (omega arith) (off s (le_refl s) below).0
                (off s (le_refl s) below).1;
      }

  -- The loop of the write direction ends without a panic.
  pub write_sectors-IsProtected :
      (left s : ℕ) (r : List ℕ)
      → s + left ≡ n
      → n * b ≤ length r
      → (w : List ℕ) × (write_sectors left s b u usn0 usn1 r ≡ ok w)
        × IsProtected b u usn0 usn1 s n r w
  write_sectors-IsProtected zero s r e fits = (
    r,
    (unfold write_sectors in refl),
    record {
      same_length = refl;
      saved = λ k lo hi. absurd (omega arith);
      tails = λ k lo hi. absurd (omega arith);
      rest = λ j side off. refl;
    },
  )
  write_sectors-IsProtected (suc left) s r e fits =
      let last = tail_last b s n (length r) wide (omega arith) fits in
      let first = tail_first b s in
      let next = protect (saved_at u s) (tail_at b s) usn0 usn1 r in
      let (w, runs, p) =
        write_sectors-IsProtected left (suc s) next (omega arith)
          (rw (length-protect (saved_at u s) (tail_at b s) usn0 usn1 r) fits) in
      (
        w,
        write_step b u s usn0 usn1 r last (omega arith) left ∙ runs,
        protect-IsProtected s r w (omega arith) fits p,
      )

  restore-IsRestored :
      (s : ℕ) (w x : List ℕ)
      → s < n
      → n * b ≤ length w
      → IsRestored b u (suc s) n (restore (saved_at u s) (tail_at b s) w) x
      → IsRestored b u s n w x
  restore-IsRestored s w x below fits p =
      let first = tail_first b s in
      let last = tail_last b s n (length w) wide below fits in
      let (b0, b1) = restore_bytes (saved_at u s) (tail_at b s) usn0 usn1 w (omega arith) last in
      let others = restore_rest (saved_at u s) (tail_at b s) usn0 usn1 w (omega arith) last in
      record {
        same_length = p.same_length ∙ length-restore (saved_at u s) (tail_at b s) w;
        tails = λ k lo hi. elim (dec_lt s k) [
          | yes later ↦ (
            (p.tails k later hi).0 ∙ others (saved_at u k) (omega arith) (omega arith),
            (p.tails k later hi).1 ∙ others (saved_at u k + 1) (omega arith) (omega arith),
          )
          | no here ↦
              let same : k ≡ s = omega arith in
              rw same (
                p.rest (tail_at b s) (off_earlier s (tail_at b s) (inl refl)) ∙ b0,
                p.rest (tail_at b s + 1) (off_earlier s (tail_at b s + 1) (inr refl)) ∙ b1,
              )
        ];
        rest = λ j off.
            p.rest j (λ k lo hi. off k (omega arith) hi)
            ∙ others j (off s (le_refl s) below).0 (off s (le_refl s) below).1;
      }

  -- Every sector from `s` on ends in the update sequence number.
  abbrev pub EndsInUsn : ℕ → List ℕ → Type 0
  EndsInUsn s w =
      (k : ℕ)
      → s ≤ k
      → k < n
      → (byte_at w (tail_at b k) ≡ usn0) × (byte_at w (tail_at b k + 1) ≡ usn1)

  EndsInUsn-restore :
      (s : ℕ) (w : List ℕ)
      → s < n
      → n * b ≤ length w
      → EndsInUsn s w
      → EndsInUsn (suc s) (restore (saved_at u s) (tail_at b s) w)
  EndsInUsn-restore s w below fits ends k lo hi =
      let first = tail_first b s in
      let last = tail_last b s n (length w) wide below fits in
      let apart = tail_apart b s k wide lo in
      let others = restore_rest (saved_at u s) (tail_at b s) usn0 usn1 w (omega arith) last in
      (
        others (tail_at b k) (omega arith) (omega arith) ∙ (ends k (omega arith) hi).0,
        others (tail_at b k + 1) (omega arith) (omega arith) ∙ (ends k (omega arith) hi).1,
      )

  -- The loop of the read direction, where every sector ends in the number.
  pub read_sectors-IsRestored :
      (left s : ℕ) (w : List ℕ)
      → s + left ≡ n
      → n * b ≤ length w
      → EndsInUsn s w
      → (x : List ℕ) × (read_sectors left s b u usn0 usn1 w ≡ ok x) × IsRestored b u s n w x
  read_sectors-IsRestored zero s w e fits ends = (
    w,
    (unfold read_sectors in refl),
    record { same_length = refl; tails = λ k lo hi. absurd (omega arith); rest = λ j off. refl },
  )
  read_sectors-IsRestored (suc left) s w e fits ends =
      let last = tail_last b s n (length w) wide (omega arith) fits in
      let first = tail_first b s in
      let next = restore (saved_at u s) (tail_at b s) w in
      let (x, runs, p) =
        read_sectors-IsRestored left (suc s) next (omega arith)
          (rw (length-restore (saved_at u s) (tail_at b s) w) fits)
          (EndsInUsn-restore s w (omega arith) fits ends) in
      (
        x,
        read_step b u s usn0 usn1 w last (omega arith) left (ends s (le_refl s) (omega arith)).0
              (ends s (le_refl s) (omega arith)).1
            ∙ runs,
        restore-IsRestored s w x (omega arith) fits p,
      )
