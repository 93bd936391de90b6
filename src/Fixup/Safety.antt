-- ===== src/Fixup/Safety.antt =====
-- The panics of the two directions of the fixup in src/mft_io.rs, and the sector ends of a record that
-- the read direction accepts.
use rust_fs_ntfs.Base.{ℕ, zero, suc, ◌+◌, ◌*◌, ◌/◌, ◌%◌, ◌≤◌, ◌<◌, ◌≡◌, ◌≢◌, arith}
use rust_fs_ntfs.Base.{inl, inr, sym, ◌∙◌}
use rust_fs_ntfs.Base.{not, ◌&&◌, ◌==◌, Bool-cases, List, length, set, length-set}
use rust_fs_ntfs.Base.{byte_at, ok, fault, ◌>>=◌, >>=-ne-fault}
use rust_fs_ntfs.Base.{index, store, index_lem, store_lem}
use rust_fs_ntfs.Fixup.{read_sectors, write_sectors, check_record, next_usn}
use rust_fs_ntfs.Fixup.{apply_fixup_on_read_magic, apply_fixup_on_write_magic}
use rust_fs_ntfs.Fixup.Usa.{tail_at, tail_first, tail_last, tail_apart}
use rust_fs_ntfs.Fixup.Steps.{protect, restore, length-protect, length-restore}
use rust_fs_ntfs.Fixup.Steps.{write_step, read_step, read_torn, restore_rest}
use rust_fs_ntfs.Fixup.Loops.{saved_at}
use rust_fs_ntfs.Fixup.Checks.{IsFixup, IsFixup-fits, check_record-IsFixup, check_record-ne-fault}
use native.Mathlib.Decide.{dec_lt}

module _ (b u n usn0 usn1 : ℕ) (wide : 2 ≤ b) where
  write_sectors-ne-fault :
      (left s : ℕ) (r : List ℕ)
      → s + left ≡ n
      → n * b ≤ length r
      → saved_at u n ≤ length r
      → write_sectors left s b u usn0 usn1 r ≢ fault
  write_sectors-ne-fault zero s r e fits room = unfold write_sectors in (λ q. cc)
  write_sectors-ne-fault (suc left) s r e fits room =
      let same = length-protect (saved_at u s) (tail_at b s) usn0 usn1 r in
      rw
        (write_step b u s usn0 usn1 r (tail_last b s n (length r) wide (omega arith) fits)
          (omega arith) left)
        (write_sectors-ne-fault left (suc s) (protect (saved_at u s) (tail_at b s) usn0 usn1 r)
          (omega arith) (omega (arith, same)) (omega (arith, same)))

  -- A sector is intact or torn.
  read_sectors-ne-fault :
      (left s : ℕ) (r : List ℕ)
      → s + left ≡ n
      → n * b ≤ length r
      → saved_at u n ≤ length r
      → read_sectors left s b u usn0 usn1 r ≢ fault
  read_sectors-ne-fault zero s r e fits room = unfold read_sectors in (λ q. cc)
  read_sectors-ne-fault (suc left) s r e fits room =
      let last = tail_last b s n (length r) wide (omega arith) fits in
      let same = length-restore (saved_at u s) (tail_at b s) r in
      elim (Bool-cases
        (not (byte_at r (tail_at b s) == usn0 && byte_at r (tail_at b s + 1) == usn1))) [
          | inl torn ↦ rw (read_torn b u s usn0 usn1 r last (omega arith) left torn) (λ q. cc)
          | inr intact ↦
              rw
                (read_step b u s usn0 usn1 r last (omega arith) left (ground (arith, intact))
                  (ground (arith, intact)))
                (read_sectors-ne-fault left (suc s) (restore (saved_at u s) (tail_at b s) r)
                  (omega arith) (omega (arith, same)) (omega (arith, same)))
        ]

  -- With the array clear of the ends, an accepted record has every sector end in the number.
  pub read_sectors-EndsInUsn :
      saved_at u n + 2 ≤ b
      → (left s : ℕ) (r x : List ℕ) → s + left ≡ n
      → n * b ≤ length r
      → read_sectors left s b u usn0 usn1 r ≡ ok x
      → (k : ℕ) → s ≤ k
      → k < n
      → (byte_at r (tail_at b k) ≡ usn0) × (byte_at r (tail_at b k + 1) ≡ usn1)
  read_sectors-EndsInUsn clear zero s r x e fits done k lo hi = absurd (omega arith)
  read_sectors-EndsInUsn clear (suc left) s r x e fits done k lo hi =
      let last = tail_last b s n (length r) wide (omega arith) fits in
      let first = tail_first b s in
      let same = length-restore (saved_at u s) (tail_at b s) r in
      elim (Bool-cases
        (not (byte_at r (tail_at b s) == usn0 && byte_at r (tail_at b s + 1) == usn1))) [
          | inl torn ↦ absurd (cc (read_torn b u s usn0 usn1 r last (omega arith) left torn))
          | inr intact ↦ elim (dec_lt s k) [
            | yes later ↦
                let step : read_sectors left (suc s) b u usn0 usn1
                      (restore (saved_at u s) (tail_at b s) r)
                    ≡ ok x =
                  sym (
                    read_step b u s usn0 usn1 r last (omega arith) left (ground (arith, intact))
                      (ground (arith, intact)))
                  ∙ done in
                let (t0, t1) =
                  read_sectors-EndsInUsn clear left (suc s) (restore (saved_at u s) (tail_at b s) r)
                    x (omega arith) (omega (arith, same)) step k later hi in
                let others =
                  restore_rest (saved_at u s) (tail_at b s) usn0 usn1 r (omega arith) last in
                let apart = tail_apart b s k wide later in
                (
                  sym (others (tail_at b k) (omega arith) (omega arith)) ∙ t0,
                  sym (others (tail_at b k + 1) (omega arith) (omega arith)) ∙ t1,
                )
            | no here ↦
                let here' : k ≡ s = omega arith in
                rw here' (ground (arith, intact), ground (arith, intact))
          ]
        ]

-- Restoring a record of any bytes panics only if the sector size is 0.
pub apply_fixup_on_read-ne-fault :
    (r : List ℕ) (b : ℕ) (magic : List ℕ) → 0 < b → apply_fixup_on_read_magic r b magic ≢ fault
unfolding apply_fixup_on_read_magic
apply_fixup_on_read-ne-fault r b magic h =
    >>=-ne-fault (check_record r b magic) _ (check_record-ne-fault r b magic h)
      (λ p e. read_body p.0 p.1 (check_record-IsFixup r b magic p.0 p.1 e))
  where
    read_body :
        (u n : ℕ)
        → IsFixup r b magic u n
        → (do usn0 ← index r u; usn1 ← index r (u + 1); read_sectors n 0 b u usn0 usn1 r) ≢ fault
    read_body u n f =
        let (wide, fits) = IsFixup-fits r b magic u n f in
        rw (index_lem r u (omega (arith, f.inside)), index_lem r (u + 1) (omega (arith, f.inside)))
          (read_sectors-ne-fault b u n (byte_at r u) (byte_at r (u + 1)) wide n 0 r (omega arith)
            fits (omega (arith, f.inside)))

-- Protecting a record of any bytes panics only if the sector size is 0.
pub apply_fixup_on_write-ne-fault :
    (r : List ℕ) (b : ℕ) (magic : List ℕ) → 0 < b → apply_fixup_on_write_magic r b magic ≢ fault
unfolding apply_fixup_on_write_magic
apply_fixup_on_write-ne-fault r b magic h =
    >>=-ne-fault (check_record r b magic) _ (check_record-ne-fault r b magic h)
      (λ p e. write_body p.0 p.1 (check_record-IsFixup r b magic p.0 p.1 e))
  where
    write_body :
        (u n : ℕ)
        → IsFixup r b magic u n
        → (do
          old0 ← index r u
          old1 ← index r (u + 1)
          let usn = next_usn (old0 + 256 * old1)
          r1 ← store r u (usn % 256)
          r2 ← store r1 (u + 1) (usn / 256)
          write_sectors n 0 b u (usn % 256) (usn / 256) r2)
          ≢ fault
    write_body u n f =
        let (wide, fits) = IsFixup-fits r b magic u n f in
        let usn = next_usn (byte_at r u + 256 * byte_at r (u + 1)) in
        let r1 = set r u (usn % 256) in
        let l1 = length-set r u (usn % 256) in
        let l2 = length-set r1 (u + 1) (usn / 256) in
        rw
          (
            index_lem r u (omega (arith, f.inside)),
            index_lem r (u + 1) (omega (arith, f.inside)),
            store_lem r u (usn % 256) (omega (arith, f.inside)),
            store_lem r1 (u + 1) (usn / 256) (omega (arith, f.inside, l1)),
          )
          (write_sectors-ne-fault b u n (usn % 256) (usn / 256) wide n 0 _ (omega arith)
            (omega (arith, l1, l2, fits)) (omega (arith, l1, l2, f.inside)))
