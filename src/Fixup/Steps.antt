-- ===== src/Fixup/Steps.antt =====
-- One sector of either loop, when the accesses are in range: no panic, and the bytes it changes.
use rust_fs_ntfs.Base.{ℕ, suc, ◌+◌, ◌*◌, ◌≤◌, ◌≡◌, ◌≢◌, refl, arith}
use rust_fs_ntfs.Base.{true, false, not, ◌&&◌, ◌==◌, ◌∙◌}
use rust_fs_ntfs.Base.{List, length, set, length-set, get_or-set_self, get_or-set_ne, byte_at}
use rust_fs_ntfs.Base.{err, io, index_lem, store_lem}
use rust_fs_ntfs.Fixup.{read_sectors, write_sectors}
use rust_fs_ntfs.Fixup.Usa.{tail_at}

-- The record after one sector was prepared for writing, and after one was restored.
abbrev pub protect : ℕ → ℕ → ℕ → ℕ → List ℕ → List ℕ
protect saved tail usn0 usn1 r =
    let r1 = set r saved (byte_at r tail) in
    let r2 = set r1 (saved + 1) (byte_at r1 (tail + 1)) in set (set r2 tail usn0) (tail + 1) usn1

abbrev pub restore : ℕ → ℕ → List ℕ → List ℕ
restore saved tail r =
    let r1 = set r tail (byte_at r saved) in set r1 (tail + 1) (byte_at r1 (saved + 1))

pub length-protect :
    (saved tail usn0 usn1 : ℕ) (r : List ℕ) → length (protect saved tail usn0 usn1 r) ≡ length r
length-protect saved tail usn0 usn1 r =
    length-set _ (tail + 1) usn1
    ∙ length-set _ tail usn0
    ∙ length-set _ (saved + 1) _
    ∙ length-set r saved (byte_at r tail)

pub length-restore : (saved tail : ℕ) (r : List ℕ) → length (restore saved tail r) ≡ length r
length-restore saved tail r = length-set _ (tail + 1) _ ∙ length-set r tail (byte_at r saved)

module _ (b u s usn0 usn1 : ℕ) (r : List ℕ) (tail_fits : tail_at b s + 2 ≤ length r)
    (saved_fits : u + 2 + s * 2 + 2 ≤ length r) where
  pub write_step :
      (left : ℕ)
      → write_sectors (suc left) s b u usn0 usn1 r
        ≡ write_sectors left
            (suc s)
            b
            u
            usn0
            usn1
            (protect (u + 2 + s * 2) (tail_at b s) usn0 usn1 r)
  unfolding write_sectors
  write_step left =
      let tail = tail_at b s in
      let saved = u + 2 + s * 2 in
      let r1 = set r saved (byte_at r tail) in
      let r2 = set r1 (saved + 1) (byte_at r1 (tail + 1)) in
      let l1 = length-set r saved (byte_at r tail) in
      let l2 = length-set r1 (saved + 1) (byte_at r1 (tail + 1)) in
      let l3 = length-set r2 tail usn0 in
      rw
        (
          index_lem r tail (omega arith),
          store_lem r saved (byte_at r tail) (omega arith),
          index_lem r1 (tail + 1) (omega (arith, l1)),
          store_lem r1 (saved + 1) (byte_at r1 (tail + 1)) (omega (arith, l1)),
          store_lem r2 tail usn0 (omega (arith, l1, l2)),
          store_lem (set r2 tail usn0) (tail + 1) usn1 (omega (arith, l1, l2, l3)),
        )
        refl

  pub read_step :
      (left : ℕ)
      → byte_at r (tail_at b s) ≡ usn0
      → byte_at r (tail_at b s + 1) ≡ usn1
      → read_sectors (suc left) s b u usn0 usn1 r
        ≡ read_sectors left (suc s) b u usn0 usn1 (restore (u + 2 + s * 2) (tail_at b s) r)
  unfolding read_sectors
  read_step left e0 e1 =
      let tail = tail_at b s in
      let saved = u + 2 + s * 2 in
      let r1 = set r tail (byte_at r saved) in
      let l1 = length-set r tail (byte_at r saved) in
      let same : not (byte_at r tail == usn0 && byte_at r (tail + 1) == usn1) ≡ false =
        ground arith in
      rw
        (
          index_lem r tail (omega arith),
          index_lem r (tail + 1) (omega arith),
          same,
          index_lem r saved (omega arith),
          store_lem r tail (byte_at r saved) (omega arith),
          index_lem r1 (saved + 1) (omega (arith, l1)),
          store_lem r1 (tail + 1) (byte_at r1 (saved + 1)) (omega (arith, l1)),
        )
        refl

  -- A sector whose last bytes are not the update sequence number stops the loop.
  pub read_torn :
      (left : ℕ)
      → not (byte_at r (tail_at b s) == usn0 && byte_at r (tail_at b s + 1) == usn1) ≡ true
      → read_sectors (suc left) s b u usn0 usn1 r ≡ err io
  unfolding read_sectors
  read_torn left torn =
      rw
        (index_lem r (tail_at b s) (omega arith), index_lem r (tail_at b s + 1) (omega arith), torn)
        refl

-- The bytes after one sector, where the array lies before the end of the sector.
module _ (saved tail usn0 usn1 : ℕ) (r : List ℕ) (apart : saved + 2 ≤ tail)
    (fits : tail + 2 ≤ length r) where
  pub protect_bytes :
      (byte_at (protect saved tail usn0 usn1 r) saved ≡ byte_at r tail)
      × (byte_at (protect saved tail usn0 usn1 r) (saved + 1) ≡ byte_at r (tail + 1))
      × (byte_at (protect saved tail usn0 usn1 r) tail ≡ usn0)
      × (byte_at (protect saved tail usn0 usn1 r) (tail + 1) ≡ usn1)
  protect_bytes =
      let r1 = set r saved (byte_at r tail) in
      let r2 = set r1 (saved + 1) (byte_at r1 (tail + 1)) in
      let r3 = set r2 tail usn0 in
      let l1 = length-set r saved (byte_at r tail) in
      let l2 = length-set r1 (saved + 1) (byte_at r1 (tail + 1)) in
      let l3 = length-set r2 tail usn0 in
      (
        get_or-set_ne r3 (tail + 1) saved usn1 0 (omega arith)
            ∙ get_or-set_ne r2 tail saved usn0 0 (omega arith)
            ∙ get_or-set_ne r1 (saved + 1) saved (byte_at r1 (tail + 1)) 0 (omega arith)
            ∙ get_or-set_self r saved (byte_at r tail) 0 (omega arith),
        get_or-set_ne r3 (tail + 1) (saved + 1) usn1 0 (omega arith)
            ∙ get_or-set_ne r2 tail (saved + 1) usn0 0 (omega arith)
            ∙ get_or-set_self r1 (saved + 1) (byte_at r1 (tail + 1)) 0 (omega (arith, l1))
            ∙ get_or-set_ne r saved (tail + 1) (byte_at r tail) 0 (omega arith),
        get_or-set_ne r3 (tail + 1) tail usn1 0 (omega arith)
            ∙ get_or-set_self r2 tail usn0 0 (omega (arith, l1, l2)),
        get_or-set_self r3 (tail + 1) usn1 0 (omega (arith, l1, l2, l3)),
      )

  pub protect_rest :
      (j : ℕ)
      → j ≢ saved
      → j ≢ saved + 1
      → j ≢ tail
      → j ≢ tail + 1
      → byte_at (protect saved tail usn0 usn1 r) j ≡ byte_at r j
  protect_rest j n0 n1 n2 n3 =
      let r1 = set r saved (byte_at r tail) in
      let r2 = set r1 (saved + 1) (byte_at r1 (tail + 1)) in
      get_or-set_ne (set r2 tail usn0) (tail + 1) j usn1 0 (omega arith)
      ∙ get_or-set_ne r2 tail j usn0 0 (omega arith)
      ∙ get_or-set_ne r1 (saved + 1) j (byte_at r1 (tail + 1)) 0 (omega arith)
      ∙ get_or-set_ne r saved j (byte_at r tail) 0 (omega arith)

  pub restore_bytes :
      (byte_at (restore saved tail r) tail ≡ byte_at r saved)
      × (byte_at (restore saved tail r) (tail + 1) ≡ byte_at r (saved + 1))
  restore_bytes =
      let r1 = set r tail (byte_at r saved) in
      let l1 = length-set r tail (byte_at r saved) in
      (
        get_or-set_ne r1 (tail + 1) tail (byte_at r1 (saved + 1)) 0 (omega arith)
            ∙ get_or-set_self r tail (byte_at r saved) 0 (omega arith),
        get_or-set_self r1 (tail + 1) (byte_at r1 (saved + 1)) 0 (omega (arith, l1))
            ∙ get_or-set_ne r tail (saved + 1) (byte_at r saved) 0 (omega arith),
      )

  pub restore_rest :
      (j : ℕ) → j ≢ tail → j ≢ tail + 1 → byte_at (restore saved tail r) j ≡ byte_at r j
  restore_rest j n2 n3 =
      let r1 = set r tail (byte_at r saved) in
      get_or-set_ne r1 (tail + 1) j (byte_at r1 (saved + 1)) 0 (omega arith)
      ∙ get_or-set_ne r tail j (byte_at r saved) 0 (omega arith)
