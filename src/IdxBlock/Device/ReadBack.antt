-- ===== src/IdxBlock/Device/ReadBack.antt =====
-- What `update_indx_block_io` of src/idx_block.rs wrote is what `read_indx_block_io` gives.
use rust_fs_ntfs.Base.{
  ℕ, suc, ◌+◌, ◌-◌, ◌≤◌, ◌<◌, ◌≡◌, refl, sym, ap, ap₂, ◌∙◌, ◌⊎◌, inl, inr, arith, true, false,
  if◌then◌else◌, Bool-cases, List, [], ◌∷◌, ◌++◌, length, take, drop, replicate, length-replicate,
  length-append, length-take, length-drop, All, some, ltb,
}
use rust_fs_ntfs.Base.{
  Result, ok, err, io, ◌>>=◌, >>=-eq-ok, via, good, bad, slice, slice_lem, byte_at, bytes_eq,
  bytes_eq_iff,
}
use mathlib.Core.Path.{subst}
use native.Mathlib.Decide.{dec_lt}
use rust_fs_ntfs.Fixup.{apply_fixup_on_read_magic}
use rust_fs_ntfs.Fixup.Lengths.{KeepsLength, apply_fixup_on_read_magic-eq-ok}
use rust_fs_ntfs.Fixup.Loops.{saved_at}
use rust_fs_ntfs.Fixup.RoundTrip.{IsLaidOut, read-write}
use rust_fs_ntfs.Base.{min}
use rust_fs_ntfs.Bitmap.{volume_bytes, MappedChunk}
use rust_fs_ntfs.Bitmap.Mapped.{Tiles}
use rust_fs_ntfs.Bitmap.Device.{BlockIo, read_chunks}
use rust_fs_ntfs.Bitmap.Device.Buffer.{InBuffer, Tiles-InBuffer}
use rust_fs_ntfs.Bitmap.Device.Contents.{IsFaithful, Holds, Apart}
use rust_fs_ntfs.Bitmap.Device.Read.{read_chunks-IsRead}
use rust_fs_ntfs.IdxBlock.{IndexAllocation, indx_magic, map_indx_block}
use rust_fs_ntfs.IdxBlock.Mapped.{map_indx_block-Tiles}
use rust_fs_ntfs.IdxBlock.Device.{
  read_raw_indx_block_io, not_an_indx_record, read_indx_block_io, prepare_block,
  update_indx_block_io,
}
use rust_fs_ntfs.IdxBlock.Device.Update.{
  Written, written, undone, Updated, untouched, begun, raw_read, prepared_from,
  update_indx_block_io-Updated,
}

-- Buffers with the same bytes.
bytes_ext :
    (xs ys : List ℕ)
    → length xs ≡ length ys
    → ((i : ℕ) → i < length xs → byte_at xs i ≡ byte_at ys i)
    → xs ≡ ys
bytes_ext [] [] e h = refl
bytes_ext [] (y ∷ ys) e h = absurd (omega arith)
bytes_ext (x ∷ xs) [] e h = absurd (omega arith)
bytes_ext (x ∷ xs) (y ∷ ys) e h =
    ap₂ ◌∷◌ (h 0 (omega arith)) (bytes_ext xs ys (omega arith) (λ i lt. h (suc i) (omega arith)))

-- Chunks that tile a range tell every byte of it.
Tiles-ext :
    (bound cursor len : ℕ) (chunks : List MappedChunk) (f : ℕ → ℕ) (xs ys : List ℕ)
    → Tiles bound cursor len chunks
    → All (Holds f xs) chunks
    → All (Holds f ys) chunks
    → (i : ℕ) → cursor ≤ i
    → i < cursor + len
    → byte_at xs i ≡ byte_at ys i
Tiles-ext bound cursor len [] f xs ys t hx hy i lo hi = absurd (omega arith)
Tiles-ext bound cursor len (c ∷ chunks) f xs ys (here, t) (hx, hxs) (hy, hys) i lo hi =
    elim (dec_lt i (c.cursor + c.len)) [
      | yes lt ↦
          let at : c.cursor + (i - c.cursor) ≡ i = omega (arith, here.from) in
          let same =
            sym (hx (i - c.cursor) (omega (arith, here.from)))
            ∙ hy (i - c.cursor) (omega (arith, here.from)) in
          rw at at same
      | no ge ↦
          Tiles-ext bound (cursor + c.len) (len - c.len) chunks f xs ys t hxs hys i
            (omega (arith, here.from)) (omega (arith, here.fits))
    ]

-- The chunks lie inside a device of a size.
abbrev pub Inside : ℕ → MappedChunk → Type 0
Inside size c = c.disk_offset + c.len ≤ size

Tiles-Inside :
    (bound cursor len size : ℕ) (chunks : List MappedChunk)
    → bound ≤ size
    → Tiles bound cursor len chunks
    → All (Inside size) chunks
Tiles-Inside bound cursor len size [] h t = tt
Tiles-Inside bound cursor len size (c ∷ chunks) h (here, t) =
    (omega (arith, here.inside), Tiles-Inside bound (cursor + c.len) (len - c.len) size chunks h t)

module _ {D : Type 0} (dev : BlockIo D) (contents : D → ℕ → ℕ)
    (faithful : IsFaithful dev contents) where
  -- A device on which every read inside it succeeds.
  abbrev pub Readable : D → Type 0
  Readable d =
      (offset len : ℕ)
      → offset + len ≤ dev.size d
      → (b : List ℕ) × (dev.read_exact_at d offset len ≡ some b)

  read_chunks_reads :
      (d : D) (chunks : List MappedChunk) (out : List ℕ)
      → Readable d
      → All (InBuffer (length out)) chunks
      → All (Inside (dev.size d)) chunks
      → (out' : List ℕ) × (read_chunks dev d chunks out ≡ ok out')
  unfolding read_chunks
  read_chunks_reads d [] out readable inside on_device = (out, refl)
  read_chunks_reads d (c ∷ chunks) out readable (in_c, inside) (c_on, on_device) =
      let (b, e) = readable c.disk_offset c.len c_on in
      let fits : ltb (length out) (c.cursor + c.len) ≡ false = ground (arith, in_c) in
      let next : List ℕ = take c.cursor out ++ (b ++ drop (c.cursor + c.len) out) in
      let size : length next ≡ length out = omega (
        arith,
        length-append (take c.cursor out) (b ++ drop (c.cursor + c.len) out),
        length-append b (drop (c.cursor + c.len) out),
        length-take c.cursor out,
        length-drop (c.cursor + c.len) out,
        (faithful.reads d c.disk_offset c.len b e).0,
        in_c,
      ) in
      let (out', reads) = read_chunks_reads d chunks next readable (rw size inside) on_device in
      (out', rw (fits, e) reads)

  -- The raw block of a device that holds these bytes at the chunks.
  raw_read_back :
      (d : D) (ia : IndexAllocation) (vcn : ℕ) (block : List ℕ) (chunks : List MappedChunk)
      → Readable d
      → map_indx_block ia vcn (dev.size d) ≡ ok chunks
      → length block ≡ ia.block_size
      → All (Holds (contents d) block) chunks
      → read_raw_indx_block_io dev d ia vcn ≡ ok (block, chunks)
  unfolding read_raw_indx_block_io
  raw_read_back d ia vcn block chunks readable mapped size held =
      let zeros : List ℕ = replicate ia.block_size 0 in
      let lz : length zeros ≡ ia.block_size = length-replicate ia.block_size 0 in
      let whole : 0 + ia.block_size ≡ length zeros = omega (arith, lz) in
      elim (map_indx_block-Tiles ia vcn (dev.size d)) [
        | bad refused ↦ absurd cc
        | good found mapped' tiles' ↦
            let same : found ≡ chunks = cc in
            let tiles =
              subst (Tiles (min (volume_bytes ia.params) (dev.size d)) 0 ia.block_size) same
                tiles' in
            let inside : All (InBuffer (length zeros)) chunks =
              subst (λ k. All (InBuffer k) chunks) whole
                (Tiles-InBuffer _ 0 ia.block_size chunks tiles) in
            let (buf, reads) =
              read_chunks_reads d chunks zeros readable inside
                (Tiles-Inside _ 0 ia.block_size (dev.size d) chunks (omega arith) tiles) in
            let it =
              read_chunks-IsRead dev contents faithful d chunks _ 0 ia.block_size zeros buf tiles
                (omega (arith, lz)) reads in
            let equal : buf ≡ block =
              bytes_ext buf block (omega (arith, it.same_size, lz, size)) (λ i lt.
                Tiles-ext _ 0 ia.block_size chunks (contents d) buf block tiles it.holds held i
                  (omega arith) (omega (arith, it.same_size, lz))) in
            rw (mapped, reads, equal) refl
      ]

  not_an-ne-ok : (chunks : List MappedChunk) {x : List ℕ} → not_an_indx_record dev chunks ≡ ok x → ⊥
  unfolding not_an_indx_record
  not_an-ne-ok [] e = cc
  not_an-ne-ok (c ∷ chunks) e = cc

  -- A block that is read passed the check of its magic and the fixup.
  read_from_raw :
      (d : D) (ia : IndexAllocation) (vcn : ℕ) {clean : List ℕ}
      → read_indx_block_io dev d ia vcn ≡ ok clean
      → (previous : List ℕ) × (chunks : List MappedChunk) × (map_indx_block ia vcn (dev.size d)
          ≡ ok chunks)
        × (read_raw_indx_block_io dev d ia vcn ≡ ok (previous, chunks))
        × (apply_fixup_on_read_magic previous ia.params.bytes_per_sector indx_magic ≡ ok clean)
  unfolding read_indx_block_io read_raw_indx_block_io
  read_from_raw d ia vcn {clean} e = elim (>>=-eq-ok (read_raw_indx_block_io dev d ia vcn) _ e) [
    | via (buf, chunks) e1 f1 ↦ elim (>>=-eq-ok (map_indx_block ia vcn (dev.size d)) _ e1) [
      | via found mapped e2 ↦
          elim (>>=-eq-ok (read_chunks dev d found (replicate ia.block_size 0)) _ e2) [
            | via block e3 e4 ↦
                let same : found ≡ chunks = cc in
                (buf, chunks, mapped ∙ ap ok same, e1, fixed buf chunks f1)
          ]
    ]
  ]
    where
      fixed :
          (buf : List ℕ) (chunks : List MappedChunk)
          → (slice buf 0 4 >>= λ magic.
              if bytes_eq magic indx_magic
              then apply_fixup_on_read_magic buf ia.params.bytes_per_sector indx_magic
              else not_an_indx_record dev chunks)
            ≡ ok clean
          → apply_fixup_on_read_magic buf ia.params.bytes_per_sector indx_magic ≡ ok clean
      fixed buf chunks f = elim (>>=-eq-ok (slice buf 0 4) _ f) [
        | via magic s f' ↦ elim (Bool-cases (bytes_eq magic indx_magic)) [
          | inl yes_magic ↦ rw yes_magic at f'
          | inr no_magic ↦ absurd (not_an-ne-ok chunks (rw no_magic at f'))
        ]
      ]

  -- A raw block that the fixup accepts is read.
  read_of_raw :
      (d : D) (ia : IndexAllocation) (vcn : ℕ) (block x : List ℕ) (chunks : List MappedChunk)
      → read_raw_indx_block_io dev d ia vcn ≡ ok (block, chunks)
      → apply_fixup_on_read_magic block ia.params.bytes_per_sector indx_magic ≡ ok x
      → read_indx_block_io dev d ia vcn ≡ ok x
  unfolding read_indx_block_io
  read_of_raw d ia vcn block x chunks raw fixed =
      let (magic, long) =
        apply_fixup_on_read_magic-eq-ok block ia.params.bytes_per_sector indx_magic fixed in
      let first : slice block 0 4 ≡ ok (take 4 block) =
        slice_lem block 0 4 (omega arith) (omega arith) in
      let same : bytes_eq (take 4 block) indx_magic ≡ true =
        (bytes_eq_iff (take 4 block) indx_magic).1 magic in
      rw (raw, first, same) fixed

  Holds-synced :
      (d1 : D) (block : List ℕ) (chunks : List MappedChunk)
      → All (Holds (contents d1) block) chunks
      → All (Holds (contents (dev.sync d1).0) block) chunks
  Holds-synced d1 block [] h = tt
  Holds-synced d1 block (c ∷ chunks) (h, hs) =
      (λ i lt. faithful.syncs d1 (c.disk_offset + i) ∙ h i lt, Holds-synced d1 block chunks hs)

  Written-Holds :
      (d d' : D) (block previous : List ℕ) (chunks : List MappedChunk)
      → Written dev contents faithful d d chunks block previous (d', ok tt)
      → Apart chunks
      → All (Holds (contents d') block) chunks
  Written-Holds d d' block previous chunks (written d1 p beside holds) apart =
      let same : d' ≡ (dev.sync d1).0 = ap (λ q. q.0) p in
      subst (λ z. All (Holds (contents z) block) chunks) (sym same)
        (Holds-synced d1 block chunks (holds apart))
  Written-Holds d d' block previous chunks (undone d1 d2 touched all p put_back after) apart =
      let failed : ok tt ≡ err io = ap (λ q. q.1) p in absurd cc

  -- A successful update has written the block, if its chunks share no byte.
  Updated-Holds :
      (d d' : D) (ia : IndexAllocation) (vcn : ℕ) (mutate : List ℕ → Result (List ℕ))
      (block previous : List ℕ) (chunks : List MappedChunk)
      → Updated dev contents faithful d ia vcn mutate (d', ok tt)
      → prepare_block dev d ia vcn mutate ≡ ok (block, previous, chunks)
      → Apart chunks
      → All (Holds (contents d') block) chunks
  Updated-Holds d d' ia vcn mutate block previous chunks (untouched same refused) prepared apart =
      absurd (refused refl)
  Updated-Holds d d' ia vcn mutate block previous chunks (begun b q cs e held w) prepared apart =
      let p0 : b ≡ block = cc in
      let p2 : cs ≡ chunks = cc in
      subst (λ z. All (Holds (contents d') z) chunks) p0
        (subst (λ z. All (Holds (contents d') b) z) p2
          (Written-Holds d d' b q cs w (subst Apart (sym p2) apart)))

  -- What was written can be read: on a device that keeps what is written and reads without an error inside its size, if
  -- a block was read, its change is laid out as NTFS does, its chunks share no byte and its update
  -- succeeded without changing the size of the device, a read gives a block that differs from the
  -- changed one at most inside its update sequence array.
  pub read_indx_block_io-update :
      (d d' : D) (ia : IndexAllocation) (vcn : ℕ) (mutate : List ℕ → Result (List ℕ))
      (clean changed : List ℕ) (u n : ℕ)
      → ((r : List ℕ) → KeepsLength (length r) (mutate r))
      → ((chunks : List MappedChunk)
          → map_indx_block ia vcn (dev.size d) ≡ ok chunks
          → Apart chunks)
      → read_indx_block_io dev d ia vcn ≡ ok clean
      → mutate clean ≡ ok changed
      → IsLaidOut changed ia.params.bytes_per_sector indx_magic u n
      → update_indx_block_io dev d ia vcn mutate ≡ (d', ok tt)
      → dev.size d' ≡ dev.size d
      → Readable d'
      → (x : List ℕ) × (read_indx_block_io dev d' ia vcn ≡ ok x)
        × (length x ≡ length changed)
        × ((j : ℕ) → (j < u) ⊎ (saved_at u n ≤ j) → byte_at x j ≡ byte_at changed j)
  unfolding prepare_block
  read_indx_block_io-update d d' ia vcn mutate clean changed u n keeps apart read change laid update
        same_size readable =
      let bps = ia.params.bytes_per_sector in
      let (previous, chunks, mapped, raw, fixed) = read_from_raw d ia vcn read in
      let (block, x, writes, tails, reads, size, same) =
        read-write changed bps indx_magic u n laid in
      let prepared : prepare_block dev d ia vcn mutate ≡ ok (block, previous, chunks) =
        rw (raw, fixed, change, writes) refl in
      let outcome =
        rw update at (update_indx_block_io-Updated dev contents faithful d ia vcn mutate keeps) in
      let holds =
        Updated-Holds d d' ia vcn mutate block previous chunks outcome prepared
          (apart chunks mapped) in
      let mapped' : map_indx_block ia vcn (dev.size d') ≡ ok chunks = rw same_size mapped in
      let long : length block ≡ ia.block_size =
        (prepared_from dev contents faithful d ia vcn mutate keeps prepared).1
        ∙ (raw_read dev contents faithful d ia vcn raw).0 in
      let raw' = raw_read_back d' ia vcn block chunks readable mapped' long holds in
      (x, read_of_raw d' ia vcn block x chunks raw' reads, size, same)
