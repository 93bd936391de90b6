-- ===== src/Bitmap/Device/Buffer.antt =====
-- Reads and writes of the chunks of a buffer stay inside it.
use rust_fs_ntfs.Base.{ℕ, ◌+◌, ◌-◌, ◌%◌, ◌^◌, ◌≤◌, ◌<◌, ◌≡◌, ◌≢◌, refl, arith, min, inl, inr}
use rust_fs_ntfs.Base.{ap, sym, ◌∙◌, false, ltb, Bool-cases}
use rust_fs_ntfs.Base.{
  List, [], ◌∷◌, ◌++◌, length, length-append, length-take, length-drop, length-replicate, take,
  drop, replicate, All, some,
}
use rust_fs_ntfs.Base.{
  ok, err, fault, io, >>=-eq-ok, via, >>=-ne-fault, ok_or, ok_or-eq-ok, ok_or-ne-fault,
  ok-injective, slice_lem, All-append, IoOr, good, bad,
}
use mathlib.Core.Path.{subst}
use rust_fs_ntfs.Bitmap.{BitmapLocation, MappedChunk, volume_bytes, map_bitmap_range}
use rust_fs_ntfs.Bitmap.Mapped.{Tiles, map_bitmap_range-IoOr}
use rust_fs_ntfs.Bitmap.Device.{BlockIo, read_chunks, read_bitmap_bytes_io, rollback, write_chunks}

-- A read that succeeds has filled the buffer.
abbrev pub FillsBuffer : {D : Type 0} → BlockIo D → Type 0
FillsBuffer {D = D} dev =
    (d : D) (offset len : ℕ) (b : List ℕ) → dev.read_exact_at d offset len ≡ some b → length b ≡ len

-- The chunks lie inside a buffer.
abbrev pub InBuffer : ℕ → MappedChunk → Type 0
InBuffer size c = c.cursor + c.len ≤ size

pub Tiles-InBuffer :
    (bound cursor len : ℕ) (chunks : List MappedChunk)
    → Tiles bound cursor len chunks
    → All (InBuffer (cursor + len)) chunks
Tiles-InBuffer bound cursor len [] t = tt
Tiles-InBuffer bound cursor len (c ∷ chunks) (h, t) =
    let e : cursor + c.len + (len - c.len) ≡ cursor + len = omega (arith, h.fits) in
    (
      omega (arith, h.fits, h.from),
      subst (λ s. All (InBuffer s) chunks) e
          (Tiles-InBuffer bound (cursor + c.len) (len - c.len) chunks t),
    )

pub Tiles-within :
    (bound cursor len size : ℕ) (chunks : List MappedChunk)
    → Tiles bound cursor len chunks
    → cursor + len ≤ size
    → All (InBuffer size) chunks
Tiles-within bound cursor len size [] t fits = tt
Tiles-within bound cursor len size (c ∷ chunks) (h, t) fits = (
  omega (arith, h.fits, h.from),
  Tiles-within bound (cursor + c.len) (len - c.len) size chunks t (omega (arith, h.fits)),
)

-- The chunks of a range lie in a buffer as long as the range, or the mapping is refused.
pub map_bitmap_range-InBuffer :
    (bm : BitmapLocation) (start len device_bytes : ℕ)
    → 0 < bm.params.cluster_size
    → IoOr (All (InBuffer len)) (map_bitmap_range bm start len device_bytes)
map_bitmap_range-InBuffer bm start len device pos =
    elim (map_bitmap_range-IoOr bm start len device pos) [
      | good found e tiles ↦ good found e (
          Tiles-within (min (volume_bytes bm.params) device) 0 ((start + len) % 2 ^ 64 - start) len
            found tiles (omega arith))
      | bad e ↦ bad e
    ]

-- The buffer with a chunk filled in.
abbrev filled : MappedChunk → List ℕ → List ℕ → List ℕ
filled c out b = take c.cursor out ++ (b ++ drop (c.cursor + c.len) out)

length-filled :
    (c : MappedChunk) (out b : List ℕ)
    → c.cursor + c.len ≤ length out
    → length b ≡ c.len
    → length (filled c out b) ≡ length out
length-filled c out b inside read = omega (
  arith,
  length-append (take c.cursor out) (b ++ drop (c.cursor + c.len) out),
  length-append b (drop (c.cursor + c.len) out),
  length-take c.cursor out,
  length-drop (c.cursor + c.len) out,
)

module _ {D : Type 0} (dev : BlockIo D) where
  read_chunks-length :
      FillsBuffer dev
      → (d : D) (chunks : List MappedChunk) (out : List ℕ) → All (InBuffer (length out)) chunks
      → (read_chunks dev d chunks out ≢ fault)
        × ((out' : List ℕ) → read_chunks dev d chunks out ≡ ok out' → length out' ≡ length out)
  unfolding read_chunks
  read_chunks-length fills d [] out a = (λ e. cc, λ out' e. ap length (sym (ok-injective e)))
  read_chunks-length fills d (c ∷ chunks) out (inside, a) =
      let fits : ltb (length out) (c.cursor + c.len) ≡ false = ground (arith, inside) in
      let more = ok_or (dev.read_exact_at d c.disk_offset c.len) io in
      let size : (b : List ℕ) → more ≡ ok b → length (filled c out b) ≡ length out = λ b e.
        length-filled c out b inside (
          fills d c.disk_offset c.len b
            (ok_or-eq-ok (dev.read_exact_at d c.disk_offset c.len) io e)) in
      rw fits (
        >>=-ne-fault more _ (ok_or-ne-fault (dev.read_exact_at d c.disk_offset c.len) io)
            (λ b e. (read_chunks-length fills d chunks (filled c out b) (rw (size b e) a)).0),
        λ out' e. elim (>>=-eq-ok more _ e) [
          | via b e1 e2 ↦
              (read_chunks-length fills d chunks (filled c out b) (rw (size b e1) a)).1 out' e2
              ∙ size b e1
        ],
      )

  pub rollback-ne-fault :
      (d : D) (chunks : List MappedChunk) (previous : List ℕ)
      → All (InBuffer (length previous)) chunks
      → (rollback dev d chunks previous).1 ≡ err io
  unfolding rollback
  rollback-ne-fault d [] previous a = refl
  rollback-ne-fault d (c ∷ chunks) previous (inside, a) =
      let e = slice_lem previous c.cursor (c.cursor + c.len) (omega arith) inside in
      let b = take (c.cursor + c.len - c.cursor) (drop c.cursor previous) in
      rw (e, rollback)
        (elim (Bool-cases (dev.write_all_at d c.disk_offset b).1) [
          | inl written ↦
              rw written
                (rollback-ne-fault (dev.write_all_at d c.disk_offset b).0 chunks previous a)
          | inr failed ↦ rw failed refl
        ])

  pub write_chunks-ne-fault :
      (d : D) (done chunks : List MappedChunk) (bytes previous : List ℕ)
      → length bytes ≡ length previous
      → All (InBuffer (length previous)) done
      → All (InBuffer (length previous)) chunks
      → (write_chunks dev d done chunks bytes previous).1 ≢ fault
  unfolding write_chunks
  write_chunks-ne-fault d done [] bytes previous same k a = elim (Bool-cases (dev.sync d).1) [
    | inl synced ↦ rw synced (λ e. cc)
    | inr failed ↦ rw failed (λ e. cc)
  ]
  write_chunks-ne-fault d done (c ∷ chunks) bytes previous same k (inside, a) =
      let e =
        slice_lem bytes c.cursor (c.cursor + c.len) (omega arith) (omega (arith, inside, same)) in
      let reached = All-append (InBuffer (length previous)) done (c ∷ []) k (inside, tt) in
      let b = take (c.cursor + c.len - c.cursor) (drop c.cursor bytes) in
      rw (e, write_chunks)
        (elim (Bool-cases (dev.write_all_at d c.disk_offset b).1) [
          | inl written ↦ rw written (
              write_chunks-ne-fault (dev.write_all_at d c.disk_offset b).0 (done ++ (c ∷ [])) chunks
                bytes previous same reached a)
          | inr failed ↦ rw failed (λ q. cc (
            q,
            rollback-ne-fault (dev.write_all_at d c.disk_offset b).0 (done ++ (c ∷ [])) previous
                reached,
          ))
        ])

  pub read_bitmap_bytes_io-length :
      FillsBuffer dev
      → (d : D) (bm : BitmapLocation) (start len : ℕ) → 0 < bm.params.cluster_size
      → let r = read_bitmap_bytes_io dev d bm start len in
        (r ≢ fault) × ((out : List ℕ) → r ≡ ok out → length out ≡ len)
  unfolding read_bitmap_bytes_io
  read_bitmap_bytes_io-length fills d bm start len pos =
      let device = dev.size d in
      let zeros : List ℕ = replicate len 0 in
      let size : length zeros ≡ len = length-replicate len 0 in
      elim (map_bitmap_range-InBuffer bm start len device pos) [
        | bad refused ↦ rw refused (λ q. cc, λ out q. cc)
        | good chunks mapped inside ↦
            let (total, sizes) = read_chunks-length fills d chunks zeros (rw size inside) in
            rw mapped (total, λ out e. sizes out e ∙ size)
      ]
