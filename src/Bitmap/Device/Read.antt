-- ===== src/Bitmap/Device/Read.antt =====
-- What `read_chunks` gives is what the device has at the chunks.
use rust_fs_ntfs.Base.{
  ℕ, zero, suc, ◌+◌, ◌-◌, ◌≤◌, ◌<◌, ◌≡◌, refl, sym, ap, ◌∙◌, inl, arith, false, ltb, List, [], ◌∷◌,
  ◌++◌, length, take, drop, All,
}
use rust_fs_ntfs.Base.{
  ok, io, >>=-eq-ok, via, ok_or, ok_or-eq-ok, ok-injective, byte_at, splice, length-splice,
  byte_at-splice_apart, byte_at-splice_in,
}
use rust_fs_ntfs.Bitmap.{MappedChunk}
use rust_fs_ntfs.Bitmap.Mapped.{Tiles}
use rust_fs_ntfs.Bitmap.Device.{BlockIo, read_chunks}
use rust_fs_ntfs.Bitmap.Device.Contents.{IsFaithful, Holds}

-- A chunk is filled in by writing it into the buffer.
pub filled-splice :
    (out : List ℕ) (at : ℕ) (b : List ℕ) (end : ℕ)
    → end ≡ at + length b
    → end ≤ length out
    → take at out ++ (b ++ drop end out) ≡ splice out at b
unfolding splice
filled-splice [] zero [] zero e h = refl
filled-splice [] zero [] (suc end) e h = absurd (omega arith)
filled-splice [] zero (y ∷ b) end e h = absurd (omega arith)
filled-splice [] (suc at) b end e h = absurd (omega arith)
filled-splice (x ∷ xs) zero [] zero e h = refl
filled-splice (x ∷ xs) zero [] (suc end) e h = absurd (omega arith)
filled-splice (x ∷ xs) zero (y ∷ b) zero e h = absurd (omega arith)
filled-splice (x ∷ xs) zero (y ∷ b) (suc end) e h =
    ap (λ t. y ∷ t) (filled-splice xs zero b end (omega arith) (omega arith))
filled-splice (x ∷ xs) (suc at) b zero e h = absurd (omega arith)
filled-splice (x ∷ xs) (suc at) b (suc end) e h =
    ap (λ t. x ∷ t) (filled-splice xs at b end (omega arith) (omega arith))

module _ {D : Type 0} (dev : BlockIo D) (contents : D → ℕ → ℕ)
    (faithful : IsFaithful dev contents) where
  -- The buffer read: the bytes before the cursor are kept, and the chunks hold the device's.
  pub record IsRead (d : D) (cursor : ℕ) (chunks : List MappedChunk) (out out' : List ℕ)
      : Type 0 where
    pub same_size : length out' ≡ length out
    pub before : (i : ℕ) → i < cursor → byte_at out' i ≡ byte_at out i
    pub holds : All (Holds (contents d) out') chunks

  pub read_chunks-IsRead :
      (d : D) (chunks : List MappedChunk) (bound cursor len : ℕ) (out out' : List ℕ)
      → Tiles bound cursor len chunks
      → cursor + len ≤ length out
      → read_chunks dev d chunks out ≡ ok out'
      → IsRead d cursor chunks out out'
  unfolding read_chunks
  read_chunks-IsRead d [] bound cursor len out out' t h e =
      let same : out ≡ out' = ok-injective e in
      rw (← same) (record { same_size = refl; before = λ i lt. refl; holds = tt })
  read_chunks-IsRead d (c ∷ chunks) bound cursor len out out' (here, t) h e =
      let from = here.from in
      let fits : ltb (length out) (c.cursor + c.len) ≡ false = ground (arith, here.fits, h, from) in
      let e' = rw fits at e in
      elim (>>=-eq-ok (ok_or (dev.read_exact_at d c.disk_offset c.len) io) _ e') [
        | via b e1 e2 ↦
            let (size, same) =
              faithful.reads d c.disk_offset c.len b
                (ok_or-eq-ok (dev.read_exact_at d c.disk_offset c.len) io e1) in
            let room : c.cursor + length b ≤ length out = omega (arith, here.fits) in
            let step : take c.cursor out ++ (b ++ drop (c.cursor + c.len) out)
                ≡ splice out c.cursor b =
              filled-splice out c.cursor b (c.cursor + c.len) (omega arith)
                (omega (arith, here.fits)) in
            let e3 : read_chunks dev d chunks (splice out c.cursor b) ≡ ok out' = rw step at e2 in
            let spliced = length-splice out c.cursor b in
            let rest =
              read_chunks-IsRead d chunks bound (cursor + c.len) (len - c.len)
                (splice out c.cursor b) out' t (omega (arith, here.fits)) e3 in
            record {
              same_size = rest.same_size ∙ spliced;
              before = λ i lt.
                  rest.before i (omega arith)
                  ∙ byte_at-splice_apart out c.cursor b i (inl (omega arith));
              holds = (
                λ i lt. sym (
                    rest.before (c.cursor + i) (omega arith)
                    ∙ byte_at-splice_in out c.cursor b i (omega arith) room
                    ∙ same i lt),
                rest.holds,
              );
            }
      ]
