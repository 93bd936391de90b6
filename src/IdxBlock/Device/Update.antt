-- ===== src/IdxBlock/Device/Update.antt =====
-- `update_indx_block_io` of src/idx_block.rs writes the whole block or, when the writes that put it
-- back succeed, nothing.
use rust_fs_ntfs.Base.{
  ℕ, ◌+◌, ◌≡◌, ◌≢◌, refl, sym, ap, ap₂, ◌∙◌, inl, inr, arith, Bool, true, if◌then◌else◌, Bool-cases,
  List, [], ◌∷◌, ◌++◌, length, replicate, length-replicate, All, All-append,
}
use rust_fs_ntfs.Base.{
  Result, ok, err, io, >>=-eq-ok, via, ok-injective, good, bad, slice_lem, Result-cases, gave,
  failed, panicked,
}
use mathlib.Core.Path.{subst}
use rust_fs_ntfs.Fixup.{apply_fixup_on_read_magic, apply_fixup_on_write_magic}
use rust_fs_ntfs.Fixup.Lengths.{
  KeepsLength, apply_fixup_on_read_magic-KeepsLength, apply_fixup_on_write_magic-KeepsLength,
}
use rust_fs_ntfs.Bitmap.{MappedChunk}
use rust_fs_ntfs.Bitmap.Device.{BlockIo, read_chunks}
use rust_fs_ntfs.Bitmap.Device.Buffer.{InBuffer, Tiles-InBuffer}
use rust_fs_ntfs.Bitmap.Device.Contents.{
  IsFaithful, Holds, Beside, AgreeBeside, Apart, Beside-Disjoint,
}
use rust_fs_ntfs.Bitmap.Device.Read.{read_chunks-IsRead}
use rust_fs_ntfs.IdxBlock.{IndexAllocation, indx_magic}
use rust_fs_ntfs.IdxBlock.Mapped.{map_indx_block-Tiles}
use rust_fs_ntfs.IdxBlock.Device.{
  read_raw_indx_block_io, restore_chunks, undo, write_block, prepare_block, update_indx_block_io,
}
use rust_fs_ntfs.IdxBlock.Device.Restore.{
  chunk_bytes, write-Beside, write-Holds, restored, restore_chunks-Restored,
}

-- All of a list with one more at its end.
All-last {ℓ κ} :
    {A : Type ℓ} (P : A → Type κ) (xs : List A) (x : A) → All P (xs ++ (x ∷ [])) → All P xs × P x
All-last P [] x (h, _) = (tt, h)
All-last P (y ∷ ys) x (h, hs) = let (front, last) = All-last P ys x hs in ((h, front), last)

module _ {D : Type 0} (dev : BlockIo D) (contents : D → ℕ → ℕ)
    (faithful : IsFaithful dev contents) where
  -- What the loop gives: every chunk written, and nothing beside them changed; or the chunks put back.
  pub data Written (d0 d : D) (chunks : List MappedChunk) (block previous : List ℕ)
      (p : D × Result (Unit {0})) : Type 0 where
    written :
        (d' : D)
        → p ≡ ((dev.sync d').0, (if (dev.sync d').1 then ok tt else err io))
        → AgreeBeside chunks (contents d) (contents d')
        → (Apart chunks → All (Holds (contents d') block) chunks)
        → Written d0 d chunks block previous p
    undone :
        (d1 d2 : D) (touched : List MappedChunk) (all : Bool)
        → p ≡ ((dev.sync d2).0, err io)
        → restore_chunks dev d1 touched previous ≡ (d2, ok all)
        → (all ≡ true → (i : ℕ) → contents d2 i ≡ contents d0 i)
        → Written d0 d chunks block previous p

  undo-Written :
      (d0 d d1 : D) (touched chunks : List MappedChunk) (block previous : List ℕ)
      → All (InBuffer (length previous)) touched
      → All (Holds (contents d0) previous) touched
      → AgreeBeside touched (contents d0) (contents d1)
      → Written d0 d chunks block previous (undo dev d1 touched previous)
  unfolding undo
  undo-Written d0 d d1 touched chunks block previous inside held agree =
      elim (restore_chunks-Restored dev contents faithful d0 d1 touched previous inside held) [
        | restored d2 all e after ↦
            rw (e, undo)
              (undone d1 d2 touched all (ap (λ p. ((dev.sync p.0).0, err io)) e) e (after agree))
      ]

  write_block-Written :
      (d0 d : D) (done chunks : List MappedChunk) (block previous : List ℕ)
      → length block ≡ length previous
      → All (InBuffer (length previous)) done
      → All (InBuffer (length previous)) chunks
      → All (Holds (contents d0) previous) done
      → All (Holds (contents d0) previous) chunks
      → AgreeBeside done (contents d0) (contents d)
      → Written d0 d chunks block previous (write_block dev d done chunks block previous)
  unfolding write_block
  write_block-Written d0 d done [] block previous same in_done in_chunks held_done held agree =
      written d refl (λ i apart. refl) (λ apart. tt)
  write_block-Written d0 d done (c ∷ chunks) block previous same in_done (in_c, in_chunks) held_done
        (held_c, held) agree =
      let inside : InBuffer (length block) c = omega (arith, in_c, same) in
      let sliced = slice_lem block c.cursor (c.cursor + c.len) (omega arith) inside in
      let d1 : D = (dev.write_all_at d c.disk_offset (chunk_bytes block c)).0 in
      let in_reached = All-append (InBuffer (length previous)) done (c ∷ []) in_done (in_c, tt) in
      let held_reached =
        All-append (Holds (contents d0) previous) done (c ∷ []) held_done (held_c, tt) in
      let agree' : AgreeBeside (done ++ (c ∷ [])) (contents d0) (contents d1) = λ i apart.
        let (front, last) = All-last (Beside i) done c apart in
        write-Beside dev contents faithful d block c i inside last ∙ agree i front in
      rw (sliced, write_block)
        (elim (Bool-cases (dev.write_all_at d c.disk_offset (chunk_bytes block c)).1) [
          | inr missed ↦ rw missed (
              undo-Written d0 d d1 (done ++ (c ∷ [])) (c ∷ chunks) block previous in_reached
                held_reached agree')
          | inl landed ↦
              rw landed
                (elim (write_block-Written d0 d1 (done ++ (c ∷ [])) chunks block previous same
                  in_reached in_chunks held_reached held agree') [
                    | written d' e beside holds ↦
                        written d' e
                          (λ i (out, apart).
                            beside i apart
                            ∙ write-Beside dev contents faithful d block c i inside out)
                          (λ (first, apart). (
                            λ i lt.
                                beside (c.disk_offset + i) (Beside-Disjoint c chunks i first lt)
                                ∙ write-Holds dev contents faithful d block c inside landed i lt,
                            holds apart,
                          ))
                    | undone d3 d2 touched all e put_back after ↦
                        undone d3 d2 touched all e put_back after
                  ])
        ])

  -- What an update gives. Before anything is written, an error or a panic: the device is untouched.
  -- Else the block was read, changed and is written: all of it, or it was put back.
  pub data Updated (d : D) (ia : IndexAllocation) (vcn : ℕ) (mutate : List ℕ → Result (List ℕ))
      (p : D × Result (Unit {0})) : Type 0 where
    untouched : p.0 ≡ d → p.1 ≢ ok tt → Updated d ia vcn mutate p
    begun :
        (block previous : List ℕ) (chunks : List MappedChunk)
        → prepare_block dev d ia vcn mutate ≡ ok (block, previous, chunks)
        → All (Holds (contents d) previous) chunks
        → Written d d chunks block previous p
        → Updated d ia vcn mutate p

  -- The block before, read from chunks that tile it.
  pub raw_read :
      (d : D) (ia : IndexAllocation) (vcn : ℕ) {previous : List ℕ} {chunks : List MappedChunk}
      → read_raw_indx_block_io dev d ia vcn ≡ ok (previous, chunks)
      → (length previous ≡ ia.block_size)
        × All (InBuffer (length previous)) chunks
        × All (Holds (contents d) previous) chunks
  unfolding read_raw_indx_block_io
  raw_read d ia vcn {previous} {chunks} e =
      let zeros : List ℕ = replicate ia.block_size 0 in
      let size : length zeros ≡ ia.block_size = length-replicate ia.block_size 0 in
      elim (map_indx_block-Tiles ia vcn (dev.size d)) [
        | bad refused ↦ let e' = rw refused at e in absurd cc
        | good found mapped tiles ↦
            let e' = rw mapped at e in
            elim (>>=-eq-ok (read_chunks dev d found zeros) _ e') [
              | via buf e1 e2 ↦
                  let same : (buf, found) ≡ (previous, chunks) = ok-injective e2 in
                  let read =
                    read_chunks-IsRead dev contents faithful d found _ 0 ia.block_size zeros buf
                      tiles (omega (arith, size)) e1 in
                  let whole : 0 + ia.block_size ≡ length buf =
                    omega (arith, size, read.same_size) in
                  let all_three : (length buf ≡ ia.block_size)
                      × All (InBuffer (length buf)) found
                      × All (Holds (contents d) buf) found =
                    (
                      read.same_size ∙ size,
                      subst (λ n. All (InBuffer n) found) whole
                          (Tiles-InBuffer _ 0 ia.block_size found tiles),
                      read.holds,
                    ) in
                  subst
                    (λ q.
                      (length q.0 ≡ ia.block_size)
                      × All (InBuffer (length q.0)) q.1
                      × All (Holds (contents d) q.0) q.1)
                    same all_three
            ]
      ]

  pub prepared_from :
      (d : D) (ia : IndexAllocation) (vcn : ℕ) (mutate : List ℕ → Result (List ℕ))
      {block previous : List ℕ} {chunks : List MappedChunk}
      → ((r : List ℕ) → KeepsLength (length r) (mutate r))
      → prepare_block dev d ia vcn mutate ≡ ok (block, previous, chunks)
      → (read_raw_indx_block_io dev d ia vcn ≡ ok (previous, chunks))
        × (length block ≡ length previous)
  unfolding prepare_block KeepsLength
  prepared_from d ia vcn mutate {block} {previous} {chunks} keeps e =
      let bps = ia.params.bytes_per_sector in
      elim (>>=-eq-ok (read_raw_indx_block_io dev d ia vcn) _ e) [
        | via (raw, found) e1 f1 ↦
            elim (>>=-eq-ok (apply_fixup_on_read_magic raw bps indx_magic) _ f1) [
              | via clean e2 f2 ↦ elim (>>=-eq-ok (mutate clean) _ f2) [
                | via changed e3 f3 ↦
                    elim (>>=-eq-ok (apply_fixup_on_write_magic changed bps indx_magic) _ f3) [
                      | via whole e4 f4 ↦
                          let size : length whole ≡ length raw =
                            apply_fixup_on_write_magic-KeepsLength changed bps indx_magic whole e4
                            ∙ keeps clean changed e3
                            ∙ apply_fixup_on_read_magic-KeepsLength raw bps indx_magic clean e2 in
                          let p0 : whole ≡ block = cc in
                          let p1 : raw ≡ previous = cc in
                          let p2 : found ≡ chunks = cc in
                          (
                            e1 ∙ ap₂ (λ x y. ok (x, y)) p1 p2,
                            sym (ap length p0) ∙ size ∙ ap length p1,
                          )
                    ]
              ]
            ]
      ]

  -- On a device that keeps what is written, and with a change that keeps the length of the block, an
  -- update leaves the device alone, with an error or a panic, or it writes: then every chunk is
  -- written, nothing beside the chunks changes and, if the chunks share no byte, the device holds the
  -- new block; or a write fails, and if the writes that put the chunks back succeed, the device has
  -- all its bytes as they were.
  pub update_indx_block_io-Updated :
      (d : D) (ia : IndexAllocation) (vcn : ℕ) (mutate : List ℕ → Result (List ℕ))
      → ((r : List ℕ) → KeepsLength (length r) (mutate r))
      → Updated d ia vcn mutate (update_indx_block_io dev d ia vcn mutate)
  unfolding update_indx_block_io
  update_indx_block_io-Updated d ia vcn mutate keeps =
      elim (Result-cases (prepare_block dev d ia vcn mutate)) [
        | gave (block, previous, chunks) e ↦
            let (raw, same) = prepared_from d ia vcn mutate keeps e in
            let (size, inside, held) = raw_read d ia vcn raw in
            rw (e, update_indx_block_io)
              (begun block previous chunks e held (
                write_block-Written d d [] chunks block previous same tt inside tt held
                  (λ i apart. refl)))
        | failed k e ↦ rw (e, update_indx_block_io) (untouched refl (λ q. cc))
        | panicked e ↦ rw (e, update_indx_block_io) (untouched refl (λ q. cc))
      ]
