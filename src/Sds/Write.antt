-- ===== src/Sds/Write.antt =====
-- `write_one_entry` of src/sds.rs at the end of the stream.
use rust_fs_ntfs.Base.{ℕ, ◌+◌, ◌%◌, ◌^◌, ◌≤◌, ◌<◌, ◌≡◌, refl, ◌∙◌, inl, arith}
use rust_fs_ntfs.Base.{List, length, Result, ok, byte_at, to_le, length-to_le}
use rust_fs_ntfs.Base.{
  splice, length-splice, patch_lem, get_le, get_le-put_le, get_le-splice_apart,
  byte_at-splice_apart, byte_at-splice_in,
}
use rust_fs_ntfs.Sds.{SdEntry, sdh_hash, grown_to, write_one_entry}
use rust_fs_ntfs.Sds.Entry.{
  total_of, total_bounds, sdh_hash-bound, length-grown_to, byte_at-grown_to, HasEntry,
}

-- An entry that the fields of its header can describe at an offset.
pub record IsEntry (off : ℕ) (e : SdEntry) : Type 0 where
  pub named : e.security_id < 2 ^ 32
  pub short : off + total_of e < 2 ^ 32

-- The entry is written behind the stream, whose bytes are kept.
pub data Wrote (out : List ℕ) (off : ℕ) (e : SdEntry) (m : Result (List ℕ × ℕ)) : Type 0 where
  wrote :
      (r : List ℕ) (size : ℕ)
      → m ≡ ok (r, size)
      → length r ≡ off + total_of e
      → HasEntry r off off e
      → ((i : ℕ) → i < off → byte_at r i ≡ byte_at out i)
      → Wrote out off e m

pub write_one_entry-Wrote :
    (out : List ℕ) (off : ℕ) (e : SdEntry)
    → length out ≡ off
    → IsEntry off e
    → Wrote out off e (write_one_entry out off e)
unfolding write_one_entry
write_one_entry-Wrote out off e end is =
    let (lo, hi, al) = total_bounds e in
    let g : List ℕ = grown_to out (off + total_of e) in
    let lg : length g ≡ off + total_of e = omega (arith, length-grown_to out (off + total_of e)) in
    let narrow : (20 + length e.sd) % 2 ^ 32 ≡ 20 + length e.sd = omega (arith, is.short) in
    let f1 : List ℕ = to_le 4 (sdh_hash e.sd) in
    let f2 : List ℕ = to_le 4 e.security_id in
    let f3 : List ℕ = to_le 8 off in
    let f4 : List ℕ = to_le 4 (20 + length e.sd) in
    let r1 : List ℕ = splice g (off + 0) f1 in
    let r2 : List ℕ = splice r1 (off + 4) f2 in
    let r3 : List ℕ = splice r2 (off + 8) f3 in
    let r4 : List ℕ = splice r3 (off + 16) f4 in
    let r5 : List ℕ = splice r4 (off + 20) e.sd in
    let l1 : length r1 ≡ length g = length-splice g (off + 0) f1 in
    let l2 : length r2 ≡ length g = length-splice r1 (off + 4) f2 ∙ l1 in
    let l3 : length r3 ≡ length g = length-splice r2 (off + 8) f3 ∙ l2 in
    let l4 : length r4 ≡ length g = length-splice r3 (off + 16) f4 ∙ l3 in
    let l5 : length r5 ≡ length g = length-splice r4 (off + 20) e.sd ∙ l4 in
    let fits : off + 20 + length e.sd ≤ length g = omega arith in
    let e4 : get_le 4 r5 (off + 16) ≡ ok (20 + length e.sd) =
      get_le-splice_apart 4 r4 (off + 20) e.sd (off + 16) (inl (omega arith))
      ∙ get_le-put_le 4 r3 (off + 16) (20 + length e.sd) (omega arith) (omega (arith, is.short)) in
    let e3 : get_le 8 r5 (off + 8) ≡ ok off =
      get_le-splice_apart 8 r4 (off + 20) e.sd (off + 8) (inl (omega arith))
      ∙ get_le-splice_apart 8 r3 (off + 16) f4 (off + 8) (inl (omega arith))
      ∙ get_le-put_le 8 r2 (off + 8) off (omega arith) (omega (arith, is.short)) in
    let e2 : get_le 4 r5 (off + 4) ≡ ok e.security_id =
      get_le-splice_apart 4 r4 (off + 20) e.sd (off + 4) (inl (omega arith))
      ∙ get_le-splice_apart 4 r3 (off + 16) f4 (off + 4) (inl (omega arith))
      ∙ get_le-splice_apart 4 r2 (off + 8) f3 (off + 4) (inl (omega arith))
      ∙ get_le-put_le 4 r1 (off + 4) e.security_id (omega arith) is.named in
    let e1 : get_le 4 r5 (off + 0) ≡ ok (sdh_hash e.sd) =
      get_le-splice_apart 4 r4 (off + 20) e.sd (off + 0) (inl (omega arith))
      ∙ get_le-splice_apart 4 r3 (off + 16) f4 (off + 0) (inl (omega arith))
      ∙ get_le-splice_apart 4 r2 (off + 8) f3 (off + 0) (inl (omega arith))
      ∙ get_le-splice_apart 4 r1 (off + 4) f2 (off + 0) (inl (omega arith))
      ∙ get_le-put_le 4 g (off + 0) (sdh_hash e.sd) (omega arith) (sdh_hash-bound e.sd) in
    let run : write_one_entry out off e ≡ ok (r5, 20 + length e.sd) =
      rw
        (
          narrow,
          patch_lem g (off + 0) f1 (omega (arith, length-to_le 4 (sdh_hash e.sd))),
          patch_lem r1 (off + 4) f2 (omega (arith, length-to_le 4 e.security_id)),
          patch_lem r2 (off + 8) f3 (omega (arith, length-to_le 8 off)),
          patch_lem r3 (off + 16) f4 (omega (arith, length-to_le 4 (20 + length e.sd))),
          patch_lem r4 (off + 20) e.sd (omega arith),
        )
        refl in
    let has : HasEntry r5 off off e = record {
      inside = omega arith;
      hash = e1;
      identifier = e2;
      offset = e3;
      size = e4;
      descriptor = λ i lt. byte_at-splice_in r4 (off + 20) e.sd i lt (omega arith);
    } in
    wrote r5 (20 + length e.sd) run (l5 ∙ lg) has (λ i lt.
      byte_at-splice_apart r4 (off + 20) e.sd i (inl (omega arith))
      ∙ byte_at-splice_apart r3 (off + 16) f4 i (inl (omega arith))
      ∙ byte_at-splice_apart r2 (off + 8) f3 i (inl (omega arith))
      ∙ byte_at-splice_apart r1 (off + 4) f2 i (inl (omega arith))
      ∙ byte_at-splice_apart g (off + 0) f1 i (inl (omega arith))
      ∙ byte_at-grown_to out (off + total_of e) i)
