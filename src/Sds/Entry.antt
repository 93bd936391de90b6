-- ===== src/Sds/Entry.antt =====
-- One entry of the stream, as src/sds.rs writes it.
use rust_fs_ntfs.Base.{
  ℕ, zero, suc, ◌+◌, ◌-◌, ◌%◌, ◌^◌, ◌≤◌, ◌<◌, max, ◌≡◌, refl, sym, ap, ◌∙◌, inl, inr, arith, ltb,
  Bool-cases,
}
use rust_fs_ntfs.Base.{
  List, [], ◌∷◌, ◌++◌, length, length-append, replicate, length-replicate, ok, byte_at,
}
use rust_fs_ntfs.Base.{get_le, get_le-moved, byte_at-replicate}
use rust_fs_ntfs.Sds.{
  SdEntry, align_to_16, hash_step, hash_loop, sdh_hash, sds_entry_total_len, grown_to,
}

abbrev pub total_of : SdEntry → ℕ
total_of e = sds_entry_total_len (length e.sd)

pub total_bounds :
    (e : SdEntry)
    → (20 + length e.sd ≤ total_of e) × (total_of e < 36 + length e.sd) × (total_of e % 16 ≡ 0)
unfolding sds_entry_total_len align_to_16
total_bounds e = (omega arith, omega arith, omega arith)

hash_step-bound : (h w : ℕ) → hash_step h w < 2 ^ 32
unfolding hash_step
hash_step-bound h w = omega arith

hash_loop-bound : (h : ℕ) (sd : List ℕ) → h < 2 ^ 32 → hash_loop h sd < 2 ^ 32
unfolding hash_loop
hash_loop-bound h [] small = small
hash_loop-bound h (b0 ∷ []) small = hash_step-bound h _
hash_loop-bound h (b0 ∷ b1 ∷ []) small = hash_step-bound h _
hash_loop-bound h (b0 ∷ b1 ∷ b2 ∷ []) small = hash_step-bound h _
hash_loop-bound h (b0 ∷ b1 ∷ b2 ∷ b3 ∷ sd) small =
    hash_loop-bound (hash_step h _) sd (hash_step-bound h _)

pub sdh_hash-bound : (sd : List ℕ) → sdh_hash sd < 2 ^ 32
unfolding sdh_hash
sdh_hash-bound sd = hash_loop-bound 0 sd (omega arith)

pub length-grown_to : (out : List ℕ) (n : ℕ) → length (grown_to out n) ≡ max (length out) n
unfolding grown_to
length-grown_to out n = elim (Bool-cases (ltb (length out) n)) [
  | inl short ↦
      let zeros : List ℕ = replicate (n - length out) 0 in
      let size : length zeros ≡ n - length out = length-replicate (n - length out) 0 in
      rw short (ground (arith, short, length-append out zeros, size))
  | inr long ↦ rw long (ground (arith, long))
]

byte_at-zeros : (out : List ℕ) (n i : ℕ) → byte_at (out ++ replicate n 0) i ≡ byte_at out i
byte_at-zeros [] n i = byte_at-replicate n i
byte_at-zeros (x ∷ xs) n zero = refl
byte_at-zeros (x ∷ xs) n (suc i) = byte_at-zeros xs n i

-- Growing adds zeros, which is what is read past the end.
pub byte_at-grown_to : (out : List ℕ) (n i : ℕ) → byte_at (grown_to out n) i ≡ byte_at out i
unfolding grown_to
byte_at-grown_to out n i = elim (Bool-cases (ltb (length out) n)) [
  | inl short ↦ rw short (byte_at-zeros out (n - length out) i)
  | inr long ↦ rw long refl
]

-- The stream has the entry at `at`; its header names the offset `off`.
pub record HasEntry (out : List ℕ) (at off : ℕ) (e : SdEntry) : Type 0 where
  pub inside : at + total_of e ≤ length out
  pub hash : get_le 4 out (at + 0) ≡ ok (sdh_hash e.sd)
  pub identifier : get_le 4 out (at + 4) ≡ ok e.security_id
  pub offset : get_le 8 out (at + 8) ≡ ok off
  pub size : get_le 4 out (at + 16) ≡ ok (20 + length e.sd)
  pub descriptor : (i : ℕ) → i < length e.sd → byte_at out (at + 20 + i) ≡ byte_at e.sd i

-- An entry whose bytes stand elsewhere stands there.
pub HasEntry-moved :
    (out s : List ℕ) (at to off : ℕ) (e : SdEntry)
    → HasEntry out at off e
    → to + total_of e ≤ length s
    → ((i : ℕ) → i < total_of e → byte_at s (to + i) ≡ byte_at out (at + i))
    → HasEntry s to off e
HasEntry-moved out s at to off e h fits same = record {
  inside = fits;
  hash = field 4 0 (omega arith) ∙ h.hash;
  identifier = field 4 4 (omega arith) ∙ h.identifier;
  offset = field 8 8 (omega arith) ∙ h.offset;
  size = field 4 16 (omega arith) ∙ h.size;
  descriptor = λ i lt.
      let e1 : to + 20 + i ≡ to + (20 + i) = omega arith in
      let e2 : at + 20 + i ≡ at + (20 + i) = omega arith in
      rw e1 (same (20 + i) (omega (arith, total_bounds e)))
      ∙ ap (byte_at out) (sym e2)
      ∙ h.descriptor i lt;
}
  where
    field : (w k : ℕ) → k + w ≤ 20 → get_le w s (to + k) ≡ get_le w out (at + k)
    field w k small =
        get_le-moved w out s (at + k) (to + k) (omega (arith, total_bounds e, h.inside))
          (omega (arith, total_bounds e))
          (λ i lt.
            let e1 : to + k + i ≡ to + (k + i) = omega arith in
            let e2 : at + k + i ≡ at + (k + i) = omega arith in
            rw e1 (same (k + i) (omega (arith, total_bounds e))) ∙ ap (byte_at out) (sym e2))
