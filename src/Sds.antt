-- ===== src/Sds.antt =====
-- The stream of security descriptors: src/sds.rs.
pub mod Entry
pub mod Write
pub mod Mirror
mod Tests
use rust_fs_ntfs.Base.{
  ℕ, zero, suc, ◌+◌, ◌-◌, ◌*◌, ◌/◌, ◌%◌, ◌^◌, Bool, true, false, ltb, if◌then◌else◌, List, [], ◌∷◌,
  ◌++◌, length, replicate,
}
use rust_fs_ntfs.Base.{Result, ok, err, fault, ◌>>=◌, slice, from_le, patch, put_le}

-- `SdEntry`
pub record SdEntry : Type 0 where
  pub security_id : ℕ
  pub sd : List ℕ

-- `SDS_HEADER_LEN`, `SDS_MIRROR_GAP`
abbrev pub sds_header_len : ℕ
sds_header_len = 20

abbrev pub sds_mirror_gap : ℕ
sds_mirror_gap = 0x40000

-- `(n + 15) & !15`: the mask clears the four low bits.
pub align_to_16 : ℕ → ℕ
align_to_16 n = (n + 15) / 16 * 16

-- `h.rotate_left(3).wrapping_add(w)`
pub hash_step : ℕ → ℕ → ℕ
hash_step h w = (h * 8 % 2 ^ 32 + h / 2 ^ 29 + w) % 2 ^ 32

-- The loop over the chunks of four bytes, and the remainder, which zeros fill up to four bytes.
pub hash_loop : ℕ → List ℕ → ℕ
hash_loop h [] = h
hash_loop h (b0 ∷ []) = hash_step h (from_le (b0 ∷ []))
hash_loop h (b0 ∷ b1 ∷ []) = hash_step h (from_le (b0 ∷ b1 ∷ []))
hash_loop h (b0 ∷ b1 ∷ b2 ∷ []) = hash_step h (from_le (b0 ∷ b1 ∷ b2 ∷ []))
hash_loop h (b0 ∷ b1 ∷ b2 ∷ b3 ∷ sd) = hash_loop (hash_step h (from_le (b0 ∷ b1 ∷ b2 ∷ b3 ∷ []))) sd

pub sdh_hash : List ℕ → ℕ
sdh_hash sd = hash_loop 0 sd

pub sds_entry_total_len : ℕ → ℕ
sds_entry_total_len sd_len = align_to_16 (sds_header_len + sd_len)

-- `if out.len() < needed { out.resize(needed, 0); }`
pub grown_to : List ℕ → ℕ → List ℕ
grown_to out needed =
    if ltb (length out) needed then out ++ replicate (needed - length out) 0 else out

pub write_one_entry : List ℕ → ℕ → SdEntry → Result (List ℕ × ℕ)
write_one_entry out offset entry = do
  let unpadded = sds_header_len + length entry.sd
  r1 ←
      put_le 4 (grown_to out (offset + sds_entry_total_len (length entry.sd))) (offset + 0)
        (sdh_hash entry.sd)
  r2 ← put_le 4 r1 (offset + 4) entry.security_id
  r3 ← put_le 8 r2 (offset + 8) offset
  r4 ← put_le 4 r3 (offset + 16) (unpadded % 2 ^ 32)
  r5 ← patch r4 (offset + 20) entry.sd
  ok (r5, unpadded % 2 ^ 32)

-- `for entry in entries`: the stream, and where each entry is and how long.
pub entries_loop : List ℕ → ℕ → List SdEntry → Result (List ℕ × List (ℕ × ℕ))
entries_loop out cursor [] = ok (out, [])
entries_loop out cursor (entry ∷ entries) = do
  (out', size) ← write_one_entry out cursor entry
  (final, written) ← entries_loop out' (cursor + sds_entry_total_len (length entry.sd)) entries
  ok (final, (cursor, sds_entry_total_len (length entry.sd)) ∷ written)

-- `for (off, total) in &written`
pub mirror_loop : List ℕ → List (ℕ × ℕ) → Result (List ℕ)
mirror_loop out [] = ok out
mirror_loop out ((off, total) ∷ written) = do
  let grown = grown_to out (off + sds_mirror_gap + total)
  src ← slice grown off (off + total)
  out' ← patch grown (off + sds_mirror_gap) src
  mirror_loop out' written

pub build_sds : List SdEntry → Result (List ℕ)
build_sds entries = do (out, written) ← entries_loop [] 0 entries; mirror_loop out written
