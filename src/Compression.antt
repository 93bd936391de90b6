-- ===== src/Compression.antt =====
-- LZNT1 decompression: src/compression.rs. The cursors `pos` and `i` stand as the bytes from there
-- on; `out` is the output so far, and `chunk_start` the number of bytes before the current chunk.

pub mod Token
pub mod Copy
pub mod Chunk
pub mod Stream
mod Tests
use rust_fs_ntfs.Base.{ℕ, zero, suc, ◌+◌, ◌-◌, ◌*◌, ◌/◌, ◌%◌, ◌^◌, Bool, true, false, not, ◌||◌}
use rust_fs_ntfs.Base.{ltb, leb, ◌==◌, if◌then◌else◌, List, [], ◌∷◌, ◌++◌, length, take, drop}
use rust_fs_ntfs.Base.{Result, ok, err, fault, io, ◌>>=◌, index, bit_and}

-- `CHUNK_SIZE`
abbrev pub chunk_size : ℕ
chunk_size = 4096

-- `while span >= 16 { span >>= 1; length_bits -= 1; }` with fuel.
pub narrow_length : ℕ → ℕ → ℕ → Result ℕ
narrow_length zero span length_bits = fault
narrow_length (suc fuel) span length_bits =
    let more = narrow_length fuel (span / 2) (length_bits - 1) in
    if ltb span 16 then ok length_bits else if length_bits == 0 then fault else more

-- The pair is (length, displacement). A `usize` span halves to 0 in 64 rounds.
pub split_token : ℕ → ℕ → Result (ℕ × ℕ)
split_token token cur = if cur == 0 then err io else do
  length_bits ← narrow_length 65 (cur - 1) 12
  ok (bit_and token (2 ^ length_bits - 1) + 3, token / 2 ^ length_bits + 1)

-- `for k in 0..length { let b = out[start + k]; out.push(b); }`
pub copy_back : ℕ → ℕ → List ℕ → Result (List ℕ)
copy_back zero start out = ok out
copy_back (suc left) start out = do
  b ← index out start
  copy_back left (suc start) (out ++ (b ∷ []))

-- The back-reference branch, its two bytes read.
pub back_reference : ℕ → ℕ → List ℕ → Result (List ℕ)
back_reference token chunk_start out =
    let cur = length out - chunk_start in
    do
      (len, displacement) ← split_token token cur
      if ltb cur displacement || ltb chunk_size (cur + len)
          then err io
          else copy_back len (length out - displacement) out

-- Where the bits of one flag byte leave off: behind the group, or with the chunk full.
pub data Progress : Type 0 where
  go_on : List ℕ → List ℕ → Progress
  full : List ℕ → Progress

-- `for bit in 0..8`, from `bit` on.
pub group_loop : ℕ → ℕ → ℕ → ℕ → List ℕ → List ℕ → Result Progress
group_loop zero bit flags chunk_start body out = ok (go_on body out)
group_loop (suc left) bit flags chunk_start [] out = ok (go_on [] out)
group_loop (suc left) bit flags chunk_start (b ∷ body) out =
    elim (leb chunk_size (length out - chunk_start)) [
      | true ↦ ok (full out)
      | false ↦ elim (bit_and flags (2 ^ bit) == 0) [
        | true ↦ group_loop left (suc bit) flags chunk_start body (out ++ (b ∷ []))
        | false ↦ elim body [
          | [] ↦ err io
          | b1 ∷ rest ↦ do
            out' ← back_reference (b + 256 * b1) chunk_start out
            group_loop left (suc bit) flags chunk_start rest out'
        ]
      ]
    ]

-- `while i < body.len()`. Each round takes the flag byte at least.
pub chunk_loop : ℕ → ℕ → List ℕ → List ℕ → Result (List ℕ)
chunk_loop fuel chunk_start [] out = ok out
chunk_loop zero chunk_start (flags ∷ body) out = fault
chunk_loop (suc fuel) chunk_start (flags ∷ body) out = do
  p ← group_loop 8 0 flags chunk_start body out
  elim p [ go_on rest out' ↦ chunk_loop fuel chunk_start rest out' | full out' ↦ ok out' ]

pub decompress_chunk : List ℕ → List ℕ → Result (List ℕ)
decompress_chunk body out = chunk_loop (length body) (length out) body out

-- `while pos + 2 <= input.len() && out.len() < max_len`. Each round takes the two bytes of a
-- header at least.
pub unit_loop : ℕ → ℕ → List ℕ → List ℕ → Result (List ℕ)
unit_loop fuel max_len [] out = ok out
unit_loop fuel max_len (h0 ∷ []) out = ok out
unit_loop zero max_len (h0 ∷ h1 ∷ input) out = fault
unit_loop (suc fuel) max_len (h0 ∷ h1 ∷ input) out =
    let header = h0 + 256 * h1 in
    let chunk_len = bit_and header 0x0fff + 1 in
    let signature = bit_and (header / 2 ^ 12) 0x7 in
    let body = take chunk_len input in
    let more = (do
      out' ←
          (if not (bit_and header 0x8000 == 0) then decompress_chunk body out else ok (out ++ body))
      unit_loop fuel max_len (drop chunk_len input) out') in
    if not (ltb (length out) max_len)
    then ok out
    else if header == 0
    then ok out
    else if not (signature == 3)
    then err io
    else if ltb (length input) chunk_len
    then err io
    else more

pub decompress_unit : List ℕ → ℕ → Result (List ℕ)
decompress_unit input max_len = do
  out ← unit_loop (length input) max_len input []
  ok (take max_len out)
