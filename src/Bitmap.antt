-- ===== src/Bitmap.antt =====
-- The cluster allocator: src/bitmap.rs, with `cluster_span` of src/mft_io.rs.
pub mod Device
pub mod Bits
pub mod Mapped
pub mod Mutate
pub mod Search
pub mod Memory
pub mod Count
mod Tests
use rust_fs_ntfs.Base.{
  ℕ, zero, suc, ◌+◌, ◌-◌, ◌*◌, ◌/◌, ◌%◌, ◌^◌, min, Bool, true, false, not, ◌&&◌, ◌||◌,
}
use rust_fs_ntfs.Base.{
  ltb, leb, ◌==◌, if◌then◌else◌, List, [], ◌∷◌, ◌++◌, length, take, drop, Option, none, some,
}
use rust_fs_ntfs.Base.{
  Result, ok, err, fault, io, ◌>>=◌, ok_or, index, store, checked_add, bit_and, bit_or,
}
use rust_fs_ntfs.DataRuns.{DataRun}
use rust_fs_ntfs.Boot.{BootParams}

-- `BitmapLocation`
pub record BitmapLocation : Type 0 where
  pub params : BootParams
  pub runs : List DataRun
  pub total_bits : ℕ
  pub value_length : ℕ
  pub mft_clusters : ℕ
  pub other_protected : List (ℕ × ℕ)

-- `u64::saturating_add`, `u64::saturating_mul`, `u64::checked_mul`, `u64::div_ceil`
abbrev pub saturating : ℕ → ℕ
saturating n = min n (2 ^ 64 - 1)

abbrev pub checked_mul : ℕ → ℕ → Option ℕ
checked_mul a b = if ltb (a * b) (2 ^ 64) then some (a * b) else none

abbrev pub bytes_for : ℕ → ℕ
bytes_for bits = (bits + 7) / 8

-- `BootParams::volume_bytes`
unfoldable pub volume_bytes : BootParams → ℕ
volume_bytes params = saturating (params.total_sectors * params.bytes_per_sector)

-- The byte on the device of a transfer of `len` bytes, if volume and device hold it.
unfoldable pub cluster_span : BootParams → ℕ → ℕ → ℕ → ℕ → ℕ → Result ℕ
cluster_span params lcn within_run byte_offset len device_bytes = do
  cluster ← ok_or (checked_add lcn within_run) io
  at ← ok_or (checked_mul cluster params.cluster_size) io
  start ← ok_or (checked_add at byte_offset) io
  end ← ok_or (checked_add start len) io
  if ltb (min (volume_bytes params) device_bytes) end then err io else ok start

-- `.any(|&(start_lcn, end_lcn)| lcn < end_lcn && start_lcn < end)`
pub any_overlap : List (ℕ × ℕ) → ℕ → ℕ → Bool
any_overlap [] lcn end = false
any_overlap ((start_lcn, end_lcn) ∷ ranges) lcn end =
    (ltb lcn end_lcn && ltb start_lcn end) || any_overlap ranges lcn end

pub covers_the_volumes_own : BitmapLocation → ℕ → ℕ → Bool
covers_the_volumes_own bm lcn n =
    let end = saturating (lcn + n) in
    let mft_end = saturating (bm.params.mft_lcn + bm.mft_clusters) in
    if lcn == 0
    then true
    else if not (bm.mft_clusters == 0) && ltb lcn mft_end && ltb bm.params.mft_lcn end
    then true
    else any_overlap bm.other_protected lcn end

-- `(byte >> bit) & 1 != 0`
unfoldable pub bit_is_set : ℕ → ℕ → Bool
bit_is_set byte bit = not (bit_and (byte / 2 ^ bit) 1 == 0)

-- `bytes[idx] |= 1 << bit`
pub set_bit : List ℕ → ℕ → ℕ → Result (List ℕ)
set_bit bytes idx bit = do byte ← index bytes idx; store bytes idx (bit_or byte (2 ^ bit))

-- `bytes[idx] &= !(1u8 << bit)`
pub clear_bit : List ℕ → ℕ → ℕ → Result (List ℕ)
clear_bit bytes idx bit = do byte ← index bytes idx; store bytes idx (bit_and byte (255 - 2 ^ bit))

-- The loop of `mutate_bits_io` over the `left` bits from `bit` on, counted from the first byte.
pub mutate_loop : ℕ → ℕ → Bool → List ℕ → Result (List ℕ)
mutate_loop zero bit set bytes = ok bytes
mutate_loop (suc left) bit set bytes = do
  byte ← index bytes (bit / 8)
  let cur = bit_is_set byte (bit % 8)
  if set && cur then err io else if not set && not cur then err io else (do
    bytes' ←
        (if set then set_bit bytes (bit / 8) (bit % 8) else clear_bit bytes (bit / 8) (bit % 8))
    mutate_loop left (suc bit) set bytes')

-- `MappedChunk`
pub record MappedChunk : Type 0 where
  pub disk_offset : ℕ
  pub cursor : ℕ
  pub len : ℕ

-- `.find(|r| vcn >= r.starting_vcn && vcn < r.starting_vcn + r.length)`, with a sum that the source
-- does not check and that wraps in a release build.
pub find_run : List DataRun → ℕ → Option DataRun
find_run [] vcn = none
find_run (r ∷ runs) vcn =
    let rest = find_run runs vcn in
    if leb r.starting_vcn vcn && ltb vcn ((r.starting_vcn + r.length) % 2 ^ 64)
    then some r
    else rest

-- `checked_sub(..).filter(|remaining| *remaining > 0)`
pub remaining_after : ℕ → ℕ → Option ℕ
remaining_after end at = if ltb at end then some (end - at) else none

-- One round of the loop of `map_bitmap_range`: the chunk from `file_offset` on.
pub map_chunk : BitmapLocation → ℕ → ℕ → ℕ → ℕ → Result MappedChunk
map_chunk bm file_offset end cursor device_bytes = do
  let cluster_size = bm.params.cluster_size
  let vcn = file_offset / cluster_size
  run ← ok_or (find_run bm.runs vcn) io
  lcn ← ok_or run.lcn io
  vcns ← ok_or (checked_add run.starting_vcn run.length) io
  run_end_offset ← ok_or (checked_mul vcns cluster_size) io
  remaining ← ok_or (remaining_after run_end_offset file_offset) io
  let chunk = min remaining (end - file_offset)
  disk_offset ←
      cluster_span bm.params lcn (vcn - run.starting_vcn) (file_offset % cluster_size) chunk
        device_bytes
  ok (record { disk_offset = disk_offset; cursor = cursor; len = chunk })

-- `while file_offset < end`. Each round maps a byte at least. A cluster size of 0 panics.
pub map_loop : ℕ → BitmapLocation → ℕ → ℕ → ℕ → ℕ → Result (List MappedChunk)
map_loop zero bm file_offset end cursor device_bytes = if ltb file_offset end then fault else ok []
map_loop (suc fuel) bm file_offset end cursor device_bytes =
    let round = (do
      c ← map_chunk bm file_offset end cursor device_bytes
      chunks ← map_loop fuel bm (file_offset + c.len) end (cursor + c.len) device_bytes
      ok (c ∷ chunks)) in
    if ltb file_offset end then if bm.params.cluster_size == 0 then fault else round else ok []

-- The source does not check the sum.
pub map_bitmap_range : BitmapLocation → ℕ → ℕ → ℕ → Result (List MappedChunk)
map_bitmap_range bm start_byte len device_bytes =
    map_loop len bm start_byte ((start_byte + len) % 2 ^ 64) 0 device_bytes
