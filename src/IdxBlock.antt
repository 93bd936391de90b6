-- ===== src/IdxBlock.antt =====
-- The index blocks of a directory: src/idx_block.rs. The device is the parameter that Bitmap/Device
-- has. Sizes in memory are those of a 64-bit machine, so the conversions to `usize` do not fail.
pub mod Mapped
pub mod Whole
pub mod Device
mod Tests
use rust_fs_ntfs.Base.{
  ℕ, zero, suc, ◌+◌, ◌-◌, ◌*◌, ◌/◌, ◌%◌, ◌^◌, min, max, Bool, true, false, not, ◌&&◌, ◌||◌, ltb,
  leb, ◌==◌, if◌then◌else◌,
}
use rust_fs_ntfs.Base.{
  List, [], ◌∷◌, ◌++◌, length, replicate, Option, none, some, Result, ok, err, fault, io, ◌>>=◌,
  ◌>>◌, ok_or, slice, bytes_eq, checked_add,
}
use rust_fs_ntfs.DataRuns.{DataRun}
use rust_fs_ntfs.Boot.{BootParams}
use rust_fs_ntfs.Bitmap.{MappedChunk, cluster_span, checked_mul, bit_is_set}

-- `IndexAllocation`
pub record IndexAllocation : Type 0 where
  pub params : BootParams
  pub block_size : ℕ
  pub runs : List DataRun
  pub bitmap : List ℕ
  pub data_length : ℕ

-- `b"INDX"`
abbrev pub indx_magic : List ℕ
indx_magic = 0x49 ∷ 0x4e ∷ 0x44 ∷ 0x58 ∷ []

-- `u64::checked_sub`
abbrev pub checked_sub : ℕ → ℕ → Option ℕ
checked_sub a b = if ltb a b then none else some (a - b)

-- The bits of one byte, from `bit` on: the first VCN of each block that is in use. A cluster size of
-- 0 panics; a block of at most 64 KiB keeps the product below 2^64.
pub vcns_of_byte : ℕ → IndexAllocation → ℕ → ℕ → ℕ → Result (List ℕ)
vcns_of_byte zero ia byte_idx bit byte = ok []
vcns_of_byte (suc left) ia byte_idx bit byte =
    let rest = vcns_of_byte left ia byte_idx (suc bit) byte in
    let vcn = (byte_idx * 8 + bit) * ia.block_size / ia.params.cluster_size in
    let with_block = (do vcns ← rest; ok (vcn ∷ vcns)) in
    if bit_is_set byte bit
    then (if ia.params.cluster_size == 0 then fault else with_block)
    else rest

-- The bytes of the bitmap from the one with the index `byte_idx` on.
pub vcns_from : List ℕ → IndexAllocation → ℕ → Result (List ℕ)
vcns_from [] ia byte_idx = ok []
vcns_from (byte ∷ bytes) ia byte_idx = do
  here ← vcns_of_byte 8 ia byte_idx 0 byte
  behind ← vcns_from bytes ia (suc byte_idx)
  ok (here ++ behind)

pub allocated_block_vcns : IndexAllocation → Result (List ℕ)
allocated_block_vcns ia = vcns_from ia.bitmap ia 0

pub check_declared_block_extent : IndexAllocation → ℕ → Result (Unit {0})
check_declared_block_extent ia vcn = do
  start ← ok_or (checked_mul vcn ia.params.cluster_size) io
  end ← ok_or (checked_add start ia.block_size) io
  if ltb ia.data_length end then err io else ok tt

-- The end of a run, if a `u64` holds it, is behind the cluster, which is not before its start.
pub run_holds : DataRun → ℕ → Option ℕ → Bool
run_holds r vcn none = false
run_holds r vcn (some end) = leb r.starting_vcn vcn && ltb vcn end

-- `.find(|r| r.starting_vcn.checked_add(r.length).is_some_and(..))`
pub find_mapped : List DataRun → ℕ → Option DataRun
find_mapped [] vcn = none
find_mapped (r ∷ runs) vcn =
    let rest = find_mapped runs vcn in
    if run_holds r vcn (checked_add r.starting_vcn r.length) then some r else rest

-- `ia.block_size.div_ceil(ia.params.cluster_size.max(1))`
abbrev pub block_clusters : IndexAllocation → ℕ
block_clusters ia =
    (ia.block_size + (max ia.params.cluster_size 1 - 1)) / max ia.params.cluster_size 1

pub vcn_to_disk_offset : IndexAllocation → ℕ → ℕ → Result ℕ
vcn_to_disk_offset ia vcn device_bytes = do
  check_declared_block_extent ia vcn
  run ← ok_or (find_mapped ia.runs vcn) io
  lcn ← ok_or run.lcn io
  run_end_vcn ← ok_or (checked_add run.starting_vcn run.length) io
  block_end_vcn ← ok_or (checked_add vcn (block_clusters ia)) io
  if ltb run_end_vcn block_end_vcn
      then err io
      else cluster_span ia.params lcn (vcn - run.starting_vcn) 0 ia.block_size device_bytes

-- `run_end_vcn.checked_sub(..).and_then(..checked_mul..).and_then(..checked_sub..)`
pub bytes_in_run : ℕ → ℕ → ℕ → ℕ → Result ℕ
bytes_in_run run_end_vcn logical_cluster cluster_size byte_in_cluster = do
  clusters ← ok_or (checked_sub run_end_vcn logical_cluster) io
  bytes ← ok_or (checked_mul clusters cluster_size) io
  ok_or (checked_sub bytes byte_in_cluster) io

-- One round of the loop of `map_indx_block`: the chunk from `cursor` on.
pub block_chunk : IndexAllocation → ℕ → ℕ → ℕ → Result MappedChunk
block_chunk ia vcn cursor device_bytes = do
  let cluster_size = ia.params.cluster_size
  logical_cluster ← ok_or (checked_add vcn (cursor / cluster_size)) io
  run ← ok_or (find_mapped ia.runs logical_cluster) io
  lcn ← ok_or run.lcn io
  run_end_vcn ← ok_or (checked_add run.starting_vcn run.length) io
  left_in_run ← bytes_in_run run_end_vcn logical_cluster cluster_size (cursor % cluster_size)
  let len = min left_in_run (ia.block_size - cursor)
  if len == 0 then err io else do
    disk_offset ←
        cluster_span ia.params lcn (logical_cluster - run.starting_vcn) (cursor % cluster_size) len
          device_bytes
    ok (record { disk_offset = disk_offset; cursor = cursor; len = len })

-- `while cursor < block_len`. Each round maps a byte at least.
pub block_loop : ℕ → IndexAllocation → ℕ → ℕ → ℕ → Result (List MappedChunk)
block_loop zero ia vcn cursor device_bytes = if ltb cursor ia.block_size then fault else ok []
block_loop (suc fuel) ia vcn cursor device_bytes =
    let round = (do
      c ← block_chunk ia vcn cursor device_bytes
      chunks ← block_loop fuel ia vcn (cursor + c.len) device_bytes
      ok (c ∷ chunks)) in
    if ltb cursor ia.block_size then round else ok []

pub map_indx_block : IndexAllocation → ℕ → ℕ → Result (List MappedChunk)
map_indx_block ia vcn device_bytes = do
  check_declared_block_extent ia vcn
  if ia.params.cluster_size == 0 || ia.block_size == 0
      then err io
      else block_loop ia.block_size ia vcn 0 device_bytes
