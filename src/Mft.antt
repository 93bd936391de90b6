-- ===== src/Mft.antt =====
-- The records of the MFT on the device: src/mft_io.rs. The device is the parameter that Bitmap/Device
-- has. The typed and the plain update differ only in the type of the error.
pub mod Update
pub mod Mirror
pub mod Safety
mod Tests
use rust_fs_ntfs.Base.{
  ℕ, zero, suc, ◌+◌, ◌-◌, ◌*◌, ◌/◌, ◌%◌, ◌^◌, Bool, true, false, not, ◌&&◌, ◌||◌, ltb, leb, ◌==◌,
  if◌then◌else◌,
}
use rust_fs_ntfs.Base.{
  List, [], ◌∷◌, length, take, Option, none, some, Result, ok, err, fault, io, ◌>>=◌, ◌>>◌, ok_or,
  index, slice, bytes_eq, get_le, patch, checked_add, bit_and,
}
use rust_fs_ntfs.DataRuns.{DataRun, decode_runs}
use rust_fs_ntfs.AttrIo.{AttrLocation, find_attribute}
use rust_fs_ntfs.Fixup.{file_magic, read_usa_header, apply_fixup_on_read, apply_fixup_on_write}
use rust_fs_ntfs.Boot.{BootParams, parse_boot_params_from_bytes, mft_record_offset}
use rust_fs_ntfs.Bitmap.{cluster_span, checked_mul, find_run}
use rust_fs_ntfs.Bitmap.Device.{BlockIo}

-- `AttrType::Data`
abbrev pub data_type : ℕ
data_type = 0x80

-- `flags & MFT_FLAG_IN_USE == 0`
unfoldable pub record_flags : List ℕ → Result ℕ
record_flags record' = get_le 2 record' 0x16

unfoldable pub is_free : ℕ → Bool
is_free flags = bit_and flags 1 == 0

pub record_sequence : List ℕ → Result ℕ
record_sequence record' = get_le 2 record' 0x10

-- The successor of a sequence number, which is never 0.
unfoldable pub next_sequence : ℕ → ℕ
next_sequence sequence = if (sequence + 1) % 2 ^ 16 == 0 then 1 else (sequence + 1) % 2 ^ 16

pub next_sequence_for_slot : List ℕ → Result ℕ
next_sequence_for_slot slot =
    if ltb (length slot) 0x12 || not (bytes_eq (take 4 slot) file_magic)
    then ok 1
    else do sequence ← record_sequence slot; ok (next_sequence sequence)

-- The lengths in the header of a record that is in use.
unfoldable pub check_lengths : List ℕ → Result (Unit {0})
check_lengths record' = do
  bytes_used ← get_le 4 record' 0x18
  bytes_allocated ← get_le 4 record' 0x1c
  attrs_offset ← get_le 2 record' 0x14
  if ltb (length record') bytes_used || ltb (length record') bytes_allocated
      then err io
      else if ltb bytes_used attrs_offset
      then err io
      else ok tt

unfoldable pub check_record_header : List ℕ → Result (Unit {0})
check_record_header record' = do
  magic ← slice record' 0 4
  if not (bytes_eq magic file_magic)
      then ok tt
      else do flags ← record_flags record'; if is_free flags then ok tt else check_lengths record'

-- Where a record lies, from the runs of `$MFT`: `None` behind the last run.
unfoldable pub offset_in_runs : BootParams → List DataRun → ℕ → ℕ → Result (Option ℕ)
offset_in_runs params runs record_number device_bytes = do
  byte ← ok_or (checked_mul record_number params.file_record_size) io
  let vcn = byte / params.cluster_size
  let within = byte % params.cluster_size
  if params.cluster_size == 0 then fault else (elim (find_run runs vcn) [
    | none ↦ ok none
    | some run ↦ (do
      lcn ← ok_or run.lcn io
      span ← ok_or (checked_add within params.file_record_size) io
      if ltb run.length
            (vcn - run.starting_vcn + (span + (params.cluster_size - 1)) / params.cluster_size)
          then err io
          else do
            at ←
                cluster_span params lcn (vcn - run.starting_vcn) within params.file_record_size
                  device_bytes
            ok (some at))
  ])

-- The runs of the unnamed `$DATA` of a record.
unfoldable pub data_runs_of : List ℕ → Result (List DataRun)
data_runs_of record' = do
  found ← find_attribute record' data_type
  attribute ← ok_or found io
  if attribute.is_resident then err io else do
    mpo ← ok_or attribute.non_resident_mapping_pairs_offset io
    pairs ←
        slice record' (attribute.attr_offset + mpo) (attribute.attr_offset + attribute.attr_length)
    decode_runs pairs

-- The runs from record 0 as it was read. If the fixup refuses it, the records lie behind the first.
unfoldable pub offset_from_record0 : BootParams → List ℕ → ℕ → ℕ → Result (Option ℕ)
offset_from_record0 params raw record_number device_bytes =
    elim (apply_fixup_on_read raw params.bytes_per_sector) [
      | ok record0 ↦ (do
        runs ← data_runs_of record0
        offset_in_runs params runs record_number device_bytes)
      | err e ↦ ok (some (mft_record_offset params record_number))
      | fault ↦ fault
    ]

-- `runs.first()`
unfoldable pub first_run : List DataRun → Option DataRun
first_run [] = none
first_run (run ∷ runs) = some run

-- `MIRRORED`
abbrev pub mirrored : ℕ
mirrored = 4

-- The bytes to write for a record in use.
unfoldable pub change_record : BootParams → List ℕ → (List ℕ → Result (List ℕ)) → Result (List ℕ)
change_record params clean mutate = do
  flags ← record_flags clean
  if is_free flags
      then err io
      else do changed ← mutate clean; apply_fixup_on_write changed params.bytes_per_sector

module _ {D : Type 0} (dev : BlockIo D) where
  unfoldable pub read_boot_params_io : D → Result BootParams
  read_boot_params_io d = do
    boot ← ok_or (dev.read_exact_at d 0 512) io
    parse_boot_params_from_bytes boot

  unfoldable pub mft_record_offset_maybe_io : D → BootParams → ℕ → Result (Option ℕ)
  mft_record_offset_maybe_io d params record_number =
      if record_number == 0 then ok (some (mft_record_offset params 0)) else do
        raw ← ok_or (dev.read_exact_at d (mft_record_offset params 0) params.file_record_size) io
        offset_from_record0 params raw record_number (dev.size d)

  unfoldable pub mft_record_offset_io : D → BootParams → ℕ → Result ℕ
  mft_record_offset_io d params record_number = do
    found ← mft_record_offset_maybe_io d params record_number
    ok_or found io

  pub next_sequence_for_allocation_io : D → BootParams → ℕ → Result ℕ
  next_sequence_for_allocation_io d params record_number = do
    offset ← mft_record_offset_io d params record_number
    slot ← ok_or (dev.read_exact_at d offset params.file_record_size) io
    next_sequence_for_slot slot

  unfoldable pub read_mft_record_io : D → ℕ → Result (BootParams × List ℕ)
  read_mft_record_io d record_number = do
    params ← read_boot_params_io d
    offset ← mft_record_offset_io d params record_number
    buf ← ok_or (dev.read_exact_at d offset params.file_record_size) io
    clean ← apply_fixup_on_read buf params.bytes_per_sector
    check_record_header clean
    ok (params, clean)

  -- What an update does before it writes: the offset and the bytes to write there.
  unfoldable pub prepare_record : D → ℕ → (List ℕ → Result (List ℕ)) → Result (ℕ × List ℕ)
  prepare_record d record_number mutate = do
    params ← read_boot_params_io d
    found ← mft_record_offset_maybe_io d params record_number
    offset ← ok_or found io
    raw ← ok_or (dev.read_exact_at d offset params.file_record_size) io
    clean ← apply_fixup_on_read raw params.bytes_per_sector
    check_record_header clean
    block ← change_record params clean mutate
    ok (offset, block)

  -- `write_all_at(..)?; sync()?`
  unfoldable pub write_and_sync : D → ℕ → List ℕ → D × Result (Unit {0})
  write_and_sync d offset block =
      let (d1, written) = dev.write_all_at d offset block in
      let (d2, synced) = dev.sync d1 in
      if written then (d2, (if synced then ok tt else err io)) else (d1, err io)

  -- `update_mft_record_io_typed`
  unfoldable pub update_mft_record_io : D → ℕ → (List ℕ → Result (List ℕ)) → D × Result (Unit {0})
  update_mft_record_io d record_number mutate = elim (prepare_record d record_number mutate) [
    | ok (offset, block) ↦ write_and_sync d offset block
    | err e ↦ (d, err e)
    | fault ↦ (d, fault)
  ]

  -- `sync_mftmirr_record_io` up to its write: the offset in the mirror and the bytes of the record.
  unfoldable pub prepare_mirror : D → ℕ → Result (ℕ × List ℕ)
  prepare_mirror d record_number = do
    params ← read_boot_params_io d
    (p, mirr_record) ← read_mft_record_io d 1
    runs ← data_runs_of mirr_record
    first ← ok_or (first_run runs) io
    lcn ← ok_or first.lcn io
    at_in_mirror ← ok_or (checked_mul record_number params.file_record_size) io
    mirror_at ← cluster_span params lcn 0 at_in_mirror params.file_record_size (dev.size d)
    source_at ← mft_record_offset_io d params record_number
    raw ← ok_or (dev.read_exact_at d source_at params.file_record_size) io
    ok (mirror_at, raw)

  unfoldable pub sync_mftmirr_record_io : D → ℕ → D × Result (Unit {0})
  sync_mftmirr_record_io d record_number =
      if leb mirrored record_number then (d, ok tt) else (elim (prepare_mirror d record_number) [
        | ok (mirror_at, raw) ↦ write_and_sync d mirror_at raw
        | err e ↦ (d, err e)
        | fault ↦ (d, fault)
      ])
