-- ===== src/Boot.antt =====
-- The boot sector: `parse_boot_params_from_bytes` of src/mft_io.rs. `boot` has 512 bytes.
pub mod Geometry
mod Tests
use rust_fs_ntfs.Base.{
  ℕ, ◌+◌, ◌-◌, ◌*◌, ◌%◌, ◌^◌, min, Bool, true, false, not, ◌&&◌, ◌||◌, ltb, leb, ◌==◌,
  if◌then◌else◌, List, Result, ok, err, io, ◌>>=◌, ok_or, index, read_le, get_le, slice, bit_and,
}

-- `BootParams`
pub record BootParams : Type 0 where
  pub bytes_per_sector : ℕ
  pub sectors_per_cluster : ℕ
  pub cluster_size : ℕ
  pub mft_lcn : ℕ
  pub file_record_size : ℕ
  pub total_sectors : ℕ
  pub serial_number : ℕ
  pub index_block_size : ℕ
  pub oem_id : List ℕ

-- `n != 0 && n & (n - 1) == 0`, which the standard library's test of the same name is as well.
unfoldable pub is_power_of_two : ℕ → Bool
is_power_of_two n = not (n == 0) && bit_and n (n - 1) == 0

-- A byte above 0x80 is a signed exponent.
unfoldable pub sectors_of : ℕ → Result ℕ
sectors_of spc_raw =
    if ltb 0x80 spc_raw
    then (if ltb 12 (256 - spc_raw) then err io else ok (2 ^ (256 - spc_raw)))
    else (if not (is_power_of_two spc_raw) then err io else ok spc_raw)

-- The magnitude of a byte read as an `i8` that is not above 0.
abbrev pub magnitude : ℕ → ℕ
magnitude byte = if byte == 0 then 0 else 256 - byte

-- `cpmr > 0` for a byte read as an `i8`.
abbrev pub is_positive : ℕ → Bool
is_positive byte = not (byte == 0) && ltb byte 128

abbrev pub saturating_u64 : ℕ → ℕ
saturating_u64 n = min n (2 ^ 64 - 1)

unfoldable pub record_size_of : ℕ → ℕ → Result ℕ
record_size_of cpmr cluster_size =
    if is_positive cpmr
    then ok (saturating_u64 (cpmr * cluster_size))
    else (if ltb (magnitude cpmr) 64 then ok (2 ^ magnitude cpmr) else err io)

unfoldable pub index_block_size_of : ℕ → ℕ → ℕ
index_block_size_of cpib cluster_size =
    if is_positive cpib
    then saturating_u64 (cpib * cluster_size) % 2 ^ 32
    else (if not (cpib == 0) && ltb (magnitude cpib) 32
        then 2 ^ magnitude cpib
        else cluster_size % 2 ^ 32)

unfoldable pub parse_boot_params_from_bytes : List ℕ → Result BootParams
parse_boot_params_from_bytes boot = do
  bytes_per_sector ← ok_or (read_le 2 boot 0x0b) io
  if not (is_power_of_two bytes_per_sector) then err io else do
    spc_raw ← index boot 0x0d
    sectors_per_cluster ← sectors_of spc_raw
    let cluster_size = bytes_per_sector * sectors_per_cluster
    if not (is_power_of_two cluster_size) then err io else do
      mft_lcn ← get_le 8 boot 0x30
      cpmr ← index boot 0x40
      file_record_size ← record_size_of cpmr cluster_size
      if ltb file_record_size 512
            || ltb 16384 file_record_size
            || ltb file_record_size bytes_per_sector
          then err io
          else do
            cpib ← index boot 0x44
            total_sectors ← get_le 8 boot 0x28
            serial_number ← get_le 8 boot 0x48
            oem_id ← slice boot 0x03 0x0b
            ok (record {
              bytes_per_sector = bytes_per_sector;
              sectors_per_cluster = sectors_per_cluster;
              cluster_size = cluster_size;
              mft_lcn = mft_lcn;
              file_record_size = file_record_size;
              total_sectors = total_sectors;
              serial_number = serial_number;
              index_block_size = index_block_size_of cpib cluster_size;
              oem_id = oem_id;
            })

-- `mft_record_offset`
unfoldable pub mft_record_offset : BootParams → ℕ → ℕ
mft_record_offset params record_number = saturating_u64 (
    saturating_u64 (params.mft_lcn * params.cluster_size)
    + saturating_u64 (record_number * params.file_record_size))
