-- ===== src/Boot/Geometry.antt =====
-- What the checks of the boot sector in src/mft_io.rs guarantee of the geometry.
use rust_fs_ntfs.Base.{
  ℕ, ◌+◌, ◌-◌, ◌*◌, ◌^◌, ◌≤◌, ◌<◌, ◌≡◌, refl, arith, true, ◌||◌, ltb, Bool-cases, inl, inr,
  if◌then◌else◌, List, length,
}
use rust_fs_ntfs.Base.{
  ok, err, io, ◌>>=◌, IoOr, good, bad, >>=-IoOr, ok_or-IoOr, index, index_lem, get_le, get_le_lem,
  slice, slice_lem, bytes_between, length-bytes_between, byte_at, read_le,
}
use native.Mathlib.Nat.{one-le-pow, pow-le-pow_right}
use rust_fs_ntfs.Boot.{
  BootParams, is_power_of_two, sectors_of, magnitude, is_positive, record_size_of,
  index_block_size_of, parse_boot_params_from_bytes,
}

-- The geometry of a volume whose boot sector is accepted.
pub record IsGeometry (p : BootParams) : Type 0 where
  pub sector : is_power_of_two p.bytes_per_sector ≡ true
  pub sectors_low : 1 ≤ p.sectors_per_cluster
  pub sectors_high : p.sectors_per_cluster ≤ 4096
  pub cluster : p.cluster_size ≡ p.bytes_per_sector * p.sectors_per_cluster
  pub cluster_power : is_power_of_two p.cluster_size ≡ true
  pub some_sector : 1 ≤ p.bytes_per_sector
  pub some_cluster : 1 ≤ p.cluster_size
  pub record_low : 512 ≤ p.file_record_size
  pub record_high : p.file_record_size ≤ 16384
  pub stride : p.bytes_per_sector ≤ p.file_record_size
  pub oem_size : length p.oem_id ≡ 8

power_positive : (n : ℕ) → is_power_of_two n ≡ true → 1 ≤ n
unfolding is_power_of_two
power_positive n e = ground (arith, e)

-- A power of two with an exponent of at most twelve.
small_power : (e : ℕ) → e ≤ 12 → (1 ≤ 2 ^ e) × (2 ^ e ≤ 4096)
small_power e h =
    (one-le-pow e 2 (omega arith), pow-le-pow_right {n = 2} (omega arith) {i = e} {j = 12} h)

sectors_of-IoOr : (spc_raw : ℕ) → IoOr (λ n. (1 ≤ n) × (n ≤ 4096)) (sectors_of spc_raw)
unfolding sectors_of
sectors_of-IoOr spc_raw = elim (Bool-cases (ltb 0x80 spc_raw)) [
  | inl signed ↦ elim (Bool-cases (ltb 12 (256 - spc_raw))) [
    | inl large ↦ rw (signed, large) (bad refl)
    | inr small ↦
        rw (signed, small)
          (good (2 ^ (256 - spc_raw)) refl (small_power (256 - spc_raw) (ground (arith, small))))
  ]
  | inr literal ↦ elim (Bool-cases (is_power_of_two spc_raw)) [
    | inl power ↦
        rw (literal, power)
          (good spc_raw refl (power_positive spc_raw power, ground (arith, literal)))
    | inr other ↦ rw (literal, other) (bad refl)
  ]
]

record_size_of-IoOr :
    (cpmr cluster_size : ℕ) → IoOr (λ n. Unit {0}) (record_size_of cpmr cluster_size)
unfolding record_size_of
record_size_of-IoOr cpmr cluster_size = elim (Bool-cases (is_positive cpmr)) [
  | inl clusters ↦ rw clusters (good _ refl tt)
  | inr exponent ↦ elim (Bool-cases (ltb (magnitude cpmr) 64)) [
    | inl small ↦ rw (exponent, small) (good _ refl tt)
    | inr large ↦ rw (exponent, large) (bad refl)
  ]
]

-- A byte and a field of the boot sector are there.
byte_there : (boot : List ℕ) (i : ℕ) → i < length boot → IoOr (λ b. Unit {0}) (index boot i)
byte_there boot i h = good (byte_at boot i) (index_lem boot i h) tt

field_there : (boot : List ℕ) (i : ℕ) → i + 8 ≤ length boot → IoOr (λ n. Unit {0}) (get_le 8 boot i)
field_there boot i h = good _ (get_le_lem 8 boot i h) tt

oem_there : (boot : List ℕ) → 0x0b ≤ length boot → IoOr (λ b. length b ≡ 8) (slice boot 0x03 0x0b)
oem_there boot h =
    good (bytes_between boot 0x03 0x0b) (slice_lem boot 0x03 0x0b (omega arith) h)
      (length-bytes_between boot 0x03 0x0b (omega arith) h)

-- The rest of the parsing, behind the check of the cluster.
rest-IsGeometry :
    (boot : List ℕ)
    → length boot ≡ 512
    → (bps spc : ℕ) → is_power_of_two bps ≡ true
    → 1 ≤ spc
    → spc ≤ 4096
    → is_power_of_two (bps * spc) ≡ true
    → IoOr IsGeometry (do
      mft_lcn ← get_le 8 boot 0x30
      cpmr ← index boot 0x40
      file_record_size ← record_size_of cpmr (bps * spc)
      if ltb file_record_size 512 || ltb 16384 file_record_size || ltb file_record_size bps
          then err io
          else do
            cpib ← index boot 0x44
            total_sectors ← get_le 8 boot 0x28
            serial_number ← get_le 8 boot 0x48
            oem_id ← slice boot 0x03 0x0b
            ok (record {
              bytes_per_sector = bps;
              sectors_per_cluster = spc;
              cluster_size = bps * spc;
              mft_lcn = mft_lcn;
              file_record_size = file_record_size;
              total_sectors = total_sectors;
              serial_number = serial_number;
              index_block_size = index_block_size_of cpib (bps * spc);
              oem_id = oem_id;
            }))
rest-IsGeometry boot size bps spc power lo hi cluster =
    >>=-IoOr _ _ (field_there boot 0x30 (omega arith)) (λ mft_lcn e2.
      >>=-IoOr _ _ (byte_there boot 0x40 (omega arith)) (λ cpmr e3.
        >>=-IoOr _ _ (record_size_of-IoOr cpmr (bps * spc)) (λ frs e4.
          elim (Bool-cases (ltb frs 512 || ltb 16384 frs || ltb frs bps)) [
            | inl implausible ↦ rw implausible (bad refl)
            | inr plausible ↦ rw plausible (
                >>=-IoOr _ _ (byte_there boot 0x44 (omega arith)) (λ cpib e5.
                  >>=-IoOr _ _ (field_there boot 0x28 (omega arith)) (λ total_sectors e6.
                    >>=-IoOr _ _ (field_there boot 0x48 (omega arith)) (λ serial_number e7.
                      >>=-IoOr _ _ (oem_there boot (omega arith)) (λ oem_id e8.
                        good _ refl (record {
                          sector = power;
                          sectors_low = lo;
                          sectors_high = hi;
                          cluster = refl;
                          cluster_power = cluster;
                          some_sector = power_positive bps power;
                          some_cluster = power_positive (bps * spc) cluster;
                          record_low = ground (arith, plausible);
                          record_high = ground (arith, plausible);
                          stride = ground (arith, plausible);
                          oem_size = e8;
                        }))))))
          ])))

-- The parsing of a boot sector of 512 bytes ends with an error or with a sound geometry: the sector
-- and the cluster are powers of two above 0, the cluster is 1 to 4096 sectors, and a file record has
-- 512 to 16384 bytes and is no smaller than a sector.
pub parse_boot_params_from_bytes-IsGeometry :
    (boot : List ℕ) → length boot ≡ 512 → IoOr IsGeometry (parse_boot_params_from_bytes boot)
unfolding parse_boot_params_from_bytes
parse_boot_params_from_bytes-IsGeometry boot size =
    >>=-IoOr _ _ (ok_or-IoOr (read_le 2 boot 0x0b)) (λ bps e0.
      elim (Bool-cases (is_power_of_two bps)) [
        | inr other ↦ rw other (bad refl)
        | inl power ↦ rw power (
            >>=-IoOr _ _ (byte_there boot 0x0d (omega arith)) (λ spc_raw e1.
              >>=-IoOr _ _ (sectors_of-IoOr spc_raw) (λ spc (lo, hi).
                elim (Bool-cases (is_power_of_two (bps * spc))) [
                  | inr other ↦ rw other (bad refl)
                  | inl cluster ↦ rw cluster (rest-IsGeometry boot size bps spc power lo hi cluster)
                ])))
      ])
