-- ===== src/Boot/Tests.antt =====
-- The boot sector of a small volume: 512-byte sectors, 8 of them in a cluster, records of 1024 bytes.
use rust_fs_ntfs.Base.{ℕ, ◌≡◌, refl, List, ◌∷◌, ◌++◌, [], replicate, ok, IoOr}
use rust_fs_ntfs.Boot.{parse_boot_params_from_bytes, sectors_of, record_size_of, is_power_of_two}
use rust_fs_ntfs.Boot.Geometry.{IsGeometry, parse_boot_params_from_bytes-IsGeometry}

abbrev boot_sector : List ℕ
boot_sector =
    replicate 11 0
    ++ (0 ∷ 2 ∷ 8 ∷ [])
    ++ replicate 26 0
    ++ (0 ∷ 1 ∷ [])
    ++ replicate 6 0
    ++ (4 ∷ [])
    ++ replicate 15 0
    ++ (246 ∷ 0 ∷ 0 ∷ 0 ∷ 1 ∷ [])
    ++ replicate 443 0

large_cluster : sectors_of 0xf4 ≡ ok 4096
unfolding sectors_of
large_cluster = refl

literal_128 : sectors_of 0x80 ≡ ok 128
unfolding sectors_of is_power_of_two
literal_128 = refl

small_record : record_size_of 246 4096 ≡ ok 1024
unfolding record_size_of
small_record = refl

parse_boot_params_from_bytes-IsGeometry_example :
    IoOr IsGeometry (parse_boot_params_from_bytes boot_sector)
parse_boot_params_from_bytes-IsGeometry_example =
    parse_boot_params_from_bytes-IsGeometry boot_sector refl
