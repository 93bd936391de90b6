-- ===== src/Sds/Tests.antt =====
-- Two small descriptors.
use rust_fs_ntfs.Base.{◌≤◌, ◌≡◌, refl, List, [], ◌∷◌, arith}
use rust_fs_ntfs.Sds.{
  SdEntry, sds_mirror_gap, align_to_16, sds_entry_total_len, sdh_hash, hash_loop, hash_step,
  build_sds,
}
use rust_fs_ntfs.Sds.Write.{IsEntry}
use rust_fs_ntfs.Sds.Mirror.{total_size, AllAt, Built, build_sds-Built}

abbrev two_entries : List SdEntry
two_entries =
    record { security_id = 0x100; sd = 1 ∷ 2 ∷ 3 ∷ 4 ∷ 5 ∷ [] }
    ∷ record { security_id = 0x101; sd = 9 ∷ [] }
    ∷ []

hash_small : sdh_hash (1 ∷ 2 ∷ 3 ∷ 4 ∷ 5 ∷ []) ≡ 538447885
unfolding sdh_hash hash_loop hash_step
hash_small = refl

entries_fit : total_size two_entries ≤ sds_mirror_gap
unfolding total_size sds_entry_total_len align_to_16
entries_fit = omega arith

each_fits : AllAt IsEntry 0 two_entries
unfolding AllAt sds_entry_total_len align_to_16
each_fits = (
  record { named = omega arith; short = omega arith },
  (record { named = omega arith; short = omega arith }, tt),
)

build_sds-Built_example : Built two_entries (build_sds two_entries)
build_sds-Built_example = build_sds-Built two_entries entries_fit each_fits
