-- ===== src/EaIo/Tests.antt =====
-- A list of two attributes.
use rust_fs_ntfs.EaIo.{read_from_record}
use rust_fs_ntfs.EaIo.Record.{read_from_record-ne-fault}
use rust_fs_ntfs.Base.{ℕ, ◌%◌, ◌≡◌, ◌≢◌, refl, arith, true, ◌↔◌, if◌then◌else◌}
use rust_fs_ntfs.Base.{List, [], ◌∷◌, length, some, none, ok, fault}
use rust_fs_ntfs.EaIo.{Ea, encode, decode, upsert, remove_by_name, eq_ignore_ascii_case}
use rust_fs_ntfs.EaIo.{count_need_ea, packed_ea_length, packed_loop}
use rust_fs_ntfs.EaIo.RoundTrip.{encode-decode}
use rust_fs_ntfs.EaIo.Names.{lookup, lookup-upsert, remove_by_name-lookup}

abbrev two_eas : List Ea
two_eas =
    record { flags = 0; name = b'A' ∷ []; value = 1 ∷ 2 ∷ 3 ∷ [] }
    ∷ record { flags = 0x80; name = b'B' ∷ b'C' ∷ []; value = [] }
    ∷ []

abbrev lower_ea : Ea
lower_ea = record { flags = 1; name = b'a' ∷ []; value = 9 ∷ [] }

count_two : count_need_ea two_eas ≡ 1
unfolding count_need_ea
count_two = refl

packed_two : packed_ea_length two_eas ≡ ok 16
unfolding packed_ea_length packed_loop
packed_two = refl

encode-decode_example :
    (bytes : List ℕ) × (encode two_eas ≡ ok bytes)
    × (decode bytes ≡ ok two_eas)
    × (length bytes % 4 ≡ 0)
encode-decode_example =
    encode-decode two_eas ((omega arith, omega arith), ((omega arith, omega arith), tt))

lookup-upsert_example : lookup (upsert two_eas lower_ea) (b'A' ∷ []) ≡ (
    if eq_ignore_ascii_case (b'a' ∷ []) (b'A' ∷ [])
    then some lower_ea
    else lookup two_eas (b'A' ∷ []))
lookup-upsert_example = lookup-upsert two_eas lower_ea (b'A' ∷ [])

remove_by_name-lookup_example :
    let (left, removed) = remove_by_name two_eas (b'b' ∷ b'c' ∷ []) in
    ((other : List ℕ)
      → lookup left other
        ≡ (if eq_ignore_ascii_case (b'b' ∷ b'c' ∷ []) other then none else lookup two_eas other))
    × ((removed ≡ true) ↔ (lookup two_eas (b'b' ∷ b'c' ∷ []) ≢ none))
remove_by_name-lookup_example = remove_by_name-lookup two_eas (b'b' ∷ b'c' ∷ [])

read_from_record-ne-fault_example : read_from_record (1 ∷ 2 ∷ 3 ∷ []) ≢ fault
read_from_record-ne-fault_example = read_from_record-ne-fault (1 ∷ 2 ∷ 3 ∷ [])
