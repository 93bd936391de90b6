-- ===== src/Compression/Tests.antt =====
-- Tokens, back-references and small streams.
use rust_fs_ntfs.Base.{
  ℕ, ◌+◌, ◌*◌, ◌-◌, ◌^◌, ◌≤◌, ◌≡◌, ◌≢◌, inr, refl, arith, List, [], ◌∷◌, length,
}
use rust_fs_ntfs.Base.{ok, fault, index}
use rust_fs_ntfs.Compression.{split_token, copy_back, back_reference, decompress_unit}
use rust_fs_ntfs.Compression.{unit_loop, decompress_chunk, chunk_loop, group_loop, narrow_length}
use rust_fs_ntfs.Compression.Token.{IsWidth, split_token-encoded}
use rust_fs_ntfs.Compression.Copy.{Referred, back_reference-Referred}
use rust_fs_ntfs.Compression.Chunk.{ChunkSound, decompress_chunk-ChunkSound}
use rust_fs_ntfs.Compression.Stream.{
  decompress_unit-ne-fault, decompress_unit-stored, stored, joined,
}

-- One literal, and a copy of 8 bytes from 1 byte back.
run_of_nine :
    decompress_unit (3 ∷ 0xb0 ∷ 2 ∷ 65 ∷ 5 ∷ 0 ∷ []) 20
    ≡ ok (65 ∷ 65 ∷ 65 ∷ 65 ∷ 65 ∷ 65 ∷ 65 ∷ 65 ∷ 65 ∷ [])
unfolding decompress_unit unit_loop decompress_chunk chunk_loop group_loop back_reference
    split_token narrow_length copy_back index
run_of_nine = refl

twenty-IsWidth : IsWidth 20 5
twenty-IsWidth = record {
  least = omega arith;
  most = omega arith;
  reaches = omega arith;
  tight = inr (omega arith);
}

split_token-encoded_example : split_token ((7 - 1) * 2 ^ (16 - 5) + (8 - 3)) 20 ≡ ok (8, 7)
split_token-encoded_example =
    split_token-encoded 20 5 8 7 (omega arith) twenty-IsWidth (omega arith) (omega arith)
      (omega arith) (omega arith)

back_reference-Referred_example :
    Referred 1 (7 ∷ 8 ∷ 9 ∷ []) (back_reference 4098 1 (7 ∷ 8 ∷ 9 ∷ []))
back_reference-Referred_example =
    back_reference-Referred 4098 1 (7 ∷ 8 ∷ 9 ∷ []) (omega arith) (omega arith)

decompress_chunk-ChunkSound_example :
    ChunkSound 1 (9 ∷ []) (decompress_chunk (2 ∷ 65 ∷ 5 ∷ 0 ∷ []) (9 ∷ []))
decompress_chunk-ChunkSound_example = decompress_chunk-ChunkSound (2 ∷ 65 ∷ 5 ∷ 0 ∷ []) (9 ∷ [])

decompress_unit-ne-fault_example :
    (decompress_unit (3 ∷ 0xb0 ∷ 2 ∷ 65 ∷ 5 ∷ 0 ∷ []) 4 ≢ fault)
    × ((out : List ℕ)
        → decompress_unit (3 ∷ 0xb0 ∷ 2 ∷ 65 ∷ 5 ∷ 0 ∷ []) 4 ≡ ok out
        → length out ≤ 4)
decompress_unit-ne-fault_example = decompress_unit-ne-fault (3 ∷ 0xb0 ∷ 2 ∷ 65 ∷ 5 ∷ 0 ∷ []) 4

decompress_unit-stored_example :
    decompress_unit (stored ((1 ∷ 2 ∷ []) ∷ (3 ∷ []) ∷ [])) 3
    ≡ ok (joined ((1 ∷ 2 ∷ []) ∷ (3 ∷ []) ∷ []))
decompress_unit-stored_example =
    decompress_unit-stored ((1 ∷ 2 ∷ []) ∷ (3 ∷ []) ∷ []) 3
      ((omega arith, omega arith), ((omega arith, omega arith), tt)) (omega arith)
