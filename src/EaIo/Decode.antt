-- ===== src/EaIo/Decode.antt =====
-- `decode` on any bytes.
use rust_fs_ntfs.Base.{ℕ, zero, suc, ◌+◌, ◌≤◌, ◌≡◌, ◌≢◌, arith, inl, inr}
use rust_fs_ntfs.Base.{false, ltb, leb, ◌==◌, Bool-cases, ◌||◌}
use rust_fs_ntfs.Base.{List, length, drop, length-drop, fault}
use rust_fs_ntfs.Base.{index_lem, slice_lem, read_le_lem, >>=-ne-fault, byte_at, from_le, take}
use rust_fs_ntfs.EaIo.{decode, decode_loop, decode_entry}

decode_entry-ne-fault : (bytes : List ℕ) → 8 ≤ length bytes → decode_entry bytes ≢ fault
unfolding decode_entry
decode_entry-ne-fault bytes h =
    let next = read_le_lem 4 bytes 0 (omega arith) in
    let size = read_le_lem 2 bytes 6 (omega arith) in
    let flags = index_lem bytes 4 (omega arith) in
    let name_len = index_lem bytes 5 (omega arith) in
    let n = byte_at bytes 5 in
    let v = from_le (take 2 (drop 6 bytes)) in
    elim (Bool-cases (ltb (length bytes) (8 + n + 1 + v))) [
      | inl past ↦ rw (next, flags, name_len, size, past) (λ e. cc)
      | inr inside ↦
          let name = slice_lem bytes 8 (8 + n) (omega arith) (ground (arith, inside)) in
          let value =
            slice_lem bytes (8 + n + 1) (8 + n + 1 + v) (omega arith) (ground (arith, inside)) in
          rw (next, flags, name_len, size, inside, name, value) (λ e. cc)
    ]

decode_loop-ne-fault :
    (fuel : ℕ) (bytes : List ℕ) → length bytes ≤ fuel → decode_loop fuel bytes ≡ fault → ⊥
unfolding decode_loop
decode_loop-ne-fault zero bytes f =
    let short : leb 8 (length bytes) ≡ false = ground arith in rw short (λ e. cc)
decode_loop-ne-fault (suc fuel) bytes f = elim (Bool-cases (leb 8 (length bytes))) [
  | inr short ↦ rw short (λ e. cc)
  | inl long ↦ rw long (
      >>=-ne-fault (decode_entry bytes) _ (decode_entry-ne-fault bytes (ground (arith, long)))
        (λ (ea, next) read. elim (Bool-cases (next == 0)) [
          | inl last ↦ rw last (λ e. cc)
          | inr more ↦ elim (Bool-cases (ltb next 8 || ltb (length bytes) next)) [
            | inl bad ↦ rw (more, bad) (λ e. cc)
            | inr good ↦
                rw (more, good)
                  (>>=-ne-fault (decode_loop fuel (drop next bytes)) _
                    (decode_loop-ne-fault fuel (drop next bytes)
                      (ground (arith, good, more, length-drop next bytes)))
                    (λ eas rest e. cc))
          ]
        ]))
]

-- `decode` ends on every input with a list or an error: it never reads or slices out of range.
pub decode-ne-fault : (bytes : List ℕ) → decode bytes ≢ fault
unfolding decode
decode-ne-fault bytes = decode_loop-ne-fault (length bytes) bytes (omega arith)
