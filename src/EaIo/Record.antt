-- ===== src/EaIo/Record.antt =====
-- `read_from_record` on any record: the slice that it takes is one that the iterator has checked.
use rust_fs_ntfs.Base.{ℕ, ◌+◌, ◌≢◌, arith}
use rust_fs_ntfs.Base.{List, fault, slice_lem}
use rust_fs_ntfs.AttrIo.Found.{absent, present, find_attribute-FoundIn}
use rust_fs_ntfs.AttrIo.Located.{resident, mapped}
use rust_fs_ntfs.EaIo.{read_from_record}
use rust_fs_ntfs.EaIo.Decode.{decode-ne-fault}

-- Reading the extended attributes of a record of any bytes never panics: it gives a list or an
-- error.
pub read_from_record-ne-fault : (bytes : List ℕ) → read_from_record bytes ≢ fault
unfolding read_from_record
read_from_record-ne-fault bytes =
    let (r, e, fits, f) = find_attribute-FoundIn bytes 0xe0 in
    rw e (elim f [
      | absent a ↦ rw a (λ q. cc)
      | present cursor loc a h v ↦ rw a (elim v [
        | mapped offset len form p1 p2 b1 b2 ↦ rw form (λ q. cc)
        | resident offset len form p1 p2 b1 b2 ↦
            let start = loc.attr_offset + offset in
            let inside =
              slice_lem bytes start (start + len) (omega arith)
                (omega (arith, fits, b2, h.inside, h.at_cursor)) in
            rw (form, p1, p2, inside) (decode-ne-fault _)
      ])
    ])
