-- ===== src/Lib.antt =====
-- rust_fs_ntfs: the on-disk formats and the allocator of the NTFS driver.
--
-- The driver reads a volume through a block device (src/block_io.rs). An MFT record, found
-- through the geometry of the boot sector and the runs of $MFT, is restored by its update
-- sequence (src/mft_io.rs), walked as a list of attributes (src/attr_io.rs) and changed in place
-- (src/attr_resize.rs), and a non-resident attribute's mapping pairs are decoded to runs
-- (src/data_runs.rs), which say where its clusters are. Over those lie compressed data
-- (src/compression.rs), sparse writes (src/sparse.rs), extended attributes (src/ea_io.rs), the
-- index blocks of a directory (src/idx_block.rs), whose entries are ordered by the collation of
-- names (src/upcase.rs), and the cluster allocator on $Bitmap (src/bitmap.rs), which maps its
-- bytes through the runs of $Bitmap. A new volume has the stream of security descriptors
-- (src/sds.rs).
--
-- Files and what they model, with the functions under their names in the source:
--   Base         bytes, integers and results that all parts share. Kind is the enumeration of
--                src/error.rs; a Result is a value, an error's kind, or a fault, which is a panic
--                of the source or a loop that ran out of fuel.
--   DataRuns     decode_runs, encode_runs, vcn_to_lcn, signed_bytes_needed and
--                range_has_hole_or_past_end of src/data_runs.rs.
--   Fixup        apply_fixup_on_read_magic and apply_fixup_on_write_magic of src/mft_io.rs.
--   Boot         BootParams, parse_boot_params_from_bytes and mft_record_offset of src/mft_io.rs.
--   Mft          records on the device: read_mft_record_io, update_mft_record_io_typed,
--                mft_record_offset_io and sync_mftmirr_record_io of src/mft_io.rs, over the
--                device of Bitmap/Device.
--   Compression  decompress_unit, decompress_chunk and split_token of src/compression.rs.
--   Sparse       plan_sparse_segments, allocated_clusters and build_runs of src/sparse.rs.
--   EaIo         encode, decode, read_from_record and the list operations of src/ea_io.rs.
--   AttrIo       the iterator over the attributes of a record of src/attr_io.rs.
--   AttrResize   resize_resident_value_typed, set_resident_value_typed, replace_attribute,
--                insert_attribute_sorted_typed and allocate_attribute_id of src/attr_resize.rs.
--   IdxBlock     index blocks of a directory: src/idx_block.rs, over the device of Bitmap/Device.
--                What its theorems ask of a device's bytes is IsFaithful in
--                Bitmap/Device/Contents.
--   Upcase       the folding and the comparison of names of src/upcase.rs.
--   Sds          sdh_hash, write_one_entry and build_sds of src/sds.rs.
--   Bitmap       mapping, bits, allocation, release, search and count of src/bitmap.rs, with
--                cluster_span of src/mft_io.rs. Bitmap/Device takes the device, BlockIo of
--                src/block_io.rs, as a parameter. Of a device it is assumed only that a read
--                fills its buffer or, for IdxBlock and Mft, that it keeps what is written and
--                that a write changes no byte beside its range.
--
-- Bytes are native numbers, a slice is a list, and a cursor is an index or the list from there
-- on. Integers are numbers with the bound of their Rust type tested where the source tests it,
-- and i64 is an integer over the native numbers. A sum of u64s that the source does not check,
-- and that can reach 2^64, is written modulo 2^64, as a release build computes it; a theorem
-- whose claim depends on it has the bound as a condition, so that it holds where overflow panics
-- as well; the other theorems speak of the release build. State that the source changes in place,
-- as a record or a device, is taken and given back.
--
-- Loops are recursive on a list, on a counter, or on fuel. The fuel is the length of the input,
-- or the number of clusters, since a round takes a byte or a cluster at least; running out is a
-- fault, so that a theorem that excludes faults shows that the fuel is enough.
--
-- Not modelled: error messages; the rest of src/mft_io.rs, src/attr_io.rs and src/bitmap.rs
-- (restore_mft_record_io, the functions on a path, attribute names, locating $Bitmap);
-- directories, the journal, formatting, checking, the write operations and the C interface.
pub mod Base
pub mod DataRuns
pub mod Fixup
pub mod Boot
pub mod IdxBlock
pub mod Compression
pub mod Sparse
pub mod Bitmap
pub mod AttrIo
pub mod Mft
pub mod AttrResize
pub mod EaIo
pub mod Upcase
pub mod Sds
