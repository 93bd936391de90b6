-- ===== src/IdxBlock/Mapped.antt =====
-- The chunks of the device that hold an index block.
use rust_fs_ntfs.Base.{
  ℕ, zero, suc, ◌+◌, ◌-◌, ◌/◌, ◌%◌, ◌≤◌, ◌<◌, ◌≡◌, refl, sym, arith, min, inl, inr,
}
use rust_fs_ntfs.Base.{false, ◌||◌, ltb, ◌==◌, Bool-cases, if◌then◌else◌, [], ◌∷◌}
use rust_fs_ntfs.Base.{
  Option, none, some, ok, err, io, ◌>>=◌, IoOr, good, bad, >>=-IoOr, ok_or-IoOr, ok_or, checked_add,
}
use mathlib.Core.Path.{subst}
use rust_fs_ntfs.Bitmap.{volume_bytes, cluster_span, checked_mul}
use rust_fs_ntfs.Bitmap.Mapped.{IsChunkAt, Tiles, cluster_span-IoOr}
use rust_fs_ntfs.IdxBlock.{
  IndexAllocation, check_declared_block_extent, checked_sub, find_mapped, bytes_in_run, block_chunk,
  block_loop, map_indx_block,
}

bytes_in_run-IoOr :
    (run_end at size within : ℕ) → IoOr (λ n. Unit {0}) (bytes_in_run run_end at size within)
unfolding bytes_in_run
bytes_in_run-IoOr run_end at size within =
    >>=-IoOr _ _ (ok_or-IoOr (checked_sub run_end at)) (λ clusters e1.
      >>=-IoOr _ _ (ok_or-IoOr (checked_mul clusters size))
        (λ bytes e2. any (checked_sub bytes within)))
  where
    any : (o : Option ℕ) → IoOr (λ n. Unit {0}) (ok_or o io)
    any none = bad refl
    any (some n) = good n refl tt

block_chunk-IoOr :
    (ia : IndexAllocation) (vcn cursor device_bytes : ℕ)
    → cursor < ia.block_size
    → IoOr
        (IsChunkAt (min (volume_bytes ia.params) device_bytes) (ia.block_size - cursor) cursor)
        (block_chunk ia vcn cursor device_bytes)
unfolding block_chunk
block_chunk-IoOr ia vcn cursor device below =
    let size = ia.params.cluster_size in
    >>=-IoOr _ _ (ok_or-IoOr (checked_add vcn (cursor / size))) (λ logical e1.
      >>=-IoOr _ _ (ok_or-IoOr (find_mapped ia.runs logical)) (λ run e2.
        >>=-IoOr _ _ (ok_or-IoOr run.lcn) (λ lcn e3.
          >>=-IoOr _ _ (ok_or-IoOr (checked_add run.starting_vcn run.length)) (λ run_end e4.
            >>=-IoOr _ _ (bytes_in_run-IoOr run_end logical size (cursor % size)) (λ left any.
              chunk lcn (logical - run.starting_vcn) (min left (ia.block_size - cursor))
                (omega arith))))))
  where
    chunk :
        (lcn within len : ℕ)
        → len ≤ ia.block_size - cursor
        → IoOr (IsChunkAt (min (volume_bytes ia.params) device) (ia.block_size - cursor) cursor) (
            if len == 0 then err io else do
              disk_offset ←
                  cluster_span ia.params lcn within (cursor % ia.params.cluster_size) len device
              ok (record { disk_offset = disk_offset; cursor = cursor; len = len }))
    chunk lcn within len fits = elim (Bool-cases (len == 0)) [
      | inl zero_len ↦ rw zero_len (bad refl)
      | inr some_len ↦ rw some_len (
          >>=-IoOr _ _
            (cluster_span-IoOr ia.params lcn within (cursor % ia.params.cluster_size) len device)
            (λ at inside. good _ refl (record {
              from = refl;
              occupied = ground (arith, some_len);
              fits = fits;
              inside = inside;
            })))
    ]

block_loop-IoOr :
    (fuel : ℕ) (ia : IndexAllocation) (vcn cursor device_bytes : ℕ)
    → ia.block_size ≤ cursor + fuel
    → IoOr
        (Tiles (min (volume_bytes ia.params) device_bytes) cursor (ia.block_size - cursor))
        (block_loop fuel ia vcn cursor device_bytes)
unfolding block_loop
block_loop-IoOr zero ia vcn cursor device enough =
    let done : ltb cursor ia.block_size ≡ false = ground arith in
    rw done (good [] refl (omega arith))
block_loop-IoOr (suc fuel) ia vcn cursor device enough =
    elim (Bool-cases (ltb cursor ia.block_size)) [
      | inr done ↦ rw done (good [] refl (ground (arith, done)))
      | inl below ↦ rw below (
          >>=-IoOr _ _ (block_chunk-IoOr ia vcn cursor device (ground (arith, below))) (λ c here.
            >>=-IoOr _ _
              (block_loop-IoOr fuel ia vcn (cursor + c.len) device (omega (arith, here.occupied)))
              (λ chunks behind.
                let left : ia.block_size - cursor - c.len ≡ ia.block_size - (cursor + c.len) =
                  omega arith in
                good (c ∷ chunks) refl (rw left (here, behind)))))
    ]

pub check_declared_block_extent-IoOr :
    (ia : IndexAllocation) (vcn : ℕ) → IoOr (λ u. Unit {0}) (check_declared_block_extent ia vcn)
unfolding check_declared_block_extent
check_declared_block_extent-IoOr ia vcn =
    >>=-IoOr _ _ (ok_or-IoOr (checked_mul vcn ia.params.cluster_size)) (λ start e1.
      >>=-IoOr _ _ (ok_or-IoOr (checked_add start ia.block_size)) (λ end e2.
        elim (Bool-cases (ltb ia.data_length end)) [
          | inl past ↦ rw past (bad refl)
          | inr inside ↦ rw inside (good tt refl tt)
        ]))

-- Mapping an index block, whatever the runs, ends with an error or with chunks that cover the block
-- from its first to its last byte, none of them empty, each inside both the volume and the device.
pub map_indx_block-Tiles :
    (ia : IndexAllocation) (vcn device_bytes : ℕ)
    → IoOr
        (Tiles (min (volume_bytes ia.params) device_bytes) 0 ia.block_size)
        (map_indx_block ia vcn device_bytes)
unfolding map_indx_block
map_indx_block-Tiles ia vcn device =
    let whole : ia.block_size ≡ ia.block_size - 0 = omega arith in
    let loop : IoOr (Tiles (min (volume_bytes ia.params) device) 0 ia.block_size)
        (block_loop ia.block_size ia vcn 0 device) =
      subst
        (λ n.
          IoOr (Tiles (min (volume_bytes ia.params) device) 0 n)
            (block_loop ia.block_size ia vcn 0 device))
        (sym whole) (block_loop-IoOr ia.block_size ia vcn 0 device (omega arith)) in
    >>=-IoOr _ _ (check_declared_block_extent-IoOr ia vcn) (λ u any.
      elim (Bool-cases (ia.params.cluster_size == 0 || ia.block_size == 0)) [
        | inl degenerate ↦ rw degenerate (bad refl)
        | inr sized ↦ rw sized loop
      ])
