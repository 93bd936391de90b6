-- ===== src/Bitmap/Count.antt =====
-- The count of free clusters and the reading of a range: `count_free_io` and `read_range_io` of
-- src/bitmap.rs.
use rust_fs_ntfs.Base.{
  ℕ, zero, suc, ◌+◌, ◌-◌, ◌/◌, ◌%◌, ◌^◌, ◌≤◌, ◌<◌, ◌≡◌, ◌≢◌, arith, min, inl, inr, false, ltb,
  Bool-cases, if◌then◌else◌,
}
use rust_fs_ntfs.Base.{
  List, [], ◌∷◌, Result, ok, err, fault, io, ◌>>=◌, >>=-ne-fault, >>=-eq-ok, via, ok-injective,
}
use rust_fs_ntfs.Bitmap.{BitmapLocation, bit_is_set, bytes_for}
use rust_fs_ntfs.Bitmap.Device.{BlockIo, read_bitmap_bytes_io}
use rust_fs_ntfs.Bitmap.Device.Buffer.{FillsBuffer, read_bitmap_bytes_io-length}

-- `u8::count_ones`, over the bits below `left`.
pub ones_below : ℕ → ℕ → ℕ
ones_below zero byte = 0
ones_below (suc left) byte = (if bit_is_set byte left then 1 else 0) + ones_below left byte

-- `bytes.iter().map(|b| b.count_ones() as u64).sum::<u64>()`
pub count_ones : List ℕ → ℕ
count_ones [] = 0
count_ones (b ∷ bytes) = ones_below 8 b + count_ones bytes

module _ {D : Type 0} (dev : BlockIo D) where
  -- `while at < total_bytes`, in chunks of 64 KiB. Each round takes a byte at least.
  pub count_loop : ℕ → D → BitmapLocation → ℕ → ℕ → ℕ → Result ℕ
  count_loop zero d bm at total_bytes set = if ltb at total_bytes then fault else ok set
  count_loop (suc fuel) d bm at total_bytes set =
      let n = min 65536 (total_bytes - at) in
      let round = (do
        bytes ← read_bitmap_bytes_io dev d bm at n
        count_loop fuel d bm (at + n) total_bytes (set + count_ones bytes)) in
      if ltb at total_bytes then round else ok set

  -- `saturating_sub` is the subtraction of the natural numbers.
  pub count_free_io : D → BitmapLocation → Result ℕ
  count_free_io d bm =
      let total_bytes = min bm.value_length (bytes_for bm.total_bits) in
      do set ← count_loop total_bytes d bm 0 total_bytes 0; ok (bm.total_bits - set)

  pub read_range_io : D → BitmapLocation → ℕ → ℕ → Result (List ℕ)
  read_range_io d bm start nbits =
      if ltb bm.total_bits ((start + nbits) % 2 ^ 64)
      then err io
      else read_bitmap_bytes_io dev d bm (start / 8)
          (bytes_for ((start + nbits) % 2 ^ 64) - start / 8)

  count_loop-ne-fault :
      FillsBuffer dev
      → (fuel : ℕ) (d : D) (bm : BitmapLocation) (at total_bytes set : ℕ)
      → 0 < bm.params.cluster_size
      → total_bytes ≤ at + fuel
      → count_loop fuel d bm at total_bytes set ≢ fault
  unfolding count_loop
  count_loop-ne-fault fills zero d bm at total set pos f =
      let done : ltb at total ≡ false = ground arith in rw done (λ e. cc)
  count_loop-ne-fault fills (suc fuel) d bm at total set pos f =
      let n = min 65536 (total - at) in
      elim (Bool-cases (ltb at total)) [
        | inr done ↦ rw done (λ e. cc)
        | inl below ↦ rw below (
            >>=-ne-fault (read_bitmap_bytes_io dev d bm at n) _
              (read_bitmap_bytes_io-length dev fills d bm at n pos).0
              (λ bytes e.
                count_loop-ne-fault fills fuel d bm (at + n) total (set + count_ones bytes) pos
                  (ground (arith, below))))
      ]

  -- On a device whose reads fill the buffer, and with a cluster size above 0, counting the free
  -- clusters ends without a panic, and the count is at most the number of clusters.
  pub count_free_io-bounded :
      FillsBuffer dev
      → (d : D) (bm : BitmapLocation) → 0 < bm.params.cluster_size
      → (count_free_io d bm ≢ fault)
        × ((free : ℕ) → count_free_io d bm ≡ ok free → free ≤ bm.total_bits)
  unfolding count_free_io
  count_free_io-bounded fills d bm pos =
      let total_bytes = min bm.value_length (bytes_for bm.total_bits) in
      let loop = count_loop total_bytes d bm 0 total_bytes 0 in
      (
        >>=-ne-fault loop _
            (count_loop-ne-fault fills total_bytes d bm 0 total_bytes 0 pos (omega arith))
            (λ set e q. cc),
        λ free e. elim (>>=-eq-ok loop _ e) [
          | via set e1 e2 ↦ rw (← ok-injective e2) (omega arith)
        ],
      )
