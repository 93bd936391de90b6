-- ===== src/Bitmap/Device/Safety.antt =====
-- What an allocation or a release of src/bitmap.rs does to the device, and its panics.
use rust_fs_ntfs.Base.{ℕ, ◌+◌, ◌-◌, ◌*◌, ◌/◌, ◌^◌, ◌≤◌, ◌<◌, ◌≡◌, ◌≢◌, refl, arith, inl, inr}
use rust_fs_ntfs.Base.{Bool, true, false, ltb, ◌==◌, Bool-cases}
use rust_fs_ntfs.Base.{List, [], length, All}
use rust_fs_ntfs.Base.{Result, Kind, ok, err, fault, io, ◌>>=◌, good, bad}
use rust_fs_ntfs.Bitmap.{BitmapLocation, mutate_loop, covers_the_volumes_own, bytes_for}
use rust_fs_ntfs.DataRuns.Shape.{Contiguous}
use rust_fs_ntfs.DataRuns.Lookup.{RunEnds, Contiguous-RunEnds}
use rust_fs_ntfs.Bitmap.Mutate.{Mutated, changed, refused, mutate_loop-Mutated, length-Mutated}
use rust_fs_ntfs.Bitmap.Device.{BlockIo, read_bitmap_bytes_io}
use rust_fs_ntfs.Bitmap.Device.{
  write_bitmap_bytes_io, prepare, mutate_bits_io, allocate_io, free_io,
}
use rust_fs_ntfs.Bitmap.Device.Buffer.{
  FillsBuffer, map_bitmap_range-InBuffer, read_bitmap_bytes_io-length, write_chunks-ne-fault,
}

module _ {D : Type 0} (dev : BlockIo D) where
  -- The bits of a range, in the bytes that hold them.
  mutate_read_bytes :
      FillsBuffer dev
      → (d : D) (bm : BitmapLocation) (lcn n : ℕ) (on : Bool) → 0 < bm.params.cluster_size
      → (bytes : List ℕ)
      → read_bitmap_bytes_io dev d bm (lcn / 8) (bytes_for (lcn + n) - lcn / 8) ≡ ok bytes
      → Mutated bytes (lcn - lcn / 8 * 8) n on (mutate_loop n (lcn - lcn / 8 * 8) on bytes)
  mutate_read_bytes fills d bm lcn n on pos bytes e =
      let size =
        (read_bitmap_bytes_io-length dev fills d bm (lcn / 8) (bytes_for (lcn + n) - lcn / 8) pos).1
          bytes e in
      mutate_loop-Mutated n (lcn - lcn / 8 * 8) on bytes (omega (arith, size))

  -- What `prepare` may give: the bytes before, as they were read, and the bytes with the range
  -- changed; or an error.
  pub data Prepared (d : D) (bm : BitmapLocation) (lcn n : ℕ) (on : Bool)
      (r : Result (List ℕ × List ℕ)) : Type 0 where
    ready :
        (bytes before : List ℕ)
        → r ≡ ok (bytes, before)
        → lcn + n ≤ bm.total_bits
        → read_bitmap_bytes_io dev d bm (lcn / 8) (bytes_for (lcn + n) - lcn / 8) ≡ ok before
        → Mutated before (lcn - lcn / 8 * 8) n on (ok bytes)
        → Prepared d bm lcn n on r
    unready : (e : Kind) → r ≡ err e → Prepared d bm lcn n on r

  prepare_after_read :
      FillsBuffer dev
      → (d : D) (bm : BitmapLocation) (lcn n : ℕ) (on : Bool) → 0 < bm.params.cluster_size
      → lcn + n ≤ bm.total_bits
      → (r : Result (List ℕ))
      → read_bitmap_bytes_io dev d bm (lcn / 8) (bytes_for (lcn + n) - lcn / 8) ≡ r
      → Prepared d bm lcn n on (
          r >>= λ bytes.
          mutate_loop n (lcn - lcn / 8 * 8) on bytes >>= λ bytes'. ok (bytes', bytes))
  prepare_after_read fills d bm lcn n on pos inside (ok bytes) e =
      elim (mutate_read_bytes fills d bm lcn n on pos bytes e) [
        | changed bytes' e' len flips keeps ↦
            rw e' (ready bytes' bytes refl inside e (changed bytes' refl len flips keeps))
        | refused i e' lo hi taken ↦ rw e' (unready io refl)
      ]
  prepare_after_read fills d bm lcn n on pos inside (err k) e = unready k refl
  prepare_after_read fills d bm lcn n on pos inside fault e = absurd (
      (read_bitmap_bytes_io-length dev fills d bm (lcn / 8) (bytes_for (lcn + n) - lcn / 8) pos).0
        e)

  prepare-Prepared :
      FillsBuffer dev
      → (d : D) (bm : BitmapLocation) (lcn n : ℕ) (on : Bool) → 0 < bm.params.cluster_size
      → Prepared d bm lcn n on (prepare dev d bm lcn n on)
  unfolding prepare
  prepare-Prepared fills d bm lcn n on pos = elim (Bool-cases (ltb (lcn + n) (2 ^ 64))) [
    | inr wraps ↦ rw wraps (unready io refl)
    | inl sum ↦ rw sum (elim (Bool-cases (ltb bm.total_bits (lcn + n))) [
      | inl past ↦ rw past (unready io refl)
      | inr inside ↦
          rw inside (prepare_after_read fills d bm lcn n on pos (ground (arith, inside)) _ refl)
    ])
  ]

  -- What `mutate_bits_io` may do: nothing, with an error or for an empty range; or hand the bytes
  -- with the range changed, and the bytes before, to the write.
  pub data Outcome (d : D) (bm : BitmapLocation) (lcn n : ℕ) (on : Bool) (r : D × Result (Unit {0}))
      : Type 0 where
    nothing : n ≡ 0 → r ≡ (d, ok tt) → Outcome d bm lcn n on r
    untouched : (e : Kind) → r ≡ (d, err e) → Outcome d bm lcn n on r
    written :
        (bytes before : List ℕ)
        → r ≡ write_bitmap_bytes_io dev d bm (lcn / 8) bytes before
        → lcn + n ≤ bm.total_bits
        → read_bitmap_bytes_io dev d bm (lcn / 8) (bytes_for (lcn + n) - lcn / 8) ≡ ok before
        → Mutated before (lcn - lcn / 8 * 8) n on (ok bytes)
        → Outcome d bm lcn n on r

  -- On a device whose reads fill the buffer, and with a cluster size above 0, a change of the bits
  -- of a range leaves the device alone (for an empty range, or with an error), or it writes the
  -- bytes that hold the range: those were read, all of the range had the other value, and the
  -- bytes written differ from them in exactly the range.
  pub mutate_bits_io-Outcome :
      FillsBuffer dev
      → (d : D) (bm : BitmapLocation) (lcn n : ℕ) (on : Bool) → 0 < bm.params.cluster_size
      → Outcome d bm lcn n on (mutate_bits_io dev d bm lcn n on)
  unfolding mutate_bits_io
  mutate_bits_io-Outcome fills d bm lcn n on pos = elim (Bool-cases (n == 0)) [
    | inl empty ↦ rw empty (nothing (ground (arith, empty)) refl)
    | inr some_bits ↦ rw some_bits (elim (prepare-Prepared fills d bm lcn n on pos) [
      | ready bytes before e inside read m ↦ rw e (written bytes before refl inside read m)
      | unready k e ↦ rw e (untouched k refl)
    ])
  ]

  write_bitmap_bytes_io-ne-fault :
      (d : D) (bm : BitmapLocation) (start : ℕ) (bytes before : List ℕ)
      → 0 < bm.params.cluster_size
      → length bytes ≡ length before
      → (write_bitmap_bytes_io dev d bm start bytes before).1 ≢ fault
  unfolding write_bitmap_bytes_io
  write_bitmap_bytes_io-ne-fault d bm start bytes before pos same =
      let equal : (length bytes == length before) ≡ true = ground (arith, same) in
      rw (equal, write_bitmap_bytes_io)
        (elim (map_bitmap_range-InBuffer bm start (length bytes) (dev.size d) pos) [
          | bad wrong ↦ rw (wrong, write_bitmap_bytes_io) (λ q. cc)
          | good chunks mapped inside ↦
              rw (mapped, write_bitmap_bytes_io)
                (write_chunks-ne-fault dev d [] chunks bytes before same tt (rw (← same) inside))
        ])

  -- On a device whose reads fill the buffer, with a cluster size above 0 and runs of the bitmap that
  -- are contiguous: no run ends behind 2^64, and neither an allocation nor a release panics, whatever
  -- the range.
  pub mutate_bits_io-ne-fault :
      FillsBuffer dev
      → (d : D) (bm : BitmapLocation) (lcn n : ℕ) → 0 < bm.params.cluster_size
      → Contiguous 0 bm.runs
      → All RunEnds bm.runs
        × ((allocate_io dev d bm lcn n).1 ≢ fault)
        × ((free_io dev d bm lcn n).1 ≢ fault)
  unfolding allocate_io free_io
  mutate_bits_io-ne-fault fills d bm lcn n pos contiguous = (
    Contiguous-RunEnds 0 bm.runs contiguous,
    changes true,
    elim (Bool-cases (covers_the_volumes_own bm lcn n)) [
      | inl own ↦ rw own (λ e. cc)
      | inr other ↦ rw other (changes false)
    ],
  )
    where
      changes : (on : Bool) → (mutate_bits_io dev d bm lcn n on).1 ≢ fault
      changes on = elim (mutate_bits_io-Outcome fills d bm lcn n on pos) [
        | nothing e r ↦ rw r (λ q. cc)
        | untouched k r ↦ rw r (λ q. cc)
        | written bytes before r inside read m ↦
            rw r (write_bitmap_bytes_io-ne-fault d bm (lcn / 8) bytes before pos (length-Mutated m))
      ]
