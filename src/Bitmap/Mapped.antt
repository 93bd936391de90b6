-- ===== src/Bitmap/Mapped.antt =====
-- The chunks of the device that hold a byte range of `$Bitmap`.
use rust_fs_ntfs.Base.{
  ℕ, zero, suc, ◌+◌, ◌-◌, ◌/◌, ◌%◌, ◌^◌, ◌≤◌, ◌<◌, ◌≡◌, ◌≢◌, refl, arith, min, inl, inr,
}
use rust_fs_ntfs.Base.{false, ltb, ◌==◌, Bool-cases, List, [], ◌∷◌, All}
use rust_fs_ntfs.Base.{
  some, ok, fault, IoOr, good, bad, >>=-IoOr, ok_or-IoOr, ok-injective, checked_add, checked_add-eq,
}
use rust_fs_ntfs.Boot.{BootParams}
use rust_fs_ntfs.DataRuns.Shape.{Contiguous}
use rust_fs_ntfs.DataRuns.Lookup.{RunEnds, Contiguous-RunEnds}
use rust_fs_ntfs.Bitmap.{BitmapLocation, MappedChunk, volume_bytes, cluster_span, checked_mul}
use rust_fs_ntfs.Bitmap.{find_run, remaining_after, map_chunk, map_loop, map_bitmap_range}

-- A transfer that is granted lies inside the volume and inside the device.
pub cluster_span-IoOr :
    (params : BootParams) (lcn within_run byte_offset len device_bytes : ℕ)
    → IoOr
        (λ at. at + len ≤ min (volume_bytes params) device_bytes)
        (cluster_span params lcn within_run byte_offset len device_bytes)
unfolding cluster_span
cluster_span-IoOr params lcn within_run byte_offset len device =
    >>=-IoOr _ _ (ok_or-IoOr (checked_add lcn within_run)) (λ cluster e1.
      >>=-IoOr _ _ (ok_or-IoOr (checked_mul cluster params.cluster_size)) (λ at e2.
        >>=-IoOr _ _ (ok_or-IoOr (checked_add at byte_offset)) (λ start e3.
          >>=-IoOr _ _ (ok_or-IoOr (checked_add start len)) (λ end e4.
            elim (Bool-cases (ltb (min (volume_bytes params) device) end)) [
              | inl past ↦ rw past (bad refl)
              | inr inside ↦
                  rw inside (good start refl (ground (arith, checked_add-eq start len e4, inside)))
            ]))))

remaining_after-eq :
    (end at : ℕ) {n : ℕ} → remaining_after end at ≡ some n → (1 ≤ n) × (n ≡ end - at)
unfolding remaining_after
remaining_after-eq end at e = elim (Bool-cases (ltb at end)) [
  | inl below ↦ let e' = rw below at e in ground (arith, below, e')
  | inr past ↦ let e' = rw past at e in absurd (cc e')
]

-- A chunk is not empty, not longer than what is left, and lies inside the volume and the device.
pub record IsChunkAt (bound len cursor : ℕ) (c : MappedChunk) : Type 0 where
  pub from : c.cursor ≡ cursor
  pub occupied : 1 ≤ c.len
  pub fits : c.len ≤ len
  pub inside : c.disk_offset + c.len ≤ bound

map_chunk-IoOr :
    (bm : BitmapLocation) (file_offset end cursor device_bytes : ℕ)
    → file_offset < end
    → IoOr
        (IsChunkAt (min (volume_bytes bm.params) device_bytes) (end - file_offset) cursor)
        (map_chunk bm file_offset end cursor device_bytes)
unfolding map_chunk
map_chunk-IoOr bm at end cursor device below =
    let cs = bm.params.cluster_size in
    >>=-IoOr _ _ (ok_or-IoOr (find_run bm.runs (at / cs))) (λ run e1.
      >>=-IoOr _ _ (ok_or-IoOr run.lcn) (λ lcn e2.
        >>=-IoOr _ _ (ok_or-IoOr (checked_add run.starting_vcn run.length)) (λ vcns e3.
          >>=-IoOr _ _ (ok_or-IoOr (checked_mul vcns cs)) (λ last e4.
            >>=-IoOr _ _ (ok_or-IoOr (remaining_after last at)) (λ remaining e5.
              let (some_left, size) = remaining_after-eq last at e5 in
              >>=-IoOr _ _
                (cluster_span-IoOr bm.params lcn (at / cs - run.starting_vcn) (at % cs)
                  (min remaining (end - at)) device)
                (λ start inside. good _ refl (record {
                  from = refl;
                  occupied = omega (arith, some_left, below);
                  fits = omega arith;
                  inside = inside;
                })))))))

-- The chunks cover `len` bytes from the cursor on, one behind the other.
abbrev pub Tiles : ℕ → ℕ → ℕ → List MappedChunk → Type 0
Tiles bound cursor len [] = len ≡ 0
Tiles bound cursor len (c ∷ chunks) =
    IsChunkAt bound len cursor c × Tiles bound (cursor + c.len) (len - c.len) chunks

map_loop-IoOr :
    (fuel : ℕ) (bm : BitmapLocation) (file_offset end cursor device_bytes : ℕ)
    → 0 < bm.params.cluster_size
    → end ≤ file_offset + fuel
    → IoOr
        (Tiles (min (volume_bytes bm.params) device_bytes) cursor (end - file_offset))
        (map_loop fuel bm file_offset end cursor device_bytes)
unfolding map_loop
map_loop-IoOr zero bm at end cursor device pos f =
    let done : ltb at end ≡ false = ground arith in rw done (good [] refl (omega arith))
map_loop-IoOr (suc fuel) bm at end cursor device pos f =
    let positive : (bm.params.cluster_size == 0) ≡ false = ground arith in
    elim (Bool-cases (ltb at end)) [
      | inr done ↦ rw done (good [] refl (ground (arith, done)))
      | inl below ↦
          rw (below, positive)
            (>>=-IoOr _ _ (map_chunk-IoOr bm at end cursor device (ground (arith, below)))
              (λ c here.
                >>=-IoOr _ _
                  (map_loop-IoOr fuel bm (at + c.len) end (cursor + c.len) device pos
                    (omega (arith, here.occupied)))
                  (λ chunks behind.
                    let left : end - at - c.len ≡ end - (at + c.len) = omega arith in
                    good (c ∷ chunks) refl (rw left (here, behind)))))
    ]

-- Whatever the range: the chunks cover it up to its end as a `u64`.
pub map_bitmap_range-IoOr :
    (bm : BitmapLocation) (start_byte len device_bytes : ℕ)
    → 0 < bm.params.cluster_size
    → IoOr
        (Tiles
          (min (volume_bytes bm.params) device_bytes)
          0
          ((start_byte + len) % 2 ^ 64 - start_byte))
        (map_bitmap_range bm start_byte len device_bytes)
unfolding map_bitmap_range
map_bitmap_range-IoOr bm start len device pos =
    map_loop-IoOr len bm start ((start + len) % 2 ^ 64) 0 device pos (omega arith)

-- With a cluster size above 0, runs that are contiguous, and a range that ends below 2^64, no run
-- ends behind 2^64, mapping the range ends without a panic, and the chunks that it gives cover the
-- range from its first to its last byte, none of them empty, each one inside both the volume and the
-- device.
pub map_bitmap_range-Tiles :
    (bm : BitmapLocation) (start_byte len device_bytes : ℕ)
    → 0 < bm.params.cluster_size
    → Contiguous 0 bm.runs
    → start_byte + len < 2 ^ 64
    → let r = map_bitmap_range bm start_byte len device_bytes in
      All RunEnds bm.runs
      × (r ≢ fault)
      × ((chunks : List MappedChunk)
          → r ≡ ok chunks
          → Tiles (min (volume_bytes bm.params) device_bytes) 0 len chunks)
map_bitmap_range-Tiles bm start len device pos contiguous below =
    let size : (start + len) % 2 ^ 64 - start ≡ len = omega arith in
    let ends = Contiguous-RunEnds 0 bm.runs contiguous in
    elim (map_bitmap_range-IoOr bm start len device pos) [
      | good found e tiles ↦
          rw e (ends, λ e'. cc, λ chunks e'. rw (← ok-injective e', ← size) tiles)
      | bad e ↦ rw e (ends, λ e'. cc, λ chunks e'. cc)
    ]
