-- ===== src/Bitmap/Search/Sound.antt =====
-- A run that is found lies on the volume, and the bitmap has every cluster of it free.
use rust_fs_ntfs.Base.{
  ℕ, zero, suc, ◌+◌, ◌-◌, ◌*◌, ◌/◌, ◌%◌, ◌≤◌, ◌<◌, ◌≡◌, ◌≢◌, refl, arith, min, inl, inr,
}
use rust_fs_ntfs.Base.{false, ltb, leb, ◌==◌, Bool-cases, List, length, Option, none, some}
use rust_fs_ntfs.Base.{Result, Kind, ok, err, fault, io, index_lem}
use rust_fs_ntfs.Bitmap.{BitmapLocation, bytes_for}
use rust_fs_ntfs.Bitmap.Mutate.{bit_of}
use rust_fs_ntfs.Bitmap.Device.{BlockIo, read_bitmap_bytes_io}
use rust_fs_ntfs.Bitmap.Device.Buffer.{FillsBuffer, read_bitmap_bytes_io-length}
use rust_fs_ntfs.Bitmap.Search.{
  Scan, hit, carry, start_of, longer, scan_bits, pass_loop, find_free_run_io,
}
use mathlib.Core.Path.{subst}
use native.Mathlib.Decide.{ℕ_discrete}

module _ (Free : ℕ → Type 0) where
  -- The run so far ends at the cursor.
  data IsRunAt (cursor n : ℕ) : Option ℕ → ℕ → Type 0 where
    empty : IsRunAt cursor n none 0
    run :
        (s len : ℕ)
        → s + len ≡ cursor
        → ((c : ℕ) → s ≤ c → c < cursor → Free c)
        → IsRunAt cursor n (some s) len

  -- What a scan up to `end` may give.
  data Scanned (end n : ℕ) (r : Result Scan) : Type 0 where
    at_end : (s : Option ℕ) (len : ℕ) → r ≡ ok (carry s len) → IsRunAt end n s len → Scanned end n r
    in_run :
        (s : ℕ)
        → r ≡ ok (hit s)
        → s + n ≤ end
        → ((c : ℕ) → s ≤ c → c < s + n → Free c)
        → Scanned end n r
    failed : (e : Kind) → r ≡ err e → Scanned end n r

  grow :
      (cursor n : ℕ) (s : Option ℕ) (len : ℕ)
      → Free cursor
      → IsRunAt cursor n s len
      → IsRunAt (suc cursor) n (some (start_of s cursor)) (longer s len)
  unfolding start_of longer
  grow cursor n s len f empty =
      run cursor 1 (omega arith) (λ c lo hi. let e : cursor ≡ c = omega arith in rw (← e) f)
  grow cursor n s len f (run s' len' e all) = run s' (len' + 1) (omega arith) (λ c lo hi.
      elim (ℕ_discrete cursor c) [ yes here ↦ rw (← here) f | no other ↦ all c lo (omega arith) ])

  hit_here :
      (cursor n end s len : ℕ)
      → IsRunAt cursor n (some s) len
      → n ≤ len
      → cursor ≤ end
      → Scanned end n (ok (hit s))
  hit_here cursor n end s len (run s' len' e all) enough h =
      in_run s refl (omega arith) (λ c lo hi. all c lo (omega arith))

  scan_bits-Scanned :
      (left : ℕ) (bytes : List ℕ) (at cursor n : ℕ) (s : Option ℕ) (len : ℕ)
      → at + left ≤ 8 * length bytes
      → ((i : ℕ) → at ≤ i → i < at + left → bit_of bytes i ≡ false → Free (cursor + (i - at)))
      → IsRunAt cursor n s len
      → Scanned (cursor + left) n (scan_bits left bytes at cursor n s len)
  unfolding scan_bits
  scan_bits-Scanned zero bytes at cursor n s len fits clear r =
      let e : cursor + 0 ≡ cursor = omega arith in rw e (at_end s len refl r)
  scan_bits-Scanned (suc left) bytes at cursor n s len fits clear r =
      let e : cursor + suc left ≡ suc cursor + left = omega arith in
      let on = λ (i : ℕ) (lo : suc at ≤ i) (hi : i < suc at + left) (z : bit_of bytes i ≡ false).
        let same : cursor + (i - at) ≡ suc cursor + (i - suc at) = omega arith in
        subst Free same (clear i (omega arith) (omega arith) z) in
      rw (e, index_lem bytes (at / 8) (omega arith))
        (elim (Bool-cases (bit_of bytes at)) [
          | inl taken ↦
              rw taken
                (scan_bits-Scanned left bytes (suc at) (suc cursor) n none 0 (omega arith) on empty)
          | inr free ↦
              let here : cursor + (at - at) ≡ cursor = omega arith in
              let r' =
                grow cursor n s len (subst Free here (clear at (omega arith) (omega arith) free))
                  r in
              elim (Bool-cases (leb n (longer s len))) [
                | inl enough ↦
                    rw (free, enough)
                      (hit_here (suc cursor) n (suc cursor + left) (start_of s cursor)
                        (longer s len) r' (ground (arith, enough)) (omega arith))
                | inr short ↦
                    rw (free, short)
                      (scan_bits-Scanned left bytes (suc at) (suc cursor) n
                        (some (start_of s cursor)) (longer s len) (omega arith) on r')
              ]
        ])

module _ {D : Type 0} (dev : BlockIo D) where
  -- A read of the bitmap shows a clear bit for the cluster.
  pub data ReadsFree (d : D) (bm : BitmapLocation) (cluster : ℕ) : Type 0 where
    shown :
        (start len i : ℕ) (bytes : List ℕ)
        → read_bitmap_bytes_io dev d bm start len ≡ ok bytes
        → start * 8 + i ≡ cluster
        → i < 8 * len
        → bit_of bytes i ≡ false
        → ReadsFree d bm cluster

  chunk-Scanned :
      FillsBuffer dev
      → (d : D) (bm : BitmapLocation) (lcn bits n : ℕ) (s : Option ℕ) (len : ℕ) (bytes : List ℕ)
      → 0 < bm.params.cluster_size
      → read_bitmap_bytes_io dev d bm (lcn / 8) (bytes_for (lcn + bits) - lcn / 8) ≡ ok bytes
      → IsRunAt (ReadsFree d bm) lcn n s len
      → Scanned (ReadsFree d bm) (lcn + bits) n (scan_bits bits bytes (lcn % 8) lcn n s len)
  chunk-Scanned fills d bm lcn bits n s len bytes pos e r =
      let size =
        (read_bitmap_bytes_io-length dev fills d bm (lcn / 8) (bytes_for (lcn + bits) - lcn / 8)
            pos).1
          bytes e in
      scan_bits-Scanned (ReadsFree d bm) bits bytes (lcn % 8) lcn n s len (omega (arith, size))
        (λ i lo hi z.
          shown (lcn / 8) (bytes_for (lcn + bits) - lcn / 8) i bytes e (omega arith) (omega arith)
            z)
        r

  -- A read gives bytes or an error.
  data ReadEnds (r : Result (List ℕ)) : Type 0 where
    read : (bytes : List ℕ) → r ≡ ok bytes → ReadEnds r
    unread : (e : Kind) → r ≡ err e → ReadEnds r

  read_ends : (r : Result (List ℕ)) → r ≢ fault → ReadEnds r
  read_ends (ok bytes) n = read bytes refl
  read_ends (err e) n = unread e refl
  read_ends fault n = absurd (n refl)

  pass_loop-Scanned :
      FillsBuffer dev
      → (fuel : ℕ) (d : D) (bm : BitmapLocation) (lcn finish n : ℕ) (s : Option ℕ) (len : ℕ)
      → 0 < bm.params.cluster_size
      → lcn ≤ finish
      → finish ≤ lcn + fuel
      → IsRunAt (ReadsFree d bm) lcn n s len
      → Scanned (ReadsFree d bm) finish n (pass_loop dev fuel d bm lcn finish n s len)
  unfolding pass_loop
  pass_loop-Scanned fills zero d bm lcn finish n s len pos h f r =
      let done : ltb lcn finish ≡ false = ground arith in
      let same : lcn ≡ finish = omega arith in rw (done, ← same) (at_end s len refl r)
  pass_loop-Scanned fills (suc fuel) d bm lcn finish n s len pos h f r =
      let bits = min 65536 (finish - lcn) in
      let total =
        (read_bitmap_bytes_io-length dev fills d bm (lcn / 8) (bytes_for (lcn + bits) - lcn / 8)
          pos).0 in
      elim (Bool-cases (ltb lcn finish)) [
        | inr done ↦
            let same : lcn ≡ finish = ground (arith, done) in
            rw (done, ← same) (at_end s len refl r)
        | inl below ↦
            rw below
              (elim (read_ends
                (read_bitmap_bytes_io dev d bm (lcn / 8) (bytes_for (lcn + bits) - lcn / 8))
                total) [
                  | unread k e ↦ rw e (failed k refl)
                  | read bytes e ↦
                      rw e (elim (chunk-Scanned fills d bm lcn bits n s len bytes pos e r) [
                        | failed k e' ↦ rw e' (failed k refl)
                        | in_run s' e' last all ↦ rw e' (in_run s' refl (omega arith) all)
                        | at_end s' len' e' r' ↦ rw e' (
                            pass_loop-Scanned fills fuel d bm (lcn + bits) finish n s' len' pos
                              (omega arith) (ground (arith, below)) r')
                      ])
                ])
      ]

  -- What the search may give.
  pub data Found (d : D) (bm : BitmapLocation) (n : ℕ) (r : Result (Option ℕ)) : Type 0 where
    found :
        (s : ℕ)
        → r ≡ ok (some s)
        → 1 ≤ n
        → s + n ≤ bm.total_bits
        → ((c : ℕ) → s ≤ c → c < s + n → ReadsFree d bm c)
        → Found d bm n r
    nowhere : r ≡ ok none → Found d bm n r
    broken : (e : Kind) → r ≡ err e → Found d bm n r

  -- On a device whose reads fill the buffer, and with a cluster size above 0, the search ends
  -- without a panic, with an error, with no answer, or with the first of `n` clusters that lie on
  -- the volume and that the bitmap, as it is read, has free.
  pub find_free_run_io-Found :
      FillsBuffer dev
      → (d : D) (bm : BitmapLocation) (n hint_lcn : ℕ) → 0 < bm.params.cluster_size
      → Found d bm n (find_free_run_io dev d bm n hint_lcn)
  unfolding find_free_run_io
  find_free_run_io-Found fills d bm n hint_lcn pos =
      let total = bm.total_bits in
      let start = min hint_lcn total in
      elim (Bool-cases (n == 0)) [
        | inl none_wanted ↦ rw none_wanted (broken io refl)
        | inr some_wanted ↦
            rw some_wanted
              (elim (pass_loop-Scanned fills total d bm start total n none 0 pos (omega arith)
                (omega arith) empty) [
                  | failed k e ↦ rw e (broken k refl)
                  | in_run s e last all ↦ rw e (found s refl (ground (arith, some_wanted)) last all)
                  | at_end s len e r ↦
                      rw e
                        (elim (pass_loop-Scanned fills total d bm 0 start n none 0 pos (omega arith)
                          (omega arith) empty) [
                            | failed k e' ↦ rw e' (broken k refl)
                            | in_run s' e' last all ↦
                                rw e'
                                  (found s' refl (ground (arith, some_wanted)) (omega arith) all)
                            | at_end s' len' e' r' ↦ rw e' (nowhere refl)
                          ])
                ])
      ]
