-- ===== src/Bitmap/Search.antt =====
-- The search for a run of free clusters: `find_free_run_io` of src/bitmap.rs.
pub mod Sound
mod Tests
use rust_fs_ntfs.Base.{
  ℕ, zero, suc, ◌+◌, ◌-◌, ◌/◌, ◌%◌, min, Bool, true, false, ltb, leb, ◌==◌, if◌then◌else◌,
}
use rust_fs_ntfs.Base.{List, Option, none, some, Result, ok, err, fault, io, ◌>>=◌, index}
use rust_fs_ntfs.Bitmap.{BitmapLocation, bit_is_set, bytes_for}
use rust_fs_ntfs.Bitmap.Device.{BlockIo, read_bitmap_bytes_io}

-- `CHUNK`, in bits.
abbrev pub chunk_bits_max : ℕ
chunk_bits_max = 65536

-- Where a scan leaves off: a run is found, or `run_start` and `run_len` are carried on.
pub data Scan : Type 0 where
  hit : ℕ → Scan
  carry : Option ℕ → ℕ → Scan

-- `if run_start.is_none() { run_start = Some(cursor); run_len = 0; } run_len += 1;`
pub start_of : Option ℕ → ℕ → ℕ
start_of none cursor = cursor
start_of (some s) cursor = s

pub longer : Option ℕ → ℕ → ℕ
longer none run_len = 1
longer (some s) run_len = run_len + 1

-- The loop over the bits of a chunk: `at` is `byte_idx * 8 + bit_in_byte`.
pub scan_bits : ℕ → List ℕ → ℕ → ℕ → ℕ → Option ℕ → ℕ → Result Scan
scan_bits zero bytes at cursor n run_start run_len = ok (carry run_start run_len)
scan_bits (suc left) bytes at cursor n run_start run_len =
    let s = start_of run_start cursor in
    let len = longer run_start run_len in
    let free = scan_bits left bytes (suc at) (suc cursor) n (some s) len in
    let taken = scan_bits left bytes (suc at) (suc cursor) n none 0 in
    do
      byte ← index bytes (at / 8)
      if bit_is_set byte (at % 8) then taken else if leb n len then ok (hit s) else free

module _ {D : Type 0} (dev : BlockIo D) where
  -- `while lcn < finish`. Each round takes a bit at least.
  pub pass_loop : ℕ → D → BitmapLocation → ℕ → ℕ → ℕ → Option ℕ → ℕ → Result Scan
  pass_loop zero d bm lcn finish n run_start run_len =
      if ltb lcn finish then fault else ok (carry run_start run_len)
  pass_loop (suc fuel) d bm lcn finish n run_start run_len =
      let bits = min chunk_bits_max (finish - lcn) in
      let round = (do
        bytes ← read_bitmap_bytes_io dev d bm (lcn / 8) (bytes_for (lcn + bits) - lcn / 8)
        scan ← scan_bits bits bytes (lcn % 8) lcn n run_start run_len
        elim scan [
          | hit s ↦ ok (hit s)
          | carry s len ↦ pass_loop fuel d bm (lcn + bits) finish n s len
        ]) in
      if ltb lcn finish then round else ok (carry run_start run_len)

  pub find_free_run_io : D → BitmapLocation → ℕ → ℕ → Result (Option ℕ)
  find_free_run_io d bm n hint_lcn =
      let total = bm.total_bits in
      let scan_start = min hint_lcn total in
      if n == 0 then err io else (do
        first ← pass_loop total d bm scan_start total n none 0
        elim first [
          | hit s ↦ ok (some s)
          | carry s len ↦ do
            second ← pass_loop total d bm 0 scan_start n none 0
            elim second [ hit s ↦ ok (some s) | carry s len ↦ ok none ]
        ])
