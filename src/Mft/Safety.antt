-- ===== src/Mft/Safety.antt =====
-- Reading a record of src/mft_io.rs never panics, whatever the device gives.
use rust_fs_ntfs.Base.{
  ℕ, ◌+◌, ◌-◌, ◌/◌, ◌%◌, ◌≤◌, ◌≡◌, ◌≢◌, ◌∙◌, arith, Bool, true, false, not, ◌||◌, ltb, ◌==◌, List,
  length, take, drop, Option, some, none, if◌then◌else◌,
}
use rust_fs_ntfs.Base.{
  Result, Kind, ok, err, fault, io, ok_or, ok_or-eq-ok, ok_or-ne-fault, >>=-ne-fault, IoOr, good,
  bad, >>=-IoOr, ok_or-IoOr, get_le_lem, slice_lem, bytes_eq, from_le, Result-cases, gave, failed,
  panicked,
}
use rust_fs_ntfs.DataRuns.{DataRun}
use rust_fs_ntfs.DataRuns.Shape.{decode_runs-ne-fault}
use rust_fs_ntfs.AttrIo.Found.{absent, present, find_attribute-FoundIn}
use rust_fs_ntfs.AttrIo.Located.{resident, mapped}
use rust_fs_ntfs.Fixup.{apply_fixup_on_read, apply_fixup_on_read_magic, file_magic}
use rust_fs_ntfs.Fixup.Safety.{apply_fixup_on_read-ne-fault}
use rust_fs_ntfs.Fixup.Lengths.{KeepsLength, apply_fixup_on_read_magic-KeepsLength}
use rust_fs_ntfs.Boot.{BootParams}
use rust_fs_ntfs.Boot.Geometry.{IsGeometry, parse_boot_params_from_bytes-IsGeometry}
use rust_fs_ntfs.Bitmap.{cluster_span, checked_mul, find_run}
use rust_fs_ntfs.Base.{checked_add}
use rust_fs_ntfs.Bitmap.Mapped.{cluster_span-IoOr}
use rust_fs_ntfs.Bitmap.Device.{BlockIo}
use rust_fs_ntfs.Bitmap.Device.Buffer.{FillsBuffer}
use rust_fs_ntfs.Mft.{
  data_type, record_flags, is_free, check_lengths, check_record_header, offset_in_runs,
  data_runs_of, offset_from_record0, read_boot_params_io, mft_record_offset_maybe_io,
  mft_record_offset_io, read_mft_record_io,
}

if-ne-fault {ℓ} :
    {A : Type ℓ} (b : Bool) {x y : Result A} → x ≢ fault → y ≢ fault → (if b then x else y) ≢ fault
if-ne-fault true h k = h
if-ne-fault false h k = k

ok_ne_fault {ℓ} : {A : Type ℓ} (a : A) → ok a ≢ fault
ok_ne_fault a = λ q. cc

err_ne_fault {ℓ} : {A : Type ℓ} (e : Kind) → let m : Result A = err e in m ≢ fault
err_ne_fault e = λ q. cc

-- Both branches of a search.
search-ne-fault {ℓ κ} :
    {A : Type ℓ} {B : Type κ} (o : Option A) (x : Result B) (f : A → Result B)
    → x ≢ fault
    → ((a : A) → f a ≢ fault)
    → (elim o [ none ↦ x | some a ↦ f a ]) ≢ fault
search-ne-fault none x f h k = h
search-ne-fault (some a) x f h k = k a

-- The runs of a record of any bytes.
data_runs_of-ne-fault : (bytes : List ℕ) → data_runs_of bytes ≢ fault
unfolding data_runs_of
data_runs_of-ne-fault bytes =
    let (r, e, fits, f) = find_attribute-FoundIn bytes data_type in
    rw e (elim f [
      | absent a ↦ rw a (λ q. cc)
      | present cursor loc a h v ↦ rw a (elim v [
        | resident offset len form p1 p2 b1 b2 ↦ rw form (λ q. cc)
        | mapped offset len form p1 p2 b1 b2 ↦
            let inside =
              slice_lem bytes (loc.attr_offset + offset) (loc.attr_offset + loc.attr_length)
                (omega arith) (omega (arith, fits, h.inside, h.at_cursor)) in
            rw (form, p1, inside) (decode_runs-ne-fault _)
      ])
    ])

span-ne-fault :
    (params : BootParams) (lcn within_run byte_offset len device_bytes : ℕ)
    → cluster_span params lcn within_run byte_offset len device_bytes ≢ fault
span-ne-fault params lcn within_run byte_offset len device =
    elim (cluster_span-IoOr params lcn within_run byte_offset len device) [
      | good a same fits ↦ λ q. cc
      | bad refused ↦ λ q. cc
    ]

offset_in_runs-ne-fault :
    (params : BootParams) (runs : List DataRun) (n device_bytes : ℕ)
    → 1 ≤ params.cluster_size
    → offset_in_runs params runs n device_bytes ≢ fault
unfolding offset_in_runs
offset_in_runs-ne-fault params runs n device some_cluster =
    let wide : (params.cluster_size == 0) ≡ false = ground (arith, some_cluster) in
    >>=-ne-fault (ok_or (checked_mul n params.file_record_size) io) _ (ok_or-ne-fault _ io)
      (λ byte e1. rw wide (
        search-ne-fault (find_run runs (byte / params.cluster_size)) _ _ (ok_ne_fault none) (λ run.
          let vcn : ℕ = byte / params.cluster_size in
          let within : ℕ = byte % params.cluster_size in
          >>=-ne-fault (ok_or run.lcn io) _ (ok_or-ne-fault _ io) (λ lcn e2.
            >>=-ne-fault (ok_or (checked_add within params.file_record_size) io) _
              (ok_or-ne-fault _ io)
              (λ span e3. if-ne-fault _ (err_ne_fault io) (
                >>=-ne-fault
                  (cluster_span params lcn (vcn - run.starting_vcn) within params.file_record_size
                    device)
                  _
                  (span-ne-fault params lcn (vcn - run.starting_vcn) within params.file_record_size
                    device)
                  (λ at e4. ok_ne_fault (some at))))))))

check_record_header-ne-fault : (r : List ℕ) → 32 ≤ length r → check_record_header r ≢ fault
unfolding check_record_header check_lengths record_flags
check_record_header-ne-fault r h =
    let used : ℕ = from_le (take 4 (drop 0x18 r)) in
    let allocated : ℕ = from_le (take 4 (drop 0x1c r)) in
    let attrs : ℕ = from_le (take 2 (drop 0x14 r)) in
    rw
      (
        slice_lem r 0 4 (omega arith) (omega arith),
        get_le_lem 2 r 0x16 (omega arith),
        get_le_lem 4 r 0x18 (omega arith),
        get_le_lem 4 r 0x1c (omega arith),
        get_le_lem 2 r 0x14 (omega arith),
      )
      (if-ne-fault (not (bytes_eq (take (4 - 0) (drop 0 r)) file_magic)) (ok_ne_fault tt) (
        if-ne-fault (is_free (from_le (take 2 (drop 0x16 r)))) (ok_ne_fault tt) (
          if-ne-fault (ltb (length r) used || ltb (length r) allocated) (err_ne_fault io)
            (if-ne-fault (ltb used attrs) (err_ne_fault io) (ok_ne_fault tt)))))

offset_from_record0-ne-fault :
    (params : BootParams) (raw : List ℕ) (n device_bytes : ℕ)
    → 1 ≤ params.bytes_per_sector
    → 1 ≤ params.cluster_size
    → offset_from_record0 params raw n device_bytes ≢ fault
unfolding offset_from_record0 apply_fixup_on_read
offset_from_record0-ne-fault params raw n device some_sector some_cluster =
    elim (Result-cases (apply_fixup_on_read_magic raw params.bytes_per_sector file_magic)) [
      | gave record0 e ↦
          rw (e, offset_from_record0)
            (>>=-ne-fault (data_runs_of record0) _ (data_runs_of-ne-fault record0)
              (λ runs e1. offset_in_runs-ne-fault params runs n device some_cluster))
      | failed k e ↦ rw (e, offset_from_record0) (λ q. cc)
      | panicked e ↦
          absurd (apply_fixup_on_read-ne-fault raw params.bytes_per_sector file_magic some_sector e)
    ]

module _ {D : Type 0} (dev : BlockIo D) (fills : FillsBuffer dev) where
  -- The boot sector, if it is accepted, gives a geometry.
  boot_IoOr : (d : D) → IoOr IsGeometry (read_boot_params_io dev d)
  unfolding read_boot_params_io
  boot_IoOr d =
      >>=-IoOr _ _ (ok_or-IoOr (dev.read_exact_at d 0 512))
        (λ boot e. parse_boot_params_from_bytes-IsGeometry boot (fills d 0 512 boot e))

  offset_maybe-ne-fault :
      (d : D) (params : BootParams) (n : ℕ)
      → IsGeometry params
      → mft_record_offset_maybe_io dev d params n ≢ fault
  unfolding mft_record_offset_maybe_io
  offset_maybe-ne-fault d params n g = if-ne-fault _ (ok_ne_fault _) (
      >>=-ne-fault (ok_or _ io) _ (ok_or-ne-fault _ io) (λ raw e.
        offset_from_record0-ne-fault params raw n (dev.size d) g.some_sector g.some_cluster))

  offset-ne-fault :
      (d : D) (params : BootParams) (n : ℕ)
      → IsGeometry params
      → mft_record_offset_io dev d params n ≢ fault
  unfolding mft_record_offset_io
  offset-ne-fault d params n g =
      >>=-ne-fault (mft_record_offset_maybe_io dev d params n) _
        (offset_maybe-ne-fault d params n g) (λ found e. ok_or-ne-fault found io)

  clean_length :
      (d : D) (params : BootParams) (at : ℕ) {raw clean : List ℕ}
      → dev.read_exact_at d at params.file_record_size ≡ some raw
      → apply_fixup_on_read raw params.bytes_per_sector ≡ ok clean
      → length clean ≡ params.file_record_size
  unfolding apply_fixup_on_read KeepsLength
  clean_length d params at {raw} {clean} e1 e2 =
      apply_fixup_on_read_magic-KeepsLength raw params.bytes_per_sector file_magic clean e2
      ∙ fills d at params.file_record_size raw e1

  fixup-ne-fault :
      (params : BootParams) (raw : List ℕ)
      → IsGeometry params
      → apply_fixup_on_read raw params.bytes_per_sector ≢ fault
  unfolding apply_fixup_on_read
  fixup-ne-fault params raw g =
      apply_fixup_on_read-ne-fault raw params.bytes_per_sector file_magic g.some_sector

  -- Reading a record by any number, on a device whose reads fill the buffer, whatever its bytes are,
  -- never panics.
  pub read_mft_record_io-ne-fault : (d : D) (n : ℕ) → read_mft_record_io dev d n ≢ fault
  unfolding read_mft_record_io
  read_mft_record_io-ne-fault d n = elim (boot_IoOr d) [
    | bad refused ↦ rw refused (λ q. cc)
    | good params accepted g ↦ rw accepted (
        >>=-ne-fault (mft_record_offset_io dev d params n) _ (offset-ne-fault d params n g)
          (λ at e1.
            >>=-ne-fault (ok_or (dev.read_exact_at d at params.file_record_size) io) _
              (ok_or-ne-fault _ io)
              (λ raw e2.
                >>=-ne-fault (apply_fixup_on_read raw params.bytes_per_sector) _
                  (fixup-ne-fault params raw g)
                  (λ clean e3.
                    let long = clean_length d params at (ok_or-eq-ok _ io e2) e3 in
                    >>=-ne-fault (check_record_header clean) _
                      (check_record_header-ne-fault clean (omega (arith, long, g.record_low)))
                      (λ u e4. λ q. cc)))))
  ]
