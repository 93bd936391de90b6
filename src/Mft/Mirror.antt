-- ===== src/Mft/Mirror.antt =====
-- `sync_mftmirr_record_io` of src/mft_io.rs copies a record to `$MFTMirr`.
use rust_fs_ntfs.Base.{
  ℕ, ◌+◌, ◌*◌, ◌^◌, ◌≤◌, ◌<◌, ◌≡◌, ◌≢◌, refl, sym, ap, ap₂, ◌∙◌, inl, inr, arith, leb, min,
  Bool-cases, true, List, [], ◌∷◌, ltb, length, some, checked_add, checked_add-eq,
}
use rust_fs_ntfs.Base.{
  Result, ok, io, ok_or, ok_or-eq-ok, >>=-eq-ok, via, ok-injective, Result-cases, gave, failed,
  panicked, good, bad, byte_at,
}
use rust_fs_ntfs.DataRuns.{DataRun}
use rust_fs_ntfs.Fixup.{apply_fixup_on_read}
use rust_fs_ntfs.Boot.{BootParams}
use rust_fs_ntfs.Bitmap.{volume_bytes, cluster_span, checked_mul}
use rust_fs_ntfs.Bitmap.Mapped.{cluster_span-IoOr}
use rust_fs_ntfs.Bitmap.Device.{BlockIo}
use rust_fs_ntfs.Bitmap.Device.Contents.{IsFaithful}
use rust_fs_ntfs.Mft.{
  data_runs_of, first_run, mirrored, read_boot_params_io, read_mft_record_io, mft_record_offset_io,
  check_record_header, prepare_mirror, sync_mftmirr_record_io,
}
use rust_fs_ntfs.Mft.Update.{Rewrites, write_and_sync-Rewrites}

checked_mul-eq : (a b : ℕ) {n : ℕ} → checked_mul a b ≡ some n → n ≡ a * b
checked_mul-eq a b e = elim (Bool-cases (ltb (a * b) (2 ^ 64))) [
  | inl below ↦ let e' = rw below at e in cc
  | inr past ↦ let e' = rw past at e in absurd cc
]

first_run-eq :
    (runs : List DataRun) (first : DataRun)
    → first_run runs ≡ some first
    → (rest : List DataRun) × (runs ≡ first ∷ rest)
unfolding first_run
first_run-eq [] first e = absurd cc
first_run-eq (r ∷ runs) first e = let same : r ≡ first = cc in (runs, ap (λ q. q ∷ runs) same)

cluster_span-fits :
    (params : BootParams) (lcn within_run byte_offset len device_bytes : ℕ) {at : ℕ}
    → cluster_span params lcn within_run byte_offset len device_bytes ≡ ok at
    → at + len ≤ min (volume_bytes params) device_bytes
cluster_span-fits params lcn within_run byte_offset len device {at} e =
    elim (cluster_span-IoOr params lcn within_run byte_offset len device) [
      | good a same fits ↦ let e' : a ≡ at = ok-injective (sym same ∙ e) in rw (← e') fits
      | bad refused ↦ absurd cc
    ]

-- A transfer that is granted begins where the cluster says.
cluster_span-eq :
    (params : BootParams) (lcn within_run byte_offset len device_bytes : ℕ) {at : ℕ}
    → cluster_span params lcn within_run byte_offset len device_bytes ≡ ok at
    → at ≡ (lcn + within_run) * params.cluster_size + byte_offset
unfolding cluster_span
cluster_span-eq params lcn within_run byte_offset len device {at} e =
    elim (>>=-eq-ok (ok_or (checked_add lcn within_run) io) _ e) [
      | via cluster e1 f1 ↦
          elim (>>=-eq-ok (ok_or (checked_mul cluster params.cluster_size) io) _ f1) [
            | via byte e2 f2 ↦ elim (>>=-eq-ok (ok_or (checked_add byte byte_offset) io) _ f2) [
              | via start e3 f3 ↦ elim (>>=-eq-ok (ok_or (checked_add start len) io) _ f3) [
                | via end e4 f4 ↦ elim (Bool-cases (ltb (min (volume_bytes params) device) end)) [
                  | inl past ↦ let f5 = rw past at f4 in absurd cc
                  | inr inside ↦
                      let f5 = rw inside at f4 in
                      let same : start ≡ at = cc in
                      let s1 = checked_add-eq lcn within_run (ok_or-eq-ok _ io e1) in
                      let s2 = checked_mul-eq cluster params.cluster_size (ok_or-eq-ok _ io e2) in
                      let s3 = checked_add-eq byte byte_offset (ok_or-eq-ok _ io e3) in
                      sym same
                      ∙ s3
                      ∙ ap (λ x. x + byte_offset) (s2 ∙ ap (λ x. x * params.cluster_size) s1)
                ]
              ]
            ]
          ]
    ]

module _ {D : Type 0} (dev : BlockIo D) (contents : D → ℕ → ℕ)
    (faithful : IsFaithful dev contents) where
  -- The bytes for the mirror are those of record `n` on the device. Their place is that of entry `n`
  -- behind the first cluster of the data of record 1, `$MFTMirr`, and it is inside volume and device.
  pub data MirrorOf (d : D) (n mirror_at : ℕ) (raw : List ℕ) : Type 0 where
    mirror :
        (params : BootParams) (source_at : ℕ) (mirr_record : List ℕ) (first : DataRun)
        (runs : List DataRun) (lcn : ℕ)
        → read_boot_params_io dev d ≡ ok params
        → mft_record_offset_io dev d params n ≡ ok source_at
        → read_mft_record_io dev d 1 ≡ ok (params, mirr_record)
        → data_runs_of mirr_record ≡ ok (first ∷ runs)
        → first.lcn ≡ some lcn
        → mirror_at ≡ lcn * params.cluster_size + n * params.file_record_size
        → length raw ≡ params.file_record_size
        → ((i : ℕ) → i < length raw → byte_at raw i ≡ contents d (source_at + i))
        → mirror_at + length raw ≤ min (volume_bytes params) (dev.size d)
        → MirrorOf d n mirror_at raw

  -- The geometry that a read of a record gives is that of the boot sector.
  read_mft_record_io-boot :
      (d : D) (n : ℕ) {params p : BootParams} {record' : List ℕ}
      → read_boot_params_io dev d ≡ ok params
      → read_mft_record_io dev d n ≡ ok (p, record')
      → p ≡ params
  unfolding read_mft_record_io
  read_mft_record_io-boot d n {params} {p} {record'} boot e =
      let e' = rw boot at e in
      elim (>>=-eq-ok (mft_record_offset_io dev d params n) _ e') [
        | via at e1 f1 ↦
            elim (>>=-eq-ok (ok_or (dev.read_exact_at d at params.file_record_size) io) _ f1) [
              | via raw e2 f2 ↦
                  elim (>>=-eq-ok (apply_fixup_on_read raw params.bytes_per_sector) _ f2) [
                    | via clean e3 f3 ↦ elim (>>=-eq-ok (check_record_header clean) _ f3) [
                      | via u e4 f4 ↦ let same : p ≡ params = cc in same
                    ]
                  ]
            ]
      ]

  -- The end of the preparation.
  mirror_from_steps :
      (d : D) (n : ℕ) (params p : BootParams) (mirr_record : List ℕ) (runs : List DataRun)
      (first : DataRun) (lcn at source_at : ℕ) {mirror_at : ℕ} {raw : List ℕ}
      → read_boot_params_io dev d ≡ ok params
      → read_mft_record_io dev d 1 ≡ ok (p, mirr_record)
      → data_runs_of mirr_record ≡ ok runs
      → first_run runs ≡ some first
      → first.lcn ≡ some lcn
      → checked_mul n params.file_record_size ≡ some at
      → mft_record_offset_io dev d params n ≡ ok source_at
      → dev.read_exact_at d source_at params.file_record_size ≡ some raw
      → cluster_span params lcn 0 at params.file_record_size (dev.size d) ≡ ok mirror_at
      → MirrorOf d n mirror_at raw
  mirror_from_steps d n params p mirr_record runs first lcn at source_at {mirror_at} {raw} e1 e2 e3
        e4 e5 e6 e7 e8 e9 =
      let (size, bytes) = faithful.reads d source_at params.file_record_size raw e8 in
      let (rest, listed) = first_run-eq runs first e4 in
      mirror params source_at mirr_record first rest lcn e1 e7
        (e2 ∙ ap (λ q. ok (q, mirr_record)) (read_mft_record_io-boot d 1 e1 e2)) (e3 ∙ ap ok listed)
        e5
        (cluster_span-eq params lcn 0 at params.file_record_size (dev.size d) e9
          ∙ ap₂ (λ x y. x * params.cluster_size + y) (omega arith)
              (checked_mul-eq n params.file_record_size e6))
        size (λ i lt. bytes i (omega (arith, size)))
        (rw size (cluster_span-fits params lcn 0 at params.file_record_size (dev.size d) e9))

  prepare_mirror-MirrorOf :
      (d : D) (n : ℕ) {mirror_at : ℕ} {raw : List ℕ}
      → prepare_mirror dev d n ≡ ok (mirror_at, raw)
      → MirrorOf d n mirror_at raw
  unfolding prepare_mirror
  prepare_mirror-MirrorOf d n {mirror_at} {raw} e =
      elim (>>=-eq-ok (read_boot_params_io dev d) _ e) [
        | via params e1 f1 ↦ elim (>>=-eq-ok (read_mft_record_io dev d 1) _ f1) [
          | via (p, mirr_record) e2 f2 ↦ elim (>>=-eq-ok (data_runs_of mirr_record) _ f2) [
            | via runs e3 f3 ↦ elim (>>=-eq-ok (ok_or (first_run runs) io) _ f3) [
              | via first e4 f4 ↦ elim (>>=-eq-ok (ok_or first.lcn io) _ f4) [
                | via lcn e5 f5 ↦
                    elim (>>=-eq-ok (ok_or (checked_mul n params.file_record_size) io) _ f5) [
                      | via at e6 f6 ↦
                          elim (>>=-eq-ok
                            (cluster_span params lcn 0 at params.file_record_size (dev.size d)) _
                            f6) [
                              | via place e7 f7 ↦
                                  elim (>>=-eq-ok (mft_record_offset_io dev d params n) _ f7) [
                                    | via source_at e8 f8 ↦
                                        let read =
                                          dev.read_exact_at d source_at params.file_record_size in
                                        elim (>>=-eq-ok (ok_or read io) _ f8) [
                                          | via bytes e9 f9 ↦
                                              let p0 : place ≡ mirror_at = cc in
                                              let p1 : bytes ≡ raw = cc in
                                              mirror_from_steps d n params p mirr_record runs first
                                                lcn at source_at e1 e2 e3 (ok_or-eq-ok _ io e4)
                                                (ok_or-eq-ok _ io e5) (ok_or-eq-ok _ io e6) e8
                                                (ok_or-eq-ok read io e9 ∙ ap some p1)
                                                (e7 ∙ ap ok p0)
                                        ]
                                  ]
                            ]
                    ]
              ]
            ]
          ]
        ]
      ]

  -- Everything the copy needs is there: the boot sector, record 1 with a first run that is no hole, the
  -- place in the mirror inside the volume, and the record as it can be read from its offset.
  pub data CanMirror (d : D) (n : ℕ) : Type 0 where
    can :
        (params : BootParams) (mirr_record : List ℕ) (first : DataRun) (runs : List DataRun)
        (lcn mirror_at source_at : ℕ) (raw : List ℕ)
        → read_boot_params_io dev d ≡ ok params
        → read_mft_record_io dev d 1 ≡ ok (params, mirr_record)
        → data_runs_of mirr_record ≡ ok (first ∷ runs)
        → first.lcn ≡ some lcn
        → n * params.file_record_size < 2 ^ 64
        → cluster_span params lcn 0
            (n * params.file_record_size)
            params.file_record_size
            (dev.size d)
          ≡ ok mirror_at
        → mft_record_offset_io dev d params n ≡ ok source_at
        → dev.read_exact_at d source_at params.file_record_size ≡ some raw
        → CanMirror d n

  CanMirror-prepares :
      (d : D) (n : ℕ) → CanMirror d n → (q : ℕ × List ℕ) × (prepare_mirror dev d n ≡ ok q)
  unfolding prepare_mirror first_run
  CanMirror-prepares d n
        (can params mirr_record first runs lcn mirror_at source_at raw e1 e2 e3 e4 fits e6 e7 e8) =
      let sum : ltb (n * params.file_record_size) (2 ^ 64) ≡ true = ground arith in
      ((mirror_at, raw), rw (e1, e2, e3, e4, sum, e6, e7, e8) refl)

  -- What the copy gives: for a record that the mirror does not hold, nothing; an error or a panic on a
  -- device as it was, where something the copy needs is missing; or the copy of the record is written to the mirror.
  pub data Mirrored (d : D) (n : ℕ) (p : D × Result (Unit {0})) : Type 0 where
    beyond : mirrored ≤ n → p ≡ (d, ok tt) → Mirrored d n p
    kept : n < mirrored → p.0 ≡ d → p.1 ≢ ok tt → ¬ (CanMirror d n) → Mirrored d n p
    copied :
        (mirror_at : ℕ) (raw : List ℕ)
        → n < mirrored
        → MirrorOf d n mirror_at raw
        → Rewrites dev contents faithful d mirror_at raw p
        → Mirrored d n p

  -- Copying a record to the mirror, on a device that keeps what is written: a record from the fifth on
  -- is left alone with success; else it gives an error or panics and leaves the device as it was, which
  -- happens only where the boot sector, record 1, its first run, the place in the mirror or the record
  -- cannot be had; or only `file_record_size` bytes may change, those of entry n behind the first
  -- cluster of the data of record 1, inside the volume and the device, it does not panic, and if it
  -- succeeds they are the bytes of the record on the device.
  pub sync_mftmirr_record_io-Mirrored :
      (d : D) (n : ℕ) → Mirrored d n (sync_mftmirr_record_io dev d n)
  unfolding sync_mftmirr_record_io
  sync_mftmirr_record_io-Mirrored d n = elim (Bool-cases (leb mirrored n)) [
    | inl past ↦ rw (past, sync_mftmirr_record_io) (beyond (ground (arith, past)) refl)
    | inr held ↦
        let low : n < mirrored = ground (arith, held) in
        let ready = CanMirror-prepares d n in
        elim (Result-cases (prepare_mirror dev d n)) [
          | failed e refused ↦
              rw (held, refused, sync_mftmirr_record_io)
                (kept low refl (λ h. cc) (λ c. let (q, done) = ready c in absurd cc))
          | panicked refused ↦
              rw (held, refused, sync_mftmirr_record_io)
                (kept low refl (λ h. cc) (λ c. let (q, done) = ready c in absurd cc))
          | gave (mirror_at, raw) prepares ↦
              rw (held, prepares, sync_mftmirr_record_io)
                (copied mirror_at raw low (prepare_mirror-MirrorOf d n prepares)
                  (write_and_sync-Rewrites dev contents faithful d mirror_at raw))
        ]
  ]
