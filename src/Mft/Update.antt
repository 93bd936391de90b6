-- ===== src/Mft/Update.antt =====
-- `update_mft_record_io` of src/mft_io.rs changes the one record that `read_mft_record_io` reads, or
-- nothing.
use rust_fs_ntfs.Base.{
  ℕ, ◌+◌, ◌≤◌, ◌<◌, ◌≡◌, ◌≢◌, refl, ◌∙◌, ◌⊎◌, inl, inr, false, Bool-cases, List, length, Option,
  some,
}
use rust_fs_ntfs.Base.{
  Result, ok, fault, io, ok_or, ok_or-eq-ok, >>=-eq-ok, via, Result-cases, gave, failed, panicked,
  byte_at,
}
use mathlib.Core.Path.{subst}
use rust_fs_ntfs.Fixup.{apply_fixup_on_read, apply_fixup_on_write}
use rust_fs_ntfs.Fixup.Lengths.{
  KeepsLength, apply_fixup_on_read_magic-KeepsLength, apply_fixup_on_write_magic-KeepsLength,
}
use rust_fs_ntfs.Fixup.{file_magic}
use rust_fs_ntfs.Boot.{BootParams}
use rust_fs_ntfs.Bitmap.Device.{BlockIo}
use rust_fs_ntfs.Bitmap.Device.Contents.{IsFaithful}
use rust_fs_ntfs.Mft.{
  record_flags, is_free, change_record, check_record_header, read_boot_params_io,
  mft_record_offset_maybe_io, mft_record_offset_io, read_mft_record_io, prepare_record,
  write_and_sync, update_mft_record_io,
}

module _ {D : Type 0} (dev : BlockIo D) (contents : D → ℕ → ℕ)
    (faithful : IsFaithful dev contents) where
  -- A block that was prepared for `offset`: the record that a read gives is in use, and the block is
  -- its change with the fixup, as long as a record.
  pub data PreparedFrom (d : D) (n : ℕ) (mutate : List ℕ → Result (List ℕ)) (offset : ℕ)
      (block : List ℕ) : Type 0 where
    prepared :
        (params : BootParams) (clean changed : List ℕ) (flags : ℕ)
        → mft_record_offset_io dev d params n ≡ ok offset
        → read_mft_record_io dev d n ≡ ok (params, clean)
        → record_flags clean ≡ ok flags
        → is_free flags ≡ false
        → mutate clean ≡ ok changed
        → apply_fixup_on_write changed params.bytes_per_sector ≡ ok block
        → length block ≡ params.file_record_size
        → PreparedFrom d n mutate offset block

  block_from_record :
      (d : D) (params : BootParams) (at : ℕ) (mutate : List ℕ → Result (List ℕ))
      {raw clean changed block : List ℕ}
      → ((r : List ℕ) → KeepsLength (length r) (mutate r))
      → dev.read_exact_at d at params.file_record_size ≡ some raw
      → apply_fixup_on_read raw params.bytes_per_sector ≡ ok clean
      → mutate clean ≡ ok changed
      → apply_fixup_on_write changed params.bytes_per_sector ≡ ok block
      → length block ≡ params.file_record_size
  unfolding apply_fixup_on_read apply_fixup_on_write KeepsLength
  block_from_record d params at mutate {raw} {clean} {changed} {block} keeps e0 e1 e2 e3 =
      let bps = params.bytes_per_sector in
      apply_fixup_on_write_magic-KeepsLength changed bps file_magic block e3
      ∙ keeps clean changed e2
      ∙ apply_fixup_on_read_magic-KeepsLength raw bps file_magic clean e1
      ∙ (faithful.reads d at params.file_record_size raw e0).0

  -- A read of the record, step by step.
  read_from_steps :
      (d : D) (params : BootParams) (n at : ℕ) (raw clean : List ℕ)
      → read_boot_params_io dev d ≡ ok params
      → mft_record_offset_io dev d params n ≡ ok at
      → dev.read_exact_at d at params.file_record_size ≡ some raw
      → apply_fixup_on_read raw params.bytes_per_sector ≡ ok clean
      → check_record_header clean ≡ ok tt
      → read_mft_record_io dev d n ≡ ok (params, clean)
  unfolding read_mft_record_io
  read_from_steps d params n at raw clean e1 e2 e3 e4 e5 = rw (e1, e2, e3, e4, e5) refl

  offset_from_steps :
      (d : D) (params : BootParams) (n at : ℕ) (found : Option ℕ)
      → mft_record_offset_maybe_io dev d params n ≡ ok found
      → ok_or found io ≡ ok at
      → mft_record_offset_io dev d params n ≡ ok at
  unfolding mft_record_offset_io
  offset_from_steps d params n at found e1 e2 = rw e1 e2

  -- The steps behind the read.
  changed_from_steps :
      (d : D) (params : BootParams) (n offset : ℕ) (raw clean : List ℕ)
      (mutate : List ℕ → Result (List ℕ)) {block : List ℕ}
      → ((r : List ℕ) → KeepsLength (length r) (mutate r))
      → mft_record_offset_io dev d params n ≡ ok offset
      → dev.read_exact_at d offset params.file_record_size ≡ some raw
      → apply_fixup_on_read raw params.bytes_per_sector ≡ ok clean
      → read_mft_record_io dev d n ≡ ok (params, clean)
      → change_record params clean mutate ≡ ok block
      → PreparedFrom d n mutate offset block
  unfolding change_record
  changed_from_steps d params n offset raw clean mutate {block} keeps located e4 e5 read f6 =
      elim (>>=-eq-ok (record_flags clean) _ f6) [
        | via flags e7 f7 ↦ elim (Bool-cases (is_free flags)) [
          | inl free ↦ let f8 = rw free at f7 in absurd cc
          | inr used ↦
              let f8 = rw used at f7 in
              elim (>>=-eq-ok (mutate clean) _ f8) [
                | via changed e9 e10 ↦
                    prepared params clean changed flags located read e7 used e9 e10
                      (block_from_record d params offset mutate keeps e4 e5 e9 e10)
              ]
        ]
      ]

  prepare_record-PreparedFrom :
      (d : D) (n : ℕ) (mutate : List ℕ → Result (List ℕ)) {offset : ℕ} {block : List ℕ}
      → ((r : List ℕ) → KeepsLength (length r) (mutate r))
      → prepare_record dev d n mutate ≡ ok (offset, block)
      → PreparedFrom d n mutate offset block
  unfolding prepare_record
  prepare_record-PreparedFrom d n mutate {offset} {block} keeps e =
      elim (>>=-eq-ok (read_boot_params_io dev d) _ e) [
        | via params e1 f1 ↦ elim (>>=-eq-ok (mft_record_offset_maybe_io dev d params n) _ f1) [
          | via found e2 f2 ↦ elim (>>=-eq-ok (ok_or found io) _ f2) [
            | via at e3 f3 ↦
                let located = offset_from_steps d params n at found e2 e3 in
                elim (>>=-eq-ok (ok_or (dev.read_exact_at d at params.file_record_size) io) _ f3) [
                  | via raw e4 f4 ↦
                      let got =
                        ok_or-eq-ok (dev.read_exact_at d at params.file_record_size) io e4 in
                      elim (>>=-eq-ok (apply_fixup_on_read raw params.bytes_per_sector) _ f4) [
                        | via clean e5 f5 ↦ elim (>>=-eq-ok (check_record_header clean) _ f5) [
                          | via tt e6 f6 ↦
                              let read =
                                read_from_steps d params n at raw clean e1 located got e5 e6 in
                              elim (>>=-eq-ok (change_record params clean mutate) _ f6) [
                                | via whole e7 e8 ↦
                                    let same : whole ≡ block = cc in
                                    let place : at ≡ offset = cc in
                                    subst (PreparedFrom d n mutate offset) same (
                                      subst (λ a. PreparedFrom d n mutate a whole) place
                                        (changed_from_steps d params n at raw clean mutate keeps
                                          located got e5 read e7))
                              ]
                        ]
                      ]
                ]
          ]
        ]
      ]

  -- What a write with its sync gives: only its range may change, and if both succeed the range holds
  -- the bytes. It does not panic.
  pub record Rewrites (d : D) (offset : ℕ) (block : List ℕ) (p : D × Result (Unit {0}))
      : Type 0 where
    pub beside :
        (i : ℕ) → (i < offset) ⊎ (offset + length block ≤ i) → contents p.0 i ≡ contents d i
    pub holds :
        p.1 ≡ ok tt → (i : ℕ) → i < length block → contents p.0 (offset + i) ≡ byte_at block i
    pub no_panic : p.1 ≢ fault

  pub write_and_sync-Rewrites :
      (d : D) (offset : ℕ) (block : List ℕ)
      → Rewrites d offset block (write_and_sync dev d offset block)
  unfolding write_and_sync
  write_and_sync-Rewrites d offset block =
      let d1 : D = (dev.write_all_at d offset block).0 in
      elim (Bool-cases (dev.write_all_at d offset block).1) [
        | inr missed ↦
            rw (missed, write_and_sync)
              (record {
                beside = faithful.writes_beside d offset block;
                holds = λ h. absurd cc;
                no_panic = λ h. cc;
              })
        | inl landed ↦
            rw (landed, write_and_sync)
              (record {
                beside =
                    λ i apart. faithful.syncs d1 i ∙ faithful.writes_beside d offset block i apart;
                holds = λ h i lt.
                    faithful.syncs d1 (offset + i) ∙ faithful.writes d offset block landed i lt;
                no_panic = elim (Bool-cases (dev.sync d1).1) [
                  | inl synced ↦ rw synced (λ h. cc)
                  | inr lost ↦ rw lost (λ h. cc)
                ];
              })
      ]

  -- What an update gives: an error or a panic on a device as it was, or the record was prepared and
  -- written to its place.
  pub data Recorded (d : D) (n : ℕ) (mutate : List ℕ → Result (List ℕ)) (p : D × Result (Unit {0}))
      : Type 0 where
    kept : p.0 ≡ d → p.1 ≢ ok tt → Recorded d n mutate p
    rewritten :
        (offset : ℕ) (block : List ℕ)
        → PreparedFrom d n mutate offset block
        → Rewrites d offset block p
        → Recorded d n mutate p

  -- An update of a record, with a change that keeps the length, on a device that keeps what is
  -- written: either it gives an error or panics and leaves the device as it was; or the record that
  -- `read_mft_record_io` gives is in use, only the `file_record_size` bytes at its offset may change,
  -- it does not panic, and if it succeeds they are the changed record with its fixup.
  pub update_mft_record_io-Recorded :
      (d : D) (n : ℕ) (mutate : List ℕ → Result (List ℕ))
      → ((r : List ℕ) → KeepsLength (length r) (mutate r))
      → Recorded d n mutate (update_mft_record_io dev d n mutate)
  unfolding update_mft_record_io
  update_mft_record_io-Recorded d n mutate keeps =
      elim (Result-cases (prepare_record dev d n mutate)) [
        | failed e refused ↦ rw (refused, update_mft_record_io) (kept refl (λ h. cc))
        | panicked refused ↦ rw (refused, update_mft_record_io) (kept refl (λ h. cc))
        | gave (offset, block) prepares ↦
            rw (prepares, update_mft_record_io)
              (rewritten offset block (prepare_record-PreparedFrom d n mutate keeps prepares)
                (write_and_sync-Rewrites d offset block))
      ]
