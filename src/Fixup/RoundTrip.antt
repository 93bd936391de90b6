-- ===== src/Fixup/RoundTrip.antt =====
-- Reading what was written: the record comes back, and a torn sector is found.
use rust_fs_ntfs.Base.{ℕ, zero, suc, ◌+◌, ◌*◌, ◌/◌, ◌%◌, ◌^◌, ◌≤◌, ◌<◌, ◌≡◌, ◌≢◌, arith}
use rust_fs_ntfs.Base.{◌⊎◌, inl, inr, ap, sym, ◌∙◌}
use rust_fs_ntfs.Base.{List, length, set, length-set, get_or-set_self, get_or-set_ne, byte_at}
use rust_fs_ntfs.Base.{ok, index_lem, store_lem}
use rust_fs_ntfs.Base.{take_ext, read_le_ext}
use rust_fs_ntfs.Fixup.{read_sectors, next_usn}
use rust_fs_ntfs.Fixup.{apply_fixup_on_read_magic, apply_fixup_on_write_magic}
use rust_fs_ntfs.Fixup.{off_usa_offset, off_usa_count}
use rust_fs_ntfs.Fixup.Usa.{tail_at, tail_first}
use rust_fs_ntfs.Fixup.Loops.{saved_at, OffTails, IsProtected, IsRestored}
use rust_fs_ntfs.Fixup.Loops.{write_sectors-IsProtected, read_sectors-IsRestored}
use rust_fs_ntfs.Fixup.Checks.{IsFixup, IsFixup-fits, check_record-eq-ok}
use rust_fs_ntfs.Fixup.Safety.{read_sectors-EndsInUsn}
use native.Mathlib.Decide.{ℕ_discrete}

-- An accepted record whose array lies behind the header and before the end of the first sector,
-- as in every record that NTFS lays out.
pub record IsLaidOut (r : List ℕ) (b : ℕ) (magic : List ℕ) (u n : ℕ) : Type 0 where
  pub accepted : IsFixup r b magic u n
  pub behind_header : 8 ≤ u
  pub clear : saved_at u n + 2 ≤ b

-- The number that a write puts down for a record that holds `r`.
abbrev pub usn_after : List ℕ → ℕ → ℕ
usn_after r u = next_usn (byte_at r u + 256 * byte_at r (u + 1))

-- The successor is never 0 and fits 16 bits.
pub next_usn_bounds : (old : ℕ) → (1 ≤ next_usn old) × (next_usn old < 2 ^ 16)
unfolding next_usn
next_usn_bounds old = ground arith

-- Is an index at the end of one of the first `n` sectors?
data Place (b n j : ℕ) : Type 0 where
  tail : (k : ℕ) → k < n → (j ≡ tail_at b k) ⊎ (j ≡ tail_at b k + 1) → Place b n j
  off : OffTails b 0 n j → Place b n j

place : (b n j : ℕ) → Place b n j
place b zero j = off (λ k lo hi. absurd (omega arith))
place b (suc n) j = elim (place b n j) [
  | tail k hi e ↦ tail k (omega arith) e
  | off away ↦ elim (ℕ_discrete j (tail_at b n)) [
    | yes e ↦ tail n (omega arith) (inl e)
    | no n0 ↦ elim (ℕ_discrete j (tail_at b n + 1)) [
      | yes e ↦ tail n (omega arith) (inr e)
      | no n1 ↦ off (λ k lo hi. elim (ℕ_discrete k n) [
        | yes e ↦ rw e (n0, n1)
        | no e ↦ away k lo (omega arith)
      ])
    ]
  ]
]

module _ (r : List ℕ) (b : ℕ) (magic : List ℕ) (u n : ℕ) (laid : IsLaidOut r b magic u n) where
  abbrev lo_usn : ℕ
  lo_usn = usn_after r u % 256

  abbrev hi_usn : ℕ
  hi_usn = usn_after r u / 256

  -- The record with the new number, before the loop.
  abbrev numbered : List ℕ
  numbered = set (set r u lo_usn) (u + 1) hi_usn

  length-numbered : length numbered ≡ length r
  length-numbered = length-set (set r u lo_usn) (u + 1) hi_usn ∙ length-set r u lo_usn

  numbered_usn : (byte_at numbered u ≡ lo_usn) × (byte_at numbered (u + 1) ≡ hi_usn)
  numbered_usn =
      let room = laid.accepted.inside in
      (
        get_or-set_ne (set r u lo_usn) (u + 1) u hi_usn 0 (omega arith)
            ∙ get_or-set_self r u lo_usn 0 (omega arith),
        get_or-set_self (set r u lo_usn) (u + 1) hi_usn 0 (omega (arith, length-set r u lo_usn)),
      )

  numbered_rest : (j : ℕ) → j ≢ u → j ≢ u + 1 → byte_at numbered j ≡ byte_at r j
  numbered_rest j n0 n1 =
      get_or-set_ne (set r u lo_usn) (u + 1) j hi_usn 0 (omega arith)
      ∙ get_or-set_ne r u j lo_usn 0 (omega arith)

  write_runs :
      (w : List ℕ) × (apply_fixup_on_write_magic r b magic ≡ ok w)
      × IsProtected b u lo_usn hi_usn 0 n numbered w
  write_runs =
      let f = laid.accepted in
      let (wide, fits) = IsFixup-fits r b magic u n f in
      let l1 = length-set r u lo_usn in
      let (w, runs, p) =
        write_sectors-IsProtected b u n lo_usn hi_usn wide laid.clear n 0 numbered (omega arith)
          (omega (arith, length-numbered, fits)) in
      (
        w,
        (unfold apply_fixup_on_write_magic in
            rw
              (
                check_record-eq-ok r b magic u n f,
                index_lem r u (omega (arith, f.inside)),
                index_lem r (u + 1) (omega (arith, f.inside)),
                store_lem r u lo_usn (omega (arith, f.inside)),
                store_lem (set r u lo_usn) (u + 1) hi_usn (omega (arith, f.inside, l1)),
              )
              runs),
        p,
      )

  -- What the loop wrote is a record that the guards accept again.
  written_accepted :
      (w : List ℕ) → IsProtected b u lo_usn hi_usn 0 n numbered w → IsFixup w b magic u n
  written_accepted w p =
      let f = laid.accepted in
      let same : length w ≡ length r = p.same_length ∙ length-numbered in
      let header : (j : ℕ) → j < 8 → byte_at w j ≡ byte_at r j = λ j h.
        p.rest j (inl (omega (arith, laid.behind_header))) (λ k lo hi. (
          omega (arith, tail_first b k, laid.behind_header, laid.clear),
          omega (arith, tail_first b k, laid.behind_header, laid.clear),
        ))
        ∙ numbered_rest j (omega (arith, laid.behind_header)) (omega (arith, laid.behind_header)) in
      record {
        magic_fits = take_ext 4 w r same (λ i h. header i (omega arith)) ∙ f.magic_fits;
        long = omega (arith, f.long);
        offset =
            read_le_ext 2 off_usa_offset w r same (λ i lo hi. header i (omega arith)) ∙ f.offset;
        count = read_le_ext 2 off_usa_count w r same (λ i lo hi. header i (omega arith)) ∙ f.count;
        inside = omega (arith, f.inside);
        covers = f.covers ∙ ap (λ t. t / b) (sym same);
        wide = f.wide;
      }

  -- The number stands at the head of the array of what was written.
  written_usn :
      (w : List ℕ)
      → IsProtected b u lo_usn hi_usn 0 n numbered w
      → (byte_at w u ≡ lo_usn) × (byte_at w (u + 1) ≡ hi_usn)
  written_usn w p =
      let away : (j : ℕ) → j < u + 2 → OffTails b 0 n j = λ j h k lo hi.
        (omega (arith, tail_first b k, laid.clear), omega (arith, tail_first b k, laid.clear)) in
      (
        p.rest u (inl (omega arith)) (away u (omega arith)) ∙ numbered_usn.0,
        p.rest (u + 1) (inl (omega arith)) (away (u + 1) (omega arith)) ∙ numbered_usn.1,
      )

  read_runs :
      (w : List ℕ)
      → IsProtected b u lo_usn hi_usn 0 n numbered w
      → (x : List ℕ) × (apply_fixup_on_read_magic w b magic ≡ ok x) × IsRestored b u 0 n w x
  read_runs w p =
      let f = written_accepted w p in
      let (wide, fits) = IsFixup-fits w b magic u n f in
      let (e0, e1) = written_usn w p in
      let (x, runs, q) =
        read_sectors-IsRestored b u n lo_usn hi_usn wide laid.clear n 0 w (omega arith) fits
          p.tails in
      (
        x,
        (unfold apply_fixup_on_read_magic in
            rw
              (
                check_record-eq-ok w b magic u n f,
                index_lem w u (omega (arith, f.inside)),
                index_lem w (u + 1) (omega (arith, f.inside)),
                e0,
                e1,
              )
              runs),
        q,
      )

  restored_byte :
      (w x : List ℕ) (j : ℕ)
      → IsProtected b u lo_usn hi_usn 0 n numbered w
      → IsRestored b u 0 n w x
      → (j < u) ⊎ (saved_at u n ≤ j)
      → byte_at x j ≡ byte_at r j
  restored_byte w x j p q side = elim (place b n j) [
    | off away ↦
        q.rest j away ∙ p.rest j (omega arith) away ∙ numbered_rest j (omega arith) (omega arith)
    | tail k hi (inl e) ↦ rw e (
        (q.tails k (omega arith) hi).0
        ∙ (p.saved k (omega arith) hi).0
        ∙ numbered_rest (tail_at b k) (omega (arith, tail_first b k, laid.clear))
            (omega (arith, tail_first b k, laid.clear)))
    | tail k hi (inr e) ↦ rw e (
        (q.tails k (omega arith) hi).1
        ∙ (p.saved k (omega arith) hi).1
        ∙ numbered_rest (tail_at b k + 1) (omega (arith, tail_first b k, laid.clear))
            (omega (arith, tail_first b k, laid.clear)))
  ]

  -- A record laid out as NTFS does can be written, and what was written can be read: the write
  -- gives an accepted record in which every sector ends in the new number, and the read gives a
  -- record of the same length that differs from the first at most inside the array.
  pub read-write :
      (w x : List ℕ) × (apply_fixup_on_write_magic r b magic ≡ ok w)
      × ((k : ℕ)
          → k < n
          → (byte_at w (tail_at b k) ≡ usn_after r u % 256)
            × (byte_at w (tail_at b k + 1) ≡ usn_after r u / 256))
      × (apply_fixup_on_read_magic w b magic ≡ ok x)
      × (length x ≡ length r)
      × ((j : ℕ) → (j < u) ⊎ (saved_at u n ≤ j) → byte_at x j ≡ byte_at r j)
  read-write =
      let (w, writes, p) = write_runs in
      let (x, reads, q) = read_runs w p in
      (
        w,
        x,
        writes,
        (λ k hi. p.tails k (omega arith) hi),
        reads,
        q.same_length ∙ p.same_length ∙ length-numbered,
        (λ j side. restored_byte w x j p q side),
      )

  -- Torn writes are found: a record that is laid out as NTFS does, with its array behind the header
  -- and before the first sector's end, and that is read without an error ends every sector in the two
  -- bytes at the head of the array.
  pub read-EndsInUsn :
      (x : List ℕ)
      → apply_fixup_on_read_magic r b magic ≡ ok x
      → (k : ℕ) → k < n
      → (byte_at r (tail_at b k) ≡ byte_at r u) × (byte_at r (tail_at b k + 1) ≡ byte_at r (u + 1))
  read-EndsInUsn x e k hi =
      let f = laid.accepted in
      let (wide, fits) = IsFixup-fits r b magic u n f in
      let body : read_sectors n 0 b u (byte_at r u) (byte_at r (u + 1)) r ≡ ok x =
        read_as_loop f x e in
      read_sectors-EndsInUsn b u n (byte_at r u) (byte_at r (u + 1)) wide laid.clear n 0 r x
        (omega arith) fits body k (omega arith) hi
    where
      read_as_loop :
          IsFixup r b magic u n
          → (x : List ℕ) → apply_fixup_on_read_magic r b magic ≡ ok x
          → read_sectors n 0 b u (byte_at r u) (byte_at r (u + 1)) r ≡ ok x
      read_as_loop f x =
          unfold apply_fixup_on_read_magic in
          rw
            (
              check_record-eq-ok r b magic u n f,
              index_lem r u (omega (arith, f.inside)),
              index_lem r (u + 1) (omega (arith, f.inside)),
            )
            (λ e. e)
