-- ===== src/Fixup/Checks.antt =====
-- The guards: what `check_record` accepts, and that it panics on a sector size of 0 only.
use rust_fs_ntfs.Base.{ℕ, suc, ◌+◌, ◌-◌, ◌*◌, ◌/◌, ◌≤◌, ◌<◌, ◌≡◌, ◌≢◌, arith, inl, inr}
use rust_fs_ntfs.Base.{true, false, not, ◌||◌, ltb, ◌==◌, Bool-cases, ap}
use rust_fs_ntfs.Base.{List, length, take, bytes_eq, bytes_eq_iff, read_le, some}
use rust_fs_ntfs.Base.{ok, fault, io, >>=-eq-ok, via, ok_or, ok_or-eq-ok, ok-injective, ◌∙◌}
use rust_fs_ntfs.Base.{>>=-ne-fault, ok_or-ne-fault}
use rust_fs_ntfs.Fixup.{check_record, read_usa_header, validate_usa_geometry}
use rust_fs_ntfs.Fixup.{off_usa_offset, off_usa_count}
use native.Mathlib.Nat.{div-mul-le_self, div-one}
use native.Mathlib.Decide.{dec_lt}

-- A record that the guards accept: its magic, and an array of `n + 1` entries at `u` for its `n`
-- sectors of `b` bytes.
pub record IsFixup (r : List ℕ) (b : ℕ) (magic : List ℕ) (u n : ℕ) : Type 0 where
  pub magic_fits : take 4 r ≡ magic
  pub long : 8 ≤ length r
  pub offset : read_le 2 r off_usa_offset ≡ some u
  pub count : read_le 2 r off_usa_count ≡ some (suc n)
  pub inside : u + (n + 1) * 2 ≤ length r
  pub covers : n ≡ length r / b
  pub wide : 0 < b

pub check_record-eq-ok :
    (r : List ℕ) (b : ℕ) (magic : List ℕ) (u n : ℕ)
    → IsFixup r b magic u n
    → check_record r b magic ≡ ok (u, n)
unfolding check_record read_usa_header validate_usa_geometry
check_record-eq-ok r b magic u n f =
    let same : bytes_eq (take 4 r) magic ≡ true = (bytes_eq_iff _ _).1 f.magic_fits in
    let guard1 : (ltb (length r) 4 || not (bytes_eq (take 4 r) magic)) ≡ false =
      ground (arith, same, f.long) in
    let guard2 : ltb (length r) 8 ≡ false = ground (arith, f.long) in
    let guard3 : (b == 0) ≡ false = ground (arith, f.wide) in
    let guard4 : ltb (length r) (u + suc n * 2) ≡ false = ground (arith, f.inside) in
    let guard5 : not (suc n - 1 == length r / b) ≡ false = ground (arith, f.covers) in
    let guard6 : (suc n == 0) ≡ false = ground arith in
    rw (guard1, guard2, f.offset, f.count, guard6, guard3, guard4, guard5)
      (ap (λ t. ok (u, t)) (omega arith))

read_usa_header-eq-ok :
    (r : List ℕ) (u c : ℕ)
    → read_usa_header r ≡ ok (u, c)
    → (8 ≤ length r)
      × (read_le 2 r off_usa_offset ≡ some u)
      × (read_le 2 r off_usa_count ≡ some c)
      × (0 < c)
unfolding read_usa_header
read_usa_header-eq-ok r u c e = elim (Bool-cases (ltb (length r) 8)) [
  | inl short ↦ absurd (cc (rw short at e))
  | inr long ↦ elim (>>=-eq-ok (ok_or (read_le 2 r off_usa_offset) io) _ (rw long at e)) [
    | via u' e1 e2 ↦ elim (>>=-eq-ok (ok_or (read_le 2 r off_usa_count) io) _ e2) [
      | via c' e3 e4 ↦
          let h1 = ok_or-eq-ok (read_le 2 r off_usa_offset) io e1 in
          let h2 = ok_or-eq-ok (read_le 2 r off_usa_count) io e3 in
          (ground (arith, long), ground (arith, h1, e4), ground (arith, h2, e4), ground (arith, e4))
    ]
  ]
]

validate_usa_geometry-eq-ok :
    (len b u c : ℕ) {t : Unit {0}}
    → validate_usa_geometry len b u c ≡ ok t
    → (0 < b) × (u + c * 2 ≤ len) × (c - 1 ≡ len / b)
unfolding validate_usa_geometry
validate_usa_geometry-eq-ok len b u c e = (ground arith, ground arith, ground arith)

pub check_record-IsFixup :
    (r : List ℕ) (b : ℕ) (magic : List ℕ) (u n : ℕ)
    → check_record r b magic ≡ ok (u, n)
    → IsFixup r b magic u n
unfolding check_record
check_record-IsFixup r b magic u n e =
    elim (Bool-cases (ltb (length r) 4 || not (bytes_eq (take 4 r) magic))) [
      | inl bad ↦ absurd (cc (rw bad at e))
      | inr good ↦ elim (>>=-eq-ok (read_usa_header r) _ (rw good at e)) [
        | via (u', c) e1 e2 ↦ elim (>>=-eq-ok (validate_usa_geometry (length r) b u' c) _ e2) [
          | via _ e3 e4 ↦
              let (long, offset, count, some_entry) = read_usa_header-eq-ok r u' c e1 in
              let (wide, inside, covers) = validate_usa_geometry-eq-ok (length r) b u' c e3 in
              let same_u : u' ≡ u = cc (ok-injective e4) in
              let same_n : c - 1 ≡ n = cc (ok-injective e4) in
              record {
                magic_fits = (bytes_eq_iff _ _).0 (ground (arith, good));
                long = long;
                offset = rw same_u at offset;
                count = count ∙ ap some (omega arith);
                inside = omega arith;
                covers = omega arith;
                wide = wide;
              }
        ]
      ]
    ]

read_usa_header-ne-fault : (r : List ℕ) → read_usa_header r ≢ fault
unfolding read_usa_header
read_usa_header-ne-fault r = λ e. ground (
  arith,
  ok_or-ne-fault (read_le 2 r off_usa_offset) io,
  ok_or-ne-fault (read_le 2 r off_usa_count) io,
)

validate_usa_geometry-ne-fault : (len b u c : ℕ) → 0 < b → validate_usa_geometry len b u c ≢ fault
unfolding validate_usa_geometry
validate_usa_geometry-ne-fault len b u c h = λ e. ground arith

-- With a sector size above 0 the guards do not panic.
pub check_record-ne-fault :
    (r : List ℕ) (b : ℕ) (magic : List ℕ) → 0 < b → check_record r b magic ≢ fault
unfolding check_record
check_record-ne-fault r b magic h =
    elim (Bool-cases (ltb (length r) 4 || not (bytes_eq (take 4 r) magic))) [
      | inl bad ↦ rw bad (λ e. cc)
      | inr good ↦ rw good (
          >>=-ne-fault (read_usa_header r) _ (read_usa_header-ne-fault r) (λ p _.
            >>=-ne-fault (validate_usa_geometry (length r) b p.0 p.1) _
              (validate_usa_geometry-ne-fault (length r) b p.0 p.1 h) (λ t _ e. cc)))
    ]

-- With more than one byte to a sector the geometry leaves room for the ends of all sectors.
pub IsFixup-fits :
    (r : List ℕ) (b : ℕ) (magic : List ℕ) (u n : ℕ)
    → IsFixup r b magic u n
    → (2 ≤ b) × (n * b ≤ length r)
IsFixup-fits r b magic u n f = elim (dec_lt 1 b) [
  | yes wide ↦ (wide, omega (arith, div-mul-le_self (length r) b, ap (λ (t : ℕ). t * b) f.covers))
  | no one ↦
      let e : b ≡ 1 = omega (arith, f.wide) in
      absurd (omega (arith, f.inside, (rw (e, div-one) at f.covers)))
]
