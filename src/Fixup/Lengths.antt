-- ===== src/Fixup/Lengths.antt =====
-- The fixups of src/mft_io.rs change bytes in place: a record keeps its length.
use rust_fs_ntfs.Base.{
  ℕ, zero, suc, ◌+◌, ◌-◌, ◌*◌, ◌/◌, ◌%◌, ◌≡◌, sym, ap, ◌∙◌, not, ◌&&◌, ◌==◌, Bool-cases, inl, inr,
  List, length,
}
use rust_fs_ntfs.Base.{
  Result, ok, err, io, ◌>>=◌, >>=-eq-ok, via, ok-injective, index, store, store-eq-ok,
}
use rust_fs_ntfs.Fixup.Checks.{check_record-IsFixup}
use rust_fs_ntfs.Base.{take, ◌≤◌}
use rust_fs_ntfs.Fixup.{
  sector_tail_bytes, next_usn, check_record, read_sectors, write_sectors, apply_fixup_on_read_magic,
  apply_fixup_on_write_magic,
}

-- If there is a record, it has this length.
unfoldable pub KeepsLength : ℕ → Result (List ℕ) → Type 0
KeepsLength n m = (x : List ℕ) → m ≡ ok x → length x ≡ n

>>=-KeepsLength {ℓ} :
    {A : Type ℓ} (n : ℕ) (m : Result A) (f : A → Result (List ℕ))
    → ((a : A) → m ≡ ok a → KeepsLength n (f a))
    → KeepsLength n (m >>= f)
unfolding KeepsLength
>>=-KeepsLength n m f h = λ x e. elim (>>=-eq-ok m f e) [ via a e1 e2 ↦ h a e1 x e2 ]

-- A store, then what keeps the length of what it gives.
store-KeepsLength :
    (r : List ℕ) (i v : ℕ) (f : List ℕ → Result (List ℕ))
    → ((r' : List ℕ) → KeepsLength (length r') (f r'))
    → KeepsLength (length r) (store r i v >>= f)
unfolding KeepsLength
store-KeepsLength r i v f h =
    >>=-KeepsLength (length r) (store r i v) f (λ r' e. λ x e'. h r' x e' ∙ store-eq-ok r i v e)

none-KeepsLength : (n : ℕ) → KeepsLength n (err io)
unfolding KeepsLength
none-KeepsLength n = λ x e. absurd cc

same-KeepsLength : (r : List ℕ) → KeepsLength (length r) (ok r)
unfolding KeepsLength
same-KeepsLength r = λ x e. ap length (sym (ok-injective e))

write_sectors-KeepsLength :
    (left s b u n0 n1 : ℕ) (r : List ℕ) → KeepsLength (length r) (write_sectors left s b u n0 n1 r)
unfolding write_sectors
write_sectors-KeepsLength zero s b u n0 n1 r = same-KeepsLength r
write_sectors-KeepsLength (suc left) s b u n0 n1 r =
    let replace : ℕ = (s + 1) * b - sector_tail_bytes in
    let saved : ℕ = u + 2 + s * 2 in
    >>=-KeepsLength (length r) (index r replace) _ (λ t0 e0. store-KeepsLength r saved t0 _ (λ r1.
      >>=-KeepsLength (length r1) (index r1 (replace + 1)) _ (λ t1 e1.
        store-KeepsLength r1 (saved + 1) t1 _ (λ r2. store-KeepsLength r2 replace n0 _ (λ r3.
          store-KeepsLength r3 (replace + 1) n1 _
            (λ r4. write_sectors-KeepsLength left (suc s) b u n0 n1 r4))))))

read_sectors-KeepsLength :
    (left s b u n0 n1 : ℕ) (r : List ℕ) → KeepsLength (length r) (read_sectors left s b u n0 n1 r)
unfolding read_sectors
read_sectors-KeepsLength zero s b u n0 n1 r = same-KeepsLength r
read_sectors-KeepsLength (suc left) s b u n0 n1 r =
    let check : ℕ = (s + 1) * b - sector_tail_bytes in
    let saved : ℕ = u + 2 + s * 2 in
    >>=-KeepsLength (length r) (index r check) _ (λ c0 e0.
      >>=-KeepsLength (length r) (index r (check + 1)) _ (λ c1 e1.
        elim (Bool-cases (not (c0 == n0 && c1 == n1))) [
          | inl torn ↦ rw torn (none-KeepsLength (length r))
          | inr intact ↦ rw intact (
              >>=-KeepsLength (length r) (index r saved) _ (λ s0 e2.
                store-KeepsLength r check s0 _ (λ r1.
                  >>=-KeepsLength (length r1) (index r1 (saved + 1)) _ (λ s1 e3.
                    store-KeepsLength r1 (check + 1) s1 _
                      (λ r2. read_sectors-KeepsLength left (suc s) b u n0 n1 r2)))))
        ]))

pub apply_fixup_on_read_magic-KeepsLength :
    (r : List ℕ) (b : ℕ) (magic : List ℕ)
    → KeepsLength (length r) (apply_fixup_on_read_magic r b magic)
unfolding apply_fixup_on_read_magic
apply_fixup_on_read_magic-KeepsLength r b magic =
    >>=-KeepsLength (length r) (check_record r b magic) _ (λ (u, n) e0.
      >>=-KeepsLength (length r) (index r u) _ (λ n0 e1.
        >>=-KeepsLength (length r) (index r (u + 1)) _
          (λ n1 e2. read_sectors-KeepsLength n 0 b u n0 n1 r)))

pub apply_fixup_on_write_magic-KeepsLength :
    (r : List ℕ) (b : ℕ) (magic : List ℕ)
    → KeepsLength (length r) (apply_fixup_on_write_magic r b magic)
unfolding apply_fixup_on_write_magic
apply_fixup_on_write_magic-KeepsLength r b magic =
    >>=-KeepsLength (length r) (check_record r b magic) _ (λ (u, n) e0.
      >>=-KeepsLength (length r) (index r u) _ (λ n0 e1.
        >>=-KeepsLength (length r) (index r (u + 1)) _ (λ n1 e2.
          store-KeepsLength r u (next_usn (n0 + 256 * n1) % 256) _ (λ r1.
            store-KeepsLength r1 (u + 1) (next_usn (n0 + 256 * n1) / 256) _ (λ r2.
              write_sectors-KeepsLength n 0 b u (next_usn (n0 + 256 * n1) % 256)
                (next_usn (n0 + 256 * n1) / 256) r2)))))

-- A record that is read begins with its magic.
pub apply_fixup_on_read_magic-eq-ok :
    (r : List ℕ) (b : ℕ) (magic : List ℕ) {x : List ℕ}
    → apply_fixup_on_read_magic r b magic ≡ ok x
    → (take 4 r ≡ magic) × (8 ≤ length r)
unfolding apply_fixup_on_read_magic
apply_fixup_on_read_magic-eq-ok r b magic e = elim (>>=-eq-ok (check_record r b magic) _ e) [
  | via (u, n) e1 e2 ↦ let f = check_record-IsFixup r b magic u n e1 in (f.magic_fits, f.long)
]
