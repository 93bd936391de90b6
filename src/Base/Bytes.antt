-- ===== src/Base/Bytes.antt =====
-- Byte buffers: little-endian fields, checked sums.
use Prim.Native.Nat.{ℕ, zero, suc, ◌+◌, ◌-◌, ◌*◌, ◌/◌, ◌%◌, ◌^◌, ◌≤◌, ◌<◌}
use mathlib.Core.Path.{◌≡◌, refl, sym, ap, ap₂, ◌∙◌}
use mathlib.Core.Logic.{◌↔◌, inl, inr}
use mathlib.Core.Bool.{Bool, true, false, ◌&&◌}
use mathlib.Core.Option.{Option, none, some}
use mathlib.Core.List.{List, [], ◌∷◌, ◌++◌}
use native.Mathlib.Omega.{arith}
use rust_fs_ntfs.Base.Tests.{ltb, leb, ◌==◌, if◌then◌else◌, Bool-cases}
use rust_fs_ntfs.Base.Lists.{
  length-set, length, get_elem?, get_or, set, take, drop, length-drop, get_elem?-eq-get_or,
}
use rust_fs_ntfs.Base.Lists.{length-append, drop_length-append, take_length-append}
use rust_fs_ntfs.Base.Errors.{Result, ok, fault, or_fault}

abbrev pub IsByte : ℕ → Type 0
IsByte b = b < 256

-- `u64::checked_add`
abbrev pub checked_add : ℕ → ℕ → Option ℕ
checked_add a b = if ltb (a + b) (2 ^ 64) then some (a + b) else none

pub checked_add-eq : (a b : ℕ) {c : ℕ} → checked_add a b ≡ some c → c ≡ a + b
checked_add-eq a b e = elim (Bool-cases (ltb (a + b) (2 ^ 64))) [
  | inl below ↦ let e' = rw below at e in cc
  | inr past ↦ let e' = rw past at e in cc
]

-- The number that bytes stand for, lowest first, and the bytes of a number.
abbrev pub from_le : List ℕ → ℕ
from_le [] = 0
from_le (b ∷ bs) = b + 256 * from_le bs

abbrev pub to_le : ℕ → ℕ → List ℕ
to_le zero n = []
to_le (suc w) n = n % 256 ∷ to_le w (n / 256)

pub length-to_le : (w n : ℕ) → length (to_le w n) ≡ w
length-to_le zero n = refl
length-to_le (suc w) n = omega (arith, length-to_le w (n / 256))

-- `buf[i]` and `buf[i] = v`, which panic out of range.
unfoldable pub index : List ℕ → ℕ → Result ℕ
index buf i = or_fault (get_elem? buf i)

unfoldable pub store : List ℕ → ℕ → ℕ → Result (List ℕ)
store buf i v = if ltb i (length buf) then ok (set buf i v) else fault

-- The byte at an index in range; 0 elsewhere.
abbrev pub byte_at : List ℕ → ℕ → ℕ
byte_at buf i = get_or buf i 0

pub index_lem : (buf : List ℕ) (i : ℕ) → i < length buf → index buf i ≡ ok (byte_at buf i)
unfolding index
index_lem buf i h = rw (get_elem?-eq-get_or buf i 0 h) refl

pub store_lem : (buf : List ℕ) (i v : ℕ) → i < length buf → store buf i v ≡ ok (set buf i v)
unfolding store
store_lem buf i v h = let inside : ltb i (length buf) ≡ true = ground arith in rw inside refl

-- `buf.get(offset..offset + 2)` as a `u16`, and so on: `read_u16_le` and its kin.
unfoldable pub read_le : ℕ → List ℕ → ℕ → Option ℕ
read_le w buf offset =
    if leb (offset + w) (length buf) then some (from_le (take w (drop offset buf))) else none

-- `a == b` of two slices.
unfoldable pub bytes_eq : List ℕ → List ℕ → Bool
bytes_eq [] [] = true
bytes_eq [] (b ∷ bs) = false
bytes_eq (a ∷ as') [] = false
bytes_eq (a ∷ as') (b ∷ bs) = a == b && bytes_eq as' bs

pub bytes_eq_iff : (a b : List ℕ) → (bytes_eq a b ≡ true) ↔ (a ≡ b)
unfolding bytes_eq
bytes_eq_iff [] [] = (λ e. refl, λ e. refl)
bytes_eq_iff [] (b ∷ bs) = (λ e. cc, λ e. cc)
bytes_eq_iff (a ∷ as') [] = (λ e. cc, λ e. cc)
bytes_eq_iff (a ∷ as') (b ∷ bs) = ground (arith, bytes_eq_iff as' bs)

-- A prefix is known by its bytes.
pub take_ext :
    (n : ℕ) (xs ys : List ℕ)
    → length xs ≡ length ys
    → ((i : ℕ) → i < n → byte_at xs i ≡ byte_at ys i)
    → take n xs ≡ take n ys
take_ext zero xs ys e h = refl
take_ext (suc n) [] [] e h = refl
take_ext (suc n) [] (y ∷ ys) e h = absurd (omega arith)
take_ext (suc n) (x ∷ xs) [] e h = absurd (omega arith)
take_ext (suc n) (x ∷ xs) (y ∷ ys) e h =
    ap₂ ◌∷◌ (h 0 (omega arith)) (take_ext n xs ys (omega arith) (λ i k. h (suc i) (omega arith)))

pub byte_at-drop : (n i : ℕ) (xs : List ℕ) → byte_at (drop n xs) i ≡ byte_at xs (n + i)
byte_at-drop zero i xs = ap (byte_at xs) (omega arith)
byte_at-drop (suc n) i [] = refl
byte_at-drop (suc n) i (x ∷ xs) =
    let e : suc n + i ≡ suc (n + i) = omega arith in rw e (byte_at-drop n i xs)

-- A field is known by its bytes.
pub read_le_ext :
    (w offset : ℕ) (xs ys : List ℕ)
    → length xs ≡ length ys
    → ((i : ℕ) → offset ≤ i → i < offset + w → byte_at xs i ≡ byte_at ys i)
    → read_le w xs offset ≡ read_le w ys offset
unfolding read_le
read_le_ext w offset xs ys e h =
    let same : take w (drop offset xs) ≡ take w (drop offset ys) =
      take_ext w (drop offset xs) (drop offset ys)
        (omega (arith, length-drop offset xs, length-drop offset ys))
        (λ i k.
          byte_at-drop offset i xs
          ∙ h (offset + i) (omega arith) (omega arith)
          ∙ sym (byte_at-drop offset i ys)) in
    rw (e, same) refl

-- `bytes[start..end]`, which panics out of range.
unfoldable pub slice : List ℕ → ℕ → ℕ → Result (List ℕ)
slice bytes start end =
    if leb start end && leb end (length bytes)
    then ok (take (end - start) (drop start bytes))
    else fault

pub slice_lem :
    (bytes : List ℕ) (start end : ℕ)
    → start ≤ end
    → end ≤ length bytes
    → slice bytes start end ≡ ok (take (end - start) (drop start bytes))
unfolding slice
slice_lem bytes start end h k =
    let inside : (leb start end && leb end (length bytes)) ≡ true = ground arith in rw inside refl

pub slice-middle :
    (pre mid post : List ℕ) (start end : ℕ)
    → start ≡ length pre
    → end ≡ length pre + length mid
    → slice (pre ++ (mid ++ post)) start end ≡ ok mid
slice-middle pre mid post start end s e =
    let fits : end ≤ length (pre ++ (mid ++ post)) =
      omega (arith, length-append pre (mid ++ post), length-append mid post) in
    let size : end - start ≡ length mid = omega arith in
    slice_lem (pre ++ (mid ++ post)) start end (omega arith) fits
    ∙ rw (size, s, drop_length-append pre (mid ++ post), take_length-append mid post) refl

pub read_le_lem :
    (w : ℕ) (buf : List ℕ) (offset : ℕ)
    → offset + w ≤ length buf
    → read_le w buf offset ≡ some (from_le (take w (drop offset buf)))
unfolding read_le
read_le_lem w buf offset h =
    let inside : leb (offset + w) (length buf) ≡ true = ground arith in rw inside refl

pub store-eq-ok :
    (buf : List ℕ) (i v : ℕ) {x : List ℕ} → store buf i v ≡ ok x → length x ≡ length buf
unfolding store
store-eq-ok buf i v {x} e = elim (Bool-cases (ltb i (length buf))) [
  | inl inside ↦
      let e' = rw inside at e in
      let same : set buf i v ≡ x = cc in rw (sym same) (length-set buf i v)
  | inr past ↦ let e' = rw past at e in absurd cc
]
