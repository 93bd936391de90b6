-- ===== src/Base/Edit.antt =====
-- Writes into a byte buffer: `copy_from_slice`, `copy_within`, and fields in little-endian order.
use Prim.Native.Nat.{ℕ, zero, suc, ◌+◌, ◌-◌, ◌/◌, ◌^◌, ◌≤◌, ◌<◌}
use mathlib.Core.Path.{◌≡◌, refl, sym, ap, ap₂, ◌∙◌}
use mathlib.Core.Bool.{true, ◌&&◌}
use mathlib.Core.Logic.{◌⊎◌, inl, inr}
use mathlib.Core.List.{List, [], ◌∷◌}
use native.Mathlib.Nat.{pow-suc}
use native.Mathlib.Omega.{arith}
use rust_fs_ntfs.Base.Tests.{ltb, leb, if◌then◌else◌}
use rust_fs_ntfs.Base.Lists.{
  length, take, drop, replicate, length-take, length-drop, length-replicate,
}
use rust_fs_ntfs.Base.Errors.{Result, ok, fault, ◌>>=◌, or_fault}
use rust_fs_ntfs.Base.Bytes.{
  byte_at, byte_at-drop, slice, slice_lem, read_le, read_le_lem, from_le, to_le, length-to_le,
  read_le_ext,
}

-- The buffer with `b` written from `off` on; what would lie past its end is dropped.
unfoldable pub splice : List ℕ → ℕ → List ℕ → List ℕ
splice [] off b = []
splice (x ∷ xs) zero [] = x ∷ xs
splice (x ∷ xs) zero (y ∷ b) = y ∷ splice xs zero b
splice (x ∷ xs) (suc off) b = x ∷ splice xs off b

pub length-splice : (buf : List ℕ) (off : ℕ) (b : List ℕ) → length (splice buf off b) ≡ length buf
unfolding splice
length-splice [] off b = refl
length-splice (x ∷ xs) zero [] = refl
length-splice (x ∷ xs) zero (y ∷ b) = ap suc (length-splice xs zero b)
length-splice (x ∷ xs) (suc off) b = ap suc (length-splice xs off b)

pub byte_at-splice :
    (buf : List ℕ) (off : ℕ) (b : List ℕ) (i : ℕ)
    → byte_at (splice buf off b) i ≡ (
        if leb off i && (ltb i (off + length b) && ltb i (length buf))
        then byte_at b (i - off)
        else byte_at buf i)
unfolding splice
byte_at-splice [] off b i = ground arith
byte_at-splice (x ∷ xs) zero [] i = ground arith
byte_at-splice (x ∷ xs) zero (y ∷ b) zero = ground arith
byte_at-splice (x ∷ xs) zero (y ∷ b) (suc i) = ground (arith, byte_at-splice xs zero b i)
byte_at-splice (x ∷ xs) (suc off) b zero = ground arith
byte_at-splice (x ∷ xs) (suc off) b (suc i) =
    let e : suc i - suc off ≡ i - off = omega arith in
    rw e (ground (arith, byte_at-splice xs off b i))

-- `buf[off..off + b.len()].copy_from_slice(b)`, which panics out of range.
unfoldable pub patch : List ℕ → ℕ → List ℕ → Result (List ℕ)
patch buf off b = if leb (off + length b) (length buf) then ok (splice buf off b) else fault

pub patch_lem :
    (buf : List ℕ) (off : ℕ) (b : List ℕ)
    → off + length b ≤ length buf
    → patch buf off b ≡ ok (splice buf off b)
unfolding patch
patch_lem buf off b h =
    let inside : leb (off + length b) (length buf) ≡ true = ground arith in rw inside refl

-- `buf.copy_within(start..end, dest)`
unfoldable pub copy_within : List ℕ → ℕ → ℕ → ℕ → Result (List ℕ)
copy_within buf start end dest = do b ← slice buf start end; patch buf dest b

-- `for byte in &mut buf[start..end] { *byte = 0; }`
unfoldable pub zero_range : List ℕ → ℕ → ℕ → Result (List ℕ)
zero_range buf start end = do b ← slice buf start end; patch buf start (replicate (length b) 0)

-- `buf[off..off + w].copy_from_slice(&n.to_le_bytes())`, of a `w`-byte `n`.
abbrev pub put_le : ℕ → List ℕ → ℕ → ℕ → Result (List ℕ)
put_le w buf off n = patch buf off (to_le w n)

-- `uN::from_le_bytes([buf[off], buf[off + 1], ..])`
abbrev pub get_le : ℕ → List ℕ → ℕ → Result ℕ
get_le w buf off = or_fault (read_le w buf off)

-- The bytes from `start` up to `end`.
abbrev pub bytes_between : List ℕ → ℕ → ℕ → List ℕ
bytes_between buf start end = take (end - start) (drop start buf)

pub length-bytes_between :
    (buf : List ℕ) (start end : ℕ)
    → start ≤ end
    → end ≤ length buf
    → length (bytes_between buf start end) ≡ end - start
length-bytes_between buf start end h k =
    omega (arith, length-take (end - start) (drop start buf), length-drop start buf)

pub byte_at-take : (n i : ℕ) (xs : List ℕ) → i < n → byte_at (take n xs) i ≡ byte_at xs i
byte_at-take zero i xs h = absurd (omega arith)
byte_at-take (suc n) i [] h = refl
byte_at-take (suc n) zero (x ∷ xs) h = refl
byte_at-take (suc n) (suc i) (x ∷ xs) h = byte_at-take n i xs (omega arith)

pub copy_within_lem :
    (buf : List ℕ) (start end dest : ℕ)
    → start ≤ end
    → end ≤ length buf
    → dest + (end - start) ≤ length buf
    → copy_within buf start end dest ≡ ok (splice buf dest (bytes_between buf start end))
unfolding copy_within
copy_within_lem buf start end dest h k fits =
    let size = length-bytes_between buf start end h k in
    rw (slice_lem buf start end h k)
      (patch_lem buf dest (bytes_between buf start end) (omega (arith, size, fits)))

pub zero_range_lem :
    (buf : List ℕ) (start end : ℕ)
    → start ≤ end
    → end ≤ length buf
    → zero_range buf start end ≡ ok (splice buf start (replicate (end - start) 0))
unfolding zero_range
zero_range_lem buf start end h k =
    let size = length-bytes_between buf start end h k in
    let zeros : List ℕ = replicate (end - start) 0 in
    let count : length zeros ≡ end - start = length-replicate (end - start) 0 in
    rw (slice_lem buf start end h k, size) (patch_lem buf start zeros (omega (arith, count)))

pub get_le_lem :
    (w : ℕ) (buf : List ℕ) (off : ℕ)
    → off + w ≤ length buf
    → get_le w buf off ≡ ok (from_le (take w (drop off buf)))
get_le_lem w buf off h = ap or_fault (read_le_lem w buf off h)

pub byte_at-replicate : (n i : ℕ) → byte_at (replicate n 0) i ≡ 0
byte_at-replicate zero i = refl
byte_at-replicate (suc n) zero = refl
byte_at-replicate (suc n) (suc i) = byte_at-replicate n i

-- What was written is what is there.
pub take-drop-splice :
    (buf : List ℕ) (off : ℕ) (b : List ℕ)
    → off + length b ≤ length buf
    → take (length b) (drop off (splice buf off b)) ≡ b
unfolding splice
take-drop-splice [] zero [] h = refl
take-drop-splice [] zero (y ∷ b) h = absurd (omega arith)
take-drop-splice [] (suc off) b h = absurd (omega arith)
take-drop-splice (x ∷ xs) zero [] h = refl
take-drop-splice (x ∷ xs) zero (y ∷ b) h =
    ap (λ t. y ∷ t) (take-drop-splice xs zero b (omega arith))
take-drop-splice (x ∷ xs) (suc off) b h = take-drop-splice xs off b (omega arith)

pub from_le-to_le : (w n : ℕ) → n < 256 ^ w → from_le (to_le w n) ≡ n
from_le-to_le zero n h = omega arith
from_le-to_le (suc w) n h =
    omega (arith, pow-suc 256 w, from_le-to_le w (n / 256) (omega (arith, pow-suc 256 w)))

-- A field is read as it was written.
pub get_le-put_le :
    (w : ℕ) (buf : List ℕ) (off n : ℕ)
    → off + w ≤ length buf
    → n < 256 ^ w
    → get_le w (splice buf off (to_le w n)) off ≡ ok n
get_le-put_le w buf off n h small =
    let size = length-to_le w n in
    let there : take w (drop off (splice buf off (to_le w n))) ≡ to_le w n =
      ap (λ k. take k (drop off (splice buf off (to_le w n)))) (sym size)
      ∙ take-drop-splice buf off (to_le w n) (omega (arith, size)) in
    get_le_lem w (splice buf off (to_le w n)) off (omega (arith, length-splice buf off (to_le w n)))
    ∙ ap ok (ap from_le there ∙ from_le-to_le w n small)

pub byte_at-splice_apart :
    (buf : List ℕ) (off : ℕ) (b : List ℕ) (i : ℕ)
    → (i < off) ⊎ (off + length b ≤ i)
    → byte_at (splice buf off b) i ≡ byte_at buf i
byte_at-splice_apart buf off b i apart = ground (arith, byte_at-splice buf off b i)

pub byte_at-splice_in :
    (buf : List ℕ) (off : ℕ) (b : List ℕ) (i : ℕ)
    → i < length b
    → off + length b ≤ length buf
    → byte_at (splice buf off b) (off + i) ≡ byte_at b i
byte_at-splice_in buf off b i h k =
    let e : off + i - off ≡ i = omega arith in
    ground (arith, byte_at-splice buf off b (off + i), ap (byte_at b) e)

-- A field is not changed by a write beside it.
pub get_le-splice_apart :
    (w : ℕ) (buf : List ℕ) (off : ℕ) (b : List ℕ) (at : ℕ)
    → (at + w ≤ off) ⊎ (off + length b ≤ at)
    → get_le w (splice buf off b) at ≡ get_le w buf at
get_le-splice_apart w buf off b at apart = ap or_fault (
    read_le_ext w at (splice buf off b) buf (length-splice buf off b)
      (λ i lo hi. byte_at-splice_apart buf off b i (beside i lo hi apart)))
  where
    beside :
        (i : ℕ)
        → at ≤ i
        → i < at + w
        → (at + w ≤ off) ⊎ (off + length b ≤ at)
        → (i < off) ⊎ (off + length b ≤ i)
    beside i lo hi (inl left) = inl (omega arith)
    beside i lo hi (inr right) = inr (omega arith)

-- Long enough buffers with the same first bytes.
pub take_ext_long :
    (n : ℕ) (xs ys : List ℕ)
    → n ≤ length xs
    → n ≤ length ys
    → ((i : ℕ) → i < n → byte_at xs i ≡ byte_at ys i)
    → take n xs ≡ take n ys
take_ext_long zero xs ys h k e = refl
take_ext_long (suc n) [] ys h k e = absurd (omega arith)
take_ext_long (suc n) (x ∷ xs) [] h k e = absurd (omega arith)
take_ext_long (suc n) (x ∷ xs) (y ∷ ys) h k e =
    ap₂ ◌∷◌ (e 0 (omega arith))
      (take_ext_long n xs ys (omega arith) (omega arith) (λ i lt. e (suc i) (omega arith)))

-- A field whose bytes stand elsewhere is read the same there.
pub get_le-moved :
    (w : ℕ) (r s : List ℕ) (at to : ℕ)
    → at + w ≤ length r
    → to + w ≤ length s
    → ((i : ℕ) → i < w → byte_at s (to + i) ≡ byte_at r (at + i))
    → get_le w s to ≡ get_le w r at
get_le-moved w r s at to h k same =
    let e : take w (drop to s) ≡ take w (drop at r) =
      take_ext_long w (drop to s) (drop at r) (omega (arith, length-drop to s))
        (omega (arith, length-drop at r))
        (λ i lt. byte_at-drop to i s ∙ same i lt ∙ sym (byte_at-drop at i r)) in
    get_le_lem w s to k ∙ ap ok (ap from_le e) ∙ sym (get_le_lem w r at h)

-- A field all of whose bytes are kept is read as before.
pub get_le_same :
    (w : ℕ) (r s : List ℕ) (at : ℕ)
    → length s ≡ length r
    → ((i : ℕ) → at ≤ i → i < at + w → byte_at s i ≡ byte_at r i)
    → get_le w s at ≡ get_le w r at
get_le_same w r s at size same = ap or_fault (read_le_ext w at s r size same)
