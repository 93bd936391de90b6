-- ===== src/Upcase.antt =====
-- The collation of file names by `$UpCase`: src/upcase.rs. The reading of the table's attribute is
-- not in the model; what `load_io` makes of its bytes is. The embedded table is data.
pub mod Order
mod Tests
use rust_fs_ntfs.Base.{
  ℕ, ◌*◌, ◌+◌, Bool, true, false, ltb, if◌then◌else◌, List, [], ◌∷◌, length, take, get_elem?,
  Option, none, some, Result, ok, err, io,
}
use Prim.Native.Nat.{compare, Ordering}
use Prim.Native.Nat.Ordering.{lt, eq, gt}

abbrev pub upcase_len : ℕ
upcase_len = 65536

abbrev pub upcase_bytes : ℕ
upcase_bytes = upcase_len * 2

-- `.chunks_exact(2).map(|c| u16::from_le_bytes([c[0], c[1]]))`
pub units_of : List ℕ → List ℕ
units_of [] = []
units_of (b ∷ []) = []
units_of (b0 ∷ b1 ∷ bytes) = (b0 + 256 * b1) ∷ units_of bytes

-- `load_io` from the attribute's value on.
pub table_of : List ℕ → Result (List ℕ)
table_of bytes =
    if ltb (length bytes) upcase_bytes then err io else ok (units_of (take upcase_bytes bytes))

-- `.copied().unwrap_or(c)`
pub unit_or : Option ℕ → ℕ → ℕ
unit_or none c = c
unit_or (some u) c = u

pub upcase : List ℕ → ℕ → ℕ
upcase table c = unit_or (get_elem? table c) c

-- The loop over the units of both names, and what is behind it.
pub cmp_loop : List ℕ → List ℕ → List ℕ → Ordering → Ordering
cmp_loop table [] b by_length = by_length
cmp_loop table (x ∷ xs) [] by_length = by_length
cmp_loop table (x ∷ xs) (y ∷ ys) by_length =
    let rest = cmp_loop table xs ys by_length in
    elim (compare (upcase table x) (upcase table y)) [ lt ↦ lt | eq ↦ rest | gt ↦ gt ]

pub cmp_names : List ℕ → List ℕ → List ℕ → Ordering
cmp_names table a b = cmp_loop table a b (compare (length a) (length b))
