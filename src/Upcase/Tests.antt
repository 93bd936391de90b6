-- ===== src/Upcase/Tests.antt =====
-- A table that folds 1 to 0, and names of two units.
use rust_fs_ntfs.Base.{ℕ, ◌≡◌, refl, List, [], ◌∷◌}
use Prim.Native.Nat.Ordering.{lt, eq}
use rust_fs_ntfs.Upcase.{upcase, unit_or, cmp_loop, cmp_names, units_of}
use rust_fs_ntfs.Upcase.Order.{IsCollation, cmp_names-IsCollation}

abbrev small_table : List ℕ
small_table = 0 ∷ 0 ∷ 2 ∷ []

same_but_case : cmp_names small_table (1 ∷ 2 ∷ []) (0 ∷ 2 ∷ []) ≡ eq
unfolding cmp_names cmp_loop upcase unit_or
same_but_case = refl

prefix_first : cmp_names small_table (1 ∷ []) (0 ∷ 2 ∷ []) ≡ lt
unfolding cmp_names cmp_loop upcase unit_or
prefix_first = refl

cmp_names-IsCollation_example : IsCollation small_table (cmp_names small_table)
cmp_names-IsCollation_example = cmp_names-IsCollation small_table

units_small : units_of (1 ∷ 2 ∷ 3 ∷ []) ≡ 513 ∷ []
unfolding units_of
units_small = refl
