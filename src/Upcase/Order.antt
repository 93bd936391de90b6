-- ===== src/Upcase/Order.antt =====
-- The collation is the order of the folded names, and its laws.
use rust_fs_ntfs.Base.{
  ℕ, suc, ◌+◌, ◌≡◌, ◌↔◌, refl, sym, ap, ap₂, ◌∙◌, arith, List, [], ◌∷◌, length, map,
}
use Prim.Native.Nat.{compare, Ordering}
use Prim.Native.Nat.Ordering.{lt, eq, gt}
use rust_fs_ntfs.Upcase.{upcase, cmp_loop, cmp_names}

-- The order of words: by the first units that differ, and a proper prefix is less.
unfoldable pub cmp_words : List ℕ → List ℕ → Ordering
cmp_words [] [] = eq
cmp_words [] (y ∷ ys) = lt
cmp_words (x ∷ xs) [] = gt
cmp_words (x ∷ xs) (y ∷ ys) =
    let rest = cmp_words xs ys in elim (compare x y) [ lt ↦ lt | eq ↦ rest | gt ↦ gt ]

-- A name as it is compared.
abbrev pub folded : List ℕ → List ℕ → List ℕ
folded table name = map (upcase table) name

-- What the comparison the other way round gives.
pub reverse : Ordering → Ordering
reverse lt = gt
reverse eq = eq
reverse gt = lt

cmp_loop-cmp_words :
    (table a b : List ℕ) (k : ℕ)
    → cmp_loop table a b (compare (k + length a) (k + length b))
      ≡ cmp_words (folded table a) (folded table b)
unfolding cmp_loop cmp_words
cmp_loop-cmp_words table [] [] k = ground arith
cmp_loop-cmp_words table [] (y ∷ ys) k = ground arith
cmp_loop-cmp_words table (x ∷ xs) [] k = ground arith
cmp_loop-cmp_words table (x ∷ xs) (y ∷ ys) k =
    let ea : k + suc (length xs) ≡ suc k + length xs = omega arith in
    let eb : k + suc (length ys) ≡ suc k + length ys = omega arith in
    rw (ea, eb)
      (ap (λ r. elim (compare (upcase table x) (upcase table y)) [ lt ↦ lt | eq ↦ r | gt ↦ gt ])
        (cmp_loop-cmp_words table xs ys (suc k)))

pub cmp_words_refl : (a : List ℕ) → cmp_words a a ≡ eq
unfolding cmp_words
cmp_words_refl [] = refl
cmp_words_refl (x ∷ xs) = ground (arith, cmp_words_refl xs)

pub cmp_words-eq : (a b : List ℕ) → cmp_words a b ≡ eq → a ≡ b
unfolding cmp_words
cmp_words-eq [] [] e = refl
cmp_words-eq [] (y ∷ ys) e = absurd cc
cmp_words-eq (x ∷ xs) [] e = absurd cc
cmp_words-eq (x ∷ xs) (y ∷ ys) e =
    let head : x ≡ y = ground (arith, e) in
    let tail : cmp_words xs ys ≡ eq = ground (arith, e) in ap₂ ◌∷◌ head (cmp_words-eq xs ys tail)

pub cmp_words-reverse : (a b : List ℕ) → cmp_words b a ≡ reverse (cmp_words a b)
unfolding cmp_words reverse
cmp_words-reverse [] [] = refl
cmp_words-reverse [] (y ∷ ys) = refl
cmp_words-reverse (x ∷ xs) [] = refl
cmp_words-reverse (x ∷ xs) (y ∷ ys) = ground (arith, cmp_words-reverse xs ys)

pub cmp_words_trans :
    (a b c : List ℕ) → cmp_words a b ≡ lt → cmp_words b c ≡ lt → cmp_words a c ≡ lt
unfolding cmp_words
cmp_words_trans [] [] c e f = absurd cc
cmp_words_trans [] (y ∷ ys) [] e f = absurd cc
cmp_words_trans [] (y ∷ ys) (z ∷ zs) e f = refl
cmp_words_trans (x ∷ xs) [] c e f = absurd cc
cmp_words_trans (x ∷ xs) (y ∷ ys) [] e f = absurd cc
cmp_words_trans (x ∷ xs) (y ∷ ys) (z ∷ zs) e f = grind (arith, cmp_words_trans xs ys zs, e, f)

cmp_names-cmp_words :
    (table a b : List ℕ) → cmp_names table a b ≡ cmp_words (folded table a) (folded table b)
unfolding cmp_names
cmp_names-cmp_words table a b =
    let ea : length a ≡ 0 + length a = omega arith in
    let eb : length b ≡ 0 + length b = omega arith in rw (ea, eb) (cmp_loop-cmp_words table a b 0)

-- A comparison of names that orders them by their folded form.
pub record IsCollation (table : List ℕ) (cmp : List ℕ → List ℕ → Ordering) : Type 0 where
  pub by_words : (a b : List ℕ) → cmp a b ≡ cmp_words (folded table a) (folded table b)
  pub equal_iff : (a b : List ℕ) → (cmp a b ≡ eq) ↔ (folded table a ≡ folded table b)
  pub reversed : (a b : List ℕ) → cmp b a ≡ reverse (cmp a b)
  pub lt_trans : (a b c : List ℕ) → cmp a b ≡ lt → cmp b c ≡ lt → cmp a c ≡ lt

-- By any table, two names compare as the lists of their upcased units do, unit by unit, a proper prefix
-- being less: they are equal exactly when they are the same but for case, the comparison the other way
-- round gives the reverse, and less is transitive.
pub cmp_names-IsCollation : (table : List ℕ) → IsCollation table (cmp_names table)
cmp_names-IsCollation table = record {
  by_words = cmp_names-cmp_words table;
  equal_iff = λ a b. (
    λ e. cmp_words-eq (folded table a) (folded table b) (sym (cmp_names-cmp_words table a b) ∙ e),
    λ e. cmp_names-cmp_words table a b ∙ rw e (cmp_words_refl (folded table b)),
  );
  reversed = λ a b.
      rw (cmp_names-cmp_words table b a, cmp_names-cmp_words table a b)
        (cmp_words-reverse (folded table a) (folded table b));
  lt_trans = λ a b c e f.
      cmp_names-cmp_words table a c
      ∙ cmp_words_trans (folded table a) (folded table b) (folded table c)
          (sym (cmp_names-cmp_words table a b) ∙ e) (sym (cmp_names-cmp_words table b c) ∙ f);
}
