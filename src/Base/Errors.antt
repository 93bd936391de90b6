-- ===== src/Base/Errors.antt =====
-- `Result<T, Error>` of src/error.rs. An error keeps its kind; its message is left out.
use mathlib.Core.Path.{◌≡◌, refl}
use mathlib.Core.Option.{Option, none, some}

pub data Kind : Type 0 where
  io not_found exists no_space invalid not_directory is_directory not_empty refused range : Kind

-- `fault` is a Rust panic (an index or a slice out of range), or a loop of the model that ran out
-- of fuel: a theorem that a result is not `fault` excludes both.
pub data Result {ℓ} (A : Type ℓ) : Type ℓ where
  ok : A → Result A
  err : Kind → Result A
  fault : Result A

infixl 5 ◌>>=◌ ◌>>◌
abbrev pub ◌>>=◌ {ℓ κ} : {A : Type ℓ} {B : Type κ} → Result A → (A → Result B) → Result B
ok a >>= f = f a
err e >>= f = err e
fault >>= f = fault

abbrev pub ◌>>◌ {ℓ} : {B : Type ℓ} → Result (Unit {0}) → Result B → Result B
m >> k = m >>= λ _. k

-- `ok_or(Error::..)`
abbrev pub ok_or {ℓ} : {A : Type ℓ} → Option A → Kind → Result A
ok_or none e = err e
ok_or (some a) e = ok a

-- An index or a slice out of range panics.
abbrev pub or_fault {ℓ} : {A : Type ℓ} → Option A → Result A
or_fault none = fault
or_fault (some a) = ok a

-- A successful `m >>= f` came by way of a successful `m`.
pub data BindOk {ℓ κ} {A : Type ℓ} {B : Type κ} (m : Result A) (f : A → Result B) (b : B)
    : Type (ℓ ⊔ κ) where
  via : (a : A) → m ≡ ok a → f a ≡ ok b → BindOk m f b

pub >>=-eq-ok {ℓ κ} :
    {A : Type ℓ} {B : Type κ} (m : Result A) (f : A → Result B) {b : B}
    → (m >>= f) ≡ ok b
    → BindOk m f b
>>=-eq-ok (ok a) f h = via a refl h
>>=-eq-ok (err e) f h = cc
>>=-eq-ok fault f h = cc

pub ok_or-eq-ok {ℓ} : {A : Type ℓ} (o : Option A) (e : Kind) {a : A} → ok_or o e ≡ ok a → o ≡ some a
ok_or-eq-ok none e h = cc
ok_or-eq-ok (some a) e h = cc

pub ok-injective {ℓ} : {A : Type ℓ} {a b : A} → ok a ≡ ok b → a ≡ b
ok-injective h = cc

-- A bind panics only if one of its parts does.
pub >>=-ne-fault {ℓ κ} :
    {A : Type ℓ} {B : Type κ} (m : Result A) (f : A → Result B)
    → (m ≡ fault → ⊥)
    → ((a : A) → m ≡ ok a → f a ≡ fault → ⊥)
    → (m >>= f) ≡ fault
    → ⊥
>>=-ne-fault (ok a) f hm hf = hf a refl
>>=-ne-fault (err e) f hm hf = λ e. cc
>>=-ne-fault fault f hm hf = absurd (hm refl)

pub ok_or-ne-fault {ℓ} : {A : Type ℓ} (o : Option A) (e : Kind) → ok_or o e ≡ fault → ⊥
ok_or-ne-fault none e = λ h. cc
ok_or-ne-fault (some a) e = λ h. cc

-- A result that is an error of kind `io`, or a value with a property: never a panic.
pub data IoOr {ℓ κ} {A : Type ℓ} (P : A → Type κ) (m : Result A) : Type (ℓ ⊔ κ) where
  good : (a : A) → m ≡ ok a → P a → IoOr P m
  bad : m ≡ err io → IoOr P m

pub >>=-IoOr {ℓ κ ℓ' κ'} :
    {A : Type ℓ} {B : Type κ} {P : A → Type ℓ'} {Q : B → Type κ'} (m : Result A) (f : A → Result B)
    → IoOr P m
    → ((a : A) → P a → IoOr Q (f a))
    → IoOr Q (m >>= f)
>>=-IoOr m f (good a e p) next = rw e (next a p)
>>=-IoOr m f (bad e) next = rw e (bad refl)

pub ok_or-IoOr {ℓ} : {A : Type ℓ} (o : Option A) → IoOr (λ a. o ≡ some a) (ok_or o io)
ok_or-IoOr none = bad refl
ok_or-IoOr (some a) = good a refl refl

-- The three forms of a result, with the equation.
pub data ResultCase {ℓ} {A : Type ℓ} (m : Result A) : Type ℓ where
  gave : (a : A) → m ≡ ok a → ResultCase m
  failed : (e : Kind) → m ≡ err e → ResultCase m
  panicked : m ≡ fault → ResultCase m

pub Result-cases {ℓ} : {A : Type ℓ} (m : Result A) → ResultCase m
Result-cases (ok a) = gave a refl
Result-cases (err e) = failed e refl
Result-cases fault = panicked refl
