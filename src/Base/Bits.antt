-- ===== src/Base/Bits.antt =====
-- `&` and `|` at variables, as arithmetic: one equation for the lowest digit, and from it the laws
-- for a single bit, for disjoint fields and for a mask of low bits, at every width.
use Prim.Native.Nat.{ℕ, zero, suc, ◌+◌, ◌*◌, ◌-◌, ◌/◌, ◌%◌, ◌^◌, ◌≤◌, ◌<◌, min, max}
use Prim.Native.Nat.{bit_and, bit_or, digits, bitwise, bit_and-bitwise, bit_or-bitwise}
use mathlib.Core.Path.{◌≡◌, refl, sym, ap, ◌∙◌}
use native.Mathlib.Nat.{le_refl, pow-suc, one-le-pow, div-add-mod, mod-lt, mod-eq_of_lt}
use native.Mathlib.Nat.{mul-add-mod_self_left}
use native.Mathlib.Omega.{arith}

-- Any fuel from the first number on gives what `bitwise` gives; `bound` is what the recursion is on.
module _ (last : ℕ → ℕ) (digit : ℕ → ℕ → ℕ) where
  digits-bitwise :
      (bound b a fuel : ℕ)
      → a ≤ bound
      → a ≤ fuel
      → digits last digit fuel a b ≡ bitwise last digit a b
  digits-bitwise bound b zero zero small enough = refl
  digits-bitwise bound b zero (suc fuel) small enough = refl
  digits-bitwise bound b (suc a) zero small enough = absurd (omega arith)
  digits-bitwise zero b (suc a) (suc fuel) small enough = absurd (omega arith)
  digits-bitwise (suc bound) b (suc a) (suc fuel) small enough =
      let given = digits-bitwise bound (b / 2) (suc a / 2) fuel (omega arith) (omega arith) in
      let least = digits-bitwise bound (b / 2) (suc a / 2) a (omega arith) (omega arith) in
      omega (arith, given, least)

  lowest_digit :
      (b a : ℕ)
      → bitwise last digit (suc a) b
        ≡ digit (suc a % 2) (b % 2) + 2 * bitwise last digit (suc a / 2) (b / 2)
  lowest_digit b a =
      omega (arith, digits-bitwise a (b / 2) (suc a / 2) a (omega arith) (omega arith))

pub bit_and_step : (a b : ℕ) → bit_and a b ≡ min (a % 2) (b % 2) + 2 * bit_and (a / 2) (b / 2)
bit_and_step zero b = simp bit_and-bitwise (omega arith)
bit_and_step (suc a) b = simp bit_and-bitwise (lowest_digit (λ y. 0) min b a)

pub bit_or_step : (a b : ℕ) → bit_or a b ≡ max (a % 2) (b % 2) + 2 * bit_or (a / 2) (b / 2)
bit_or_step zero b = simp bit_or-bitwise (omega arith)
bit_or_step (suc a) b = simp bit_or-bitwise (lowest_digit (λ y. y) max b a)

pub zero-bit_or : (b : ℕ) → bit_or 0 b ≡ b
zero-bit_or b = bit_or-bitwise 0 b

double_field : (k q : ℕ) → q * 2 ^ suc k ≡ q * 2 ^ k + q * 2 ^ k
double_field k q =
    let power : 2 ^ suc k ≡ 2 ^ k * 2 = pow-suc 2 k in omega (arith, ap (λ (t : ℕ). q * t) power)

-- `r | (q << k)` is a sum when `r` fits `k` bits.
pub bit_or_high : (k q r : ℕ) → r < 2 ^ k → bit_or r (q * 2 ^ k) ≡ r + q * 2 ^ k
bit_or_high zero q zero fits = ground (arith, zero-bit_or q)
bit_or_high zero q (suc r) fits = absurd (omega arith)
bit_or_high (suc k) q r fits = ground (
  arith,
  bit_or_step r (q * 2 ^ suc k),
  double_field k q,
  pow-suc 2 k,
  bit_or_high k q (r / 2) (omega (arith, pow-suc 2 k)),
)

half_pow : (k : ℕ) → 2 ^ suc k / 2 ≡ 2 ^ k
half_pow k = omega (arith, pow-suc 2 k)

-- A single bit is there or not.
pub bit_and_single :
    (k r : ℕ)
    → (r < 2 ^ k → bit_and r (2 ^ k) ≡ 0) × (2 ^ k ≤ r → r < 2 ^ suc k → bit_and r (2 ^ k) ≡ 2 ^ k)
bit_and_single zero zero = (λ h. refl, λ h k. absurd (omega arith))
bit_and_single zero (suc zero) = (λ h. absurd (omega arith), λ h k. refl)
bit_and_single zero (suc (suc r)) = (λ h. absurd (omega arith), λ h k. absurd (omega arith))
bit_and_single (suc k) r =
    let ih = bit_and_single k (r / 2) in
    let step : bit_and r (2 ^ suc k) ≡ bit_and (r / 2) (2 ^ k) * 2 = omega (
      arith,
      bit_and_step r (2 ^ suc k),
      ap (λ (t : ℕ). bit_and (r / 2) t) (half_pow k),
      pow-suc 2 k,
    ) in
    (
      λ h. omega (arith, step, ih.0 (omega (arith, pow-suc 2 k))),
      λ h l. omega (
        arith,
        step,
        pow-suc 2 k,
        ih.1 (omega (arith, pow-suc 2 k)) (omega (arith, pow-suc 2 k, pow-suc 2 (suc k))),
      ),
    )

bit_and-zero : (a : ℕ) → bit_and a 0 ≡ 0
bit_and-zero a = below a a (le_refl a)
  where
    below : (n a : ℕ) → a ≤ n → bit_and a 0 ≡ 0
    below n zero h = refl
    below zero (suc a) h = absurd (omega arith)
    below (suc n) (suc a) h =
        omega (arith, bit_and_step (suc a) 0, below n (suc a / 2) (omega arith))

-- The remainder by `2 ^ (k + 1)` by way of the lowest digit.
mod_two_pow : (k a : ℕ) → a % 2 ^ suc k ≡ a / 2 % 2 ^ k * 2 + a % 2
mod_two_pow k a =
    let r = a / 2 % 2 ^ k * 2 + a % 2 in
    let whole : a ≡ 2 ^ suc k * (a / 2 / 2 ^ k) + r = omega (
      arith,
      div-add-mod (a / 2) (2 ^ k),
      pow-suc 2 k,
      ap (λ (t : ℕ). t * (a / 2 / 2 ^ k)) (pow-suc 2 k),
    ) in
    let small : r < 2 ^ suc k =
      omega (arith, pow-suc 2 k, mod-lt (a / 2) {m = 2 ^ k} (one-le-pow k 2 (omega arith))) in
    ap (λ (t : ℕ). t % 2 ^ suc k) whole
    ∙ mul-add-mod_self_left (2 ^ suc k) (a / 2 / 2 ^ k) r
    ∙ mod-eq_of_lt small

-- A mask of `k` low bits is the remainder by `2 ^ k`.
pub bit_and_mask : (k a : ℕ) → bit_and a (2 ^ k - 1) ≡ a % 2 ^ k
bit_and_mask zero a = bit_and-zero a ∙ omega arith
bit_and_mask (suc k) a =
    let half : (2 ^ suc k - 1) / 2 ≡ 2 ^ k - 1 = omega (arith, pow-suc 2 k, one-le-pow k 2) in
    let odd : (2 ^ suc k - 1) % 2 ≡ 1 = omega (arith, pow-suc 2 k, one-le-pow k 2) in
    bit_and_step a (2 ^ suc k - 1)
    ∙ rw (half, odd, bit_and_mask k (a / 2)) (omega arith)
    ∙ sym (mod_two_pow k a)
