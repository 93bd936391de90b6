-- ===== src/Bitmap/Mutate.antt =====
-- Allocating and freeing a range of bits in the bytes that hold it.
use rust_fs_ntfs.Base.{
  ℕ, zero, suc, ◌+◌, ◌-◌, ◌*◌, ◌/◌, ◌%◌, ◌^◌, ◌≤◌, ◌<◌, ◌≡◌, refl, arith, inl, inr,
}
use rust_fs_ntfs.Base.{◌⊎◌, sym, ◌∙◌, Bool, true, false, not, ◌==◌, Bool-cases, if◌then◌else◌}
use rust_fs_ntfs.Base.{
  List, length, set, length-set, get_or-set_self, get_or-set_ne, byte_at, index_lem, store_lem,
  bit_and, bit_or,
}
use rust_fs_ntfs.Base.{Result, ok, err, io, ok-injective}
use rust_fs_ntfs.Bitmap.{bit_is_set, set_bit, clear_bit, mutate_loop}
use rust_fs_ntfs.Bitmap.Bits.{bit_is_set-set, bit_is_set-clear}
use native.Mathlib.Decide.{ℕ_discrete}

-- Whether the cluster at a bit is allocated.
abbrev pub bit_of : List ℕ → ℕ → Bool
bit_of bytes i = bit_is_set (byte_at bytes (i / 8)) (i % 8)

-- A byte is replaced, and one of its bits with it.
bit_of-set :
    (bytes : List ℕ) (bit v i : ℕ) (on : Bool)
    → bit / 8 < length bytes
    → ((j : ℕ)
        → j < 8
        → bit_is_set v j ≡ (if bit % 8 == j then on else bit_is_set (byte_at bytes (bit / 8)) j))
    → bit_of (set bytes (bit / 8) v) i ≡ (if bit == i then on else bit_of bytes i)
bit_of-set bytes bit v i on h flip = elim (ℕ_discrete (bit / 8) (i / 8)) [
  | yes same ↦
      let e = get_or-set_self bytes (bit / 8) v 0 h in
      let position : (bit == i) ≡ (bit % 8 == i % 8) = ground (arith, same) in
      rw (← same, e, position) (flip (i % 8) (omega arith))
  | no apart ↦
      let other : (bit == i) ≡ false = ground (arith, apart) in
      rw (other, get_or-set_ne bytes (bit / 8) (i / 8) v 0 apart) refl
]

-- What one round stores.
data Flipped (bytes : List ℕ) (bit : ℕ) (on : Bool) (r : Result (List ℕ)) : Type 0 where
  flipped :
      (bytes' : List ℕ)
      → r ≡ ok bytes'
      → length bytes' ≡ length bytes
      → ((i : ℕ) → bit_of bytes' i ≡ (if bit == i then on else bit_of bytes i))
      → Flipped bytes bit on r

flip-Flipped :
    (bytes : List ℕ) (bit : ℕ) (on : Bool)
    → bit / 8 < length bytes
    → Flipped bytes bit on
        (if on then set_bit bytes (bit / 8) (bit % 8) else clear_bit bytes (bit / 8) (bit % 8))
unfolding set_bit clear_bit
flip-Flipped bytes bit true h =
    let byte = byte_at bytes (bit / 8) in
    let v = bit_or byte (2 ^ (bit % 8)) in
    rw (index_lem bytes (bit / 8) h, store_lem bytes (bit / 8) v h)
      (flipped (set bytes (bit / 8) v) refl (length-set bytes (bit / 8) v) (λ i.
        bit_of-set bytes bit v i true h (λ j hj. bit_is_set-set byte (bit % 8) j (omega arith) hj)))
flip-Flipped bytes bit false h =
    let byte = byte_at bytes (bit / 8) in
    let v = bit_and byte (255 - 2 ^ (bit % 8)) in
    rw (index_lem bytes (bit / 8) h, store_lem bytes (bit / 8) v h)
      (flipped (set bytes (bit / 8) v) refl (length-set bytes (bit / 8) v) (λ i.
        bit_of-set bytes bit v i false h
          (λ j hj. bit_is_set-clear byte (bit % 8) j (omega arith) hj)))

-- The two ends of a change of `n` bits from `bit` on.
pub data Mutated (bytes : List ℕ) (bit n : ℕ) (on : Bool) (r : Result (List ℕ)) : Type 0 where
  changed :
      (bytes' : List ℕ)
      → r ≡ ok bytes'
      → length bytes' ≡ length bytes
      → ((i : ℕ) → bit ≤ i → i < bit + n → (bit_of bytes i ≡ not on) × (bit_of bytes' i ≡ on))
      → ((i : ℕ) → (i < bit) ⊎ (bit + n ≤ i) → bit_of bytes' i ≡ bit_of bytes i)
      → Mutated bytes bit n on r
  refused :
      (i : ℕ) → r ≡ err io → bit ≤ i → i < bit + n → bit_of bytes i ≡ on → Mutated bytes bit n on r

pub length-Mutated :
    {bytes bytes' : List ℕ} {bit n : ℕ} {on : Bool}
    → Mutated bytes bit n on (ok bytes')
    → length bytes' ≡ length bytes
length-Mutated (changed last e len inside outside) = rw (ok-injective e) len
length-Mutated (refused i e lo hi set_already) = cc

-- A round in front of the rest.
Mutated-suc :
    (n bit : ℕ) (on : Bool) (bytes bytes' : List ℕ) (r : Result (List ℕ))
    → length bytes' ≡ length bytes
    → bit_of bytes bit ≡ not on
    → ((i : ℕ) → bit_of bytes' i ≡ (if bit == i then on else bit_of bytes i))
    → Mutated bytes' (suc bit) n on r
    → Mutated bytes bit (suc n) on r
Mutated-suc n bit on bytes bytes' r same old flip (changed last e len inside outside) =
    changed last e (len ∙ same)
      (λ i lo hi. elim (ℕ_discrete bit i) [
        | yes here ↦
            let hit : (bit == i) ≡ true = ground (arith, here) in
            let kept = outside i (inl (omega (arith, here))) in
            (rw (← here) old, kept ∙ flip i ∙ rw hit refl)
        | no apart ↦
            let miss : (bit == i) ≡ false = ground (arith, apart) in
            let (before, after) = inside i (omega (arith, apart, lo)) (omega (arith, hi)) in
            (sym (flip i ∙ rw miss refl) ∙ before, after)
      ])
      (λ i out.
        let miss : (bit == i) ≡ false = ground (arith, out) in
        outside i (ground (arith, out)) ∙ flip i ∙ rw miss refl)
Mutated-suc n bit on bytes bytes' r same old flip (refused i e lo hi set_already) =
    let miss : (bit == i) ≡ false = ground (arith, lo) in
    refused i e (omega (arith, lo)) (omega (arith, hi)) (sym (flip i ∙ rw miss refl) ∙ set_already)

-- Changing `n` bits inside the bytes succeeds if all of them have the other value: then those bits
-- have the new value and no other bit changes. If one of them has the new value already, there is
-- an error.
pub mutate_loop-Mutated :
    (n bit : ℕ) (on : Bool) (bytes : List ℕ)
    → bit + n ≤ 8 * length bytes
    → Mutated bytes bit n on (mutate_loop n bit on bytes)
unfolding mutate_loop
mutate_loop-Mutated zero bit on bytes h =
    changed bytes refl refl (λ i lo hi. absurd (omega arith)) (λ i out. refl)
mutate_loop-Mutated (suc n) bit true bytes h =
    rw (index_lem bytes (bit / 8) (omega arith)) (elim (Bool-cases (bit_of bytes bit)) [
      | inl taken ↦ rw taken (refused bit refl (omega arith) (omega arith) taken)
      | inr free ↦ rw free (elim (flip-Flipped bytes bit true (omega arith)) [
        | flipped bytes' e len flip ↦ rw e (
            Mutated-suc n bit true bytes bytes' _ len free flip
              (mutate_loop-Mutated n (suc bit) true bytes' (omega (arith, len))))
      ])
    ])
mutate_loop-Mutated (suc n) bit false bytes h =
    rw (index_lem bytes (bit / 8) (omega arith)) (elim (Bool-cases (bit_of bytes bit)) [
      | inr free ↦ rw free (refused bit refl (omega arith) (omega arith) free)
      | inl taken ↦ rw taken (elim (flip-Flipped bytes bit false (omega arith)) [
        | flipped bytes' e len flip ↦ rw e (
            Mutated-suc n bit false bytes bytes' _ len taken flip
              (mutate_loop-Mutated n (suc bit) false bytes' (omega (arith, len))))
      ])
    ])
