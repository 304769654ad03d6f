-- ===== src/Base/Bits.antt =====
-- Facts about `bit_and` at variables: one digit at a time, and with a mask of high ones.
use Prim.Native.Nat.{
  ℕ, zero, suc, ◌+◌, ◌-◌, ◌*◌, ◌/◌, ◌%◌, ◌^◌, ◌≤◌, ◌<◌, min, bit_and, digits, bit_and-bitwise,
}
use mathlib.Core.Path.{◌≡◌, refl, ap, sym, ◌∙◌}
use mathlib.Core.Logic.{◌⊎◌, inl, inr}
use native.Mathlib.Nat.{pow-suc, one-le-pow, div-lt_iff_lt-mul, mod-eq_of_lt, div-div-eq-div-mul}
use native.Mathlib.Nat.{mod-eq-sub-mul-div, mul-div-le, suc-add}
use native.Mathlib.Omega.{arith}

-- `bit_and` is computed with the first number as fuel; any larger fuel gives the same.
enough_fuel :
    (bound fuel x y : ℕ) → fuel ≤ bound → x ≤ fuel → digits (λ z. zero) min fuel x y ≡ bit_and x y
enough_fuel bound fuel zero y below le = no_digits fuel y ∙ sym (bit_and-bitwise zero y)
  where
    no_digits : (f z : ℕ) → digits (λ t. zero) min f zero z ≡ zero
    no_digits zero z = refl
    no_digits (suc f) z = refl
enough_fuel bound zero (suc x) y below le = absurd (omega arith)
enough_fuel zero (suc fuel) (suc x) y below le = absurd (omega arith)
enough_fuel (suc bound) (suc fuel) (suc x) y below le =
    let high = suc x / 2 in
    omega (
      arith,
      bit_and-bitwise (suc x) y,
      enough_fuel bound fuel high (y / 2) (omega arith) (omega arith),
      enough_fuel bound x high (y / 2) (omega arith) (omega arith),
    )

-- The lowest digit apart from the others.
pub bit_and_halves : (x y : ℕ) → bit_and x y ≡ min (x % 2) (y % 2) + 2 * bit_and (x / 2) (y / 2)
bit_and_halves x y = elim (x_cases x) [
  | inl none_set ↦ rw none_set (omega (arith, bit_and-bitwise zero y, bit_and-bitwise zero (y / 2)))
  | inr (pred, e) ↦ rw e (
      omega (
        arith,
        bit_and-bitwise (suc pred) y,
        enough_fuel pred pred (suc pred / 2) (y / 2) (omega arith) (omega arith),
      ))
]
  where
    x_cases : (n : ℕ) → (n ≡ zero) ⊎ ((k : ℕ) × (n ≡ suc k))
    x_cases zero = inl refl
    x_cases (suc k) = inr (k, refl)

masked_out : (bound x : ℕ) → x < bound → bit_and x zero ≡ zero
masked_out zero x lt = absurd (omega arith)
masked_out (suc bound) x lt = elim (zero_or_more x) [
  | inl e ↦ rw e refl
  | inr some_set ↦ omega (arith, bit_and_halves x zero, masked_out bound (x / 2) (omega arith))
]
  where
    zero_or_more : (n : ℕ) → (n ≡ zero) ⊎ (0 < n)
    zero_or_more zero = inl refl
    zero_or_more (suc k) = inr (omega arith)

pub bit_and-zero : (x : ℕ) → bit_and x 0 ≡ 0
bit_and-zero x = masked_out (x + 1) x (omega arith)

pow-add : (n k : ℕ) → 2 ^ (n + k) ≡ 2 ^ n * 2 ^ k
pow-add zero k = ground arith
pow-add (suc n) k = omega (
  arith,
  pow-suc 2 (n + k),
  ap (λ (t : ℕ). 2 ^ t) (suc-add n k),
  ap (λ (t : ℕ). t * 2 ^ k) (pow-suc 2 n),
  pow-add n k,
)

mod_double : (p a : ℕ) → a / 2 % p * 2 + a % 2 ≡ a % (2 * p)
mod_double p a = omega (
  arith,
  mod-eq-sub-mul-div (a / 2) p,
  mod-eq-sub-mul-div a (2 * p),
  mul-div-le (a / 2) p,
  ap (λ (t : ℕ). p * t) (div-div-eq-div-mul a 2 p),
)

-- A mask of `n` low ones keeps the remainder.
pub bit_and_ones : (n a : ℕ) → bit_and a (2 ^ n - 1) ≡ a % 2 ^ n
bit_and_ones zero a = ground (arith, bit_and-zero a)
bit_and_ones (suc n) a =
    let halved : (2 ^ suc n - 1) / 2 ≡ 2 ^ n - 1 = omega (arith, pow-suc 2 n, one-le-pow n 2) in
    let odd : (2 ^ suc n - 1) % 2 ≡ 1 = omega (arith, pow-suc 2 n, one-le-pow n 2) in
    let doubled : 2 ^ suc n ≡ 2 * 2 ^ n = omega (arith, pow-suc 2 n) in
    rw (bit_and_halves a (2 ^ suc n - 1), halved, odd, bit_and_ones n (a / 2), doubled)
      (omega (arith, mod_double (2 ^ n) a))

-- A mask whose `k` low bits are zero clears those bits.
pub bit_and_shift : (k a m : ℕ) → bit_and a (m * 2 ^ k) ≡ bit_and (a / 2 ^ k) m * 2 ^ k
bit_and_shift zero a m = ground arith
bit_and_shift (suc k) a m =
    let doubled : m * 2 ^ suc k ≡ 2 * (m * 2 ^ k) =
      omega (arith, ap (λ (t : ℕ). m * t) (pow-suc 2 k)) in
    let halved : 2 * (m * 2 ^ k) / 2 ≡ m * 2 ^ k = omega arith in
    let even : 2 * (m * 2 ^ k) % 2 ≡ 0 = omega arith in
    let deeper : a / 2 / 2 ^ k ≡ a / 2 ^ suc k =
      div-div-eq-div-mul a 2 (2 ^ k) ∙ ap (λ (t : ℕ). a / t) (omega (arith, pow-suc 2 k)) in
    rw
      (
        doubled,
        bit_and_halves a (2 * (m * 2 ^ k)),
        halved,
        even,
        bit_and_shift k (a / 2) m,
        deeper,
        pow-suc 2 k,
      )
      (omega arith)

pred_mul : (p k : ℕ) → 0 < p → p * k - k ≡ (p - 1) * k
pred_mul zero k h = absurd (omega arith)
pred_mul (suc p) k h =
    omega (arith, ap (λ (t : ℕ). t * k) (let e : suc p - 1 ≡ p = omega arith in e))

-- The mask of a network prefix: `n` ones above `k` zeros keep the high part of a word.
pub bit_and_high :
    (n k a : ℕ) → a < 2 ^ (n + k) → bit_and a (2 ^ (n + k) - 2 ^ k) ≡ a / 2 ^ k * 2 ^ k
bit_and_high n k a h =
    let split : 2 ^ (n + k) ≡ 2 ^ n * 2 ^ k = pow-add n k in
    let mask : 2 ^ (n + k) - 2 ^ k ≡ (2 ^ n - 1) * 2 ^ k =
      rw split (pred_mul (2 ^ n) (2 ^ k) (one-le-pow n 2 (omega arith))) in
    let small : a / 2 ^ k < 2 ^ n =
      (div-lt_iff_lt-mul (one-le-pow k 2 (omega arith))).1 (rw split at h) in
    rw (mask, bit_and_shift k a (2 ^ n - 1), bit_and_ones n (a / 2 ^ k), mod-eq_of_lt small)
