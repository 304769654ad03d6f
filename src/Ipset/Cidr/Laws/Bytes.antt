-- ===== src/Ipset/Cidr/Laws/Bytes.antt =====
-- The byte-wise prefix test of `ip_in_cidr` against a list of bits, most significant bit first.
use anti.Base.{
  ℕ, zero, suc, ◌+◌, ◌-◌, ◌*◌, ◌/◌, ◌%◌, ◌≤◌, ◌<◌, ◌≡◌, ◌↔◌, Bool, true, false, arith, bit_and,
  List, [], ◌∷◌, length, take, get_elem?, ltb, ◌==◌, if◌then◌else◌, is_zero,
}
use mathlib.Core.Option
use anti.Base.Bits.{bit_and_high}
use native.Mathlib.Decide.{dec_lt}
use anti.Addr.{memcmp}
use anti.Ipset.Cidr.{byte_mask}

abbrev pub IsBytes : List ℕ → Type 0
IsBytes [] = Unit
IsBytes (b ∷ bs) = (b < 256) × IsBytes bs

abbrev pub bits : List ℕ → List ℕ
bits [] = []
bits (b ∷ bs) =
    b / 128 % 2
    ∷ b / 64 % 2
    ∷ b / 32 % 2
    ∷ b / 16 % 2
    ∷ b / 8 % 2
    ∷ b / 4 % 2
    ∷ b / 2 % 2
    ∷ b % 2
    ∷ bits bs

unfoldable pub prefix_test : ℕ → List ℕ → List ℕ → Bool
unfolding byte_mask
prefix_test p xs ys =
    let mask = byte_mask (p % 8) in
    let x = Option.get_or (get_elem? xs (p / 8)) 0 in
    let y = Option.get_or (get_elem? ys (p / 8)) 0 in
    if is_zero (memcmp (p / 8) xs ys)
    then (if ltb 0 (p % 8) then bit_and x mask == bit_and y mask else true)
    else false

module _ (x y : ℕ) (xs ys : List ℕ) (hx : x < 256) (hy : y < 256) where
  prefix_test_head :
      (p : ℕ)
      → p < 8
      → (prefix_test p (x ∷ xs) (y ∷ ys) ≡ true) ↔ (take p (bits (x ∷ xs)) ≡ take p (bits (y ∷ ys)))
  unfolding prefix_test memcmp
  prefix_test_head zero h = ground arith
  prefix_test_head (suc zero) h = ground (arith, bit_and_high 1 7 x hx, bit_and_high 1 7 y hy)
  prefix_test_head (suc (suc zero)) h = ground (arith, bit_and_high 2 6 x hx, bit_and_high 2 6 y hy)
  prefix_test_head (suc (suc (suc zero))) h =
      ground (arith, bit_and_high 3 5 x hx, bit_and_high 3 5 y hy)
  prefix_test_head (suc (suc (suc (suc zero)))) h =
      ground (arith, bit_and_high 4 4 x hx, bit_and_high 4 4 y hy)
  prefix_test_head (suc (suc (suc (suc (suc zero))))) h =
      ground (arith, bit_and_high 5 3 x hx, bit_and_high 5 3 y hy)
  prefix_test_head (suc (suc (suc (suc (suc (suc zero)))))) h =
      ground (arith, bit_and_high 6 2 x hx, bit_and_high 6 2 y hy)
  prefix_test_head (suc (suc (suc (suc (suc (suc (suc zero))))))) h =
      ground (arith, bit_and_high 7 1 x hx, bit_and_high 7 1 y hy)
  prefix_test_head (suc (suc (suc (suc (suc (suc (suc (suc p)))))))) h = absurd (omega arith)

  prefix_test-add_eight :
      (p : ℕ)
      → prefix_test (p + 8) (x ∷ xs) (y ∷ ys) ≡ (if x == y then prefix_test p xs ys else false)
  unfolding prefix_test memcmp
  prefix_test-add_eight p =
      let byte : (p + 8) / 8 ≡ suc (p / 8) = omega arith in
      let bit : (p + 8) % 8 ≡ p % 8 = omega arith in
      rw (byte, bit, prefix_test, memcmp) (ground arith)

  -- Eight equal bits make equal bytes.
  take-add_eight :
      (p : ℕ)
      → (take (p + 8) (bits (x ∷ xs)) ≡ take (p + 8) (bits (y ∷ ys)))
        ↔ (x ≡ y) × (take p (bits xs) ≡ take p (bits ys))
  take-add_eight p =
      let e : p + 8 ≡ suc (suc (suc (suc (suc (suc (suc (suc p))))))) = omega arith in
      rw e (λ h. (ground arith, ground arith), λ h. ground arith)

pub prefix_test-bits :
    (xs ys : List ℕ) (p : ℕ)
    → p ≤ 8 * length xs
    → length xs ≡ length ys
    → IsBytes xs
    → IsBytes ys
    → (prefix_test p xs ys ≡ true) ↔ (take p (bits xs) ≡ take p (bits ys))
prefix_test-bits [] [] p h l hx hy =
    let e : p ≡ 0 = omega arith in rw e (unfold prefix_test memcmp in ground arith)
prefix_test-bits [] (y ∷ ys) p h l hx hy = absurd (omega arith)
prefix_test-bits (x ∷ xs) [] p h l hx hy = absurd (omega arith)
prefix_test-bits (x ∷ xs) (y ∷ ys) p h l hx hy = elim (dec_lt p 8) [
  | yes small ↦ prefix_test_head x y xs ys hx.0 hy.0 p small
  | no large ↦
      let e : p ≡ p - 8 + 8 = omega arith in
      let ih = prefix_test-bits xs ys (p - 8) (omega arith) (omega arith) hx.1 hy.1 in
      let test = prefix_test-add_eight x y xs ys hx.0 hy.0 (p - 8) in
      let split = take-add_eight x y xs ys hx.0 hy.0 (p - 8) in
      rw e (λ h. split.1 (ground arith), λ h. let both = split.0 h in ground arith)
]
