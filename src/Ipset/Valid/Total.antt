-- ===== src/Ipset/Valid/Total.antt =====
-- The number of entries in the first `n` buckets.
use anti.Base.{ℕ, zero, suc, ◌+◌, ◌≤◌, ◌<◌, ◌≡◌, refl, List, [], length, update, arith}

module _ {ℓ} {A : Type ℓ} where
  unfoldable pub total : ℕ → (ℕ → List A) → ℕ
  total zero f = 0
  total (suc n) f = total n f + length (f n)

  total-update_ge :
      (n : ℕ) (f : ℕ → List A) (k : ℕ) (c : List A) → n ≤ k → total n (update f k c) ≡ total n f
  unfolding total
  total-update_ge zero f k c h = refl
  total-update_ge (suc n) f k c h = ground (arith, total-update_ge n f k c)

  pub total-update :
      (n : ℕ) (f : ℕ → List A) (k : ℕ) (c : List A)
      → k < n
      → total n (update f k c) + length (f k) ≡ total n f + length c
  unfolding total
  total-update zero f k c h = absurd (omega arith)
  total-update (suc n) f k c h = ground (arith, total-update n f k c, total-update_ge n f k c)

  pub length-le-total : (n : ℕ) (f : ℕ → List A) (k : ℕ) → k < n → length (f k) ≤ total n f
  unfolding total
  length-le-total zero f k h = absurd (omega arith)
  length-le-total (suc n) f k h = ground (arith, length-le-total n f k)

pub total-empty {ℓ} : (A : Type ℓ) (n : ℕ) → total {A = A} n (λ i. []) ≡ 0
unfolding total
total-empty A zero = refl
total-empty A (suc n) = ground (arith, total-empty A n)
