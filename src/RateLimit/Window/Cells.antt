-- ===== src/RateLimit/Window/Cells.antt =====
-- Reads, writes and the total of the buckets, and the index that goes round.
use anti.Base.{
  ℕ, zero, suc, ◌+◌, ◌%◌, ◌<◌, ◌^◌, ◌≡◌, refl, ap, ◌∙◌, List, [], ◌∷◌, some, ◌==◌, if◌then◌else◌,
  length, get_elem?, set, replicate, u32, u64, ok, arith, Bool-cases, inl, inr,
}
use native.Mathlib.Nat.{mod-eq_of_lt, mod_self}
use anti.RateLimit.Window.{sum_from}

-- The sum of all buckets.
unfoldable pub total : List ℕ → ℕ
total [] = 0
total (x ∷ xs) = x + total xs

pub get_elem?-set :
    (xs : List ℕ) (i v j : ℕ)
    → i < length xs
    → get_elem? (set xs i v) j ≡ (if j == i then some v else get_elem? xs j)
get_elem?-set [] i v j h = absurd (omega arith)
get_elem?-set (x ∷ xs) zero v zero h = refl
get_elem?-set (x ∷ xs) zero v (suc j) h = ground arith
get_elem?-set (x ∷ xs) (suc i) v zero h = ground arith
get_elem?-set (x ∷ xs) (suc i) v (suc j) h = ground (arith, get_elem?-set xs i v j (omega arith))

pub total-set :
    (xs : List ℕ) (i v : ℕ) {old : ℕ}
    → get_elem? xs i ≡ some old
    → total (set xs i v) + old ≡ total xs + v
unfolding total
total-set [] i v h = cc
total-set (x ∷ xs) zero v h = ground arith
total-set (x ∷ xs) (suc i) v h = omega (arith, total-set xs i v h)

pub get_elem?-replicate : (n j : ℕ) → j < n → get_elem? (replicate n zero) j ≡ some zero
get_elem?-replicate zero j h = absurd (omega arith)
get_elem?-replicate (suc n) zero h = refl
get_elem?-replicate (suc n) (suc j) h = get_elem?-replicate n j (omega arith)

pub total-replicate : (n : ℕ) → total (replicate n zero) ≡ 0
unfolding total
total-replicate zero = refl
total-replicate (suc n) = omega (arith, total-replicate n)

-- The next index, where the width fits `uint32_t`.
pub next_index :
    (idx size : ℕ)
    → idx < size
    → size < 2 ^ 32
    → u32 (idx + 1) % size ≡ (if idx + 1 == size then zero else idx + 1)
next_index idx size h fits = elim (Bool-cases (idx + 1 == size)) [
  | inl e ↦
      let whole : idx + 1 ≡ size = ground arith in
      let kept : u32 (idx + 1) ≡ size = omega arith in rw (e, kept) (mod_self size)
  | inr e ↦
      let kept : u32 (idx + 1) ≡ idx + 1 = omega arith in
      let below : idx + 1 < size = ground arith in rw (e, kept, mod-eq_of_lt below)
]

-- The loop of `sliding_window_sum` adds the buckets from `i` on.
pub sum_from-total :
    (xs ys : List ℕ) (i sum : ℕ)
    → ((j : ℕ) → get_elem? xs (i + j) ≡ get_elem? ys j)
    → sum + total ys < 2 ^ 64
    → sum_from xs (length ys) i sum ≡ ok (sum + total ys)
unfolding sum_from total
sum_from-total xs [] i sum h room = ap ok (omega arith)
sum_from-total xs (y ∷ ys) i sum h room =
    let head : get_elem? xs i ≡ some y = ap (λ (t : ℕ). get_elem? xs t) (omega arith) ∙ h 0 in
    let small : u64 (sum + y) ≡ sum + y = omega arith in
    rw (head, small)
      (sum_from-total xs ys (i + 1) (sum + y)
          (λ j. ap (λ (t : ℕ). get_elem? xs t) (omega arith) ∙ h (suc j)) (omega arith)
        ∙ ap ok (omega arith))
