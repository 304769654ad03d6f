-- ===== src/RateLimit/Window/History.antt =====
-- The events that a sliding window has been given, each with its second and its value: what the
-- window stands for.
use anti.Base.{ℕ, ◌+◌, ◌≤◌, ◌<◌, ◌≡◌, refl, List, [], ◌∷◌, ltb, ◌==◌, if◌then◌else◌, arith}

-- The latest event comes first.
abbrev pub History : Type 0
History = List (ℕ × ℕ)

-- The sum of the events `k` seconds before `s`.
unfoldable pub aged : History → ℕ → ℕ → ℕ
aged [] s k = 0
aged ((time, value) ∷ h) s k = if time + k == s then value + aged h s k else aged h s k

-- The sum of the events of the `size` seconds up to `s`.
unfoldable pub recent : History → ℕ → ℕ → ℕ
recent [] s size = 0
recent ((time, value) ∷ h) s size =
    if ltb s (time + size) then value + recent h s size else recent h s size

unfoldable pub sum_all : History → ℕ
sum_all [] = 0
sum_all ((time, value) ∷ h) = value + sum_all h

-- No event is later than `s`.
abbrev pub AllBy : ℕ → History → Type 0
AllBy s [] = Unit
AllBy s ((time, value) ∷ h) = (time ≤ s) × AllBy s h

pub AllBy-mono : (s t : ℕ) (h : History) → s ≤ t → AllBy s h → AllBy t h
AllBy-mono s t [] le p = tt
AllBy-mono s t ((time, value) ∷ h) le p = (omega (arith, p.0), AllBy-mono s t h le p.1)

pub aged-le : (h : History) (s k : ℕ) → aged h s k ≤ sum_all h
unfolding aged sum_all
aged-le [] s k = omega arith
aged-le ((time, value) ∷ h) s k = ground (arith, aged-le h s k)

pub recent-le : (h : History) (s size : ℕ) → recent h s size ≤ sum_all h
unfolding recent sum_all
recent-le [] s size = omega arith
recent-le ((time, value) ∷ h) s size = ground (arith, recent-le h s size)

-- Nothing is as old as zero seconds once a later second begins, or in a window that has passed.
pub aged-new : (h : History) (s t k : ℕ) → AllBy s h → s + k < t → aged h t k ≡ 0
unfolding aged
aged-new [] s t k p lt = refl
aged-new ((time, value) ∷ h) s t k p lt = ground (arith, aged-new h s t k p.1 lt, p.0)

pub recent-new : (h : History) (s t size : ℕ) → AllBy s h → s + size ≤ t → recent h t size ≡ 0
unfolding recent
recent-new [] s t size p le = refl
recent-new ((time, value) ∷ h) s t size p le = ground (arith, recent-new h s t size p.1 le, p.0)

pub aged-suc : (h : History) (s k : ℕ) → aged h (s + 1) (k + 1) ≡ aged h s k
unfolding aged
aged-suc [] s k = refl
aged-suc ((time, value) ∷ h) s k = ground (arith, aged-suc h s k)

-- When a second passes, the oldest one leaves the window.
pub recent-suc :
    (h : History) (s m : ℕ) → recent h s (m + 1) ≡ recent h (s + 1) (m + 1) + aged h s m
unfolding aged recent
recent-suc [] s m = refl
recent-suc ((time, value) ∷ h) s m = ground (arith, recent-suc h s m)
