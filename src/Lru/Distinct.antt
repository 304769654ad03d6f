-- ===== src/Lru/Distinct.antt =====
-- Pointers that differ, for the list of src/storage/lru_cache.c.
use anti.Base.{
  ℕ, suc, length, ◌↔◌, ◌⊎◌, inl, inr, sym, ap, ◌≡◌, refl, false, ◌==◌, List, [], ◌∷◌, ◌++◌, arith,
}

abbrev pub Absent : ℕ → List ℕ → Type 0
Absent q [] = Unit
Absent q (p ∷ ps) = ((q == p) ≡ false) × Absent q ps

abbrev pub Distinct : List ℕ → Type 0
Distinct [] = Unit
Distinct (p ∷ ps) = Absent p ps × Distinct ps

abbrev pub Apart : List ℕ → List ℕ → Type 0
Apart [] qs = Unit
Apart (p ∷ ps) qs = Absent p qs × Apart ps qs

pub other_way : (p q : ℕ) → (p == q) ≡ false → (q == p) ≡ false
other_way p q h = ground arith

pub Apart-of_Absent : (p : ℕ) (qs : List ℕ) → Absent p qs → Apart qs (p ∷ [])
Apart-of_Absent p [] a = tt
Apart-of_Absent p (q ∷ qs) a = ((other_way p q a.0, tt), Apart-of_Absent p qs a.1)

Apart-cons : (q : ℕ) (ps qs : List ℕ) → Apart ps qs → Absent q ps → Apart ps (q ∷ qs)
Apart-cons q [] qs x a = tt
Apart-cons q (p ∷ ps) qs x a = ((other_way q p a.0, x.0), Apart-cons q ps qs x.1 a.1)

Apart-nil : (ps : List ℕ) → Apart ps []
Apart-nil [] = tt
Apart-nil (p ∷ ps) = (tt, Apart-nil ps)

pub Apart-sym : (ps qs : List ℕ) → Apart ps qs → Apart qs ps
Apart-sym [] qs x = Apart-nil qs
Apart-sym (p ∷ ps) qs x = Apart-cons p qs ps (Apart-sym ps qs x.1) x.0

pub Absent-append : (q : ℕ) (ps rs : List ℕ) → Absent q ps → Absent q rs → Absent q (ps ++ rs)
Absent-append q [] rs a b = b
Absent-append q (p ∷ ps) rs a b = (a.0, Absent-append q ps rs a.1 b)

Absent-split : (q : ℕ) (ps rs : List ℕ) → Absent q (ps ++ rs) → Absent q ps × Absent q rs
Absent-split q [] rs a = (tt, a)
Absent-split q (p ∷ ps) rs a = let rest = Absent-split q ps rs a.1 in ((a.0, rest.0), rest.1)

pub Distinct-append :
    (ps rs : List ℕ) → Distinct ps → Distinct rs → Apart ps rs → Distinct (ps ++ rs)
Distinct-append [] rs d e x = e
Distinct-append (p ∷ ps) rs d e x = (Absent-append p ps rs d.0 x.0, Distinct-append ps rs d.1 e x.1)

Distinct-split : (ps rs : List ℕ) → Distinct (ps ++ rs) → Distinct ps × Distinct rs × Apart ps rs
Distinct-split [] rs d = (tt, d, tt)
Distinct-split (p ∷ ps) rs d =
    let here = Absent-split p ps rs d.0 in
    let rest = Distinct-split ps rs d.1 in ((here.0, rest.0), rest.1, (here.1, rest.2))

-- The parts of a list about one of its entries.
pub record AroundOf (ps : List ℕ) (p : ℕ) (rs : List ℕ) : Type 0 where
  pub before : Distinct ps
  pub behind : Distinct rs
  pub not_before : Absent p ps
  pub not_behind : Absent p rs
  pub apart : Apart ps rs

Apart-tail : (r : ℕ) (ps rs : List ℕ) → Apart ps (r ∷ rs) → Absent r ps × Apart ps rs
Apart-tail r [] rs x = (tt, tt)
Apart-tail r (p ∷ ps) rs x =
    let rest = Apart-tail r ps rs x.1 in ((other_way p r x.0.0, rest.0), (x.0.1, rest.1))

pub AroundOf-Distinct :
    (ps : List ℕ) (p : ℕ) (rs : List ℕ) → Distinct (ps ++ p ∷ rs) → AroundOf ps p rs
AroundOf-Distinct ps p rs d =
    let parts = Distinct-split ps (p ∷ rs) d in
    let apart = Apart-tail p ps rs parts.2 in
    record {
      before = parts.0;
      behind = parts.1.1;
      not_before = apart.0;
      not_behind = parts.1.0;
      apart = apart.1;
    }

abbrev pub IsIn : ℕ → List ℕ → Type 0
IsIn q [] = ⊥
IsIn q (p ∷ ps) = (q ≡ p) ⊎ IsIn q ps

pub IsIn-split : (q : ℕ) (ps : List ℕ) → IsIn q ps → (rs ts : List ℕ) × (ps ≡ rs ++ q ∷ ts)
IsIn-split q (p ∷ ps) (inl e) = ([], ps, ap (λ x. x ∷ ps) (sym e))
IsIn-split q (p ∷ ps) (inr there) =
    let (rs, ts, e) = IsIn-split q ps there in (p ∷ rs, ts, ap (λ x. p ∷ x) e)
IsIn-split q [] there = absurd there

to_middle : (q p : ℕ) (ps qs : List ℕ) → IsIn q (p ∷ ps ++ qs) → IsIn q (ps ++ p ∷ qs)
to_middle q p [] qs i = i
to_middle q p (r ∷ ps) qs (inl e) = inr (to_middle q p ps qs (inl e))
to_middle q p (r ∷ ps) qs (inr (inl e)) = inl e
to_middle q p (r ∷ ps) qs (inr (inr i)) = inr (to_middle q p ps qs (inr i))

to_front : (q p : ℕ) (ps qs : List ℕ) → IsIn q (ps ++ p ∷ qs) → IsIn q (p ∷ ps ++ qs)
to_front q p [] qs i = i
to_front q p (r ∷ ps) qs (inl e) = inr (inl e)
to_front q p (r ∷ ps) qs (inr i) = elim (to_front q p ps qs i) [
  | inl e ↦ inl e
  | inr j ↦ inr (inr j)
]

pub IsIn-middle : (q p : ℕ) (ps qs : List ℕ) → IsIn q (p ∷ ps ++ qs) ↔ IsIn q (ps ++ p ∷ qs)
IsIn-middle q p ps qs = (to_middle q p ps qs, to_front q p ps qs)

pub length-middle : (p : ℕ) (ps qs : List ℕ) → length (p ∷ ps ++ qs) ≡ length (ps ++ p ∷ qs)
length-middle p [] qs = refl
length-middle p (r ∷ ps) qs = ap suc (length-middle p ps qs)
