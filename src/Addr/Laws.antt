-- ===== src/Addr/Laws.antt =====
-- `ip_addr_compare` is 0 exactly at equal addresses, and changes its sign when they are swapped.
use anti.Base.{ℕ, zero, suc, ◌≡◌, ◌↔◌, refl, ap, List, [], ◌∷◌, true, length, arith, is_zero}
use anti.Addr.{IpAddr, inet, inet6, IsIpAddr, memcmp, ip_addr_compare, same_ip}

memcmp_eq :
    (n : ℕ) (xs ys : List ℕ)
    → length xs ≡ n
    → length ys ≡ n
    → is_zero (memcmp n xs ys) ≡ true
    → xs ≡ ys
unfolding memcmp
memcmp_eq zero [] [] p q h = refl
memcmp_eq zero [] (y ∷ ys) p q h = absurd (omega arith)
memcmp_eq zero (x ∷ xs) ys p q h = absurd (omega arith)
memcmp_eq (suc n) [] ys p q h = absurd (omega arith)
memcmp_eq (suc n) (x ∷ xs) [] p q h = absurd (omega arith)
memcmp_eq (suc n) (x ∷ xs) (y ∷ ys) p q h =
    ground (arith, memcmp_eq n xs ys (omega arith) (omega arith))

pub memcmp_self : (n : ℕ) (xs : List ℕ) → is_zero (memcmp n xs xs) ≡ true
unfolding memcmp
memcmp_self zero xs = refl
memcmp_self (suc n) [] = refl
memcmp_self (suc n) (x ∷ xs) = ground (arith, memcmp_self n xs)

pub same_ip_self : (a : IpAddr) → same_ip a a ≡ true
unfolding ip_addr_compare
same_ip_self (inet a) = ground arith
same_ip_self (inet6 bs) = memcmp_self 16 bs

-- Two addresses of the right size compare as equal exactly when they are the same address.
pub same_ip_iff : (a b : IpAddr) → IsIpAddr a → IsIpAddr b → (same_ip a b ≡ true) ↔ (a ≡ b)
unfolding ip_addr_compare
same_ip_iff (inet a) (inet b) p q = ground arith
same_ip_iff (inet6 xs) (inet6 ys) p q =
    (λ h. ap inet6 (memcmp_eq 16 xs ys p q h), λ e. ground (arith, memcmp_self 16 xs))
same_ip_iff (inet a) (inet6 ys) p q = ground arith
same_ip_iff (inet6 xs) (inet b) p q = ground arith
