-- ===== src/Ipset/Cidr/Laws.antt =====
-- A prefix matches exactly when the leading bits agree: of a number for IPv4, of a list of bits
-- for IPv6.
pub mod Bytes
use anti.Base.{
  ℕ, ◌+◌, ◌-◌, ◌*◌, ◌/◌, ◌^◌, ◌≤◌, ◌<◌, ◌≡◌, ◌↔◌, ◌∙◌, ap, sym, zero, suc, true, arith, bit_and,
  List, length, take, ==_iff,
}
use native.Mathlib.Nat.{one-le-pow, mul-div_cancel}
use anti.Base.Bits.{bit_and_high, bit_and-zero}
use anti.Addr.{inet, inet6}
use anti.Ipset.Cidr.{inet_mask, ip_in_cidr}
use Bytes.{IsBytes, bits, prefix_test, prefix_test-bits}

cancel : (a b k : ℕ) → 0 < k → a * k ≡ b * k → a ≡ b
cancel a b k h e = sym (mul-div_cancel a h) ∙ ap (λ (t : ℕ). t / k) e ∙ mul-div_cancel b h

inet_masked :
    (p a : ℕ) → p ≤ 32 → a < 2 ^ 32 → bit_and a (inet_mask p) ≡ a / 2 ^ (32 - p) * 2 ^ (32 - p)
unfolding inet_mask
inet_masked zero a h ha = ground (arith, bit_and-zero a)
inet_masked (suc q) a h ha =
    let p = suc q in
    let width : p + (32 - p) ≡ 32 = omega arith in
    let whole : 2 ^ (p + (32 - p)) ≡ 2 ^ 32 = ap (λ (t : ℕ). 2 ^ t) width in
    let mask : inet_mask p ≡ 2 ^ (p + (32 - p)) - 2 ^ (32 - p) =
      ground (arith, whole, one-le-pow (32 - p) 2) in
    rw mask (bit_and_high p (32 - p) a (rw whole ha))

-- An IPv4 address lies in a network exactly when the two agree above the host part.
pub ip_in_cidr-inet :
    (ip network p : ℕ)
    → p ≤ 32
    → ip < 2 ^ 32
    → network < 2 ^ 32
    → (ip_in_cidr (inet ip) (inet network) p ≡ true) ↔ (ip / 2 ^ (32 - p) ≡ network / 2 ^ (32 - p))
unfolding ip_in_cidr
ip_in_cidr-inet ip network p h hi hn =
    let pos = one-le-pow (32 - p) 2 (omega arith) in
    rw (inet_masked p ip h hi, inet_masked p network h hn)
      (
        λ e.
            cancel (ip / 2 ^ (32 - p)) (network / 2 ^ (32 - p)) (2 ^ (32 - p)) pos
              ((==_iff _ _).0 e),
        λ e. (==_iff _ _).1 (ap (λ (t : ℕ). t * 2 ^ (32 - p)) e),
      )

-- An IPv6 address lies in a network exactly when their first `p` bits are the same.
pub ip_in_cidr-inet6 :
    (ip network : List ℕ) (p : ℕ)
    → p ≤ 128
    → length ip ≡ 16
    → length network ≡ 16
    → IsBytes ip
    → IsBytes network
    → (ip_in_cidr (inet6 ip) (inet6 network) p ≡ true) ↔ (take p (bits ip) ≡ take p (bits network))
unfolding ip_in_cidr prefix_test
ip_in_cidr-inet6 ip network p h li ln hi hn =
    prefix_test-bits ip network p (omega arith) (omega arith) hi hn
