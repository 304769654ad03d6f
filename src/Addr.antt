-- ===== src/Addr.antt =====
-- The addresses of include/common.h and the comparison of src/core/logger.c.
-- An `in_addr` is kept as the number that `ntohl` makes of it; an `in6_addr` as its bytes in
-- memory order. The other bytes of the union are never read under the stored family.
pub mod Laws
pub mod Text
use anti.Base.{
  ℕ, zero, suc, ◌+◌, ◌*◌, ◌^◌, ◌<◌, ◌≡◌, List, [], ◌∷◌, Bool, length, bit_xor, ◌==◌, if◌then◌else◌,
  ℤ, pos, sub_ℕ, is_zero,
}

pub data IpAddr : Type 0 where
  inet : ℕ → IpAddr
  inet6 : List ℕ → IpAddr

-- What the constructors of an address guarantee: 32 bits, or 16 bytes.
abbrev pub IsIpAddr : IpAddr → Type 0
IsIpAddr (inet a) = a < 2 ^ 32
IsIpAddr (inet6 bs) = length bs ≡ 16

-- `AF_INET` and `AF_INET6` of Linux.
abbrev pub family : IpAddr → ℕ
family (inet a) = 2
family (inet6 bs) = 10

-- `memcmp(a, b, n)`: the difference of the first two bytes that differ.
unfoldable pub memcmp : ℕ → List ℕ → List ℕ → ℤ
memcmp zero xs ys = pos 0
memcmp (suc n) [] [] = pos 0
memcmp (suc n) [] (y ∷ ys) = sub_ℕ 0 (suc y)
memcmp (suc n) (x ∷ xs) [] = sub_ℕ (suc x) 0
memcmp (suc n) (x ∷ xs) (y ∷ ys) = if x == y then memcmp n xs ys else sub_ℕ x y

-- Four bytes in network order compare as the number that they write.
unfoldable pub ip_addr_compare : IpAddr → IpAddr → ℤ
unfolding memcmp
ip_addr_compare (inet a) (inet b) = sub_ℕ a b
ip_addr_compare (inet6 xs) (inet6 ys) = memcmp 16 xs ys
ip_addr_compare a b = sub_ℕ (family a) (family b)

-- The test `ip_addr_compare(a, b) == 0` of every caller.
abbrev pub same_ip : IpAddr → IpAddr → Bool
same_ip a b = is_zero (ip_addr_compare a b)

-- The bytes of a word of a little-endian host.
word_le : List ℕ → ℕ
word_le [] = 0
word_le (b ∷ bs) = b + 256 * word_le bs

-- `((uint32_t *)&ip->addr.v6)[i]` over the four words.
unfoldable pub xor_words : ℕ → List ℕ → ℕ
unfolding word_le
xor_words hash (a ∷ b ∷ c ∷ d ∷ bs) = xor_words (bit_xor hash (word_le (a ∷ b ∷ c ∷ d ∷ []))) bs
xor_words hash bs = hash

-- The value that `ipset_hash`, `ip_hash_simple` and `ip_stats_hash` reduce to an index.
unfoldable pub ip_word : IpAddr → ℕ
unfolding xor_words
ip_word (inet a) = a
ip_word (inet6 bs) = xor_words 0 bs
