-- ===== src/Conn.antt =====
-- The keys of src/storage/hashtable.c: MurmurHash3 and the comparison of connection tuples.
pub mod Laws
pub mod Heap
pub mod Reason
pub mod Table
use anti.Base.{
  ℕ, zero, suc, ◌+◌, ◌-◌, ◌*◌, ◌/◌, ◌%◌, ◌^◌, bit_or, bit_xor, Bool, List, [], ◌∷◌, length, ◌==◌,
  if◌then◌else◌, u32, ℤ, sub_ℕ, is_zero,
}
use anti.Addr.{IpAddr, inet, inet6, ip_addr_compare}

pub record ConnTuple : Type 0 where
  pub src_ip : IpAddr
  pub dst_ip : IpAddr
  pub src_port : ℕ
  pub dst_port : ℕ
  pub protocol : ℕ

-- `(k << n) | (k >> (32 - n))`.
unfoldable pub rotate : ℕ → ℕ → ℕ
rotate n k = bit_or (u32 (k * 2 ^ n)) (k / 2 ^ (32 - n))

-- The multiplications and the rotation of a block, or of the tail.
unfoldable pub scramble : ℕ → ℕ
unfolding rotate
scramble k1 = u32 (rotate 15 (u32 (k1 * 0xcc9e2d51)) * 0x1b873593)

-- One turn of the loop over the blocks.
unfoldable pub mix : ℕ → ℕ → ℕ
unfolding scramble rotate
mix h1 k1 = u32 (rotate 13 (bit_xor h1 (scramble k1)) * 5 + 0xe6546b64)

-- The blocks of four bytes in order, and then the tail of the fewer than four that are left: a
-- tail of length zero is not scrambled.
unfoldable pub absorb : ℕ → List ℕ → ℕ
unfolding mix scramble
absorb h1 [] = h1
absorb h1 (a ∷ []) = bit_xor h1 (scramble a)
absorb h1 (a ∷ b ∷ []) = bit_xor h1 (scramble (bit_xor (b * 2 ^ 8) a))
absorb h1 (a ∷ b ∷ c ∷ []) = bit_xor h1 (scramble (bit_xor (bit_xor (c * 2 ^ 16) (b * 2 ^ 8)) a))
absorb h1 (a ∷ b ∷ c ∷ d ∷ rest) = absorb (mix h1 (a + b * 2 ^ 8 + c * 2 ^ 16 + d * 2 ^ 24)) rest

-- The finalization.
unfoldable pub finalize : ℕ → ℕ
finalize h =
    let h₁ = u32 (bit_xor h (h / 2 ^ 16) * 0x85ebca6b) in
    let h₂ = u32 (bit_xor h₁ (h₁ / 2 ^ 13) * 0xc2b2ae35) in bit_xor h₂ (h₂ / 2 ^ 16)

unfoldable pub murmur3_32 : List ℕ → ℕ → ℕ
unfolding absorb finalize
murmur3_32 key seed = finalize (bit_xor (absorb seed key) (length key))

-- The bytes of an address in memory.
abbrev pub ip_bytes : IpAddr → List ℕ
ip_bytes (inet a) = (a / 2 ^ 24 % 256) ∷ (a / 2 ^ 16 % 256) ∷ (a / 2 ^ 8 % 256) ∷ (a % 256) ∷ []
ip_bytes (inet6 bs) = bs

-- A `uint16_t` of a little-endian host.
abbrev pub port_bytes : ℕ → List ℕ
port_bytes p = (p % 256) ∷ (p / 256 % 256) ∷ []

abbrev pub hash_seed : ℕ
hash_seed = 0x9747b28c

unfoldable pub conn_tuple_hash : ConnTuple → ℕ
unfolding murmur3_32
conn_tuple_hash t =
    let h₁ = murmur3_32 (ip_bytes t.src_ip) hash_seed in
    let h₂ = murmur3_32 (ip_bytes t.dst_ip) h₁ in
    let h₃ = murmur3_32 (port_bytes t.src_port) h₂ in
    let h₄ = murmur3_32 (port_bytes t.dst_port) h₃ in murmur3_32 (t.protocol ∷ []) h₄

unfoldable pub conn_tuple_compare : ConnTuple → ConnTuple → ℤ
conn_tuple_compare a b =
    let cmp = ip_addr_compare a.src_ip b.src_ip in
    if a.protocol == b.protocol
    then (if a.src_port == b.src_port
        then (if a.dst_port == b.dst_port
            then (if is_zero cmp then ip_addr_compare a.dst_ip b.dst_ip else cmp)
            else sub_ℕ a.dst_port b.dst_port)
        else sub_ℕ a.src_port b.src_port)
    else sub_ℕ a.protocol b.protocol
