-- ===== src/Ipset/Cidr.antt =====
-- `ip_in_cidr` of src/storage/ipset.c.
pub mod Laws
use anti.Base.{
  ℕ, ◌-◌, ◌/◌, ◌%◌, ◌^◌, bit_and, Bool, true, false, ltb, ◌==◌, if◌then◌else◌, get_elem?, is_zero,
}
use mathlib.Core.Option
use anti.Addr.{IpAddr, inet, inet6, memcmp}

-- `prefix_len ? ~((1 << (32 - prefix_len)) - 1) : 0` on 32 bits. The `htonl` round it meets the
-- one that an address in memory has. C leaves the shift undefined above 32, which is never stored. At
-- the length 1, `1 << 31` overflows `int`: its value here is the bit pattern that gcc defines for it.
unfoldable pub inet_mask : ℕ → ℕ
inet_mask prefix_len = if prefix_len == 0 then 0 else 2 ^ 32 - 1 - (2 ^ (32 - prefix_len) - 1)

-- `(uint8_t)~((1 << (8 - remaining_bits)) - 1)`.
unfoldable pub byte_mask : ℕ → ℕ
byte_mask remaining_bits = 2 ^ 8 - 1 - (2 ^ (8 - remaining_bits) - 1)

unfoldable pub ip_in_cidr : IpAddr → IpAddr → ℕ → Bool
unfolding inet_mask byte_mask
ip_in_cidr (inet ip) (inet network) prefix_len =
    bit_and ip (inet_mask prefix_len) == bit_and network (inet_mask prefix_len)
ip_in_cidr (inet6 ip) (inet6 network) prefix_len =
    let full_bytes = prefix_len / 8 in
    let remaining_bits = prefix_len % 8 in
    let mask = byte_mask remaining_bits in
    let ip_byte = Option.get_or (get_elem? ip full_bytes) 0 in
    let network_byte = Option.get_or (get_elem? network full_bytes) 0 in
    if is_zero (memcmp full_bytes ip network)
    then (if ltb 0 remaining_bits then bit_and ip_byte mask == bit_and network_byte mask else true)
    else false
ip_in_cidr ip network prefix_len = false
