-- ===== src/Tests/Ranges.antt =====
-- Networks and the addresses in them, for the theorems on `ipset_contains_cidr` and `ip_in_cidr`.
use anti.Base.{ℕ, ◌≡◌, ◌↔◌, ◌/◌, ◌^◌, refl, true, List, [], ◌∷◌, some, take, arith}
use anti.Addr.{inet, inet6}
use anti.Ipset.{contains_cidr}
use anti.Ipset.Cidr.{ip_in_cidr}
use anti.Ipset.Cidr.Laws.{ip_in_cidr-inet, ip_in_cidr-inet6}
use anti.Ipset.Cidr.Laws.Bytes.{bits}
use anti.Ipset.Ranges.{Covers, contains_cidr_iff}
use anti.Tests.Sets.{host, one_host, one_host-IsValid}

abbrev network_bytes : List ℕ
network_bytes = 0x20 ∷ 1 ∷ 0x0d ∷ 0xb8 ∷ 0 ∷ 0 ∷ 0 ∷ 0 ∷ 0 ∷ 0 ∷ 0 ∷ 0 ∷ 0 ∷ 0 ∷ 0 ∷ 0 ∷ []

abbrev member_bytes : List ℕ
member_bytes = 0x20 ∷ 1 ∷ 0x0d ∷ 0xb8 ∷ 0x0f ∷ 0 ∷ 0 ∷ 0 ∷ 0 ∷ 0 ∷ 0 ∷ 0 ∷ 0 ∷ 0 ∷ 0 ∷ 1 ∷ []

ip_in_cidr-inet_example :
    (ip_in_cidr (inet 0x0a0000ff) (inet 0x0a000001) 24 ≡ true)
    ↔ (0x0a0000ff / 2 ^ 8 ≡ 0x0a000001 / 2 ^ 8)
ip_in_cidr-inet_example =
    ip_in_cidr-inet 0x0a0000ff 0x0a000001 24 (omega arith) (omega arith) (omega arith)

ip_in_cidr-inet6_example :
    (ip_in_cidr (inet6 member_bytes) (inet6 network_bytes) 36 ≡ true)
    ↔ (take 36 (bits member_bytes) ≡ take 36 (bits network_bytes))
ip_in_cidr-inet6_example =
    ip_in_cidr-inet6 member_bytes network_bytes 36 (omega arith) refl refl (ground arith)
      (ground arith)

contains_cidr_iff_example :
    (contains_cidr (some one_host) (some host) 40 ≡ true)
    ↔ ((j : ℕ) × Covers 40 host (one_host.buckets j))
contains_cidr_iff_example = contains_cidr_iff {set = one_host} host 40 one_host-IsValid
