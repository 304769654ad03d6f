-- ===== src/Tests/Sets.antt =====
-- Small address sets, for the theorems on src/storage/ipset.c.
use anti.Base.{ℕ, ◌≡◌, ◌≢◌, ◌↔◌, refl, ap, true, false, List, [], ◌∷◌, some, arith}
use anti.Addr.{IpAddr, inet, inet6, ip_word, ip_addr_compare}
use anti.Ipset.{
  Ipset, create, insert, delete, purge, contains, contains_cidr, ipset_hash, insert_range,
}
use anti.Ipset.Valid.{IsValid}
use anti.Ipset.Invariant.{here, next, inserted, ranged, deleted, create-Reach-IsValid}
use anti.Ipset.Lookup.{Listed, purge_answers, contains_iff}

abbrev pub host : IpAddr
host = inet 0x0a000001

abbrev pub neighbour : IpAddr
neighbour = inet 0x0a000002

abbrev loopback : List ℕ
loopback = 0 ∷ 0 ∷ 0 ∷ 0 ∷ 0 ∷ 0 ∷ 0 ∷ 0 ∷ 0 ∷ 0 ∷ 0 ∷ 0 ∷ 0 ∷ 0 ∷ 0 ∷ 1 ∷ []

abbrev pub empty : Ipset
empty = record { buckets = λ i. []; bucket_count = 4096; entry_count = 0; max_size = 10 }

abbrev pub one_host : Ipset
one_host = (insert empty host 50 true).1

pub one_host-IsValid : IsValid one_host
unfolding create
one_host-IsValid =
    create-Reach-IsValid 10 {set = empty} (omega arith) refl
      (next here (inserted empty host 50 true (omega arith)))

create-Reach-IsValid_example : IsValid (delete (insert_range one_host neighbour 24 true).1 host).1
unfolding create
create-Reach-IsValid_example = create-Reach-IsValid 10 {set = empty} (omega arith) refl (
    next
      (next (next here (inserted empty host 50 true (omega arith)))
        (ranged one_host neighbour 24 true (omega arith) (omega arith)))
      (deleted (insert_range one_host neighbour 24 true).1 host))

found_early : contains (some one_host) (some host) 40 ≡ true
unfolding contains insert ipset_hash ip_word ip_addr_compare
found_early = refl

gone_later : contains (some one_host) (some host) 51 ≡ false
unfolding contains insert ipset_hash ip_word
gone_later = refl

contains_iff_example :
    (contains (some one_host) (some host) 40 ≡ true)
    ↔ ((i : ℕ) × Listed 40 host (one_host.buckets i))
contains_iff_example = contains_iff {set = one_host} host 40 one_host-IsValid (omega arith)

purge_answers_example :
    (contains (some (purge 51 one_host).0) (some host) 52 ≡ contains (some one_host) (some host) 52)
    × (contains_cidr (some (purge 51 one_host).0) (some host) 52
        ≡ contains_cidr (some one_host) (some host) 52)
purge_answers_example = purge_answers {set = one_host} 51 52 host one_host-IsValid (omega arith)

unfoldable number : IpAddr → ℕ
number (inet a) = a
number (inet6 bs) = 0

neighbour_is_not_host : neighbour ≢ host
unfolding number
neighbour_is_not_host e = omega (arith, ap number e)
