-- ===== src/Tests/Files.antt =====
-- A set in a file, for the theorems on the text of src/storage/ipset.c.
use anti.Base.{
  ℕ, ◌≡◌, ◌↔◌, ◌<◌, ◌-◌, ◌^◌, refl, true, List, [], ◌∷◌, ◌++◌, some, none, success, pos, ok, fault,
  arith, Bool-cases, inl, inr, ◌==◌, replicate, if◌then◌else◌,
}
use anti.Addr.{IpAddr, inet6}
use anti.Addr.Text.{Inet, ascii}
use anti.Ipset.{Ipset, ipset_hash, insert, push, contains_cidr, create}
use anti.Ipset.Invariant.{create-IsValid}
use anti.Ipset.Text.{add_text, atoi, read_signed, read_digits}
use anti.Ipset.Files.{save_to_file, load_from_file}
use anti.Ipset.Files.Load.{IsWritten}
use anti.Ipset.Files.RoundTrip.{AllWritten, load_from_file-save_to_file}
use anti.Ipset.Files.Covered.{Ranged}
use anti.Ipset.Files.Bare.{add_text-bare_inet6}
use anti.Tests.Sets.{host, empty, one_host, one_host-IsValid}

abbrev loopback_bytes : List ℕ
loopback_bytes = replicate 15 0 ++ (1 ∷ [])

abbrev neighbour_bytes : List ℕ
neighbour_bytes = replicate 15 0 ++ (2 ∷ [])

-- A network with one address of each family.
abbrev net : Inet
net = record {
  pton4 = λ text. elim text [ [] ↦ none | c ∷ cs ↦ if c == b'1' then some 0x0a000001 else none ];
  pton6 = λ text. some loopback_bytes;
  ntop = λ ip. ascii "10.0.0.1";
  unended = λ bytes. fault;
}

written : IsWritten net host
written = record { reads = refl; plain = ground arith; short = omega arith; kept = refl }

all_written : (j : ℕ) → AllWritten net (one_host.buckets j)
unfolding insert push
all_written j = elim (Bool-cases (j == ipset_hash host)) [
  | inl here ↦ rw here (written, tt)
  | inr there ↦ rw there tt
]

read_prefix : atoi (ascii " +24x") ≡ 24
unfolding atoi read_signed read_digits
read_prefix = refl

read_overlong : atoi (ascii "9223372036854775808") ≡ 2 ^ 32 - 1
unfolding atoi read_signed read_digits
read_overlong = refl

empty_lem : create 10 true true ≡ some empty
unfolding create
empty_lem = refl

load_from_file-save_to_file_example :
    (after : Ipset) × (load_from_file net (λ i. true) empty (save_to_file net one_host true).1
      ≡ ok (pos (one_host.entry_count), after))
    × ((ip : IpAddr) (now : ℕ)
        → (contains_cidr (some after) (some ip) now ≡ true)
          ↔ ((j : ℕ) × (j < one_host.bucket_count) × Ranged ip (one_host.buckets j)))
unfolding insert
load_from_file-save_to_file_example =
    load_from_file-save_to_file net {set = one_host} {fresh = empty} 10 one_host-IsValid all_written
      empty_lem (omega arith) (omega arith)

add_text-bare_inet6_example :
    (after : Ipset) × (add_text net empty (ascii "fe80::1") true ≡ ok (success, after))
    × (contains_cidr (some after) (some (inet6 neighbour_bytes)) 5 ≡ true)
add_text-bare_inet6_example =
    add_text-bare_inet6 net empty (ascii "fe80::1") (ground arith) loopback_bytes neighbour_bytes 5
      (omega arith) refl refl refl refl (omega arith) (omega arith)
      (create-IsValid 10 {set = empty} (omega arith) empty_lem) (omega arith) refl
