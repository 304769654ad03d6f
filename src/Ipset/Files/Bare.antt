-- ===== src/Ipset/Files/Bare.antt =====
-- Texts without a prefix length, in `ipset_add_cidr` of src/storage/ipset.c.
use anti.Base.{
  ℕ, ◌<◌, ◌≡◌, refl, true, false, List, [], ◌∷◌, some, none, leb, length, take, arith, success, ok,
}
use anti.Addr.{IpAddr, inet6}
use anti.Addr.Text.{Inet, string_to_ip_addr}
use anti.Ipset.{Ipset, insert_range, contains_cidr}
use anti.Ipset.Cidr.Laws.{ip_in_cidr-inet6}
use anti.Ipset.Cidr.Laws.Bytes.{bits}
use anti.Ipset.Cidr.Laws.Bytes.{IsBytes}
use anti.Ipset.Ranges.{contains_cidr-insert_range}
use anti.Ipset.Valid.{IsValid}
use anti.Ipset.Text.{add_text, parse_cidr, prefix_part}
use anti.Ipset.Files.Lines.{IsPlain}

prefix_part-IsPlain : (text : List ℕ) → IsPlain text → prefix_part text ≡ none
unfolding prefix_part
prefix_part-IsPlain [] p = refl
prefix_part-IsPlain (c ∷ cs) p = ground (arith, p.2, prefix_part-IsPlain cs p.3)

module _ (net : Inet) (set : Ipset) (text : List ℕ) (plain : IsPlain text) where
  inserts :
      (ip : IpAddr) → set.entry_count < set.max_size → (insert_range set ip 32 true).0 ≡ success
  unfolding insert_range
  inserts ip room = ground arith

  -- An IPv6 address given without a prefix length is stored as a range of 32 bits: each address that
  -- has its first 32 bits in common is then covered, at any time.
  pub add_text-bare_inet6 :
      (bs other : List ℕ) (now : ℕ)
      → length text < 45
      → net.pton4 text ≡ none
      → net.pton6 text ≡ some bs
      → length bs ≡ 16
      → length other ≡ 16
      → IsBytes bs
      → IsBytes other
      → IsValid set
      → set.entry_count < set.max_size
      → take 32 (bits other) ≡ take 32 (bits bs)
      → (after : Ipset) × (add_text net set text true ≡ ok (success, after))
        × (contains_cidr (some after) (some (inet6 other)) now ≡ true)
  unfolding add_text parse_cidr string_to_ip_addr
  add_text-bare_inet6 bs other now short four six wide wide' bytes bytes' v room same =
      let added = inserts (inet6 bs) room in
      let fits : leb 45 (length text) ≡ false = ground arith in
      let parsed : parse_cidr net text ≡ ok (some (inet6 bs, 32)) =
        rw (prefix_part-IsPlain text plain, parse_cidr)
          (rw fits (rw (four, string_to_ip_addr) (rw six refl))) in
      (
        (insert_range set (inet6 bs) 32 true).1,
        rw (parsed, add_text) (λ i. ok (added i, (insert_range set (inet6 bs) 32 true).1)),
        contains_cidr-insert_range (inet6 bs) 32 true (inet6 other) now v added
            ((ip_in_cidr-inet6 other bs 32 (omega arith) wide' wide bytes' bytes).1 same),
      )
