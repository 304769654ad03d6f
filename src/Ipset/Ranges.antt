-- ===== src/Ipset/Ranges.antt =====
-- `ipset_contains_cidr` against the entries of the whole set, and `ipset_add_cidr`.
use anti.Base.{
  ℕ, zero, suc, ◌+◌, ◌≤◌, ◌<◌, ◌≡◌, ◌↔◌, sym, Bool, true, false, [], ◌∷◌, some, arith, Bool-cases,
  inl, inr, ltb, leb, success, ◌==◌, ==_refl, u8,
}
use anti.Addr.{IpAddr}
use anti.Ipset.{
  IpsetEntry, Chain, Ipset, expired, chain_contains_cidr, contains_cidr_from, contains_cidr,
  ipset_hash, insert_range, push,
}
use anti.Ipset.Cidr.{ip_in_cidr}
use anti.Ipset.Valid.{IsValid, ipset_hash-lt}
use anti.Ipset.Invariant.{AllInPlace-nil_of_ge}

-- A chain has an entry whose range covers the address and that has not expired at `now`.
pub data Covers (now : ℕ) (ip : IpAddr) : Chain → Type 0 where
  first :
      (e : IpsetEntry) (c : Chain)
      → ip_in_cidr ip e.ip e.prefix_len ≡ true
      → expired now e ≡ false
      → Covers now ip (e ∷ c)
  later : (e : IpsetEntry) (c : Chain) → Covers now ip c → Covers now ip (e ∷ c)

Covers-of_chain :
    (now : ℕ) (ip : IpAddr) (c : Chain) → chain_contains_cidr now ip c ≡ true → Covers now ip c
unfolding chain_contains_cidr
Covers-of_chain now ip [] h = cc
Covers-of_chain now ip (e ∷ c) h = elim (Bool-cases (expired now e)) [
  | inl old ↦ later e c (Covers-of_chain now ip c (ground arith))
  | inr fresh ↦ elim (Bool-cases (ip_in_cidr ip e.ip e.prefix_len)) [
    | inl inside ↦ first e c inside fresh
    | inr outside ↦ later e c (Covers-of_chain now ip c (ground arith))
  ]
]

chain_of_Covers :
    {now : ℕ} {ip : IpAddr} {c : Chain} → Covers now ip c → chain_contains_cidr now ip c ≡ true
unfolding chain_contains_cidr
chain_of_Covers (first e c inside fresh) = ground arith
chain_of_Covers (later e c l) = ground (arith, chain_of_Covers l)

module _ (set : Ipset) (ip : IpAddr) (now : ℕ) where
  scan_found :
      (left i : ℕ)
      → contains_cidr_from left i set ip now ≡ true
      → (j : ℕ) × Covers now ip (set.buckets j)
  unfolding contains_cidr_from
  scan_found zero i h = cc
  scan_found (suc left) i h = elim (Bool-cases (chain_contains_cidr now ip (set.buckets i))) [
    | inl hit ↦ (i, Covers-of_chain now ip (set.buckets i) hit)
    | inr miss ↦ scan_found left (i + 1) (ground arith)
  ]

  scan_finds :
      (left i j : ℕ)
      → i ≤ j
      → j < i + left
      → chain_contains_cidr now ip (set.buckets j) ≡ true
      → contains_cidr_from left i set ip now ≡ true
  unfolding contains_cidr_from
  scan_finds zero i j lo hi h = absurd (omega arith)
  scan_finds (suc left) i j lo hi h = elim (Bool-cases (i == j)) [
    | inl here ↦ let e : i ≡ j = ground arith in rw (e, h)
    | inr further ↦ ground (arith, scan_finds left (i + 1) j (ground arith) (omega arith) h)
  ]

below :
    {now : ℕ} {ip : IpAddr} {set : Ipset} (j : ℕ)
    → IsValid set
    → Covers now ip (set.buckets j)
    → j < set.bucket_count
below {now} {ip} {set} j v l = elim (Bool-cases (ltb j set.bucket_count)) [
  | inl low ↦ ground arith
  | inr high ↦
      let empty = AllInPlace-nil_of_ge set v j (rw (sym v.width) (ground arith)) in
      absurd (none_there (rw empty at l))
]
  where
    none_there : Covers now ip [] → ⊥
    none_there l = elim l [ ]

-- The scan answers for the whole set: an address is covered exactly when some bucket has an
-- entry that has not expired and whose range it lies in.
pub contains_cidr_iff :
    {set : Ipset} (ip : IpAddr) (now : ℕ)
    → IsValid set
    → (contains_cidr (some set) (some ip) now ≡ true) ↔ ((j : ℕ) × Covers now ip (set.buckets j))
unfolding contains_cidr
contains_cidr_iff {set} ip now v = (
  λ h. scan_found set ip now set.bucket_count 0 h,
  λ (j, l).
      scan_finds set ip now set.bucket_count 0 j (omega arith) (omega (arith, below j v l))
        (chain_of_Covers l),
)

-- After a range was stored, every address in it is covered, at any time.
pub contains_cidr-insert_range :
    {set : Ipset} (network : IpAddr) (prefix_len : ℕ) (granted : Bool) (ip : IpAddr) (now : ℕ)
    → IsValid set
    → (insert_range set network prefix_len granted).0 ≡ success
    → ip_in_cidr ip network (u8 prefix_len) ≡ true
    → contains_cidr (some (insert_range set network prefix_len granted).1) (some ip) now ≡ true
unfolding contains_cidr insert_range
contains_cidr-insert_range {set} network prefix_len granted ip now v e inside =
    elim (Bool-cases (leb set.max_size set.entry_count)) [
      | inl full ↦ cc (rw (full, insert_range) at e)
      | inr room ↦ elim (Bool-cases granted) [
        | inl given ↦
            rw (room, given, insert_range, push)
              (scan_finds _ ip now set.bucket_count 0 (ipset_hash network) (omega arith)
                (omega (arith, v.width, ipset_hash-lt network))
                (rw (==_refl (ipset_hash network)) (unfold chain_contains_cidr in ground arith)))
        | inr denied ↦ cc (rw (room, denied, insert_range) at e)
      ]
    ]
