-- ===== src/Ipset/Lookup.antt =====
-- What `ipset_contains` and `ipset_contains_cidr` see, before and after each operation.
use anti.Base.{
  ℕ, zero, suc, ◌+◌, ◌≤◌, ◌≡◌, ◌↔◌, refl, sym, ap, ◌∙◌, Bool, true, false, ◌&&◌, [], ◌∷◌, some,
  arith, Bool-cases, inl, inr, leb, success, ◌⊎◌, ◌==◌, ==_refl, Option-cases, OnSome, OnSome-map,
  OnSome-elim,
}
use anti.Addr.{IpAddr, IsIpAddr, same_ip}
use anti.Addr.Laws.{same_ip_self, same_ip_iff}
use anti.Ipset.{
  IpsetEntry, Chain, Ipset, expired, chain_contains, contains, chain_contains_cidr,
  contains_cidr_from, contains_cidr, ipset_hash, insert, purge, refresh, push,
}
use anti.Ipset.Cleanup.{live}
use anti.Ipset.Valid.{IsValid, AllInPlace}
use anti.Ipset.Invariant.{purge-buckets, purge_lem}

-- What has expired stays expired.
expired_mono :
    (now later : ℕ) (e : IpsetEntry) → now ≤ later → expired now e ≡ true → expired later e ≡ true
expired_mono now later e h old = ground arith

chain_contains-live :
    (now later : ℕ) (ip : IpAddr) (c : Chain)
    → now ≤ later
    → chain_contains later ip (live now c) ≡ chain_contains later ip c
unfolding chain_contains live
chain_contains-live now later ip [] h = refl
chain_contains-live now later ip (e ∷ c) h =
    ground (arith, expired_mono now later e, chain_contains-live now later ip c h)

chain_contains_cidr-live :
    (now later : ℕ) (ip : IpAddr) (c : Chain)
    → now ≤ later
    → chain_contains_cidr later ip (live now c) ≡ chain_contains_cidr later ip c
unfolding chain_contains_cidr live
chain_contains_cidr-live now later ip [] h = refl
chain_contains_cidr-live now later ip (e ∷ c) h =
    ground (arith, expired_mono now later e, chain_contains_cidr-live now later ip c h)

contains_cidr_from_ext :
    (left i : ℕ) (set after : Ipset) (ip : IpAddr) (now : ℕ)
    → ((j : ℕ)
        → chain_contains_cidr now ip (after.buckets j) ≡ chain_contains_cidr now ip (set.buckets j))
    → contains_cidr_from left i after ip now ≡ contains_cidr_from left i set ip now
unfolding contains_cidr_from
contains_cidr_from_ext zero i set after ip now h = refl
contains_cidr_from_ext (suc left) i set after ip now h =
    ground (arith, h i, contains_cidr_from_ext left (i + 1) set after ip now h)

-- A cleanup at `now` changes no answer that the set gives from then on, by address or by range.
pub purge_answers :
    {set : Ipset} (now later : ℕ) (ip : IpAddr)
    → IsValid set
    → now ≤ later
    → (contains (some (purge now set).0) (some ip) later ≡ contains (some set) (some ip) later)
      × (contains_cidr (some (purge now set).0) (some ip) later
          ≡ contains_cidr (some set) (some ip) later)
unfolding contains contains_cidr
purge_answers {set} now later ip v h = (
  ap (λ c. chain_contains later ip c) (purge-buckets v now (ipset_hash ip))
      ∙ chain_contains-live now later ip (set.buckets (ipset_hash ip)) h,
  rw (purge_lem v now).same_width (
      contains_cidr_from_ext set.bucket_count 0 set (purge now set).0 ip later (λ j.
        ap (λ c. chain_contains_cidr later ip c) (purge-buckets v now j)
        ∙ chain_contains_cidr-live now later ip (set.buckets j) h)),
)

-- An entry for exactly this address that has not expired at `now`.
pub data Listed (now : ℕ) (ip : IpAddr) : Chain → Type 0 where
  first : (e : IpsetEntry) (c : Chain) → e.ip ≡ ip → expired now e ≡ false → Listed now ip (e ∷ c)
  later : (e : IpsetEntry) (c : Chain) → Listed now ip c → Listed now ip (e ∷ c)

Listed-of_contains :
    (now : ℕ) (ip : IpAddr) (i : ℕ) (c : Chain)
    → IsIpAddr ip
    → AllInPlace i c
    → chain_contains now ip c ≡ true
    → Listed now ip c
unfolding chain_contains
Listed-of_contains now ip i [] a p h = cc
Listed-of_contains now ip i (e ∷ c) a p h = elim (Bool-cases (expired now e)) [
  | inl old ↦ later e c (Listed-of_contains now ip i c a p.1 (ground arith))
  | inr fresh ↦ elim (Bool-cases (same_ip e.ip ip)) [
    | inl same ↦ first e c ((same_ip_iff e.ip ip p.0.address a).0 same) fresh
    | inr other ↦ later e c (Listed-of_contains now ip i c a p.1 (ground arith))
  ]
]

contains_of_Listed :
    {now : ℕ} {ip : IpAddr} {c : Chain} → Listed now ip c → chain_contains now ip c ≡ true
unfolding chain_contains
contains_of_Listed {ip = ip} (first e c same fresh) =
    let hit : same_ip e.ip ip ≡ true = rw same (same_ip_self ip) in ground arith
contains_of_Listed (later e c l) = ground (arith, contains_of_Listed l)

Listed-hash :
    {now i : ℕ} {ip : IpAddr} {c : Chain} → Listed now ip c → AllInPlace i c → ipset_hash ip ≡ i
Listed-hash (first e c same fresh) p = ap ipset_hash (sym same) ∙ p.0.hashed
Listed-hash (later e c l) p = Listed-hash l p.1

-- The one bucket that is searched decides the question for the whole set: an address is found
-- exactly when some bucket has an entry for it that has not expired.
pub contains_iff :
    {set : Ipset} (ip : IpAddr) (now : ℕ)
    → IsValid set
    → IsIpAddr ip
    → (contains (some set) (some ip) now ≡ true) ↔ ((i : ℕ) × Listed now ip (set.buckets i))
unfolding contains
contains_iff {set} ip now v a =
    let k = ipset_hash ip in
    (
      λ h. (k, Listed-of_contains now ip k (set.buckets k) a (v.placed k) h),
      λ (i, l). rw (Listed-hash l (v.placed i)) (contains_of_Listed l),
    )

refresh-contains :
    (ip : IpAddr) (expires now : ℕ) (c : Chain)
    → (expires ≡ 0) ⊎ (now ≤ expires)
    → OnSome (λ r. chain_contains now ip r ≡ true) (refresh ip expires c)
unfolding refresh chain_contains
refresh-contains ip expires now [] h = tt
refresh-contains ip expires now (x ∷ c) h =
    elim (Bool-cases (same_ip x.ip ip && x.prefix_len == 32)) [
      | inl found ↦ rw (found, refresh) (ground arith)
      | inr other ↦
          rw (other, refresh)
            (OnSome-map (λ r. chain_contains now ip r ≡ true) (λ r. chain_contains now ip r ≡ true)
              (λ rest. x ∷ rest) (refresh ip expires c) (λ r hit. ground arith)
              (refresh-contains ip expires now c h))
    ]

-- After an insertion that succeeded, the address is found until it expires.
pub contains-insert :
    (set : Ipset) (ip : IpAddr) (expires now : ℕ) (granted : Bool)
    → (insert set ip expires granted).0 ≡ success
    → (expires ≡ 0) ⊎ (now ≤ expires)
    → contains (some (insert set ip expires granted).1) (some ip) now ≡ true
unfolding contains insert
contains-insert set ip expires now granted e h =
    let k = ipset_hash ip in
    elim (Bool-cases (leb set.max_size set.entry_count)) [
      | inl full ↦ cc (rw (full, insert) at e)
      | inr room ↦ elim (Option-cases (refresh ip expires (set.buckets k))) [
        | inl new ↦ elim (Bool-cases granted) [
          | inl given ↦
              rw (room, new, given, insert, push, ==_refl k)
                (unfold chain_contains in ground (arith, same_ip_self ip))
          | inr denied ↦ cc (rw (room, new, denied, insert) at e)
        ]
        | inr (c, old) ↦
            rw (room, old, insert, ==_refl k)
              (OnSome-elim (λ r. chain_contains now ip r ≡ true)
                (refresh ip expires (set.buckets k)) old
                (refresh-contains ip expires now (set.buckets k) h))
      ]
    ]
