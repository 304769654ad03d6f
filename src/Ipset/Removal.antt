-- ===== src/Ipset/Removal.antt =====
-- `ipset_remove`, the entries of other addresses, and the IPv6 entries that are stored twice.
use anti.Base.{
  ℕ, suc, ◌<◌, ◌≡◌, ◌≢◌, refl, sym, ◌∙◌, Bool, true, false, ◌&&◌, List, [], ◌∷◌, none, some, arith,
  Bool-cases, Option-cases, inl, inr, if◌then◌else◌, leb, success, failure, ◌⊎◌, ◌==◌, ==_refl,
  ==_iff, OnSome, OnSome-map, OnSome-elim, update,
}
use anti.Addr.{IpAddr, inet6, IsIpAddr, same_ip}
use anti.Addr.Laws.{same_ip_self, same_ip_iff}
use anti.Ipset.{
  IpsetEntry, Chain, Ipset, chain_contains, contains, ipset_hash, insert, delete, refresh, unlink,
  push, insert, host_prefix,
}
use anti.Ipset.Valid.{IsValid, AllInPlace}

-- How many entries of a chain are for the address.
unfoldable pub copies : IpAddr → Chain → ℕ
copies ip [] = 0
copies ip (e ∷ c) = if same_ip e.ip ip then suc (copies ip c) else copies ip c

-- How many entries of the set are, in the one bucket where they can stand.
abbrev pub stored : Ipset → IpAddr → ℕ
stored set ip = copies ip (set.buckets (ipset_hash ip))

unlink-copies :
    (ip : IpAddr) (c : Chain) → OnSome (λ r. suc (copies ip r) ≡ copies ip c) (unlink ip c)
unfolding unlink copies
unlink-copies ip [] = tt
unlink-copies ip (x ∷ c) = elim (Bool-cases (same_ip x.ip ip)) [
  | inl found ↦ rw (found, unlink) (ground arith)
  | inr other ↦
      rw (other, unlink)
        (OnSome-map (λ r. suc (copies ip r) ≡ copies ip c) (λ r. suc (copies ip r) ≡ copies ip c)
          (λ rest. x ∷ rest) (unlink ip c) (λ r h. ground arith) (unlink-copies ip c))
]

unlink-none : (ip : IpAddr) (c : Chain) → unlink ip c ≡ none → copies ip c ≡ 0
unfolding unlink copies
unlink-none ip [] e = refl
unlink-none ip (x ∷ c) e = elim (Bool-cases (same_ip x.ip ip)) [
  | inl found ↦ cc (rw (found, unlink) at e)
  | inr other ↦ elim (Option-cases (unlink ip c)) [
    | inl absent ↦ ground (arith, unlink-none ip c absent)
    | inr (r, there) ↦ cc (rw (other, there, unlink) at e)
  ]
]

-- A removal fails exactly when no entry is for the address, and then changes nothing; otherwise
-- it takes one such entry away.
pub delete-stored :
    (set : Ipset) (ip : IpAddr)
    → (((delete set ip).0 ≡ success) × (suc (stored (delete set ip).1 ip) ≡ stored set ip))
      ⊎ (((delete set ip).0 ≡ failure) × ((delete set ip).1 ≡ set) × (stored set ip ≡ 0))
unfolding delete
delete-stored set ip =
    let k = ipset_hash ip in
    elim (Option-cases (unlink ip (set.buckets k))) [
      | inl absent ↦ rw (absent, delete) (inr (refl, refl, unlink-none ip (set.buckets k) absent))
      | inr (c, e) ↦
          rw (e, delete, ==_refl k)
            (inl (
              refl,
              OnSome-elim (λ r. suc (copies ip r) ≡ copies ip (set.buckets k))
                  (unlink ip (set.buckets k)) e (unlink-copies ip (set.buckets k)),
            ))
    ]

module _ {ip other : IpAddr} (a : IsIpAddr ip) (b : IsIpAddr other) (differ : ip ≢ other) where
  apart :
      (i : ℕ) (e : IpsetEntry) → IsIpAddr e.ip → same_ip e.ip ip ≡ true → same_ip e.ip other ≡ false
  apart i e h same = elim (Bool-cases (same_ip e.ip other)) [
    | inl both ↦
        absurd
          (differ (sym ((same_ip_iff e.ip ip h a).0 same) ∙ (same_ip_iff e.ip other h b).0 both))
    | inr no_match ↦ no_match
  ]

  unlink-contains :
      (i now : ℕ) (c : Chain)
      → AllInPlace i c
      → OnSome (λ r. chain_contains now other r ≡ chain_contains now other c) (unlink ip c)
  unfolding unlink chain_contains
  unlink-contains i now [] p = tt
  unlink-contains i now (x ∷ c) p = elim (Bool-cases (same_ip x.ip ip)) [
    | inl found ↦ rw (found, unlink) (ground (arith, apart i x p.0.address found))
    | inr kept ↦
        rw (kept, unlink)
          (OnSome-map (λ r. chain_contains now other r ≡ chain_contains now other c)
            (λ r. chain_contains now other r ≡ chain_contains now other (x ∷ c)) (λ rest. x ∷ rest)
            (unlink ip c) (λ r h. ground arith) (unlink-contains i now c p.1))
  ]

  refresh-contains_other :
      (i expires now : ℕ) (c : Chain)
      → AllInPlace i c
      → OnSome (λ r. chain_contains now other r ≡ chain_contains now other c) (refresh ip expires c)
  unfolding refresh chain_contains
  refresh-contains_other i expires now [] p = tt
  refresh-contains_other i expires now (x ∷ c) p =
      elim (Bool-cases (same_ip x.ip ip && x.prefix_len == 32)) [
        | inl found ↦ rw (found, refresh) (ground (arith, apart i x p.0.address))
        | inr kept ↦
            rw (kept, refresh)
              (OnSome-map (λ r. chain_contains now other r ≡ chain_contains now other c)
                (λ r. chain_contains now other r ≡ chain_contains now other (x ∷ c))
                (λ rest. x ∷ rest) (refresh ip expires c) (λ r h. ground arith)
                (refresh-contains_other i expires now c p.1))
      ]

  push-contains_other :
      (now expires prefix_len : ℕ) (c : Chain)
      → chain_contains now other
          (record { ip = ip; prefix_len = prefix_len; expires = expires } ∷ c)
        ≡ chain_contains now other c
  unfolding chain_contains
  push-contains_other now expires prefix_len c = ground (
    arith,
    apart 0 (record { ip = ip; prefix_len = prefix_len; expires = expires }) a (same_ip_self ip),
  )

module _ {set : Ipset} {ip other : IpAddr} (v : IsValid set) (a : IsIpAddr ip) (b : IsIpAddr other)
    (differ : ip ≢ other) (now : ℕ) where
  -- A new chain in the bucket of `ip` that answers for `other` as the old one did.
  bucket_answers :
      (c : Chain)
      → chain_contains now other c ≡ chain_contains now other (set.buckets (ipset_hash ip))
      → chain_contains now other (update set.buckets (ipset_hash ip) c (ipset_hash other))
        ≡ chain_contains now other (set.buckets (ipset_hash other))
  bucket_answers c h = elim (Bool-cases (ipset_hash other == ipset_hash ip)) [
    | inl e ↦ rw (e, (==_iff _ _).0 e) h
    | inr e ↦ rw e
  ]

  -- A removal changes no answer about another address, whether it succeeds or not.
  pub contains-delete_other :
      contains (some (delete set ip).1) (some other) now ≡ contains (some set) (some other) now
  unfolding contains delete
  contains-delete_other =
      let k = ipset_hash ip in
      let old = set.buckets k in
      elim (Option-cases (unlink ip old)) [
        | inl absent ↦ rw (absent, delete)
        | inr (c, e) ↦
            rw (e, delete)
              (bucket_answers c (
                OnSome-elim (λ r. chain_contains now other r ≡ chain_contains now other old)
                  (unlink ip old) e (unlink-contains a b differ k now old (v.placed k))))
      ]

  -- An insertion changes no answer about another address, whether it succeeds or not.
  pub contains-insert_other :
      (expires : ℕ) (granted : Bool)
      → contains (some (insert set ip expires granted).1) (some other) now
        ≡ contains (some set) (some other) now
  unfolding contains insert
  contains-insert_other expires granted =
      let k = ipset_hash ip in
      let old = set.buckets k in
      elim (Bool-cases (leb set.max_size set.entry_count)) [
        | inl full ↦ rw (full, insert)
        | inr room ↦ elim (Option-cases (refresh ip expires old)) [
          | inl new ↦ elim (Bool-cases granted) [
            | inl given ↦
                rw (room, new, given, insert, push)
                  (bucket_answers _
                    (push-contains_other a b differ now expires (host_prefix ip) old))
            | inr denied ↦ rw (room, new, denied, insert)
          ]
          | inr (c, e) ↦
              rw (room, e, insert)
                (bucket_answers c (
                  OnSome-elim (λ r. chain_contains now other r ≡ chain_contains now other old)
                    (refresh ip expires old) e
                    (refresh-contains_other a b differ k expires now old (v.placed k))))
        ]
      ]

-- Every entry for the IPv6 address is a host entry, as `ipset_add` stores it.
abbrev pub AllHost : List ℕ → Chain → Type 0
AllHost bs [] = Unit
AllHost bs (e ∷ c) =
    (same_ip e.ip (inet6 bs) ≡ true → e.prefix_len ≡ host_prefix (inet6 bs)) × AllHost bs c

refresh-inet6 :
    (bs : List ℕ) (expires : ℕ) (c : Chain) → AllHost bs c → refresh (inet6 bs) expires c ≡ none
unfolding refresh
refresh-inet6 bs expires [] h = refl
refresh-inet6 bs expires (x ∷ c) h = ground (arith, refresh-inet6 bs expires c h.1, h.0)

-- The test for an existing entry asks for prefix 32, and an IPv6 entry is stored with 128: where
-- there is room, each insertion of an IPv6 address stores one more entry for it.
pub insert-inet6_again :
    (set : Ipset) (bs : List ℕ) (expires : ℕ)
    → set.entry_count < set.max_size
    → AllHost bs (set.buckets (ipset_hash (inet6 bs)))
    → let after = (insert set (inet6 bs) expires true).1 in
      (stored after (inet6 bs) ≡ suc (stored set (inet6 bs)))
      × AllHost bs (after.buckets (ipset_hash (inet6 bs)))
unfolding insert copies
insert-inet6_again set bs expires room h =
    let k = ipset_hash (inet6 bs) in
    let free : leb set.max_size set.entry_count ≡ false = ground arith in
    rw (free, refresh-inet6 bs expires (set.buckets k) h, insert, push, ==_refl k)
      (ground (arith, same_ip_self (inet6 bs)), ((λ _. refl), h))
