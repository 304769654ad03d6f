-- ===== src/Ipset/Valid.antt =====
-- The invariant of a set, and the chain operations that keep its parts.
pub mod Total
use anti.Base.{
  ℕ, zero, suc, ◌+◌, ◌-◌, ◌^◌, ◌≤◌, ◌<◌, ◌≡◌, refl, sym, ap, ◌∙◌, Bool, true, false, List, [], ◌∷◌,
  length, Option, none, some, ◌==◌, if◌then◌else◌, update, arith, Bool-cases, Option-cases, inl,
  inr, ◌&&◌, OnSome, OnSome-map, OnSome-elim, ==_iff, ltb, leb, u8, u32, sub32,
}
use mathlib.Core.Option
use anti.Addr.{IpAddr, inet, inet6, IsIpAddr, same_ip}
use anti.Ipset.{
  IpsetEntry, Chain, Ipset, ipset_buckets, ipset_hash, create, refresh, unlink, push, insert,
  delete, insert_range, host_prefix,
}
use Total.{total, total-update, total-empty}

-- An entry of bucket `i`: hashed there, with a prefix that its family allows.
pub record InPlace (i : ℕ) (e : IpsetEntry) : Type 0 where
  pub hashed : ipset_hash e.ip ≡ i
  pub address : IsIpAddr e.ip
  pub prefix : e.prefix_len ≤ host_prefix e.ip

abbrev pub AllInPlace : ℕ → Chain → Type 0
AllInPlace i [] = Unit
AllInPlace i (e ∷ c) = InPlace i e × AllInPlace i c

pub record IsValid (set : Ipset) : Type 0 where
  pub width : set.bucket_count ≡ ipset_buckets
  pub counted : set.entry_count ≡ total set.bucket_count set.buckets
  pub bounded : set.entry_count ≤ set.max_size
  pub fits : set.max_size < 2 ^ 32
  pub placed : (i : ℕ) → AllInPlace i (set.buckets i)

pub ipset_hash-lt : (ip : IpAddr) → ipset_hash ip < ipset_buckets
unfolding ipset_hash
ipset_hash-lt ip = omega arith

pub AllInPlace-update :
    (f : ℕ → Chain) (k : ℕ) (c : Chain)
    → ((i : ℕ) → AllInPlace i (f i))
    → AllInPlace k c
    → (i : ℕ) → AllInPlace i (update f k c i)
AllInPlace-update f k c h here i = elim (Bool-cases (i == k)) [
  | inl e ↦ rw (e, (==_iff i k).0 e) here
  | inr e ↦ rw e (h i)
]

abbrev pub Resized : ℕ → ℕ → Chain → Type 0
Resized i n c = (length c ≡ n) × AllInPlace i c

-- `refresh` changes no entry but its expiry.
pub refresh_lem :
    (i : ℕ) (ip : IpAddr) (expires : ℕ) (c : Chain)
    → AllInPlace i c
    → OnSome (Resized i (length c)) (refresh ip expires c)
unfolding refresh
refresh_lem i ip expires [] p = tt
refresh_lem i ip expires (x ∷ c) p = elim (Bool-cases (same_ip x.ip ip && x.prefix_len == 32)) [
  | inl found ↦
      rw (found, refresh)
        (refl, (record { hashed = p.0.hashed; address = p.0.address; prefix = p.0.prefix }, p.1))
  | inr other ↦
      rw (other, refresh)
        (OnSome-map (Resized i (length c)) (Resized i (suc (length c))) (λ rest. x ∷ rest)
          (refresh ip expires c) (λ r h. (ap suc h.0, (p.0, h.1))) (refresh_lem i ip expires c p.1))
]

-- `unlink` drops one entry.
pub unlink_lem :
    (i : ℕ) (ip : IpAddr) (c : Chain)
    → AllInPlace i c
    → OnSome (λ r. (suc (length r) ≡ length c) × AllInPlace i r) (unlink ip c)
unfolding unlink
unlink_lem i ip [] p = tt
unlink_lem i ip (x ∷ c) p = elim (Bool-cases (same_ip x.ip ip)) [
  | inl found ↦ rw (found, unlink) (refl, p.1)
  | inr other ↦
      rw (other, unlink)
        (OnSome-map (λ r. (suc (length r) ≡ length c) × AllInPlace i r)
          (λ r. (suc (length r) ≡ suc (length c)) × AllInPlace i r) (λ rest. x ∷ rest) (unlink ip c)
          (λ r h. (ap suc h.0, (p.0, h.1))) (unlink_lem i ip c p.1))
]

module _ {set : Ipset} (v : IsValid set) where
  -- Replacing the chain of a bucket, with the count that goes with it.
  pub replace-IsValid :
      (k : ℕ) (c : Chain) (n : ℕ)
      → k < ipset_buckets
      → AllInPlace k c
      → n + length (set.buckets k) ≡ set.entry_count + length c
      → n ≤ set.max_size
      → IsValid (record set { buckets = update set.buckets k c; entry_count = n })
  replace-IsValid k c n lt here sum bound = record {
    width = v.width;
    counted =
        omega (arith, total-update set.bucket_count set.buckets k c (rw v.width lt), v.counted);
    bounded = bound;
    fits = v.fits;
    placed = AllInPlace-update set.buckets k c v.placed here;
  }

  pub push-IsValid :
      (e : IpsetEntry)
      → set.entry_count < set.max_size
      → IsIpAddr e.ip
      → e.prefix_len ≤ host_prefix e.ip
      → IsValid (push set e)
  unfolding push
  push-IsValid e room address prefix =
      replace-IsValid (ipset_hash e.ip) (e ∷ set.buckets (ipset_hash e.ip))
        (u32 (set.entry_count + 1)) (ipset_hash-lt e.ip)
        (record { hashed = refl; address = address; prefix = prefix }, v.placed (ipset_hash e.ip))
        (omega (arith, v.fits)) (omega (arith, v.fits))
