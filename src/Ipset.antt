-- ===== src/Ipset.antt =====
-- src/storage/ipset.c: the set behind the white and the black list. A bucket is the list of its
-- entries, the bucket array a function of the index. Each operation that can allocate takes
-- `granted`, the success of its `calloc`. Times are seconds since the epoch and not negative.
pub mod Cidr
pub mod Text
pub mod Files
pub mod Valid
pub mod Cleanup
pub mod Invariant
pub mod Lookup
pub mod Removal
pub mod Ranges
use anti.Base.{
  ℕ, zero, suc, ◌+◌, ◌%◌, Bool, true, false, ◌&&◌, List, [], ◌∷◌, ◌++◌, Option, none, some, ltb,
  leb, ◌==◌, if◌then◌else◌, update, ℤ, pos, success, failure, u8, u32, sub32,
}
use mathlib.Core.Option
use anti.Addr.{IpAddr, inet, inet6, same_ip, ip_word}
use Cidr.{ip_in_cidr}

pub record IpsetEntry : Type 0 where
  pub ip : IpAddr
  pub prefix_len : ℕ
  pub expires : ℕ

abbrev pub Chain : Type 0
Chain = List IpsetEntry

pub record Ipset : Type 0 where
  pub buckets : ℕ → Chain
  pub bucket_count : ℕ
  pub entry_count : ℕ
  pub max_size : ℕ

abbrev pub ipset_buckets : ℕ
ipset_buckets = 4096

-- Two allocations: the set, then its buckets.
unfoldable pub create : ℕ → Bool → Bool → Option Ipset
create max_size granted buckets_granted =
    if granted && buckets_granted
    then some (record {
      buckets = λ i. [];
      bucket_count = ipset_buckets;
      entry_count = 0;
      max_size = max_size;
    })
    else none

unfoldable pub ipset_hash : IpAddr → ℕ
ipset_hash ip = u32 (ip_word ip) % ipset_buckets

-- The loop of `ipset_add_expiring`: the chain with the expiry of the entry that it found.
unfoldable pub refresh : IpAddr → ℕ → Chain → Option Chain
refresh ip expires [] = none
refresh ip expires (e ∷ c) =
    if same_ip e.ip ip && e.prefix_len == 32
    then some (record e { expires = expires } ∷ c)
    else Option.map (λ rest. e ∷ rest) (refresh ip expires c)

abbrev pub host_prefix : IpAddr → ℕ
host_prefix (inet a) = 32
host_prefix (inet6 bs) = 128

-- "Insert at head", and count.
unfoldable pub push : Ipset → IpsetEntry → Ipset
push set e =
    let hash = ipset_hash e.ip in
    record set {
      buckets = update set.buckets hash (e ∷ set.buckets hash);
      entry_count = u32 (set.entry_count + 1);
    }

-- `ipset_add_expiring` under the lock.
unfoldable pub insert : Ipset → IpAddr → ℕ → Bool → ℤ × Ipset
unfolding push refresh
insert set ip expires granted =
    let hash = ipset_hash ip in
    let fresh : IpsetEntry = record { ip = ip; prefix_len = host_prefix ip; expires = expires } in
    if leb set.max_size set.entry_count
    then (failure, set)
    else (elim (refresh ip expires (set.buckets hash)) [
      | some c ↦ (success, record set { buckets = update set.buckets hash c })
      | none ↦ if granted then (success, push set fresh) else (failure, set)
    ])

-- `ipset_add_cidr` under the lock, with the network and the prefix that its text gave.
unfoldable pub insert_range : Ipset → IpAddr → ℕ → Bool → ℤ × Ipset
unfolding push
insert_range set network prefix_len granted =
    let fresh : IpsetEntry = record { ip = network; prefix_len = u8 prefix_len; expires = 0 } in
    if leb set.max_size set.entry_count
    then (failure, set)
    else if granted
    then (success, push set fresh)
    else (failure, set)

-- The pointers may be NULL.
unfoldable pub add_expiring : Option Ipset → Option IpAddr → ℕ → Bool → ℤ × Option Ipset
add_expiring (some set) (some ip) expires granted =
    let (ret, after) = insert set ip expires granted in (ret, some after)
add_expiring set ip expires granted = (failure, set)

unfoldable pub add : Option Ipset → Option IpAddr → Bool → ℤ × Option Ipset
unfolding add_expiring
add set ip granted = add_expiring set ip 0 granted

-- The loop of `ipset_remove`: the chain without the first entry of the address.
unfoldable pub unlink : IpAddr → Chain → Option Chain
unlink ip [] = none
unlink ip (e ∷ c) = if same_ip e.ip ip then some c else Option.map (λ rest. e ∷ rest) (unlink ip c)

-- `ipset_remove` under the lock.
unfoldable pub delete : Ipset → IpAddr → ℤ × Ipset
unfolding unlink
delete set ip =
    let hash = ipset_hash ip in
    elim (unlink ip (set.buckets hash)) [
      | some c ↦ (
        success,
        record set { buckets = update set.buckets hash c; entry_count = sub32 set.entry_count 1 },
      )
      | none ↦ (failure, set)
    ]

unfoldable pub remove : Option Ipset → Option IpAddr → ℤ × Option Ipset
remove (some set) (some ip) = let (ret, after) = delete set ip in (ret, some after)
remove set ip = (failure, set)

-- `entry->expires > 0 && now > entry->expires`.
abbrev pub expired : ℕ → IpsetEntry → Bool
expired now e = ltb 0 e.expires && ltb e.expires now

unfoldable pub chain_contains : ℕ → IpAddr → Chain → Bool
chain_contains now ip [] = false
chain_contains now ip (e ∷ c) =
    let rest = chain_contains now ip c in
    if expired now e then rest else if same_ip e.ip ip then true else rest

-- `now` is what `time(NULL)` returns.
unfoldable pub contains : Option Ipset → Option IpAddr → ℕ → Bool
unfolding chain_contains
contains (some set) (some ip) now = chain_contains now ip (set.buckets (ipset_hash ip))
contains set ip now = false

unfoldable pub chain_contains_cidr : ℕ → IpAddr → Chain → Bool
chain_contains_cidr now ip [] = false
chain_contains_cidr now ip (e ∷ c) =
    let rest = chain_contains_cidr now ip c in
    if expired now e then rest else if ip_in_cidr ip e.ip e.prefix_len then true else rest

-- The loop over the buckets from `i`, with `left` of them to go.
unfoldable pub contains_cidr_from : ℕ → ℕ → Ipset → IpAddr → ℕ → Bool
unfolding chain_contains_cidr
contains_cidr_from zero i set ip now = false
contains_cidr_from (suc left) i set ip now =
    let rest = contains_cidr_from left (i + 1) set ip now in
    if chain_contains_cidr now ip (set.buckets i) then true else rest

unfoldable pub contains_cidr : Option Ipset → Option IpAddr → ℕ → Bool
unfolding contains_cidr_from
contains_cidr (some set) (some ip) now = contains_cidr_from set.bucket_count 0 set ip now
contains_cidr set ip now = false

unfoldable pub size : Option Ipset → ℕ
size none = 0
size (some set) = set.entry_count

unfoldable pub clear_from : ℕ → ℕ → Ipset → Ipset
clear_from zero i set = set
clear_from (suc left) i set =
    clear_from left (i + 1) (record set { buckets = update set.buckets i [] })

-- `ipset_clear` under the lock.
unfoldable pub wipe : Ipset → Ipset
unfolding clear_from
wipe set = record (clear_from set.bucket_count 0 set) { entry_count = 0 }

unfoldable pub clear : Option Ipset → Option Ipset
clear none = none
clear (some set) = some (wipe set)

-- One bucket of `ipset_cleanup_expired`: the chain, `entry_count` and `cleaned` after it.
unfoldable pub sweep : ℕ → Chain → ℕ → ℕ → Chain × ℕ × ℕ
sweep now [] count cleaned = ([], count, cleaned)
sweep now (e ∷ c) count cleaned = elim (expired now e) [
  | true ↦ sweep now c (sub32 count 1) (cleaned + 1)
  | false ↦ let (rest, n, k) = sweep now c count cleaned in (e ∷ rest, n, k)
]

unfoldable pub sweep_from : ℕ → ℕ → ℕ → Ipset → ℕ → Ipset × ℕ
unfolding sweep
sweep_from now zero i set cleaned = (set, cleaned)
sweep_from now (suc left) i set cleaned =
    let (c, n, k) = sweep now (set.buckets i) set.entry_count cleaned in
    sweep_from now left (i + 1) (record set { buckets = update set.buckets i c; entry_count = n }) k

-- `ipset_cleanup_expired` under the lock: the set, and how many entries went.
unfoldable pub purge : ℕ → Ipset → Ipset × ℕ
purge now set = sweep_from now set.bucket_count 0 set 0

unfoldable pub cleanup_expired : Option Ipset → ℕ → ℤ × Option Ipset
cleanup_expired none now = (failure, none)
cleanup_expired (some set) now = let (after, cleaned) = purge now set in (pos cleaned, some after)

-- The entries that the loop of `ipset_destroy` frees, from bucket `i` on.
unfoldable pub freed_from : ℕ → ℕ → Ipset → Chain
freed_from zero i set = []
freed_from (suc left) i set = set.buckets i ++ freed_from left (i + 1) set

unfoldable pub destroy : Option Ipset → Chain
unfolding freed_from
destroy none = []
destroy (some set) = freed_from set.bucket_count 0 set
