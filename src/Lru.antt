-- ===== src/Lru.antt =====
-- src/storage/lru_cache.c: the connections in the order of their use, over the entries in memory and
-- the table of src/storage/hashtable.c.
pub mod DoubleFree
pub mod Cleanup
pub mod Distinct
pub mod Calm
pub mod Links
pub mod Order
pub mod Valid
use anti.Base.{
  ℕ, zero, suc, ◌+◌, ◌-◌, ◌^◌, Bool, true, false, ◌&&◌, Option, none, some, ltb, leb, ◌==◌,
  if◌then◌else◌, u32, ℤ, pos, negsuc, success, failure,
}
use anti.Packet.{proto_icmp, proto_tcp, proto_udp}
use anti.Conn.{ConnTuple}
use anti.Conn.Heap.{
  TcpState, syn_sent, syn_received, established, fin_wait, close_wait, closed, ConnEntry, Heap,
  Outcome, done, unfinished, M, pure, after, ◌>>=◌, ◌>>◌, load, modify, modify_if, free, calloc,
}
use anti.Conn.Table.{
  HashTable, hashtable_create, hashtable_lookup, hashtable_insert, hashtable_remove,
  hashtable_destroy,
}

pub record LruCache : Type 0 where
  pub table : HashTable
  pub head : Option ℕ
  pub tail : Option ℕ
  pub max_size : ℕ
  pub current_size : ℕ

-- The allocations of the cache, and those of its table.
unfoldable pub lru_cache_create : ℕ → Bool → Bool → Bool → Option LruCache
unfolding hashtable_create
lru_cache_create max_size granted table_granted buckets_granted =
    let table = hashtable_create max_size table_granted buckets_granted in
    if granted
    then (elim table [
      | Option.none ↦ none
      | Option.some t ↦
          some
            (record { table = t; head = none; tail = none; max_size = max_size; current_size = 0 })
    ])
    else none

-- The comparison of a pointer that may be NULL with an entry.
abbrev pub is_at : Option ℕ → ℕ → Bool
is_at none p = false
is_at (some q) p = q == p

abbrev pub set_prev : Option ℕ → ConnEntry → ConnEntry
set_prev p e = record e { lru_prev = p }

abbrev pub set_next : Option ℕ → ConnEntry → ConnEntry
set_next p e = record e { lru_next = p }

abbrev pub or_else : Option ℕ → ℕ → Option ℕ
or_else none p = some p
or_else (some q) p = some q

-- "Insert at head".
unfoldable pub link_head : LruCache → ℕ → M LruCache
unfolding modify modify_if
link_head cache p = do
  modify p (λ e. set_prev none (set_next cache.head e))
  modify_if cache.head (set_prev (some p))
  pure (record cache { head = some p; tail = or_else cache.tail p })

-- The two writes that take an entry out of its neighbours' links.
unfoldable pub bypass : ℕ → M (Unit {0})
unfolding load modify_if
bypass p = do
  e ← load p
  modify_if e.lru_prev (set_next e.lru_next)
  e₁ ← load p
  modify_if e₁.lru_next (set_prev e₁.lru_prev)

unfoldable pub lru_move_to_head : LruCache → ℕ → M LruCache
unfolding bypass load link_head
lru_move_to_head cache p =
    let move : M LruCache = (do
      bypass p
      e ← load p
      link_head (record cache { tail = if is_at cache.tail p then e.lru_prev else cache.tail })
          p) in
    if is_at cache.head p then pure cache else move

-- `(uint32_t)(n - 1)`.
abbrev pub less_one : ℕ → ℕ
less_one n = u32 (n + 2 ^ 32 - 1)

unfoldable pub lru_evict_lru : LruCache → M (Option ℕ × LruCache)
unfolding load modify_if
lru_evict_lru cache = elim cache.tail [
  | Option.none ↦ pure (none, cache)
  | Option.some p ↦ do
    e ← load p
    modify_if e.lru_prev (set_next none)
    e₁ ← load p
    (ret, t) ← hashtable_remove cache.table e₁.tuple
    pure (
      some p,
      record cache {
        table = t;
        tail = e₁.lru_prev;
        head = if is_at cache.head p then none else cache.head;
        current_size = less_one cache.current_size;
      },
    )
]

-- `if (evicted) free(evicted)`, where the cache is full.
unfoldable pub make_room : LruCache → M LruCache
unfolding free
make_room cache =
    let evict : M LruCache = (do
      (evicted, c) ← lru_evict_lru cache
      elim evicted [ Option.none ↦ pure c | Option.some p ↦ do free p; pure c ]) in
    if leb cache.max_size cache.current_size then evict else pure cache

-- "Initialize entry".
abbrev pub opened : ConnTuple → ℕ → ConnEntry → ConnEntry
opened key now e = record e {
  tuple = key;
  first_seen = now;
  last_seen = now;
  packets = 0;
  bytes = 0;
  state = closed;
}

-- A new entry `p`, once it is allocated.
unfoldable pub admit : LruCache → ConnTuple → ℕ → ℕ → M (Option ℕ × LruCache)
unfolding modify link_head
admit cache key now p = do
  modify p (opened key now)
  c ← make_room cache
  t ← hashtable_insert c.table key p
  linked ← link_head (record c { table = t }) p
  pure (some p, record linked { current_size = u32 (linked.current_size + 1) })

-- `granted` is the success of the allocation of a new entry.
unfoldable pub lru_cache_get : LruCache → ConnTuple → ℕ → Bool → M (Option ℕ × LruCache)
unfolding modify calloc
lru_cache_get cache key now granted = do
  entry ← hashtable_lookup cache.table key
  elim entry [
    | Option.some p ↦ do
      c ← lru_move_to_head cache p
      modify p (λ e. record e { last_seen = now })
      pure (some p, c)
    | Option.none ↦ do
      allocated ← calloc granted
      elim allocated [ Option.none ↦ pure (none, cache) | Option.some p ↦ admit cache key now p ]
  ]

unfoldable pub lru_cache_update : LruCache → ℕ → ℕ → M (ℤ × LruCache)
unfolding modify
lru_cache_update cache p now = do
  c ← lru_move_to_head cache p
  modify p (λ e. record e { last_seen = now })
  pure (success, c)

-- "Remove from LRU list", which the removal and the cleanup both do.
unfoldable pub detach : LruCache → ℕ → M LruCache
unfolding load bypass
detach cache p = do
  bypass p
  e ← load p
  pure (record cache {
    head = if is_at cache.head p then e.lru_next else cache.head;
    tail = if is_at cache.tail p then e.lru_prev else cache.tail;
  })

-- "Remove from hash table", the second `free`, and the count.
unfoldable pub discard : LruCache → ConnTuple → ℕ → M LruCache
unfolding free
discard cache key p = do
  (ret, t) ← hashtable_remove cache.table key
  free p
  pure (record cache { table = t; current_size = less_one cache.current_size })

unfoldable pub lru_cache_remove : LruCache → ConnTuple → M (ℤ × LruCache)
lru_cache_remove cache key = do
  entry ← hashtable_lookup cache.table key
  elim entry [
    | Option.none ↦ pure (failure, cache)
    | Option.some p ↦ do c ← detach cache p; r ← discard c key p; pure (success, r)
  ]

unfoldable pub lru_cache_size : Option LruCache → ℕ
lru_cache_size none = 0
lru_cache_size (some cache) = cache.current_size
