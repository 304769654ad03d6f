-- ===== src/Lru/Valid/Outcomes.antt =====
-- `lru_cache_get` of src/storage/lru_cache.c on every valid cache, and a sequence of its calls on a
-- new one.
use anti.Base.{
  ℕ, ◌<◌, ◌≡◌, refl, ◌∙◌, Bool, true, false, Option, none, some, List, [], ◌∷◌, ◌++◌, Bool-cases,
  inl, inr, arith, leb, length,
}
use anti.Conn.{ConnTuple}
use anti.Conn.Laws.{IsConnTuple}
use anti.Conn.Heap.{ConnEntry, zeroed, Heap, Outcome, done, wild, calloc}
use anti.Conn.Reason.{Returns}
use anti.Conn.Table.{hashtable_lookup}
use anti.Conn.Table.Walks.{lookup_found}
use anti.Lru.{opened, LruCache, lru_cache_get}
use anti.Lru.Distinct.{IsIn, IsIn-split}
use anti.Lru.DoubleFree.{lru_cache_get_wild}
use anti.Lru.Links.{last_or}
use anti.Lru.Valid.{IsValid}
use anti.Lru.Valid.Hit.{IsFront, lru_cache_get_hit}
use anti.Lru.Valid.Get.{lru_cache_get_miss}

last-IsIn : (p : ℕ) (ps : List ℕ) → (q : ℕ) × (last_or (some p) ps ≡ some q) × IsIn q (p ∷ ps)
last-IsIn p [] = (p, refl, inl refl)
last-IsIn p (r ∷ ps) = let (q, e, there) = last-IsIn r ps in (q, e, inr there)

last_of :
    (order : List ℕ) → 0 < length order → (q : ℕ) × (last_or none order ≡ some q) × IsIn q order
last_of [] h = absurd (omega (arith, h))
last_of (p ∷ ps) h = last-IsIn p ps

-- How a call of `lru_cache_get` ends: the entry was there, is new, could not be allocated, or the
-- cache is full.
pub data Got (cache : LruCache) (h : Heap) (order : List ℕ) (key : ConnTuple) (now : ℕ)
    (granted : Bool) (result : Outcome (Option ℕ × LruCache)) : Type 0 where
  hit :
      (ps : List ℕ) (p : ℕ) (qs : List ℕ) (e : ConnEntry)
      → order ≡ ps ++ p ∷ qs
      → hashtable_lookup cache.table key h ≡ done (some p) h
      → h.cell p ≡ some e
      → Returns (λ r k. (r.0 ≡ some p) × IsFront cache key now p (ps ++ qs) e r.1 k) result
      → Got cache h order key now granted result
  admitted :
      hashtable_lookup cache.table key h ≡ done none h
      → granted ≡ true
      → cache.current_size < cache.max_size
      → Returns
          (λ r k.
            (r.0 ≡ some h.fresh)
            × IsFront cache key now h.fresh order (opened key now zeroed) r.1 k)
          result
      → Got cache h order key now granted result
  denied :
      hashtable_lookup cache.table key h ≡ done none h
      → granted ≡ false
      → result ≡ done (none, cache) h
      → Got cache h order key now granted result
  full :
      hashtable_lookup cache.table key h ≡ done none h
      → granted ≡ true
      → cache.current_size ≡ cache.max_size
      → result ≡ wild
      → Got cache h order key now granted result

module _ {cache : LruCache} {h : Heap} {order : List ℕ} (key : ConnTuple) (now : ℕ)
    (v : IsValid cache h order) (t : IsConnTuple key) where
  get_full :
      hashtable_lookup cache.table key h ≡ done none h
      → leb cache.max_size cache.current_size ≡ true
      → lru_cache_get cache key now true h ≡ wild
  get_full missing no_room =
      let (p, last, there) = last_of order (ground (arith, v.counted, v.nonzero, no_room)) in
      lru_cache_get_wild cache key now p h missing no_room (v.beyond h.fresh (omega arith))
        (v.in_order.tail ∙ last) (v.listed p there)

  get_denied :
      hashtable_lookup cache.table key h ≡ done none h
      → lru_cache_get cache key now false h ≡ done (none, cache) h
  unfolding lru_cache_get calloc
  get_denied missing = rw (missing, lru_cache_get) refl

  get_missing :
      (granted : Bool)
      → hashtable_lookup cache.table key h ≡ done none h
      → Got cache h order key now granted (lru_cache_get cache key now granted h)
  get_missing false missing = denied missing refl (get_denied missing)
  get_missing true missing = elim (Bool-cases (leb cache.max_size cache.current_size)) [
    | inl no_room ↦
        full missing refl (ground (arith, v.bounded, no_room)) (get_full missing no_room)
    | inr room ↦
        let free : cache.current_size < cache.max_size = ground (arith, room) in
        admitted missing refl free (lru_cache_get_miss key now v t missing free)
  ]

  get_hit :
      (granted : Bool) (p : ℕ)
      → IsIn p order
      → hashtable_lookup cache.table key h ≡ done (some p) h
      → Got cache h order key now granted (lru_cache_get cache key now granted h)
  get_hit granted p there found =
      let (ps, qs, e) = IsIn-split p order there in
      let (d, here, same) = lookup_found h cache.table key p found in
      hit ps p qs d e found here
        (lru_cache_get_hit cache h key now granted ps p qs d (rw⁻¹ e v) t found here)

-- On a valid cache and any key with well-formed addresses, `lru_cache_get` moves the entry of the
-- key to the front, the others in their order, stores the time and keeps the cache valid; or puts a
-- new entry at the front, where there is none and the cache has room; or returns NULL and changes
-- nothing, where the allocation fails; or goes wild, where there is none and the cache is full.
pub lru_cache_get_lem :
    (cache : LruCache) (h : Heap) (order : List ℕ) (key : ConnTuple) (now : ℕ) (granted : Bool)
    → IsValid cache h order
    → IsConnTuple key
    → Got cache h order key now granted (lru_cache_get cache key now granted h)
lru_cache_get_lem cache h order key now granted v t = elim (v.answers key t) [
  | inl missing ↦ get_missing key now v t granted missing
  | inr (p, there, found) ↦ get_hit key now v t granted p there found
]
