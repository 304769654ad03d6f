-- ===== src/Lru/Valid/Sequence.antt =====
-- Calls of `lru_cache_get` of src/storage/lru_cache.c in sequence, from `lru_cache_create` on.
use anti.Base.{
  ℕ, suc, ◌+◌, ◌≤◌, ◌<◌, ◌^◌, ◌≡◌, refl, ap, ◌∙◌, ◌==◌, true, false, none, some, List, [], ◌∷◌, inl,
  arith, length,
}
use anti.Conn.{ConnTuple}
use anti.Conn.Laws.{IsConnTuple}
use anti.Conn.Heap.{ConnEntry, Heap, done, M, after}
use anti.Conn.Reason.{Returns, Returns-after}
use anti.Conn.Table.{hashtable_lookup, search_bucket, walk, hashtable_create}
use anti.Lru.{LruCache, lru_cache_create, lru_cache_get}
use anti.Lru.Distinct.{length-middle}
use anti.Lru.Links.{Returns-weaken}
use anti.Lru.Valid.{IsValid}
use anti.Lru.Valid.Hit.{IsFront}
use anti.Lru.Valid.Outcomes.{hit, admitted, denied, full, lru_cache_get_lem}

-- Calls with keys and times, all with memory.
unfoldable pub get_all : List (ConnTuple × ℕ) → LruCache → M LruCache
get_all [] cache h = done cache h
get_all ((key, now) ∷ rest) cache h =
    after (lru_cache_get cache key now true h) (λ r k. get_all rest r.1 k)

abbrev pub AllKeys : List (ConnTuple × ℕ) → Type 0
AllKeys [] = Unit
AllKeys ((key, now) ∷ rest) = IsConnTuple key × AllKeys rest

-- The cache is valid, and at most so many entries larger.
pub record IsGrown (cache : LruCache) (n : ℕ) (c : LruCache) (k : Heap) : Type 0 where
  pub order : List ℕ
  pub valid : IsValid c k order
  pub size : c.current_size ≤ cache.current_size + n
  pub capacity : c.max_size ≡ cache.max_size

IsGrown-once :
    {cache c : LruCache} {h k : Heap} {key : ConnTuple} {now p : ℕ} {order others : List ℕ}
    {e : ConnEntry}
    → IsValid cache h order
    → length (p ∷ others) ≤ suc (length order)
    → IsFront cache key now p others e c k
    → IsGrown cache 1 c k
IsGrown-once {p = p} {others = others} v le f = record {
  order = p ∷ others;
  valid = f.valid;
  size = omega (arith, le, v.counted, f.valid.counted);
  capacity = f.capacity;
}

get_once :
    (cache : LruCache) (h : Heap) (order : List ℕ) (key : ConnTuple) (now : ℕ)
    → IsValid cache h order
    → IsConnTuple key
    → cache.current_size < cache.max_size
    → Returns (λ r k. IsGrown cache 1 r.1 k) (lru_cache_get cache key now true h)
get_once cache h order key now v t room = elim (lru_cache_get_lem cache h order key now true v t) [
  | hit ps p qs d e found here r ↦
      Returns-weaken _ (λ x k. IsGrown cache 1 x.1 k) _
        (λ x k f. IsGrown-once v (omega (arith, length-middle p ps qs, ap length e)) f.1) r
  | admitted missing granted free r ↦
      Returns-weaken _ (λ x k. IsGrown cache 1 x.1 k) _ (λ x k f. IsGrown-once v (omega arith) f.1)
        r
  | denied missing refused e ↦ absurd (cc refused)
  | full missing granted at_limit e ↦ absurd (omega (arith, at_limit, room))
]

get_all_valid :
    (keys : List (ConnTuple × ℕ)) (cache : LruCache) (h : Heap) (order : List ℕ)
    → IsValid cache h order
    → AllKeys keys
    → cache.current_size + length keys ≤ cache.max_size
    → Returns (λ c k. IsGrown cache (length keys) c k) (get_all keys cache h)
unfolding get_all
get_all_valid [] cache h order v t room = record {
  order = order;
  valid = v;
  size = omega arith;
  capacity = refl;
}
get_all_valid ((key, now) ∷ rest) cache h order v t room =
    Returns-after (λ r k. IsGrown cache 1 r.1 k) _ (lru_cache_get cache key now true h) _
      (get_once cache h order key now v t.0 (omega (arith, room)))
      λ r k g.
        Returns-weaken _ (λ c l. IsGrown cache (suc (length rest)) c l) _
          (λ c l x. record {
            order = x.order;
            valid = x.valid;
            size = omega (arith, x.size, g.size);
            capacity = x.capacity ∙ g.capacity;
          })
          (get_all_valid rest r.1 k g.order g.valid t.1 (omega (arith, room, g.size, g.capacity)))

-- The cache that `lru_cache_create` returns.
abbrev pub created : ℕ → LruCache
created n = record {
  table = record { heads = λ i. none; size = n; entries = 0 };
  head = none;
  tail = none;
  max_size = n;
  current_size = 0;
}

abbrev pub no_entries : Heap
no_entries = record { cell = λ p. none; fresh = 0 }

created_finds :
    (n : ℕ) (key : ConnTuple)
    → 0 < n
    → hashtable_lookup (created n).table key no_entries ≡ done none no_entries
unfolding hashtable_lookup search_bucket walk
created_finds n key pos =
    let sized : (n == 0) ≡ false = ground arith in
    rw (sized, hashtable_lookup, search_bucket, walk) refl

pub created-IsValid : (n : ℕ) → 0 < n → n < 2 ^ 32 → IsValid (created n) no_entries []
created-IsValid n some_room fits = record {
  in_order = record { head = refl; tail = refl; links = tt; distinct = tt };
  answers = λ key t. inl (created_finds n key some_room);
  listed = λ p there. absurd there;
  tuples = λ p e here. absurd (cc here);
  beyond = λ p above. refl;
  counted = refl;
  bounded = omega arith;
  nonzero = some_room;
  wide = fits;
}

-- From a new cache of any size above 0 and below 2^32, every sequence of at most that many calls of
-- `lru_cache_get`, with well-formed addresses and with memory for each, returns, and leaves a valid
-- cache of at most as many entries as calls.
pub get_all-lru_cache_create :
    (n : ℕ) (keys : List (ConnTuple × ℕ)) (cache : LruCache)
    → 0 < n
    → n < 2 ^ 32
    → AllKeys keys
    → length keys ≤ n
    → lru_cache_create n true true true ≡ some cache
    → Returns
        (λ c k. (order : List ℕ) × IsValid c k order × (c.current_size ≤ length keys))
        (get_all keys cache no_entries)
unfolding lru_cache_create hashtable_create
get_all-lru_cache_create n keys cache some_room fits t few made =
    let same : created n ≡ cache = cc made in
    rw⁻¹ same (
      Returns-weaken (λ c k. IsGrown (created n) (length keys) c k) _
        (get_all keys (created n) no_entries) (λ c k g. (g.order, g.valid, omega (arith, g.size)))
        (get_all_valid keys (created n) no_entries [] (created-IsValid n some_room fits) t
          (omega (arith, few))))
