-- ===== src/Lru/DoubleFree.antt =====
-- What src/storage/lru_cache.c frees a second time: `hashtable_remove` frees the entry it takes
-- out, and each of its callers frees that entry again.
use anti.Base.{ℕ, suc, ◌≡◌, refl, ap, ◌∙◌, true, none, some, leb}
use anti.Conn.{ConnTuple}
use anti.Conn.Heap.{
  ConnEntry, Heap, done, wild, load, modify, modify_if, after, read, calloc, zeroed,
}
use anti.Conn.Reason.{
  Risks, Risks-after, wild-after, Keeps, Keeps-refl, Keeps-tuple, load-Risks, modify_new-Risks,
  calloc-Keeps, modify_if-Risks,
}
use anti.Conn.Table.{HashTable, hashtable_lookup, hashtable_remove}
use anti.Conn.Table.Removal.{hashtable_remove-Risks, free_gone}
use anti.Conn.Table.Walks.{lookup_fuel}
use anti.Lru.{
  LruCache, set_prev, set_next, bypass, detach, discard, lru_cache_remove, lru_evict_lru, make_room,
  opened, admit, lru_cache_get,
}
use anti.Lru.Cleanup.{cleanup_entry, cleanup_from, lru_cache_cleanup_expired, is_stale}

pub bypass-Risks : {h k : Heap} (p : ℕ) → Keeps h k → Risks (λ _ l. Keeps h l) (bypass p k)
unfolding bypass
bypass-Risks {h = h} {k = k} p kept =
    Risks-after (λ e l. Keeps h l × (l.cell p ≡ some e)) _ (load p k) _ (load-Risks kept p)
      λ e l a.
        Risks-after (λ _ m. Keeps h m) _ (modify_if e.lru_prev (set_next e.lru_next) l) _
          (modify_if-Risks a.0 e.lru_prev (set_next e.lru_next) (λ d. (refl, refl)))
          λ u m b.
            Risks-after (λ e₁ n. Keeps h n × (n.cell p ≡ some e₁)) _ (load p m) _ (load-Risks b p)
              λ e₁ n c. modify_if-Risks c.0 e₁.lru_next (set_prev e₁.lru_prev) λ d. (refl, refl)

detach-Risks :
    {h k : Heap} (cache : LruCache) (p : ℕ)
    → Keeps h k
    → Risks (λ c l. Keeps h l × (c.table ≡ cache.table)) (detach cache p k)
unfolding detach
detach-Risks {h = h} {k = k} cache p kept =
    Risks-after (λ _ l. Keeps h l) _ (bypass p k) _ (bypass-Risks p kept)
      λ u l a.
        Risks-after (λ e m. Keeps h m × (m.cell p ≡ some e)) _ (load p l) _ (load-Risks a p)
          λ e m b. (b.0, refl)

discard_found :
    {h k : Heap} (cache : LruCache) (key : ConnTuple) (p : ℕ)
    → Keeps h k
    → hashtable_lookup cache.table key h ≡ done (some p) h
    → discard cache key p k ≡ wild
unfolding discard
discard_found {h = h} {k = k} cache key p kept found =
    wild-after (λ _ l. l.cell p ≡ none) (hashtable_remove cache.table key k) _
      (hashtable_remove-Risks cache.table key p kept found)
      λ r l gone. rw (free_gone p l gone, after) refl

-- Whatever the state of the cache and of the memory, the removal of a key that the table has frees
-- the entry twice, or has accessed freed memory before.
pub lru_cache_remove_wild :
    (cache : LruCache) (key : ConnTuple) (p : ℕ) (h : Heap)
    → hashtable_lookup cache.table key h ≡ done (some p) h
    → lru_cache_remove cache key h ≡ wild
unfolding lru_cache_remove
lru_cache_remove_wild cache key p h found =
    rw (found, lru_cache_remove)
      (wild-after (λ c l. Keeps h l × (c.table ≡ cache.table)) (detach cache p h) _
        (detach-Risks cache p (Keeps-refl h))
        λ c l a. rw (discard_found c key p a.0 (rw a.1 found)) refl)

-- The cleanup goes wild at the first expired entry, if the table has it under its own key.
pub cleanup_entry_wild :
    {h k : Heap} (now p : ℕ) (e : ConnEntry) (s : LruCache × ℕ)
    → is_stale now e ≡ true
    → Keeps h k
    → h.cell p ≡ some e
    → hashtable_lookup s.0.table e.tuple h ≡ done (some p) h
    → cleanup_entry now p e s k ≡ wild
unfolding cleanup_entry
cleanup_entry_wild {h = h} {k = k} now p e (cache, cleaned) stale kept here found =
    rw (stale, cleanup_entry)
      (wild-after (λ c l. Keeps h l × (c.table ≡ cache.table)) (detach cache p k) _
        (detach-Risks cache p kept)
        λ c l a.
          wild-after (λ e₁ m. Keeps h m × (m.cell p ≡ some e₁)) (load p l) _ (load-Risks a.0 p)
            λ e₁ m b.
              rw (discard_found c e₁.tuple p b.0 (rw (a.1, Keeps-tuple b.0 here b.1) found)) refl)

-- An entry that the table has under its own key.
pub record IsListed (table : HashTable) (h : Heap) (p : ℕ) : Type 0 where
  pub entry : ConnEntry
  pub here : h.cell p ≡ some entry
  pub found : hashtable_lookup table entry.tuple h ≡ done (some p) h

lru_evict_lru-Risks :
    {h k : Heap} (cache : LruCache) (p : ℕ)
    → Keeps h k
    → cache.tail ≡ some p
    → IsListed cache.table h p
    → Risks (λ r l. (r.0 ≡ some p) × (l.cell p ≡ none)) (lru_evict_lru cache k)
unfolding lru_evict_lru
lru_evict_lru-Risks {h = h} {k = k} cache p kept last listed =
    rw (last, lru_evict_lru)
      (Risks-after (λ e l. Keeps h l × (l.cell p ≡ some e)) _ (load p k) _ (load-Risks kept p)
        λ e l a.
          Risks-after (λ _ m. Keeps h m) _ (modify_if e.lru_prev (set_next none) l) _
            (modify_if-Risks a.0 e.lru_prev (set_next none) (λ d. (refl, refl)))
            λ u m b.
              Risks-after (λ e₁ n. Keeps h n × (n.cell p ≡ some e₁)) _ (load p m) _ (load-Risks b p)
                λ e₁ n c.
                  Risks-after (λ _ o. o.cell p ≡ none) _ (hashtable_remove cache.table e₁.tuple n) _
                    (rw (Keeps-tuple c.0 listed.here c.1)
                      (hashtable_remove-Risks cache.table listed.entry.tuple p c.0 listed.found))
                    λ r o gone. (refl, gone))

make_room_wild :
    {h k : Heap} (cache : LruCache) (p : ℕ)
    → leb cache.max_size cache.current_size ≡ true
    → Keeps h k
    → cache.tail ≡ some p
    → IsListed cache.table h p
    → make_room cache k ≡ wild
unfolding make_room
make_room_wild {k = k} cache p full kept last listed =
    rw (full, make_room)
      (wild-after (λ r l. (r.0 ≡ some p) × (l.cell p ≡ none)) (lru_evict_lru cache k) _
        (lru_evict_lru-Risks cache p kept last listed)
        λ r l a. rw (a.0) (rw (free_gone p l a.1, after) refl))

admit_wild :
    {h k : Heap} (cache : LruCache) (key : ConnTuple) (now p q : ℕ)
    → Keeps h k
    → h.cell q ≡ none
    → leb cache.max_size cache.current_size ≡ true
    → cache.tail ≡ some p
    → IsListed cache.table h p
    → admit cache key now q k ≡ wild
unfolding admit
admit_wild {h = h} {k = k} cache key now p q kept new full last listed =
    wild-after (λ _ l. Keeps h l) (modify q (opened key now) k) _
      (modify_new-Risks kept q (opened key now) new)
      λ u l a. rw (make_room_wild cache p full a last listed, after) refl

-- A lookup of a new key in a full cache goes wild, if the table has the last entry of the list.
pub lru_cache_get_wild :
    (cache : LruCache) (key : ConnTuple) (now p : ℕ) (h : Heap)
    → hashtable_lookup cache.table key h ≡ done none h
    → leb cache.max_size cache.current_size ≡ true
    → h.cell h.fresh ≡ none
    → cache.tail ≡ some p
    → IsListed cache.table h p
    → lru_cache_get cache key now true h ≡ wild
unfolding lru_cache_get calloc
lru_cache_get_wild cache key now p h missing full new last listed =
    rw (missing, lru_cache_get)
      (admit_wild cache key now p h.fresh (calloc-Keeps h zeroed new) new full last listed)

cleanup_from_wild :
    (fuel now p : ℕ) (e : ConnEntry) (s : LruCache × ℕ) (h : Heap)
    → h.cell p ≡ some e
    → cleanup_entry now p e s h ≡ wild
    → cleanup_from (suc fuel) now (some p) s h ≡ wild
unfolding cleanup_from load
cleanup_from_wild fuel now p e s h here w = rw (here, read, after, w) refl

-- The cleanup goes wild if the last entry of the list has expired and the table has it.
pub lru_cache_cleanup_expired_wild :
    (cache : LruCache) (now p : ℕ) (h : Heap) (listed : IsListed cache.table h p)
    → cache.tail ≡ some p
    → is_stale now listed.entry ≡ true
    → lru_cache_cleanup_expired cache now h ≡ wild
unfolding lru_cache_cleanup_expired
lru_cache_cleanup_expired_wild cache now p h listed last stale =
    let fuel = lookup_fuel cache.table listed.entry.tuple p listed.found in
    let start : LruCache × ℕ = (cache, 0) in
    let turn =
      cleanup_entry_wild now p listed.entry start stale (Keeps-refl h) listed.here listed.found in
    let loop : cleanup_from h.fresh now cache.tail start h ≡ wild =
      ap (λ n. cleanup_from n now cache.tail start h) fuel.1
      ∙ ap (λ t. cleanup_from (suc fuel.0) now t start h) last
      ∙ cleanup_from_wild fuel.0 now p listed.entry start h listed.here turn in
    rw (loop, after) refl
