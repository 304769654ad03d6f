-- ===== src/Tests/Lru.antt =====
-- A cache of two connections, for the theorems on src/storage/lru_cache.c.
use anti.Base.{ℕ, ◌≤◌, ◌≡◌, refl, true, some, none, List, [], ◌∷◌, success, update, arith}
use anti.Addr.{inet, ip_addr_compare}
use anti.Conn.{
  ConnTuple, conn_tuple_hash, conn_tuple_compare, murmur3_32, absorb, mix, scramble, rotate,
  finalize,
}
use anti.Conn.Heap.{ConnEntry, Heap, done, wild, zeroed, modify, modify_if, calloc}
use anti.Conn.Reason.{Returns}
use anti.Conn.Table.{hashtable_lookup, hashtable_insert, search_bucket, walk, bucket_of}
use anti.Lru.{
  LruCache, lru_cache_create, lru_cache_get, lru_cache_update, lru_cache_remove, opened, admit,
  make_room, link_head,
}
use anti.Lru.Cleanup.{lru_cache_cleanup_expired}
use anti.Lru.DoubleFree.{lru_cache_remove_wild, lru_cache_cleanup_expired_wild}
use anti.Lru.Valid.{IsValid}
use anti.Lru.Valid.Hit.{IsFront, lru_cache_update_lem}
use anti.Lru.Valid.Get.{lru_cache_get_miss}
use anti.Lru.Valid.Outcomes.{Got, lru_cache_get_lem}
use anti.Lru.Valid.Sequence.{
  created, no_entries, created-IsValid, get_all, get_all-lru_cache_create,
}

abbrev pub web : ConnTuple
web = record { src_ip = inet 1; dst_ip = inet 2; src_port = 4000; dst_port = 80; protocol = 6 }

abbrev pub mail : ConnTuple
mail = record web { dst_port = 25 }

-- The memory and the cache with one connection, at time 100.
abbrev pub entry : ConnEntry
entry = opened web 100 zeroed

abbrev pub one_entry : Heap
one_entry = record {
  cell =
      update (update (update (update (λ p. none) 0 (some zeroed)) 0 (some entry)) 0 (some entry)) 0
        (some entry);
  fresh = 1;
}

abbrev pub one_cache : LruCache
one_cache = record {
  table = record { heads = update (λ i. none) 0 (some 0); size = 2; entries = 1 };
  head = some 0;
  tail = some 0;
  max_size = 2;
  current_size = 1;
}

web_bucket : bucket_of one_cache.table web ≡ 0
unfolding bucket_of conn_tuple_hash murmur3_32 absorb mix scramble rotate finalize
web_bucket = refl

pub found : hashtable_lookup one_cache.table web one_entry ≡ done (some 0) one_entry
unfolding hashtable_lookup search_bucket walk conn_tuple_compare ip_addr_compare
found = rw web_bucket refl

lru_cache_get_lem_example :
    Got (created 2) no_entries [] web 100 true (lru_cache_get (created 2) web 100 true no_entries)
lru_cache_get_lem_example =
    lru_cache_get_lem (created 2) no_entries [] web 100 true
      (created-IsValid 2 (omega arith) (omega arith)) (omega arith, omega arith)

get_all-lru_cache_create_example :
    Returns
      (λ c k. (order : List ℕ) × IsValid c k order × (c.current_size ≤ 2))
      (get_all ((web, 100) ∷ (mail, 101) ∷ []) (created 2) no_entries)
unfolding lru_cache_create
get_all-lru_cache_create_example =
    get_all-lru_cache_create 2 ((web, 100) ∷ (mail, 101) ∷ []) (created 2) (omega arith)
      (omega arith) ((omega arith, omega arith), ((omega arith, omega arith), tt)) (omega arith)
      refl

lru_cache_remove_wild_example : lru_cache_remove one_cache web one_entry ≡ wild
lru_cache_remove_wild_example = lru_cache_remove_wild one_cache web 0 one_entry found

lru_cache_cleanup_expired_wild_example : lru_cache_cleanup_expired one_cache 131 one_entry ≡ wild
lru_cache_cleanup_expired_wild_example =
    lru_cache_cleanup_expired_wild one_cache 131 0 one_entry
      (record { entry = entry; here = refl; found = found }) refl refl

pub one-IsValid : IsValid one_cache one_entry (0 ∷ [])
unfolding lru_cache_get hashtable_lookup hashtable_insert search_bucket walk bucket_of
    conn_tuple_hash murmur3_32 absorb mix scramble rotate finalize admit make_room link_head modify
    modify_if calloc
one-IsValid =
    (lru_cache_get_miss {cache = created 2} {h = no_entries} {order = []} web 100
      (created-IsValid 2 (omega arith) (omega arith)) (omega arith, omega arith) refl
      (omega arith)).1.valid

lru_cache_update_lem_example :
    Returns
      (λ r k. (r.0 ≡ success) × IsFront one_cache web 200 0 [] entry r.1 k)
      (lru_cache_update one_cache 0 200 one_entry)
lru_cache_update_lem_example =
    lru_cache_update_lem one_cache one_entry 200 [] 0 [] entry one-IsValid refl
