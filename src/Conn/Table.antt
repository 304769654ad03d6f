-- ===== src/Conn/Table.antt =====
-- src/storage/hashtable.c: the table of connections, over entries in memory. The loop over a chain
-- takes as fuel the number of allocations so far, which no chain without a cycle exceeds.
pub mod Insertion
pub mod Walks
pub mod Removal
pub mod Foreach
use anti.Base.{
  ℕ, zero, suc, ◌+◌, ◌-◌, ◌%◌, ◌^◌, Bool, true, false, ◌&&◌, Option, none, some, ◌==◌,
  if◌then◌else◌, update, u64, ℤ, pos, success, failure, is_zero,
}
use anti.Conn.{ConnTuple, conn_tuple_hash, conn_tuple_compare}
use anti.Conn.Heap.{
  ConnEntry, Heap, Outcome, done, unfinished, M, pure, after, ◌>>=◌, ◌>>◌, lost, load, store,
  modify, free,
}

pub record HashTable : Type 0 where
  pub heads : ℕ → Option ℕ
  pub size : ℕ
  pub entries : ℕ

-- Two allocations: the table, then its buckets.
unfoldable pub hashtable_create : ℕ → Bool → Bool → Option HashTable
hashtable_create size granted buckets_granted =
    if granted && buckets_granted
    then some (record { heads = λ i. none; size = size; entries = 0 })
    else none

-- `conn_tuple_compare(&entry->tuple, key) == 0`.
abbrev pub matches : ConnEntry → ConnTuple → Bool
matches e key = is_zero (conn_tuple_compare e.tuple key)

-- `hash % ht->size`.
unfoldable pub bucket_of : HashTable → ConnTuple → ℕ
bucket_of ht key = conn_tuple_hash key % ht.size

-- The loop that looks for the key from an entry on.
unfoldable pub walk : ℕ → ConnTuple → Option ℕ → M (Option ℕ)
unfolding load
walk fuel key none h = done none h
walk zero key (some p) h = unfinished
walk (suc fuel) key (some p) h =
    after (load p h)
      (λ e h'. elim (matches e key) [ true ↦ done (some p) h' | false ↦ walk fuel key e.next h' ])

-- `walk` from the head of the key's bucket.
unfoldable pub search_bucket : HashTable → ConnTuple → M (Option ℕ)
unfolding walk
search_bucket ht key h =
    if ht.size == 0 then lost h else walk h.fresh key (ht.heads (bucket_of ht key)) h

unfoldable pub hashtable_lookup : HashTable → ConnTuple → M (Option ℕ)
hashtable_lookup ht key = search_bucket ht key

-- The copy of an entry over another takes its link as well, and the line that follows the copy
-- keeps that link.
unfoldable pub hashtable_insert : HashTable → ConnTuple → ℕ → M HashTable
unfolding load store modify
hashtable_insert ht key entry = do
  curr ← search_bucket ht key
  elim curr [
    | Option.some p ↦ do e ← load entry; store p e; pure ht
    | Option.none ↦ do
      let idx = bucket_of ht key
      modify entry (λ e. record e { next = ht.heads idx })
      pure (record ht { heads = update ht.heads idx (some entry); entries = u64 (ht.entries + 1) })
  ]

-- The loop of `hashtable_remove`: the entry before the match, and the match.
unfoldable pub walk_pair : ℕ → ConnTuple → Option ℕ → Option ℕ → M (Option (Option ℕ × ℕ))
unfolding load
walk_pair fuel key prev none h = done none h
walk_pair zero key prev (some p) h = unfinished
walk_pair (suc fuel) key prev (some p) h = after (load p h) (λ e h'. elim (matches e key) [
  | true ↦ done (some (prev, p)) h'
  | false ↦ walk_pair fuel key (some p) e.next h'
])

-- `prev->next = entry->next`, or `bucket->head = entry->next`.
unfoldable pub unlink : HashTable → ℕ → Option ℕ → ConnEntry → M HashTable
unfolding modify
unlink ht idx none e = pure (record ht { heads = update ht.heads idx e.next })
unlink ht idx (some q) e = do modify q (λ before. record before { next = e.next }); pure ht

unfoldable pub hashtable_remove : HashTable → ConnTuple → M (ℤ × HashTable)
unfolding load free
hashtable_remove ht key h =
    let idx = bucket_of ht key in
    let run : M (ℤ × HashTable) = (do
      found ← walk_pair h.fresh key none (ht.heads idx)
      elim found [
        | Option.none ↦ pure (failure, ht)
        | Option.some (prev, p) ↦ do
          e ← load p
          t ← unlink ht idx prev e
          free p
          pure (success, record t { entries = u64 (t.entries + 2 ^ 64 - 1) })
      ]) in
    if ht.size == 0 then lost h else run h

unfoldable pub hashtable_size : Option HashTable → ℕ
hashtable_size none = 0
hashtable_size (some ht) = ht.entries

-- The loop of `hashtable_clear` and of `hashtable_destroy` over a chain.
unfoldable pub free_chain : ℕ → Option ℕ → M (Unit {0})
unfolding load free
free_chain fuel none h = done tt h
free_chain zero (some p) h = unfinished
free_chain (suc fuel) (some p) h =
    after (load p h) (λ e h'. after (free p h') (λ _ h''. free_chain fuel e.next h''))

-- The loop over the buckets from `i`, with `left` of them to go.
unfoldable pub free_buckets : ℕ → ℕ → HashTable → M (Unit {0})
unfolding free_chain
free_buckets zero i ht h = done tt h
free_buckets (suc left) i ht h =
    after (free_chain h.fresh (ht.heads i) h) (λ _ h'. free_buckets left (i + 1) ht h')

-- What `bucket->head = NULL` leaves of the buckets.
unfoldable pub hashtable_clear : Option HashTable → M (Option HashTable)
unfolding free_buckets
hashtable_clear none = pure none
hashtable_clear (some ht) = do
  free_buckets ht.size 0 ht
  pure (some (record ht { heads = λ i. none; entries = 0 }))

unfoldable pub hashtable_destroy : Option HashTable → M (Unit {0})
unfolding free_buckets
hashtable_destroy none = pure tt
hashtable_destroy (some ht) = free_buckets ht.size 0 ht
