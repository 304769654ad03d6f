-- ===== src/Main/Destroyed.antt =====
-- A context that holds no connection is destroyed without a fault.
use anti.Base.{ℕ, zero, suc, ◌+◌, ◌≡◌, refl, ap, ◌∙◌, true, none, some, ok}
use anti.Conn.Heap.{Heap, done, after}
use anti.Conn.Table.{HashTable, hashtable_destroy, free_buckets, free_chain}
use anti.Lru.{LruCache}
use anti.Lru.Cleanup.{lru_cache_destroy, free_list}
use anti.Analyzer.{IpTable}
use anti.Analyzer.Table.{IsBlank}
use anti.Analyzer.Baseline.{free_entries}
use anti.Main.State.{Process, live, release, to_option, exited, quit}
use anti.Main.{
  Context, ContextGrants, hash_table_size, lru_cache_size, started, init_context, cleanup_context,
}

abbrev pub empty_table : ℕ → HashTable
empty_table size = record { heads = λ i. none; size = size; entries = 0 }

abbrev pub empty_cache : ℕ → LruCache
empty_cache size = record {
  table = empty_table size;
  head = none;
  tail = none;
  max_size = size;
  current_size = 0;
}

abbrev pub fresh_context : ℕ → Context
fresh_context now = record {
  stats = started now;
  conn_table = empty_table hash_table_size;
  lru_cache = empty_cache lru_cache_size;
  running = true;
}

abbrev pub all_granted : ContextGrants
all_granted = record {
  context = true;
  stats = true;
  table = true;
  buckets = true;
  cache = true;
  cache_table = true;
  cache_buckets = true;
}

pub init_context-all_granted :
    (now : ℕ) (h : Heap) → init_context all_granted now h ≡ done (some (fresh_context now)) h
unfolding init_context
init_context-all_granted now h = refl

free_buckets-empty :
    (size left i : ℕ) (h : Heap) → free_buckets left i (empty_table size) h ≡ done tt h
unfolding free_buckets free_chain
free_buckets-empty size zero i h = refl
free_buckets-empty size (suc left) i h = free_buckets-empty size left (i + 1) h

hashtable_destroy-empty :
    (size : ℕ) (h : Heap) → hashtable_destroy (some (empty_table size)) h ≡ done tt h
unfolding hashtable_destroy
hashtable_destroy-empty size h = free_buckets-empty size size 0 h

lru_cache_destroy-empty :
    (size : ℕ) (h : Heap) → lru_cache_destroy (some (empty_cache size)) h ≡ done tt h
unfolding lru_cache_destroy free_list
lru_cache_destroy-empty size h = hashtable_destroy-empty size h

cleanup_context-empty :
    (ctx : Context) (table_size cache_size : ℕ) (h : Heap)
    → ctx.conn_table ≡ empty_table table_size
    → ctx.lru_cache ≡ empty_cache cache_size
    → cleanup_context (some ctx) h ≡ done tt h
unfolding cleanup_context
cleanup_context-empty ctx table_size cache_size h t c =
    ap (λ r. after r (λ _ k. lru_cache_destroy (some (ctx.lru_cache)) k))
      (ap (λ x. hashtable_destroy (some x) h) t ∙ hashtable_destroy-empty table_size h)
    ∙ ap (λ x. lru_cache_destroy (some x) h) c
    ∙ lru_cache_destroy-empty cache_size h

-- The label `cleanup`, with a context that holds no connection.
pub quit-empty :
    {D : Type 0} (ret : ℕ) (p : Process D) (ctx : Context) (table_size cache_size : ℕ) (h : Heap)
    → p.context ≡ live ctx
    → ctx.conn_table ≡ empty_table table_size
    → ctx.lru_cache ≡ empty_cache cache_size
    → quit ret p h
      ≡ done (exited ret (record p { context = release p.context; config = release p.config })) h
unfolding quit
quit-empty ret p ctx table_size cache_size h there t c =
    ap
      (λ r. after r (λ _ k.
        done (exited ret (record p { context = release p.context; config = release p.config })) k))
      (ap (λ m. cleanup_context (to_option m) h) there
        ∙ cleanup_context-empty ctx table_size cache_size h t c)

pub free_entries-blank :
    (left i : ℕ) (table : IpTable) → IsBlank table → free_entries left i table ≡ ok tt
unfolding free_entries
free_entries-blank zero i table blank = refl
free_entries-blank (suc left) i table blank =
    rw (blank i, free_entries) (free_entries-blank left (i + 1) table blank)
