-- ===== src/Lru/Cleanup.antt =====
-- src/storage/lru_cache.c: the removal of expired connections, and the destruction of the cache.
use anti.Base.{ℕ, zero, suc, ◌+◌, Bool, Option, none, some, ltb, ◌==◌, if◌then◌else◌, ℤ, pos}
use anti.Packet.{proto_icmp, proto_tcp, proto_udp}
use anti.Conn.Heap.{
  TcpState, syn_sent, syn_received, established, fin_wait, close_wait, closed, ConnEntry, done,
  unfinished, M, pure, after, ◌>>=◌, load, free,
}
use anti.Conn.Table.{hashtable_destroy}
use anti.Lru.{LruCache, detach, discard}

-- `TCP_SYN_TIMEOUT`, `TCP_ESTABLISHED_TIMEOUT`, `TCP_FIN_TIMEOUT`, `UDP_TIMEOUT`, `ICMP_TIMEOUT`.
abbrev pub tcp_timeout : TcpState → ℕ
tcp_timeout syn_sent = 30
tcp_timeout syn_received = 30
tcp_timeout established = 7200
tcp_timeout fin_wait = 30
tcp_timeout close_wait = 30
tcp_timeout closed = 30

abbrev pub timeout_of : ConnEntry → ℕ
timeout_of e =
    if e.tuple.protocol == proto_tcp
    then tcp_timeout e.state
    else if e.tuple.protocol == proto_udp
    then 60
    else if e.tuple.protocol == proto_icmp
    then 10
    else 60

-- `now - entry->last_seen > timeout`.
abbrev pub is_stale : ℕ → ConnEntry → Bool
is_stale now e = ltb (e.last_seen + timeout_of e) now

-- One turn of the loop of `lru_cache_cleanup_expired`: the cache and `cleaned` after it.
unfoldable pub cleanup_entry : ℕ → ℕ → ConnEntry → LruCache × ℕ → M (LruCache × ℕ)
unfolding load
cleanup_entry now p e (cache, cleaned) =
    let drop_it : M (LruCache × ℕ) = (do
      c ← detach cache p
      e₁ ← load p
      r ← discard c e₁.tuple p
      pure (r, cleaned + 1)) in
    if is_stale now e then drop_it else pure (cache, cleaned)

-- The loop from the tail on.
unfoldable pub cleanup_from : ℕ → ℕ → Option ℕ → LruCache × ℕ → M (LruCache × ℕ)
unfolding load cleanup_entry
cleanup_from fuel now none s h = done s h
cleanup_from zero now (some p) s h = unfinished
cleanup_from (suc fuel) now (some p) s h =
    after (load p h)
      (λ e h₁. after (cleanup_entry now p e s h₁) (λ s₁ h₂. cleanup_from fuel now e.lru_prev s₁ h₂))

unfoldable pub lru_cache_cleanup_expired : LruCache → ℕ → M (ℤ × LruCache)
unfolding cleanup_from
lru_cache_cleanup_expired cache now h =
    after (cleanup_from h.fresh now cache.tail (cache, 0) h)
      (λ (c, cleaned) h₁. done (pos cleaned, c) h₁)

-- The loop of `lru_cache_destroy` over the entries.
unfoldable pub free_list : ℕ → Option ℕ → M (Unit {0})
unfolding load free
free_list fuel none h = done tt h
free_list zero (some p) h = unfinished
free_list (suc fuel) (some p) h =
    after (load p h) (λ e h₁. after (free p h₁) (λ _ h₂. free_list fuel e.lru_next h₂))

unfoldable pub lru_cache_destroy : Option LruCache → M (Unit {0})
unfolding free_list
lru_cache_destroy none h = done tt h
lru_cache_destroy (some cache) h =
    after (free_list h.fresh cache.head h) (λ _ h₁. hashtable_destroy (some (cache.table)) h₁)
