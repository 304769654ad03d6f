-- ===== src/Main.antt =====
-- The context of src/core/main.c, its threads, and what happens while the program captures, with the
-- messages that it logs meanwhile, since each of them can block its thread for ever. The texts that
-- `vsnprintf` makes are arguments, and so are the messages of the detectors.
pub mod State
pub mod Work
pub mod Program
pub mod Idle
pub mod Destroyed
pub mod Ends
pub mod Started
pub mod Stuck
pub mod Jammed
use anti.Base.{
  ℕ, ◌^◌, Bool, true, false, ◌||◌, ◌&&◌, not, List, [], ◌∷◌, Option, none, some, ◌==◌,
  if◌then◌else◌, ℤ, is_zero,
}
use anti.Types.{Config, GlobalStats, Counters}
use anti.Packet.Http.{Libc}
use anti.Conn.Heap.{M, pure, ◌>>=◌, ◌>>◌}
use anti.Conn.Table.{HashTable, hashtable_create, hashtable_destroy}
use anti.Lru.{LruCache, lru_cache_create}
use anti.Lru.Cleanup.{lru_cache_cleanup_expired, lru_cache_destroy}
use anti.Analyzer.Handler.{Worker}
use anti.Capture.{Frame, pcap_callback}
use anti.Logger.{LogLevel, info, Logger, Outcome, Files, log, log_message}
use anti.Logger.Jam.{log_all}

-- `ddos_context_t`, without the pointers that nobody follows.
pub record Context : Type 0 where
  pub stats : GlobalStats
  pub conn_table : HashTable
  pub lru_cache : LruCache
  pub running : Bool

abbrev pub hash_table_size : ℕ
hash_table_size = 1048576

abbrev pub lru_cache_size : ℕ
lru_cache_size = 524288

-- What `calloc` leaves of the statistics, with the time of the start.
abbrev pub started : ℕ → GlobalStats
started now = record {
  total_packets = 0;
  total_bytes = 0;
  dropped_packets = 0;
  rate_limited_packets = 0;
  attacks_detected = λ a. 0;
  current_connections = 0;
  start_time = now;
}

-- The successes of the allocations, in their order.
pub record ContextGrants : Type 0 where
  pub context : Bool
  pub stats : Bool
  pub table : Bool
  pub buckets : Bool
  pub cache : Bool
  pub cache_table : Bool
  pub cache_buckets : Bool

unfoldable pub init_context : ContextGrants → ℕ → M (Option Context)
unfolding hashtable_create lru_cache_create hashtable_destroy
init_context g now =
    let table = hashtable_create hash_table_size g.table g.buckets in
    let cache = lru_cache_create lru_cache_size g.cache g.cache_table g.cache_buckets in
    let create : M (Option Context) = elim table [
      | Option.none ↦ pure none
      | Option.some t ↦ elim cache [
        | Option.none ↦ (do hashtable_destroy (some t); pure none)
        | Option.some c ↦
            pure
              (some (record { stats = started now; conn_table = t; lru_cache = c; running = true }))
      ]
    ] in
    if g.context && g.stats then create else pure none

unfoldable pub cleanup_context : Option Context → M (Unit {0})
unfolding hashtable_destroy lru_cache_destroy
cleanup_context none = pure tt
cleanup_context (some ctx) = do
  hashtable_destroy (some (ctx.conn_table))
  lru_cache_destroy (some (ctx.lru_cache))

-- `SIGINT` and `SIGTERM` of Linux.
abbrev pub is_termination : ℕ → Bool
is_termination sig = sig == 2 || sig == 15

abbrev pub Message : Type 0
Message = LogLevel × List ℕ

-- Where the program is after a step: it goes on, or a thread is stuck in the log and keeps its lock. The
-- program does not exit then, since `main` waits for each thread; what the others do until they come to
-- the lock is not followed.
pub data Progress : Type 0 where
  going : Worker → Logger → Progress
  stuck : Worker → Progress

abbrev pub resumed : Worker → Outcome → Progress
resumed w (Outcome.done ret g) = going w g
resumed w Outcome.blocked = stuck w
resumed w Outcome.unfinished = stuck w

-- What happens while the program captures, one at a time: a frame is delivered, the cleanup thread wakes
-- up, the statistics thread wakes up, or a signal comes, with what is logged.
pub data Event : Type 0 where
  arrives : Frame → List Message → Event
  cleans : ℕ → List Message → Event
  reports : List ℕ → Event
  signals : ℕ → List ℕ → Event

-- What `cleanup_thread_func` does in a round of its loop, at the time `now`.
unfoldable pub cleanup_round : ℕ → Worker → M Worker
unfolding lru_cache_cleanup_expired
cleanup_round now w = do
  (cleaned, c) ← lru_cache_cleanup_expired w.engine.cache now
  pure (record w { engine = record (w.engine) { cache = c } })

module _ (cfg : Config) (libc : Libc) (files : Files) where
  -- `g_shutdown` stands for `ctx->running` also, that the handler clears with it, once the note is
  -- written.
  unfoldable pub signal_handler : ℕ → List ℕ → Worker → Logger → Progress
  unfolding log_message
  signal_handler sig text w g =
      if is_termination sig
      then resumed (record w { shutdown = true }) (log files info text g)
      else going w g

  -- A round of `stats_thread_func`.
  unfoldable pub stats_round : List ℕ → Worker → Logger → Progress
  unfolding log_message
  stats_round text w g = resumed w (log files info text g)

  unfoldable pub happen : Event → Worker → Logger → M Progress
  unfolding pcap_callback cleanup_round signal_handler stats_round log_all
  happen (arrives f messages) w g = do
    u ← pcap_callback cfg libc f w
    pure (resumed u (log_all files messages g))
  happen (cleans now messages) w g = do
    u ← cleanup_round now w
    pure (resumed u (log_all files messages g))
  happen (reports text) w g = pure (stats_round text w g)
  happen (signals sig text) w g = pure (signal_handler sig text w g)

  abbrev pub go_on : (Worker → Logger → M Progress) → Progress → M Progress
  go_on rest (going w g) = rest w g
  go_on rest (stuck w) = pure (stuck w)

  -- The events, in the order in which they happen.
  unfoldable pub capture : List Event → Worker → Logger → M Progress
  unfolding happen
  capture [] w g = pure (going w g)
  capture (e ∷ es) w g = do p ← happen e w g; go_on (capture es) p
