-- ===== src/Main/Jammed.antt =====
-- `main` where the messages of its run fill the log.
use anti.Base.{ℕ, ◌+◌, ◌≤◌, ◌<◌, ◌≡◌, refl, ap, ◌∙◌, true, false, some}
use anti.Conn.Heap.{Heap}
use anti.Conn.Reason.{Returns, Returns-after}
use anti.Packet.Http.{Libc}
use anti.Settings.{Settings, Jansson, detection}
use anti.Firewall.{Firewall}
use anti.Analyzer.Baseline.{Doubles, TrafficAnalyzer}
use anti.Capture.{PacketCapture}
use anti.Logger.{blocked, max_log_size}
use anti.Analyzer.Table.{IsBlank}
use anti.Logger.Jam.{log_all, log_all-blocked, AllHeard, IsLogging, cost}
use anti.Main.{Context, capture, Progress, going, stuck}
use anti.Main.State.{live, Process, Exit, exited, endless, World}
use anti.Main.Work.{work, leave, worker_of, log_of, serve, protect}
use anti.Main.Program.{main, with_capture, open_capture}
use anti.Main.Idle.{AllParse}
use anti.Main.Stuck.{IsStuck, messages_of, capture-IsStuck}
use anti.Main.Destroyed.{empty_cache, fresh_context}
use anti.Main.Ends.{Returns-eq}
use anti.Main.Started.{Starts, prepared, main-with_capture, analyzer_init-IsBlank}

-- The program does not exit, and its threads are not joined.
abbrev pub IsEndless : {D : Type 0} → Exit D → Type 0
IsEndless (exited ret q) = ⊥
IsEndless (endless q) = (q.stats_thread ≡ true) × (q.cleanup_thread ≡ true)

module _ {D V : Type 0} (libc : Libc) (w : World V) (cfg : Settings) (h : Heap) where
  leave-IsEndless :
      (ctx : Context) (a : TrafficAnalyzer D) (p : Process D)
      → p.stats_thread ≡ true
      → p.cleanup_thread ≡ true
      → (m : Progress) (k : Heap) → k ≡ h
      → IsStuck m
      → Returns (λ e k. (k ≡ h) × IsEndless e) (leave w ctx a p m k)
  unfolding leave
  leave-IsEndless ctx a p stats cleanup (going u g) k e v = absurd v
  leave-IsEndless ctx a p stats cleanup (stuck u) k e v = (e, (stats, cleanup))

  pub work-IsEndless :
      (cache_size : ℕ) (ctx : Context) (a : TrafficAnalyzer D) (p : Process D)
      → AllParse libc w.events
      → log_all w.files (messages_of w.events) (log_of w cfg) ≡ blocked
      → IsBlank a.ip_table
      → ctx.lru_cache ≡ empty_cache cache_size
      → p.stats_thread ≡ true
      → p.cleanup_thread ≡ true
      → Returns (λ e k. (k ≡ h) × IsEndless e) (work libc w cfg ctx a p h)
  unfolding work
  work-IsEndless cache_size ctx a p parse jams blank c stats cleanup =
      Returns-after (λ m k. (k ≡ h) × IsStuck m) _
        (capture (detection cfg) libc w.files w.events (worker_of p ctx a) (log_of w cfg) h) _
        (capture-IsStuck (detection cfg) libc (empty_cache cache_size) h refl w.files w.events
          (worker_of p ctx a) (log_of w cfg) false parse
          (record { blank = blank; cache = c; asked = refl }) jams)
        (λ m k x. leave-IsEndless ctx a p stats cleanup m k x.0 x.1)

module _ {D V : Type 0} (d : Doubles D) (json : Jansson V) (libc : Libc) (w : World V)
    (cfg : Settings) (fw fw' : Firewall) (a : TrafficAnalyzer D)
    (s : Starts d json libc w cfg fw fw' a) (h : Heap) where
  -- Where all is granted, the parser stays inside the frames, the log is open, its file can be opened
  -- again, and its level lets notes of level INFO and every message of the run pass: if these messages,
  -- with those of the statistics thread and of the signal handler among them, fill the log beyond 100 MB
  -- while the program captures, it never exits, whatever signals come, and never joins its threads.
  pub main-IsEndless :
      {pc : PacketCapture} (bytes : ℕ)
      → open_capture d json libc w cfg ≡ some pc
      → AllParse libc w.events
      → w.files.opened ≡ true
      → cfg.log_level ≤ 1
      → IsLogging cfg.log_level bytes (log_of w cfg)
      → bytes ≤ max_log_size
      → AllHeard cfg.log_level (messages_of w.events)
      → max_log_size < bytes + cost (messages_of w.events)
      → Returns (λ e k. (k ≡ h) × IsEndless e) (main d json libc w fw h)
  unfolding serve protect with_capture
  main-IsEndless {pc} bytes opens parse reopens low v small heard large =
      let p : Process D = prepared d json libc w cfg fw fw' a s h in
      Returns-eq _
        (main-with_capture d json libc w cfg fw fw' a s h
          ∙ ap (λ o. with_capture d json libc w cfg (fresh_context w.now) a p o h) opens)
        (work-IsEndless libc w cfg h _ _ a (record p { capture = live pc }) parse
          (log_all-blocked w.files cfg.log_level bytes (messages_of w.events) reopens low v small
            heard large)
          (analyzer_init-IsBlank d w.analyzer_granted w.ip_table_granted w.locks_granted
            w.blacklist_granted w.whitelist_granted w.now s.analyzes)
          refl refl refl)
