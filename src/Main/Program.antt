-- ===== src/Main/Program.antt =====
-- `main` of src/core/main.c: in which order it asks for what it needs, and where it gives up.
use anti.Base.{Bool, true, false, Option, none, some, if◌then◌else◌, ℤ, is_zero}
use anti.Packet.Http.{Libc}
use anti.Conn.Heap.{M, pure, ◌>>=◌}
use anti.Settings.{Settings, Jansson, config_validate}
use anti.Settings.Parse.{config_load}
use anti.Logger.{Logger, Files, logger_init}
use anti.Logger
use anti.Firewall.{Firewall, iptables, firewall_init}
use anti.Analyzer.Baseline.{Doubles, TrafficAnalyzer}
use anti.Capture.{PacketCapture, packet_capture_init}
use anti.Main.{Context, init_context}
use anti.Main.State.{
  Memory, absent, live, freed, Process, Exit, exited, endless, exit_failure, World, nothing, quit,
}
use anti.Main.Work.{protect, serve, work}

module _ {D V : Type 0} (d : Doubles D) (json : Jansson V) (libc : Libc) where
  -- "Initialize packet capture": the handle, or NULL.
  unfoldable pub with_capture :
      World V
      → Settings
      → Context
      → TrafficAnalyzer D
      → Process D
      → Option PacketCapture
      → M (Exit D)
  unfolding work quit
  with_capture w cfg ctx a p none = quit exit_failure p
  with_capture w cfg ctx a p (some pc) = work libc w cfg ctx a (record p { capture = live pc })

  unfoldable pub open_capture : World V → Settings → Option PacketCapture
  unfolding packet_capture_init
  open_capture w cfg =
      packet_capture_init cfg.interface cfg.promiscuous_mode cfg.snaplen w.capture_granted w.opened
        w.datalink

  -- "Initialize traffic analyzer", and what is started after it.
  unfoldable pub with_analyzer :
      World V → Settings → Context → Process D → Memory (TrafficAnalyzer D) → M (Exit D)
  unfolding serve with_capture open_capture quit
  with_analyzer w cfg ctx p (live a) = with_capture w cfg ctx a (serve w cfg p) (open_capture w cfg)
  with_analyzer w cfg ctx p absent = quit exit_failure p
  with_analyzer w cfg ctx p freed = quit exit_failure p

  -- "Initialize firewall": its result, and the firewall after it.
  unfoldable pub with_firewall :
      World V → Settings → Context → Process D → ℤ × Firewall → M (Exit D)
  unfolding protect with_analyzer quit
  with_firewall w cfg ctx p₀ (ret, fw) =
      let p : Process D = record p₀ { context = live ctx; firewall = fw } in
      let protected = protect d w p in
      if is_zero ret
      then with_analyzer w cfg ctx protected protected.analyzer
      else quit exit_failure p

  -- "Initialize global context": the context, or NULL.
  unfoldable pub with_context : World V → Settings → Process D → Option Context → M (Exit D)
  unfolding firewall_init with_firewall quit
  with_context w cfg p none = quit exit_failure p
  with_context w cfg p (some ctx) =
      with_firewall w cfg ctx p (firewall_init p.firewall iptables w.set_granted w.buckets_granted)

  -- "Setup signal handlers", and the rest.
  unfoldable pub start_up : World V → Settings → Process D → Bool → M (Exit D)
  unfolding init_context with_context quit
  start_up w cfg p true = do made ← init_context w.context_grants w.now; with_context w cfg p made
  start_up w cfg p false = quit exit_failure p

  -- "Initialize logging": whether it is initialized, `none` where the call never returns.
  unfoldable pub logging : World V → Settings → Option Bool
  unfolding logger_init
  logging w cfg =
      elim (logger_init w.files cfg.log_file cfg.log_level cfg.syslog_enabled w.logger) [
        | Logger.done ret g ↦ some (is_zero ret)
        | Logger.blocked ↦ none
        | Logger.unfinished ↦ none
      ]

  -- The settings are freed, and nothing else was there.
  abbrev pub refused : Process D → Exit D
  refused p = exited exit_failure (record p { config = freed })

  unfoldable pub with_log : World V → Settings → Process D → Option Bool → M (Exit D)
  unfolding start_up
  with_log w cfg p none = pure (endless p)
  with_log w cfg p (some true) = start_up w cfg p w.signals_set
  with_log w cfg p (some false) = pure (refused p)

  -- "Load configuration", and "Validate configuration".
  unfoldable pub with_settings : World V → Firewall → Option Settings → M (Exit D)
  unfolding config_validate logging with_log
  with_settings w fw none = pure (exited exit_failure (nothing fw))
  with_settings w fw (some cfg) =
      let p : Process D = record (nothing fw) { config = live cfg } in
      if is_zero (config_validate (some cfg))
      then with_log w cfg p (logging w cfg)
      else pure (refused p)

  unfoldable pub main : World V → Firewall → M (Exit D)
  unfolding config_load with_settings
  main w fw = with_settings w fw (config_load json libc.strdup w.root w.config_granted)
