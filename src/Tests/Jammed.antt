-- ===== src/Tests/Jammed.antt =====
-- A start whose log is nearly full, for the theorem on the log of src/core/main.c.
use anti.Base.{◌-◌, true, ◌≡◌, refl, arith, [], ◌∷◌, some, Bool}
use anti.Addr.Text.{ascii}
use anti.Conn.Reason.{Returns}
use anti.Lru.Valid.Sequence.{no_entries}
use anti.Settings.{Jansson, Settings, zeroed, config_validate}
use anti.Settings.Parse.{config_load, parse_config_json, read_all}
use anti.Firewall.{firewall_init}
use anti.Ipset.{create}
use anti.Logger.{logger_init, log_message, log_by, write_file, echo, max_log_size}
use anti.Logger.Jam.{IsLogging}
use anti.Analyzer.Baseline.{analyzer_init}
use anti.Main.{arrives, reports, signals}
use anti.Main.State.{World}
use anti.Main.Work.{log_of}
use anti.Main.Program.{main, logging, open_capture}
use anti.Main.Started.{Starts}
use anti.Main.Jammed.{IsEndless, main-IsEndless}
use anti.Tests.Parser.{libc}
use anti.Tests.Capture.{arrival, arrival-parsed}
use anti.Tests.Baseline.{whole}
use anti.Tests.Main.{sections, world, no_rules, ruled, analyzer, handle}

-- A file that leaves the level of the log at INFO.
abbrev plain : Jansson Bool
plain = record sections { text = λ v. some (ascii "eth0") }

abbrev settings : Settings
settings = read_all plain libc.strdup true zeroed

abbrev full_world : World Bool
full_world = record world {
  logger = record (world.logger) { bytes_written = max_log_size - 200 };
  events =
      arrives arrival []
      ∷ reports (ascii "[INFO] Stats: packets=1, bytes=60, dropped=0, conns=0")
      ∷ signals 15 (ascii "[INFO] Received signal 15, shutting down...")
      ∷ [];
}

full_world-Starts : Starts whole plain libc full_world settings no_rules ruled analyzer
unfolding config_load parse_config_json config_validate logging logger_init log_message log_by
    firewall_init create analyzer_init write_file echo
full_world-Starts = record {
  loaded = refl;
  valid = refl;
  logs = refl;
  signals = refl;
  contexts = refl;
  walled = refl;
  analyzes = refl;
}

opened : open_capture whole plain libc full_world settings ≡ some handle
unfolding open_capture read_all
opened = refl

level_lem : settings.log_level ≡ 1
unfolding read_all
level_lem = refl

full_world-IsLogging :
    IsLogging settings.log_level (max_log_size - 111) (log_of full_world settings)
unfolding logger_init log_message log_by write_file echo read_all
full_world-IsLogging = record {
  writes = refl;
  named = (ascii "eth0", refl);
  free = refl;
  leveled = refl;
  counted = refl;
}

main-IsEndless_example :
    Returns
      (λ e k. (k ≡ no_entries) × IsEndless e)
      (main whole plain libc full_world no_rules no_entries)
main-IsEndless_example =
    main-IsEndless whole plain libc full_world settings no_rules ruled analyzer full_world-Starts
      no_entries (max_log_size - 111) opened (λ e. cc (arrival-parsed, e), tt) refl
      (omega (arith, level_lem)) full_world-IsLogging (omega arith)
      (omega (arith, level_lem), (omega (arith, level_lem), tt)) (omega arith)
