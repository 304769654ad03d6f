-- ===== src/Main/Started.antt =====
-- `main` where all is granted that it asks for.
use anti.Base.{
  ℕ, ◌<◌, ◌≡◌, refl, ap, ◌∙◌, Bool, true, ◌||◌, ◌++◌, none, some, ℤ, success, arith, if◌then◌else◌,
  is_zero, Option-cases, inl, inr,
}
use anti.Conn.Heap.{Heap, pure, done, after}
use anti.Conn.Reason.{Returns}
use anti.Packet.Http.{Libc}
use anti.Settings.{Settings, Jansson, config_validate}
use anti.Settings.Parse.{config_load}
use anti.Firewall.{Firewall, iptables, setup, firewall_init}
use anti.Ipset.{create}
use anti.Analyzer.Table.{IsBlank}
use anti.Analyzer.Baseline.{Doubles, TrafficAnalyzer, analyzer_init}
use anti.Capture.{PacketCapture}
use anti.Logger.{Outcome, logger_init}
use anti.Logger.Laws.{Outcome-cases}
use anti.Logger.Quiet.{IsQuiet, logger_init-IsQuiet}
use anti.Main.{Context, init_context}
use anti.Main.State.{live, freed, of_option, Process, exited, exit_failure, ended, World, nothing}
use anti.Main.Work.{protect, serve, log_of}
use anti.Main.Idle.{AllParse, has_termination}
use anti.Main.Destroyed.{all_granted, fresh_context, init_context-all_granted, quit-empty}
use anti.Main.Ends.{Finishes, Returns-eq, work-Finishes}
use anti.Main.Program.{
  main, with_settings, with_log, logging, start_up, with_context, with_firewall, with_analyzer,
  with_capture, open_capture,
}

firewall_init-commands :
    (fw fw' : Firewall) (granted buckets_granted : Bool)
    → firewall_init fw iptables granted buckets_granted ≡ (success, fw')
    → fw'.commands ≡ setup iptables ++ fw.commands
unfolding firewall_init
firewall_init-commands fw fw' granted buckets_granted e =
    elim (Option-cases (create 100000 granted buckets_granted)) [
      | inl denied ↦ absurd (ground arith)
      | inr (set, given) ↦ ground arith
    ]

pub analyzer_init-IsBlank :
    {D : Type 0} (d : Doubles D) (granted table_granted locks_granted black white : Bool) (now : ℕ)
    {a : TrafficAnalyzer D}
    → analyzer_init d granted table_granted locks_granted black white now ≡ some a
    → IsBlank a.ip_table
unfolding analyzer_init
analyzer_init-IsBlank d granted table_granted locks_granted black white now e i = ground arith

module _ {D V : Type 0} (d : Doubles D) (json : Jansson V) (libc : Libc) where
  log_of-IsQuiet :
      (w : World V) (cfg : Settings)
      → 1 < cfg.log_level
      → logging d json libc w cfg ≡ some true
      → IsQuiet (log_of w cfg)
  unfolding logging
  log_of-IsQuiet w cfg high logs =
      let start : Outcome =
        logger_init w.files cfg.log_file cfg.log_level cfg.syslog_enabled w.logger in
      elim (Outcome-cases start) [
        | inl b ↦ absurd (cc (b, logs))
        | inr (inl u) ↦ absurd (cc (u, logs))
        | inr (inr (r, g, e)) ↦
            rw (log_of, e)
              (logger_init-IsQuiet w.files cfg.log_file cfg.log_level cfg.syslog_enabled w.logger
                high e)
      ]

  -- The program gets what it asks for, up to the capture: the settings `cfg`, the log, the signals, the
  -- context, the set `fw'` of the firewall and the analyzer `a`.
  pub record Starts (w : World V) (cfg : Settings) (fw fw' : Firewall) (a : TrafficAnalyzer D)
      : Type 0 where
    pub loaded : config_load json libc.strdup w.root w.config_granted ≡ some cfg
    pub valid : config_validate (some cfg) ≡ success
    pub logs : logging d json libc w cfg ≡ some true
    pub signals : w.signals_set ≡ true
    pub contexts : w.context_grants ≡ all_granted
    pub walled : firewall_init fw iptables w.set_granted w.buckets_granted ≡ (success, fw')
    pub analyzes :
        analyzer_init d w.analyzer_granted w.ip_table_granted w.locks_granted w.blacklist_granted
          w.whitelist_granted w.now
        ≡ some a

  module _ (w : World V) (cfg : Settings) (fw fw' : Firewall) (a : TrafficAnalyzer D)
      (s : Starts w cfg fw fw' a) (h : Heap) where
    -- The program as it opens the capture.
    abbrev pub prepared : Process D
    prepared = serve w cfg (
        protect d w (record (nothing fw) {
          config = live cfg;
          context = live (fresh_context w.now);
          firewall = fw';
        }))

    abbrev settled : Process D
    settled = record (nothing fw) { config = live cfg }

    abbrev context : Context
    context = fresh_context w.now

    from_settings :
        with_settings d json libc w fw (some cfg) h
        ≡ with_log d json libc w cfg settled (logging d json libc w cfg) h
    unfolding with_settings
    from_settings =
        ap
          (λ v.
            (if is_zero v
                then with_log d json libc w cfg settled (logging d json libc w cfg)
                else pure (exited exit_failure (record settled { config = freed })))
              h)
          s.valid

    from_log :
        with_log d json libc w cfg settled (some true) h ≡ start_up d json libc w cfg settled true h
    unfolding with_log
    from_log = ap (λ b. start_up d json libc w cfg settled b h) s.signals

    from_context :
        start_up d json libc w cfg settled true h
        ≡ with_context d json libc w cfg settled (some context) h
    unfolding start_up
    from_context =
        ap (λ r. after r (λ made k. with_context d json libc w cfg settled made k))
          (ap (λ g. init_context g w.now h) s.contexts ∙ init_context-all_granted w.now h)

    abbrev walled : Process D
    walled = record settled { context = live context; firewall = fw' }

    from_firewall :
        with_context d json libc w cfg settled (some context) h
        ≡ with_analyzer d json libc w cfg context
            (protect d w walled)
            (protect d w walled).analyzer
            h
    unfolding with_context with_firewall
    from_firewall = ap (λ r. with_firewall d json libc w cfg context settled r h) s.walled

    from_analyzer :
        with_analyzer d json libc w cfg context (protect d w walled) (protect d w walled).analyzer h
        ≡ with_capture d json libc w cfg context a prepared (open_capture d json libc w cfg) h
    unfolding with_analyzer protect
    from_analyzer =
        ap (λ o. with_analyzer d json libc w cfg context (protect d w walled) (of_option o) h)
          s.analyzes

    pub main-with_capture :
        main d json libc w fw h
        ≡ with_capture d json libc w cfg context a prepared (open_capture d json libc w cfg) h
    unfolding main
    main-with_capture =
        ap (λ o. with_settings d json libc w fw o h) s.loaded
        ∙ from_settings
        ∙ ap (λ o. with_log d json libc w cfg settled o h) s.logs
        ∙ from_log
        ∙ from_context
        ∙ from_firewall
        ∙ from_analyzer

    -- Where all is granted but the capture, the program exits with failure: it frees the context while its
    -- two threads still run on it, leaves its chain in the rules of the kernel, and keeps the analyzer.
    pub main-no_capture :
        open_capture d json libc w cfg ≡ none
        → (q : Process D) × (main d json libc w fw h ≡ done (exited exit_failure q) h)
          × (q.context ≡ freed)
          × (q.stats_thread ≡ true)
          × (q.cleanup_thread ≡ true)
          × (q.firewall.commands ≡ setup iptables ++ fw.commands)
          × (q.analyzer ≡ live a)
    unfolding serve protect
    main-no_capture closed = (
      record prepared { context = freed; config = freed },
      main-with_capture
          ∙ ap (λ o. with_capture d json libc w cfg context a prepared o h) closed
          ∙ unfold with_capture in quit-empty exit_failure prepared context _ _ h refl refl refl,
      refl,
      refl,
      refl,
      firewall_init-commands fw fw' w.set_granted w.buckets_granted s.walled,
      ap of_option s.analyzes,
    )

    -- Where all is granted, the log filters notes of level INFO, the capture ends and the parser stays
    -- inside the frames: whatever is logged meanwhile, if a signal to terminate has come by then, or comes
    -- while the program waits, it exits with success, with each object released and both threads ended.
    -- Without one it never exits, and its threads go on.
    pub main-Finishes :
        {pc : PacketCapture} {ret : ℤ}
        → open_capture d json libc w cfg ≡ some pc
        → 1 < cfg.log_level
        → w.loop_end ≡ ended ret
        → AllParse libc w.events
        → Returns
            (λ e k. (k ≡ h) × Finishes (has_termination w.events || w.later) e)
            (main d json libc w fw h)
    unfolding serve protect with_capture
    main-Finishes {pc} opens high ends parse =
        Returns-eq _
          (main-with_capture
            ∙ ap (λ o. with_capture d json libc w cfg context a prepared o h) opens)
          (work-Finishes _ _ h libc w cfg context a (record prepared { capture = live pc }) ends
            parse (log_of-IsQuiet w cfg high s.logs)
            (analyzer_init-IsBlank d w.analyzer_granted w.ip_table_granted w.locks_granted
              w.blacklist_granted w.whitelist_granted w.now s.analyzes)
            refl refl refl refl)
