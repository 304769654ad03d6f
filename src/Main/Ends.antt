-- ===== src/Main/Ends.antt =====
-- How the program ends.
use anti.Base.{ℕ, ◌≡◌, refl, ap, ◌∙◌, Bool, true, false, ◌||◌, none, ℤ, ok}
use anti.Conn.Heap.{Heap, Outcome, after, lift}
use anti.Conn.Reason.{Returns, Returns-after}
use anti.Packet.Http.{Libc}
use anti.Settings.{Settings, detection}
use anti.Analyzer.Table.{IsBlank}
use anti.Analyzer.Baseline.{TrafficAnalyzer, analyzer_cleanup}
use anti.Analyzer.{ip_stats_table_size}
use anti.Firewall.{firewall_cleanup}
use anti.Logger.Jam.{log_all}
use anti.Logger.Quiet.{IsQuiet, IsCalm-done, log_all-IsCalm}
use anti.Main.{Context, capture, Progress, going, stuck}
use anti.Main.State.{
  Memory, absent, live, freed, to_option, release, Process, Exit, exited, endless, exit_success,
  LoopEnd, ended, World, quit,
}
use anti.Main.Work.{work, wind_down, conclude, cleared, worker_of, worked, log_of, leave}
use anti.Main.Idle.{IsGoing, AllParse, has_termination, capture-IsGoing}
use anti.Main.Destroyed.{empty_table, empty_cache, quit-empty, free_entries-blank}

-- The object is not in use.
abbrev pub IsGone : {A : Type 0} → Memory A → Type 0
IsGone absent = Unit {0}
IsGone (live a) = ⊥
IsGone freed = Unit {0}

release-IsGone : {A : Type 0} (m : Memory A) → IsGone (release m)
release-IsGone absent = tt
release-IsGone (live a) = tt
release-IsGone freed = tt

-- Nothing of the program is in use, and its threads have ended.
pub record IsReleased {D : Type 0} (q : Process D) : Type 0 where
  pub config : IsGone q.config
  pub context : IsGone q.context
  pub analyzer : IsGone q.analyzer
  pub udp : IsGone q.udp
  pub tcp : IsGone q.tcp
  pub icmp : IsGone q.icmp
  pub http : IsGone q.http
  pub geoip : IsGone q.geoip
  pub xdp : IsGone q.xdp
  pub api : IsGone q.api
  pub websocket : IsGone q.websocket
  pub capture : IsGone q.capture
  pub unblocked : q.firewall.blocked ≡ none
  pub stats_thread : q.stats_thread ≡ false
  pub cleanup_thread : q.cleanup_thread ≡ false

-- After a signal the program exits with success and all is released; without one it waits for ever for
-- its threads, which still run.
abbrev pub Finishes : {D : Type 0} → Bool → Exit D → Type 0
Finishes true (exited ret q) = (ret ≡ exit_success) × IsReleased q
Finishes true (endless q) = ⊥
Finishes false (exited ret q) = ⊥
Finishes false (endless q) = (q.stats_thread ≡ true) × (q.cleanup_thread ≡ true)

pub Returns-eq :
    {A : Type 0} (P : A → Heap → Type 0) {o o' : Outcome A} → o ≡ o' → Returns P o' → Returns P o
Returns-eq P e r = rw e r

module _ {D : Type 0} (table_size cache_size : ℕ) (h : Heap) where
  wind_down-Finishes :
      (p : Process D) (ctx : Context) (a : TrafficAnalyzer D)
      → p.context ≡ live ctx
      → p.analyzer ≡ live a
      → IsBlank a.ip_table
      → ctx.conn_table ≡ empty_table table_size
      → ctx.lru_cache ≡ empty_cache cache_size
      → Returns (λ e k. (k ≡ h) × Finishes true e) (wind_down p h)
  unfolding wind_down firewall_cleanup
  wind_down-Finishes p ctx a there analyzed blank t c =
      let cleaned : analyzer_cleanup (to_option p.analyzer) ≡ ok tt =
        ap (λ m. analyzer_cleanup (to_option m)) analyzed
        ∙ unfold analyzer_cleanup in free_entries-blank ip_stats_table_size 0 a.ip_table blank in
      Returns-eq _
        (ap (λ r. after (lift r h) (λ _ k. quit exit_success (cleared p) k)) cleaned
          ∙ quit-empty exit_success (cleared p) ctx table_size cache_size h there t c)
        (
          refl,
          (
            refl,
            record {
              config = release-IsGone p.config;
              context = release-IsGone p.context;
              analyzer = release-IsGone p.analyzer;
              udp = tt;
              tcp = tt;
              icmp = tt;
              http = tt;
              geoip = release-IsGone p.geoip;
              xdp = release-IsGone p.xdp;
              api = release-IsGone _;
              websocket = release-IsGone _;
              capture = release-IsGone _;
              unblocked = refl;
              stats_thread = refl;
              cleanup_thread = refl;
            },
          ),
        )

  conclude-Finishes :
      (b : Bool) (p : Process D) (ctx : Context) (a : TrafficAnalyzer D) {end : LoopEnd} {ret : ℤ}
      → end ≡ ended ret
      → p.context ≡ live ctx
      → p.analyzer ≡ live a
      → IsBlank a.ip_table
      → ctx.conn_table ≡ empty_table table_size
      → ctx.lru_cache ≡ empty_cache cache_size
      → p.stats_thread ≡ true
      → p.cleanup_thread ≡ true
      → Returns (λ e k. (k ≡ h) × Finishes b e) (conclude end b p h)
  unfolding conclude
  conclude-Finishes true p ctx a e there analyzed blank t c stats cleanup =
      Returns-eq _ (ap (λ l. conclude l true p h) e)
        (wind_down-Finishes p ctx a there analyzed blank t c)
  conclude-Finishes false p ctx a e there analyzed blank t c stats cleanup =
      Returns-eq _ (ap (λ l. conclude l false p h) e) (refl, (stats, cleanup))

  leave-Finishes :
      {V : Type 0} (w : World V) (ctx : Context) (a : TrafficAnalyzer D) (p : Process D)
      (asked : Bool) {ret : ℤ}
      → w.loop_end ≡ ended ret
      → ctx.conn_table ≡ empty_table table_size
      → p.stats_thread ≡ true
      → p.cleanup_thread ≡ true
      → (m : Progress) (k : Heap) → k ≡ h
      → IsGoing (empty_cache cache_size) asked m
      → Returns (λ e k. (k ≡ h) × Finishes (asked || w.later) e) (leave w ctx a p m k)
  unfolding leave
  leave-Finishes w ctx a p asked ends t stats cleanup (stuck u) k same v = absurd v
  leave-Finishes w ctx a p asked ends t stats cleanup (going u g) k same (idle, quiet) =
      let (ret, g', e) =
        IsCalm-done (log_all w.files w.closing g) (log_all-IsCalm w.files w.closing g quiet) in
      rw (leave, e)
        (rw same (
          rw idle.asked (
            conclude-Finishes (asked || w.later) (worked u ctx a p) _ _ ends refl refl idle.blank t
              idle.cache stats cleanup)))

  pub work-Finishes :
      {V : Type 0} (libc : Libc) (w : World V) (cfg : Settings) (ctx : Context)
      (a : TrafficAnalyzer D) (p : Process D) {ret : ℤ}
      → w.loop_end ≡ ended ret
      → AllParse libc w.events
      → IsQuiet (log_of w cfg)
      → IsBlank a.ip_table
      → ctx.conn_table ≡ empty_table table_size
      → ctx.lru_cache ≡ empty_cache cache_size
      → p.stats_thread ≡ true
      → p.cleanup_thread ≡ true
      → Returns
          (λ e k. (k ≡ h) × Finishes (has_termination w.events || w.later) e)
          (work libc w cfg ctx a p h)
  unfolding work
  work-Finishes libc w cfg ctx a p ends parse quiet blank t c stats cleanup =
      let asked = has_termination w.events in
      Returns-after (λ m k. (k ≡ h) × IsGoing (empty_cache cache_size) asked m) _
        (capture (detection cfg) libc w.files w.events (worker_of p ctx a) (log_of w cfg) h) _
        (capture-IsGoing (detection cfg) libc (empty_cache cache_size) h refl w.files w.events
          (worker_of p ctx a) (log_of w cfg) false parse
          (record { blank = blank; cache = c; asked = refl }) quiet)
        (λ m k x. leave-Finishes w ctx a p asked ends t stats cleanup m k x.0 x.1)
