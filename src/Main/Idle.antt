-- ===== src/Main/Idle.antt =====
-- While no address has an entry, the worker leaves the connections alone, whatever happens.
use anti.Base.{
  ℕ, ◌≡◌, ◌≢◌, refl, ap, sym, ◌∙◌, Bool, true, false, ◌||◌, ◌&&◌, List, [], ◌∷◌, Option, none, some,
  fault, is_zero, Bool-cases, inl, inr, Run-total,
}
use anti.Types.{Config}
use anti.Packet.{Packet}
use anti.Packet.Http.{Libc}
use anti.Conn.Heap.{Heap, done, M, Outcome, after, pure}
use anti.Conn.Reason.{Returns, Returns-after}
use anti.Lru.{LruCache}
use anti.Lru.Cleanup.{lru_cache_cleanup_expired, cleanup_from}
use anti.Analyzer.Table.{IsBlank}
use anti.Analyzer.Handler.{Worker, Surroundings, packet_handler}
use anti.Analyzer.Blank.{handler-IsBlank}
use anti.Capture.{Frame, parse_frame, pcap_callback}
use anti.Main.{
  Event, arrives, cleans, reports, signals, is_termination, happen, capture, cleanup_round,
  signal_handler, stats_round, Progress, going, stuck, resumed, go_on, Message,
}
use anti.Logger
use anti.Logger.{info, Logger, Files, log}
use anti.Logger.Jam.{log_all}
use anti.Logger.Quiet.{IsQuiet, IsCalm, log-IsCalm, log_all-IsCalm}

-- The table is empty, the cache is `c`, and `shutdown` says whether a signal to terminate has come.
pub record IsIdle (c : LruCache) (shutdown : Bool) (w : Worker) : Type 0 where
  pub blank : IsBlank w.engine.table
  pub cache : w.engine.cache ≡ c
  pub asked : w.shutdown ≡ shutdown

-- The worker is idle and the log quiet, and no thread is stuck.
abbrev pub IsGoing : LruCache → Bool → Progress → Type 0
IsGoing c b (going w g) = IsIdle c b w × IsQuiet g
IsGoing c b (stuck w) = ⊥

-- A signal to terminate is among the events.
abbrev pub has_termination : List Event → Bool
has_termination [] = false
has_termination (arrives f ms ∷ es) = has_termination es
has_termination (cleans now ms ∷ es) = has_termination es
has_termination (reports text ∷ es) = has_termination es
has_termination (signals sig text ∷ es) = is_termination sig || has_termination es

-- The parser stays inside the captured bytes of every frame that arrives.
abbrev pub AllParse : Libc → List Event → Type 0
AllParse libc [] = Unit {0}
AllParse libc (arrives f ms ∷ es) = (parse_frame libc f ≢ fault) × AllParse libc es
AllParse libc (cleans now ms ∷ es) = AllParse libc es
AllParse libc (reports text ∷ es) = AllParse libc es
AllParse libc (signals sig text ∷ es) = AllParse libc es

ignored :
    (cfg : Config) (s : Surroundings) (pkt : Packet) (w : Worker) (h : Heap)
    → w.shutdown ≡ true
    → packet_handler cfg s pkt w h ≡ done w h
unfolding packet_handler
ignored cfg s pkt w h over = rw over refl

or_assoc : (a b c : Bool) → ((a || b) || c) ≡ (a || (b || c))
or_assoc true b c = refl
or_assoc false b c = refl

over_true : (b : Bool) → true ≡ (b || true)
over_true true = refl
over_true false = refl

cleanup_from-none :
    (fuel now : ℕ) (p : Option ℕ) (s : LruCache × ℕ) (h : Heap)
    → p ≡ none
    → cleanup_from fuel now p s h ≡ done s h
unfolding cleanup_from
cleanup_from-none fuel now none s h e = refl
cleanup_from-none fuel now (some p) s h e = cc

or_false : (a : Bool) → (a || false) ≡ a
or_false true = refl
or_false false = refl

module _ (cfg : Config) (libc : Libc) (c : LruCache) (h : Heap) (empty : c.tail ≡ none) where
  packet_handler-IsIdle :
      (s : Surroundings) (pkt : Packet) (w : Worker) (b : Bool)
      → IsIdle c b w
      → Returns (λ u k. (k ≡ h) × IsIdle c b u) (packet_handler cfg s pkt w h)
  packet_handler-IsIdle s pkt w b v = elim (Bool-cases w.shutdown) [
    | inl over ↦ rw (ignored cfg s pkt w h over) (refl, v)
    | inr running ↦
        let (table, still, e) = handler-IsBlank cfg s pkt w h running v.blank in
        rw e (refl, record { blank = still; cache = v.cache; asked = v.asked })
  ]

  pub pcap_callback-IsIdle :
      (f : Frame) (w : Worker) (b : Bool)
      → parse_frame libc f ≢ fault
      → IsIdle c b w
      → Returns (λ u k. (k ≡ h) × IsIdle c b u) (pcap_callback cfg libc f w h)
  unfolding pcap_callback
  pcap_callback-IsIdle f w b fine v =
      let (p, e) = Run-total (parse_frame libc f) fine in
      elim (Bool-cases (f.granted && f.data_granted)) [
        | inl given ↦ elim (Bool-cases (is_zero p.0)) [
          | inl good ↦
              rw (given, pcap_callback)
                (rw e (rw good (packet_handler-IsIdle f.surroundings p.1 w b v)))
          | inr bad ↦ rw (given, pcap_callback) (rw e (rw bad (refl, v)))
        ]
        | inr denied ↦ rw (denied, pcap_callback) (refl, v)
      ]

  pub cleanup_round-IsIdle :
      (now : ℕ) (w : Worker) (b : Bool)
      → IsIdle c b w
      → Returns (λ u k. (k ≡ h) × IsIdle c b u) (cleanup_round now w h)
  unfolding cleanup_round lru_cache_cleanup_expired
  cleanup_round-IsIdle now w b v =
      let old = w.engine.cache in
      let tail : old.tail ≡ none = ap (λ (x : LruCache). x.tail) v.cache ∙ empty in
      rw
        (
          cleanup_from-none h.fresh now old.tail (old, 0) h tail,
          cleanup_round,
          lru_cache_cleanup_expired,
        )
        (refl, record { blank = v.blank; cache = v.cache; asked = v.asked })

  module _ (files : Files) where
    resumed-IsGoing :
        (u : Worker) (o : Logger.Outcome) (b : Bool)
        → IsIdle c b u
        → IsCalm o
        → IsGoing c b (resumed u o)
    resumed-IsGoing u (Logger.done r g) b v q = (v, q)
    resumed-IsGoing u Logger.blocked b v q = q
    resumed-IsGoing u Logger.unfinished b v q = q

    signal_handler-IsGoing :
        (sig : ℕ) (text : List ℕ) (w : Worker) (g : Logger) (b : Bool)
        → IsIdle c b w
        → IsQuiet g
        → IsGoing c (b || is_termination sig) (signal_handler cfg libc files sig text w g)
    unfolding signal_handler
    signal_handler-IsGoing sig text w g b v q = elim (Bool-cases (is_termination sig)) [
      | inl ends ↦ rw ends (
          resumed-IsGoing (record w { shutdown = true }) (log files info text g) (b || true)
            (record { blank = v.blank; cache = v.cache; asked = over_true b })
            (log-IsCalm files info text g q))
      | inr other ↦
          rw other
            (record { blank = v.blank; cache = v.cache; asked = v.asked ∙ sym (or_false b) }, q)
    ]

    noted :
        (ms : List Message) (g : Logger) (b : Bool)
        → IsQuiet g
        → (m : M Worker) → Returns (λ u k. (k ≡ h) × IsIdle c b u) (m h)
        → Returns
            (λ p k. (k ≡ h) × IsGoing c b p)
            (after (m h) (λ u. pure (resumed u (log_all files ms g))))
    noted ms g b q m r =
        Returns-after (λ u k. (k ≡ h) × IsIdle c b u) (λ p k. (k ≡ h) × IsGoing c b p) (m h)
          (λ u. pure (resumed u (log_all files ms g))) r
          (λ u k x.
            (x.0, resumed-IsGoing u (log_all files ms g) b x.1 (log_all-IsCalm files ms g q)))

    module _ (rest : Worker → Logger → M Progress) (b b' : Bool)
        (f : (w : Worker) (g : Logger)
          → IsIdle c b w
          → IsQuiet g
          → Returns (λ p k. (k ≡ h) × IsGoing c b' p) (rest w g h)) where
      go_on-IsGoing :
          (p : Progress) (k : Heap)
          → k ≡ h
          → IsGoing c b p
          → Returns (λ p k. (k ≡ h) × IsGoing c b' p) (go_on cfg libc files rest p k)
      go_on-IsGoing (going w g) k e v = rw e (f w g v.0 v.1)
      go_on-IsGoing (stuck w) k e v = absurd v

      gone_on :
          (o : Outcome Progress)
          → Returns (λ p k. (k ≡ h) × IsGoing c b p) o
          → Returns (λ p k. (k ≡ h) × IsGoing c b' p) (after o (go_on cfg libc files rest))
      gone_on o r =
          Returns-after (λ p k. (k ≡ h) × IsGoing c b p) (λ p k. (k ≡ h) × IsGoing c b' p) o
            (go_on cfg libc files rest) r (λ p k x. go_on-IsGoing p k x.0 x.1)

    -- The events come to an end, and leave the heap as it was.
    pub capture-IsGoing :
        (es : List Event) (w : Worker) (g : Logger) (b : Bool)
        → AllParse libc es
        → IsIdle c b w
        → IsQuiet g
        → Returns
            (λ p k. (k ≡ h) × IsGoing c (b || has_termination es) p)
            (capture cfg libc files es w g h)
    unfolding capture happen stats_round
    capture-IsGoing [] w g b a v q = (refl, (rw (or_false b) v, q))
    capture-IsGoing (arrives f ms ∷ es) w g b a v q =
        gone_on (capture cfg libc files es) b _ (λ u g' v' q'. capture-IsGoing es u g' b a.1 v' q')
          _ (noted ms g b q (pcap_callback cfg libc f w) (pcap_callback-IsIdle f w b a.0 v))
    capture-IsGoing (cleans now ms ∷ es) w g b a v q =
        gone_on (capture cfg libc files es) b _ (λ u g' v' q'. capture-IsGoing es u g' b a v' q') _
          (noted ms g b q (cleanup_round now w) (cleanup_round-IsIdle now w b v))
    capture-IsGoing (reports text ∷ es) w g b a v q =
        gone_on (capture cfg libc files es) b _ (λ u g' v' q'. capture-IsGoing es u g' b a v' q')
          (happen cfg libc files (reports text) w g h)
          (refl, resumed-IsGoing w (log files info text g) b v (log-IsCalm files info text g q))
    capture-IsGoing (signals sig text ∷ es) w g b a v q =
        rw (sym (or_assoc b (is_termination sig) (has_termination es))) (
          gone_on (capture cfg libc files es) (b || is_termination sig) _
            (λ u g' v' q'. capture-IsGoing es u g' (b || is_termination sig) a v' q')
            (happen cfg libc files (signals sig text) w g h)
            (refl, signal_handler-IsGoing sig text w g b v q))
