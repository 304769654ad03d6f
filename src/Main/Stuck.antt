-- ===== src/Main/Stuck.antt =====
-- A log that blocks, and what it does to the program.
use anti.Base.{
  ℕ, ◌≡◌, refl, sym, ◌∙◌, Bool, List, [], ◌∷◌, ◌++◌, if◌then◌else◌, true, Bool-cases, inl, inr,
  Option, arith,
}
use anti.Types.{Config}
use anti.Packet.Http.{Libc}
use anti.Conn.Heap.{Heap, after, M, pure}
use anti.Conn.Reason.{Returns, Returns-after}
use anti.Lru.{LruCache}
use anti.Logger
use anti.Logger.{info, Logger, Files, log}
use anti.Logger.Laws.{Outcome-cases}
use anti.Logger.Jam.{log_all}
use anti.Analyzer.Handler.{Worker}
use anti.Main.{
  Event, Message, Progress, going, stuck, arrives, cleans, reports, signals, is_termination, happen,
  capture, resumed, go_on, cleanup_round, signal_handler, stats_round,
}
use anti.Capture.{pcap_callback}
use anti.Main.Idle.{IsIdle, AllParse, pcap_callback-IsIdle, cleanup_round-IsIdle}

-- What the events write to the log, in their order.
abbrev pub messages_of : List Event → List Message
messages_of [] = []
messages_of (arrives f ms ∷ es) = ms ++ messages_of es
messages_of (cleans now ms ∷ es) = ms ++ messages_of es
messages_of (reports text ∷ es) = (info, text) ∷ messages_of es
messages_of (signals sig text ∷ es) =
    (if is_termination sig then (info, text) ∷ [] else []) ++ messages_of es

abbrev pub IsStuck : Progress → Type 0
IsStuck (going w g) = ⊥
IsStuck (stuck w) = Unit {0}

log_all-append :
    (files : Files) (xs ys : List Message) (g : Logger)
    → log_all files (xs ++ ys) g ≡ Logger.after (log_all files xs g) (λ r g'. log_all files ys g')
unfolding log_all
log_all-append files [] ys g = refl
log_all-append files ((l, t) ∷ xs) ys g = elim (Outcome-cases (log files l t g)) [
  | inl b ↦ rw b refl
  | inr (inl u) ↦ rw u refl
  | inr (inr (r, g', e)) ↦ rw e (log_all-append files xs ys g')
]

module _ (cfg : Config) (libc : Libc) (c : LruCache) (h : Heap) (empty : c.tail ≡ Option.none)
    (files : Files) where
  -- What is logged blocks, or the rest does.
  split :
      (rest : Worker → Logger → M Progress) (u : Worker) (o : Logger.Outcome) (ys : List Message)
      → Logger.after o (λ r g'. log_all files ys g') ≡ Logger.blocked
      → ((g' : Logger)
          → log_all files ys g' ≡ Logger.blocked
          → Returns (λ p k. (k ≡ h) × IsStuck p) (rest u g' h))
      → Returns (λ p k. (k ≡ h) × IsStuck p) (go_on cfg libc files rest (resumed u o) h)
  split rest u (Logger.done r g') ys b f = f g' b
  split rest u Logger.blocked ys b f = (refl, tt)
  split rest u Logger.unfinished ys b f = (refl, tt)

  noted :
      (rest : Worker → Logger → M Progress) (g : Logger) (ms ys : List Message) (b : Bool)
      (m : M Worker)
      → log_all files (ms ++ ys) g ≡ Logger.blocked
      → Returns (λ u k. (k ≡ h) × IsIdle c b u) (m h)
      → ((u : Worker) (g' : Logger)
          → IsIdle c b u
          → log_all files ys g' ≡ Logger.blocked
          → Returns (λ p k. (k ≡ h) × IsStuck p) (rest u g' h))
      → Returns
          (λ p k. (k ≡ h) × IsStuck p)
          (after
            (after (m h) (λ u. pure (resumed u (log_all files ms g))))
            (go_on cfg libc files rest))
  noted rest g ms ys b m e r f =
      let Goes : Progress → Type 0 =
        λ p. Returns (λ p k. (k ≡ h) × IsStuck p) (go_on cfg libc files rest p h) in
      let handed =
        Returns-after (λ u k. (k ≡ h) × IsIdle c b u) (λ p k. (k ≡ h) × Goes p) (m h)
          (λ u. pure (resumed u (log_all files ms g))) r
          (λ u k x. (
            x.0,
            split rest u (log_all files ms g) ys (sym (log_all-append files ms ys g) ∙ e)
                (λ g' e'. f u g' x.1 e'),
          )) in
      Returns-after (λ p k. (k ≡ h) × Goes p) (λ p k. (k ≡ h) × IsStuck p) _
        (go_on cfg libc files rest) handed (λ p k x. rw x.0 x.1)

  asked :
      (sig : ℕ) (w : Worker) (b : Bool)
      → is_termination sig ≡ true
      → IsIdle c b w
      → IsIdle c true (record w { shutdown = true })
  asked sig w b ends v = record { blank = v.blank; cache = v.cache; asked = refl }

  -- While no address has an entry, events whose messages block the log leave the program stuck.
  pub capture-IsStuck :
      (es : List Event) (w : Worker) (g : Logger) (b : Bool)
      → AllParse libc es
      → IsIdle c b w
      → log_all files (messages_of es) g ≡ Logger.blocked
      → Returns (λ p k. (k ≡ h) × IsStuck p) (capture cfg libc files es w g h)
  unfolding capture happen stats_round signal_handler log_all
  capture-IsStuck [] w g b a v e = absurd (ground arith)
  capture-IsStuck (arrives f ms ∷ es) w g b a v e =
      noted (capture cfg libc files es) g ms (messages_of es) b (pcap_callback cfg libc f w) e
        (pcap_callback-IsIdle cfg libc c h empty f w b a.0 v)
        (λ u g' v' e'. capture-IsStuck es u g' b a.1 v' e')
  capture-IsStuck (cleans now ms ∷ es) w g b a v e =
      noted (capture cfg libc files es) g ms (messages_of es) b (cleanup_round now w) e
        (cleanup_round-IsIdle cfg libc c h empty now w b v)
        (λ u g' v' e'. capture-IsStuck es u g' b a v' e')
  capture-IsStuck (reports text ∷ es) w g b a v e =
      split (capture cfg libc files es) w (log files info text g) (messages_of es) e
        (λ g' e'. capture-IsStuck es w g' b a v e')
  capture-IsStuck (signals sig text ∷ es) w g b a v e = elim (Bool-cases (is_termination sig)) [
    | inl ends ↦
        let w' : Worker = record w { shutdown = true } in
        rw ends (
          split (capture cfg libc files es) w' (log files info text g) (messages_of es)
            (rw ends at e) (λ g' e'. capture-IsStuck es w' g' true a (asked sig w b ends v) e'))
    | inr other ↦ rw other (capture-IsStuck es w g b a v (rw other at e))
  ]
