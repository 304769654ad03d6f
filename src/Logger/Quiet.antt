-- ===== src/Logger/Quiet.antt =====
-- A log that filters notes of level INFO never blocks.
use anti.Base.{
  ◌<◌, ◌≡◌, Bool, false, List, [], ◌∷◌, Option, ℤ, refl, arith, Option-cases, inl, inr, ℕ,
}
use anti.Logger.{
  LogLevel, Logger, Outcome, done, blocked, after, Files, log, log_message, log_by, rotate_by,
  write_file, echo, logger_init,
}
use anti.Logger.Laws.{log_message-Jams, Jams}
use anti.Logger.Jam.{log_all}

-- Notes of level INFO are filtered, and the lock is free.
pub record IsQuiet (g : Logger) : Type 0 where
  pub level : 1 < g.level
  pub free : g.locked ≡ false

-- The call returns, and leaves a quiet log.
abbrev pub IsCalm : Outcome → Type 0
IsCalm (done r g) = IsQuiet g
IsCalm blocked = ⊥
IsCalm Outcome.unfinished = ⊥

pub IsCalm-done : (o : Outcome) → IsCalm o → (r : ℤ) × (g : Logger) × (o ≡ done r g)
IsCalm-done (done r g) c = (r, g, refl)
IsCalm-done blocked c = absurd c
IsCalm-done Outcome.unfinished c = absurd c

log-level :
    (files : Files) (level : LogLevel) (text : List ℕ) (g : Logger) {r : ℤ} {g' : Logger}
    → 1 < g.level
    → log files level text g ≡ done r g'
    → g'.level ≡ g.level
unfolding log_message log_by rotate_by write_file echo
log-level files level text g high e = elim (Option-cases g.log_file) [
  | inl anonymous ↦ ground arith
  | inr (name, named) ↦ ground arith
]

pub log-IsCalm :
    (files : Files) (level : LogLevel) (text : List ℕ) (g : Logger)
    → IsQuiet g
    → IsCalm (log files level text g)
log-IsCalm files level text g q =
    let (jams, ends) = log_message-Jams 0 files level text g q.free in
    elim ends [
      | inl b ↦
          absurd (let j : Jams files level text g = jams.0 b in omega (arith, j.tells, q.level))
      | inr (g', e, opened) ↦
          rw e
            (record { level = rw (log-level files level text g q.level e) q.level; free = opened })
    ]

IsCalm-after :
    (o : Outcome) (rest : Logger → Outcome)
    → IsCalm o
    → ((g : Logger) → IsQuiet g → IsCalm (rest g))
    → IsCalm (after o (λ r g. rest g))
IsCalm-after (done r g) rest c f = f g c
IsCalm-after blocked rest c f = c
IsCalm-after Outcome.unfinished rest c f = c

pub log_all-IsCalm :
    (files : Files) (messages : List (LogLevel × List ℕ)) (g : Logger)
    → IsQuiet g
    → IsCalm (log_all files messages g)
unfolding log_all
log_all-IsCalm files [] g q = q
log_all-IsCalm files ((level, text) ∷ rest) g q =
    IsCalm-after _ (log_all files rest) (log-IsCalm files level text g q)
      (λ g' q'. log_all-IsCalm files rest g' q')

-- What `logger_init` leaves where it succeeds with such a level.
pub logger_init-IsQuiet :
    (files : Files) (name : Option (List ℕ)) (level : ℕ) (use_syslog : Bool) (g₀ : Logger) {r : ℤ}
    {g : Logger}
    → 1 < level
    → logger_init files name level use_syslog g₀ ≡ done r g
    → IsQuiet g
unfolding logger_init log_message log_by
logger_init-IsQuiet files name level use_syslog g₀ high e = elim (Option-cases name) [
  | inl anonymous ↦ record { level = ground arith; free = ground arith }
  | inr (path, named) ↦ record { level = ground arith; free = ground arith }
]
