-- ===== src/Logger/Jam.antt =====
-- A program that keeps logging comes to the rotation that blocks it.
use anti.Base.{
  ℕ, ◌+◌, ◌≤◌, ◌<◌, ◌≡◌, true, false, List, [], ◌∷◌, some, ltb, length, arith, Bool-cases, inl, inr,
  success, u64, length-take-le,
}
use anti.Logger.{
  LogLevel, rank, Logger, Outcome, done, blocked, after, Files, max_log_size, clipped, log,
  log_message, log_by, rotate_by, write_file, echo, emit, unlock, to_file,
}
use anti.Logger.Laws.{log_message-Jams, Jams}

-- The messages of a run, one after the other.
unfoldable pub log_all : Files → List (LogLevel × List ℕ) → Logger → Outcome
log_all files [] g = done success g
log_all files ((level, text) ∷ rest) g =
    after (log files level text g) (λ r g'. log_all files rest g')

-- What the messages add to `bytes_written`.
abbrev pub cost : List (LogLevel × List ℕ) → ℕ
cost [] = 0
cost ((level, text) ∷ rest) = length (clipped text) + 64 + cost rest

abbrev pub AllHeard : ℕ → List (LogLevel × List ℕ) → Type 0
AllHeard level [] = Unit {0}
AllHeard level ((l, text) ∷ rest) = (level ≤ rank l) × AllHeard level rest

-- A log in use: the file is open, and the lock is free.
pub record IsLogging (level bytes : ℕ) (g : Logger) : Type 0 where
  pub writes : g.open_file ≡ true
  pub named : (name : List ℕ) × (g.log_file ≡ some name)
  pub free : g.locked ≡ false
  pub leveled : g.level ≡ level
  pub counted : g.bytes_written ≡ bytes

module _ (files : Files) (level bytes : ℕ) where
  -- The logger after a line that does not fill the file.
  abbrev grown : LogLevel → List ℕ → Logger → Logger
  grown l text g =
      let message = clipped text in
      let written : Logger = record (emit (to_file l message) (record g { locked = true })) {
        bytes_written = bytes + length message + 64;
      } in
      unlock (echo l message written)

  log_below :
      {g : Logger} (l : LogLevel) (text : List ℕ)
      → IsLogging level bytes g
      → level ≤ rank l
      → bytes + length (clipped text) + 64 ≤ max_log_size
      → (log files l text g ≡ done success (grown l text g))
        × IsLogging level (bytes + length (clipped text) + 64) (grown l text g)
  unfolding log_message log_by rotate_by write_file echo
  log_below {g} l text v heard small = (
    ground (arith, v.counted, v.leveled, v.writes, v.free),
    record {
      writes = ground (arith, v.writes);
      named = (v.named.0, ground (arith, v.named.1));
      free = ground arith;
      leveled = ground (arith, v.leveled);
      counted = ground arith;
    },
  )

crosses :
    (b n : ℕ)
    → b ≤ max_log_size
    → n ≤ 4095
    → ltb max_log_size (b + n + 64) ≡ true
    → max_log_size < u64 (b + n + 64)
crosses b n small short over = ground arith

-- While the level of the log lets notes of level INFO pass and the file can be opened again, messages
-- that add up to more than 100 MB block the thread that writes them, before the last of them is done.
pub log_all-blocked :
    (files : Files) (level bytes : ℕ) {g : Logger} (messages : List (LogLevel × List ℕ))
    → files.opened ≡ true
    → level ≤ 1
    → IsLogging level bytes g
    → bytes ≤ max_log_size
    → AllHeard level messages
    → max_log_size < bytes + cost messages
    → log_all files messages g ≡ blocked
unfolding log_all
log_all-blocked files level bytes [] reopens low v small heard large = absurd (omega arith)
log_all-blocked files level bytes {g} ((l, text) ∷ rest) reopens low v small heard large =
    elim (Bool-cases (ltb max_log_size (bytes + length (clipped text) + 64))) [
      | inl over ↦
          let jams : Jams files l text g = record {
            heard = omega (arith, heard.0, v.leveled);
            writes = v.writes;
            named = λ e. cc (e, v.named.1);
            over =
                rw v.counted
                  (crosses bytes (length (clipped text)) small (length-take-le 4095 text) over);
            reopens = reopens;
            tells = omega (arith, v.leveled);
          } in
          rw ((log_message-Jams 0 files l text g v.free).0.1 jams)
      | inr under ↦
          let (ran, kept) = log_below files level bytes l text v heard.0 (ground arith) in
          rw ran (
            log_all-blocked files level (bytes + length (clipped text) + 64) rest reopens low kept
              (ground arith) heard.1 (omega arith))
    ]
