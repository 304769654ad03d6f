-- ===== src/Logger.antt =====
-- src/core/logger.c: the log with its file, its rotation and its lock, from one thread's view. A lock
-- that the thread holds already blocks it for ever, as a default mutex does. The time stamp in front of
-- a line is left out. A message is the text that `vsnprintf` makes of the arguments.
pub mod Laws
pub mod Jam
pub mod Quiet
use anti.Base.{
  ℕ, zero, suc, ◌+◌, ◌*◌, Bool, true, false, ◌&&◌, List, [], ◌∷◌, ◌++◌, Option, none, some, ltb,
  leb, if◌then◌else◌, take, length, u64, ℤ, success, failure,
}
use anti.Addr.{IpAddr}
use anti.Addr.Text.{Inet, ip_addr_to_string, attack_type_to_string, ascii}
use anti.Types.{Attack}

pub data LogLevel : Type 0 where
  debug info warn error critical : LogLevel

-- The value of the enumerator.
abbrev pub rank : LogLevel → ℕ
rank debug = 0
rank info = 1
rank warn = 2
rank error = 3
rank critical = 4

-- Where a line goes. `notice` is a complaint of the logger about its own file.
pub data Line : Type 0 where
  to_file to_syslog to_stderr : LogLevel → List ℕ → Line
  notice : Line

-- `g_logger`: whether `fp` is open, the name of its file, and the lines so far, the last one first.
pub record Logger : Type 0 where
  pub open_file : Bool
  pub log_file : Option (List ℕ)
  pub level : ℕ
  pub use_syslog : Bool
  pub locked : Bool
  pub bytes_written : ℕ
  pub lines : List Line

-- How a call ends: with its result, or not, since it waits for a lock that nobody gives back.
-- `unfinished` where the nesting of calls has reached the depth that is followed.
pub data Outcome : Type 0 where
  done : ℤ → Logger → Outcome
  blocked : Outcome
  unfinished : Outcome

-- The rest runs on the result and the logger.
abbrev pub after : Outcome → (ℤ → Logger → Outcome) → Outcome
after (done r g) rest = rest r g
after blocked rest = blocked
after unfinished rest = unfinished

-- `pthread_mutex_lock` and `pthread_mutex_unlock`.
abbrev pub lock : (Logger → Outcome) → Logger → Outcome
lock rest g = if g.locked then blocked else rest (record g { locked = true })

abbrev pub unlock : Logger → Logger
unlock g = record g { locked = false }

-- What the file system answers to `rename` and to `fopen`, and the allocation of the name.
pub record Files : Type 0 where
  pub renamed : Bool
  pub opened : Bool
  pub granted : Bool

abbrev pub max_log_line : ℕ
max_log_line = 4096

abbrev pub max_log_size : ℕ
max_log_size = 100 * 1024 * 1024

abbrev pub emit : Line → Logger → Logger
emit l g = record g { lines = l ∷ g.lines }

-- What is left of a message in the buffer.
abbrev pub clipped : List ℕ → List ℕ
clipped text = take 4095 text

-- `logger_rotate`, over the call of `log_info` at its end.
unfoldable pub rotate_by : (Logger → Outcome) → Files → Logger → Outcome
rotate_by inform files g =
    let moved = if files.renamed then g else emit notice g in
    let reopened : Logger = record moved { open_file = true; bytes_written = 0 } in
    let told : Outcome = after (inform reopened) (λ r g'. done success g') in
    elim g.log_file [
      | Option.none ↦ done failure g
      | Option.some name ↦
          if g.open_file
          then (if files.opened
              then told
              else done failure (emit notice (record moved { open_file = false })))
          else done failure g
    ]

-- "Write to file", with the check for the rotation.
unfoldable pub write_file : (Logger → Outcome) → LogLevel → List ℕ → Logger → Outcome
write_file rotate level message g =
    let written : Logger = record (emit (to_file level message) g) {
      bytes_written = u64 (g.bytes_written + length message + 64);
    } in
    let full : Outcome = rotate written in
    if g.open_file
    then (if ltb max_log_size written.bytes_written then full else done success written)
    else done success g

-- "Write to syslog", and to stderr from the level of an error on.
unfoldable pub echo : LogLevel → List ℕ → Logger → Logger
echo level message g =
    let told = if g.use_syslog then emit (to_syslog level message) g else g in
    if leb 3 (rank level) then emit (to_stderr level message) told else told

-- A message, over the call that rotates.
unfoldable pub log_by : (Logger → Outcome) → LogLevel → List ℕ → Logger → Outcome
unfolding write_file echo
log_by rotate level text g =
    let message = clipped text in
    let write : Logger → Outcome = λ held.
      after (write_file rotate level message held)
        (λ r g'. done success (unlock (echo level message g'))) in
    if ltb (rank level) g.level then done success g else lock write g

abbrev pub rotated_text : List ℕ
rotated_text = ascii "[INFO] Log file rotated"

-- `log_message` calls `logger_rotate`, which calls `log_message`: the first argument is the depth to
-- which this is followed.
unfoldable pub log_message : ℕ → Files → LogLevel → List ℕ → Logger → Outcome
unfolding log_by rotate_by
log_message zero files level text g = unfinished
log_message (suc depth) files level text g =
    log_by (rotate_by (log_message depth files info rotated_text) files) level text g

-- Two calls inside one another, which `log_message-depth` shows to be all.
abbrev pub log : Files → LogLevel → List ℕ → Logger → Outcome
log files level text = log_message 2 files level text

unfoldable pub logger_rotate : Files → Logger → Outcome
unfolding rotate_by log_message
logger_rotate files g = rotate_by (log files info rotated_text) files g

-- The level is the number of the settings; `level_strings[level]` of the last line is read in range
-- for the five levels.
unfoldable pub logger_init : Files → Option (List ℕ) → ℕ → Bool → Logger → Outcome
unfolding log_message
logger_init files name level use_syslog g₀ =
    let announce : Logger → Outcome =
      λ g. after (log files info (ascii "[INFO] Logger initialized") g) (λ r g'. done success g') in
    let prepare : Logger → Outcome = λ held.
      let g : Logger = record held { level = level; use_syslog = use_syslog } in
      elim name [
        | Option.none ↦ announce (unlock g)
        | Option.some path ↦
            if files.granted
            then (if files.opened
                then announce (unlock (record g { log_file = some path; open_file = true }))
                else done failure
                    (unlock (emit notice (record g { log_file = none; open_file = false }))))
            else done failure (unlock (record g { log_file = none }))
      ] in
    lock prepare g₀

unfoldable pub logger_cleanup : Logger → Outcome
logger_cleanup g₀ =
    let close : Logger → Outcome = λ g.
      done success (unlock (record g { open_file = false; log_file = none; use_syslog = false })) in
    lock close g₀

module _ (net : Inet) where
  unfoldable pub log_attack : Files → Attack → IpAddr → Option (List ℕ) → Logger → Outcome
  unfolding log_message
  log_attack files type src_ip details g =
      let told : List ℕ = elim details [ Option.none ↦ [] | Option.some t ↦ t ] in
      log files warn
        (ascii "ATTACK DETECTED: "
          ++ (ascii (attack_type_to_string type)
              ++ (ascii " from " ++ (ip_addr_to_string net src_ip ++ (ascii " - " ++ told)))))
        g

  unfoldable pub log_packet_drop : Files → IpAddr → List ℕ → Logger → Outcome
  unfolding log_message
  log_packet_drop files src_ip reason g =
      log files debug
        (ascii "Dropped packet from " ++ (ip_addr_to_string net src_ip ++ (ascii ": " ++ reason))) g
