-- ===== src/Tests/Logger.antt =====
-- A log that is nearly full, for the theorems on src/core/logger.c.
use anti.Base.{◌-◌, ◌≡◌, ◌↔◌, ◌⊎◌, refl, true, false, [], ◌∷◌, some, success, arith}
use anti.Addr.Text.{ascii}
use anti.Logger.{Logger, Files, warn, info, log_message, blocked, done, max_log_size}
use anti.Logger.Laws.{Jams, log_message-Jams}
use anti.Logger.Jam.{log_all, log_all-blocked}

abbrev files : Files
files = record { renamed = true; opened = true; granted = true }

abbrev nearly_full : Logger
nearly_full = record {
  open_file = true;
  log_file = some (ascii "ddos.log");
  level = 1;
  use_syslog = false;
  locked = false;
  bytes_written = max_log_size - 100;
  lines = [];
}

log_message-Jams_example :
    ((log_message 2 files warn (ascii "attack") nearly_full ≡ blocked)
      ↔ Jams files warn (ascii "attack") nearly_full)
    × ((log_message 2 files warn (ascii "attack") nearly_full ≡ blocked)
        ⊎ ((g' : Logger) × (log_message 2 files warn (ascii "attack") nearly_full ≡ done success g')
            × (g'.locked ≡ false)))
log_message-Jams_example = log_message-Jams 0 files warn (ascii "attack") nearly_full refl

log_all-blocked_example :
    log_all files ((warn, ascii "attack") ∷ (info, ascii "attack") ∷ []) nearly_full ≡ blocked
log_all-blocked_example =
    log_all-blocked files 1 (max_log_size - 100)
      ((warn, ascii "attack") ∷ (info, ascii "attack") ∷ []) refl (omega arith)
      (record {
        writes = refl;
        named = (ascii "ddos.log", refl);
        free = refl;
        leveled = refl;
        counted = refl;
      })
      (omega arith) (omega arith) (omega arith)
