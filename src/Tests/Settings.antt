-- ===== src/Tests/Settings.antt =====
-- A file with empty sections, for the theorem on src/core/config.c.
use anti.Base.{◌≡◌, refl, Bool, true, false, Option, some, none, arith}
use anti.Conn.Heap.{established}
use anti.Protect.Tcp.{check_flags, ack_flag}
use anti.Settings.{Key, Jansson, Settings, detection, zeroed}
use anti.Settings.Parse.{config_load, parse_config_json, read_all}
use anti.Settings.Thresholds.{check_flags-config_load}
use anti.Tests.Tcp.{counters, watch}
use anti.Protect.Tcp.Analysis.{watch_of}

-- The root, `true`, has every section, and each is empty.
abbrev member : Bool → Key → Option Bool
member true k = some false
member false k = none

abbrev sections : Jansson Bool
sections = record {
  object_get = member;
  is_true = λ v. false;
  integer = λ v. none;
  text = λ v. none;
}

abbrev loaded : Settings
loaded = read_all sections some true zeroed

check_flags-config_load_example :
    (loaded.tcp_ack_pps_threshold ≡ 0)
    × ((check_flags (detection loaded) 20 ack_flag established (watch_of counters watch)).2 ≡ true)
unfolding config_load parse_config_json
check_flags-config_load_example =
    check_flags-config_load sections some (some true) true loaded 20 established
      (watch_of counters watch) refl (omega arith) (omega arith)
