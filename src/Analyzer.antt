-- ===== src/Analyzer.antt =====
-- The address table of src/detection/analyzer.c. A bucket is the pointer to its entry, `none` for
-- NULL; the loop that should follow the chain assigns the pointer to itself.
pub mod Table
pub mod Baseline
pub mod Process
pub mod Handler
pub mod Blank
pub mod Classify
use anti.Base.{ℕ, ◌%◌, Bool, List, [], ◌∷◌, Option, none, some, if◌then◌else◌, update, u32}
use anti.Addr.{IpAddr, same_ip, ip_word}
use anti.Types.{IpStats}

abbrev pub ip_stats_table_size : ℕ
ip_stats_table_size = 65536

abbrev pub IpTable : Type 0
IpTable = ℕ → Option IpStats

unfoldable pub ip_stats_hash : IpAddr → ℕ
ip_stats_hash ip = u32 (ip_word ip) % ip_stats_table_size

-- What the loop over a bucket ends in, where it ends.
pub data Search : Type 0 where
  found : IpStats → Search
  missing : Search
  spinning : Search

unfoldable pub search_bucket : IpAddr → Option IpStats → Search
search_bucket ip none = missing
search_bucket ip (some stats) = if same_ip stats.ip ip then found stats else spinning

-- The result of a call: the pointer and the table, or no return.
pub data Outcome : Type 0 where
  returned : Option IpStats → IpTable → Outcome
  endless : Outcome

-- The entry that `calloc` granted is assigned over by the old head, which the bucket then gets.
unfoldable pub analyzer_get_ip_stats : IpTable → IpAddr → Bool → Outcome
unfolding search_bucket
analyzer_get_ip_stats table ip granted =
    let hash = ip_stats_hash ip in
    elim (search_bucket ip (table hash)) [
      | found stats ↦ returned (some stats) table
      | missing ↦
          if granted
          then returned (table hash) (update table hash (table hash))
          else returned none table
      | spinning ↦ endless
    ]

-- `analyzer_init` zeroes the table.
abbrev pub initial : IpTable
initial = λ i. none

-- The calls of a run, each with its address and the success of its allocation: what they return.
unfoldable pub calls : IpTable → List (IpAddr × Bool) → List (Option IpStats)
unfolding analyzer_get_ip_stats
calls table [] = []
calls table ((ip, granted) ∷ rest) = elim (analyzer_get_ip_stats table ip granted) [
  | returned stats after ↦ stats ∷ calls after rest
  | endless ↦ []
]
