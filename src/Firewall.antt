-- ===== src/Firewall.antt =====
-- src/filter/firewall.c: the rules that it asks the kernel for, and the set of the addresses that it
-- takes for blocked. The rules are the kernel's: a `Command` stands for the text that `system` gets,
-- and its success is an argument.
pub mod Laws
use anti.Base.{
  ℕ, ◌+◌, Bool, List, [], ◌∷◌, ◌++◌, Option, none, some, ltb, if◌then◌else◌, ℤ, success, failure,
}
use anti.Addr.{IpAddr}
use anti.Ipset.{Ipset, create, add_expiring, remove, contains, clear, size}

pub data Backend : Type 0 where
  iptables nftables : Backend

pub data Command : Type 0 where
  new_chain flush_chain insert_jump delete_jump delete_chain add_table flush_table delete_table :
      Command
  drop_from : IpAddr → Command
  delete_drop_from : IpAddr → Command
  accept_from : IpAddr → ℕ → Command

-- `g_backend`, `g_blocked_ips`, and the commands so far, the last one first.
pub record Firewall : Type 0 where
  pub backend : Backend
  pub blocked : Option Ipset
  pub commands : List Command

abbrev pub max_blacklist_size : ℕ
max_blacklist_size = 100000

abbrev pub setup : Backend → List Command
setup iptables = insert_jump ∷ flush_chain ∷ new_chain ∷ []
setup nftables = flush_table ∷ add_table ∷ []

abbrev pub teardown : Backend → List Command
teardown iptables = delete_chain ∷ flush_chain ∷ delete_jump ∷ []
teardown nftables = delete_table ∷ []

-- `granted` and `buckets_granted` are the allocations of the set.
unfoldable pub firewall_init : Firewall → Backend → Bool → Bool → ℤ × Firewall
firewall_init fw backend granted buckets_granted =
    elim (create max_blacklist_size granted buckets_granted) [
      | Option.none ↦ (failure, record fw { backend = backend; blocked = none })
      | Option.some set ↦ (
        success,
        record { backend = backend; blocked = some set; commands = setup backend ++ fw.commands },
      )
    ]

unfoldable pub firewall_cleanup : Firewall → Firewall
firewall_cleanup fw = record fw { blocked = none; commands = teardown fw.backend ++ fw.commands }

-- `time(NULL) + duration_sec`, or 0 for ever.
abbrev pub expiry : ℕ → ℕ → ℕ
expiry now duration_sec = if ltb 0 duration_sec then now + duration_sec else 0

-- `ran` is the success of the command, and `granted` of the allocation of an entry.
unfoldable pub firewall_block_ip : Firewall → IpAddr → ℕ → ℕ → Bool → Bool → ℤ × Firewall
unfolding add_expiring
firewall_block_ip fw ip duration_sec now ran granted =
    let asked : Firewall = record fw { commands = drop_from ip ∷ fw.commands } in
    let set = (add_expiring fw.blocked (some ip) (expiry now duration_sec) granted).1 in
    if ran then (success, record asked { blocked = set }) else (failure, asked)

unfoldable pub firewall_unblock_ip : Firewall → IpAddr → ℤ × Firewall
unfolding remove
firewall_unblock_ip fw ip = elim fw.backend [
  | iptables ↦ (
    success,
    record fw {
      commands = delete_drop_from ip ∷ fw.commands;
      blocked = (remove fw.blocked (some ip)).1;
    },
  )
  | nftables ↦ (success, fw)
]

unfoldable pub firewall_is_blocked : Firewall → IpAddr → ℕ → Bool
unfolding contains
firewall_is_blocked fw ip now = contains fw.blocked (some ip) now

unfoldable pub firewall_add_ratelimit : Firewall → IpAddr → ℕ → ℕ → ℤ × Firewall
firewall_add_ratelimit fw ip pps bps =
    (success, record fw { commands = accept_from ip pps ∷ fw.commands })

-- No rule is removed.
unfoldable pub firewall_remove_ratelimit : Firewall → IpAddr → ℤ × Firewall
firewall_remove_ratelimit fw ip = (success, fw)

abbrev pub flush : Backend → Command
flush iptables = flush_chain
flush nftables = flush_table

unfoldable pub firewall_flush_all : Firewall → ℤ × Firewall
unfolding clear
firewall_flush_all fw =
    (success, record fw { commands = flush fw.backend ∷ fw.commands; blocked = clear fw.blocked })

-- The counts of blocked and of limited addresses.
unfoldable pub firewall_get_stats : Firewall → ℕ × ℕ
unfolding size
firewall_get_stats fw = (size fw.blocked, 0)
