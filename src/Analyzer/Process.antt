-- ===== src/Analyzer/Process.antt =====
-- `analyzer_process_packet` and `analyzer_update_reputation` of src/detection/analyzer.c: the lists,
-- the detectors and the reputation. The pointer to the statistics of an address is into its bucket,
-- so that what is written through it is written to the table.
use anti.Base.{
  ℕ, ◌+◌, ◌-◌, ◌^◌, Bool, true, false, not, ◌&&◌, Option, some, ltb, ◌==◌, if◌then◌else◌, update,
  u32, ℤ, pos, negsuc,
}
use anti.Addr.{IpAddr}
use anti.Types.{Verdict, accept, drop, rate_limit, challenge, IpStats, GlobalStats, Config}
use anti.Packet.{Packet, proto_icmp, proto_tcp, proto_udp}
use anti.Conn.Heap.{unfinished, M, pure, ◌>>=◌, lift}
use anti.Lru.{LruCache}
use anti.Ipset.{Ipset, add_expiring, contains_cidr}
use anti.Protect.Watch.{Watch}
use anti.Protect.Udp.{UdpProtectCtx, udp_protect_analyze}
use anti.Protect.Icmp.{IcmpProtectCtx, icmp_protect_analyze}
use anti.Protect.Http.{HttpProtectCtx}
use anti.Protect.Http.Analyze.{http_protect_analyze}
use anti.Protect.Tcp.{TcpProtectCtx}
use anti.Protect.Tcp.Analyze.{tcp_protect_analyze}
use anti.Analyzer.{IpTable, ip_stats_hash, returned, endless, analyzer_get_ip_stats}

-- The analyzer with what it reaches: the detectors, the global statistics and the connections.
pub record Engine : Type 0 where
  pub table : IpTable
  pub whitelist : Option Ipset
  pub blacklist : Option Ipset
  pub global : GlobalStats
  pub cache : LruCache
  pub udp : Option UdpProtectCtx
  pub tcp : Option TcpProtectCtx
  pub icmp : Option IcmpProtectCtx
  pub http : Option HttpProtectCtx

-- The successes of the allocations of one call: of an entry of the table, of a connection, and of
-- an entry of the blacklist.
pub record Grants : Type 0 where
  pub stats : Bool
  pub connection : Bool
  pub listing : Bool

-- `stats->reputation_score += delta` of an unsigned score, and the clamp to 100. The test for a
-- score below 0 never holds.
unfoldable pub adjusted : ℕ → ℤ → ℕ
adjusted score (pos n) = let sum = u32 (score + n) in if ltb 100 sum then 100 else sum
adjusted score (negsuc n) =
    let sum = u32 (score + 2 ^ 32 - (n + 1)) in if ltb 100 sum then 100 else sum

-- `*stats = …`, where the address has an entry.
abbrev pub put : Engine → IpAddr → IpStats → Engine
put e ip stats = record e { table = update e.table (ip_stats_hash ip) (some stats) }

-- What the score decides.
unfoldable pub rescored : Config → ℕ → Bool → Engine → IpAddr → IpStats → Engine
unfolding add_expiring
rescored cfg now granted e ip stats =
    let expires = now + cfg.blacklist_duration in
    let listed : IpStats = record stats { is_blacklisted = true; blacklist_expires = expires } in
    if ltb stats.reputation_score 10 && not stats.is_blacklisted
    then record (put e ip listed) {
      blacklist = (add_expiring e.blacklist (some ip) expires granted).1;
    }
    else put e ip stats

unfoldable pub analyzer_update_reputation : Config → ℕ → Grants → Engine → IpAddr → ℤ → M Engine
unfolding analyzer_get_ip_stats rescored adjusted
analyzer_update_reputation cfg now grants e ip delta h =
    elim (analyzer_get_ip_stats e.table ip grants.stats) [
      | endless ↦ unfinished
      | returned found_stats table ↦ elim found_stats [
        | Option.none ↦ pure (record e { table = table }) h
        | Option.some stats ↦
            pure
              (rescored cfg now grants.listing (record e { table = table }) ip
                (record stats { reputation_score = adjusted stats.reputation_score delta }))
              h
      ]
    ]

-- The verdict of a detector, and the engine and the statistics after it.
abbrev pub Judged : Type 0
Judged = Verdict × Engine × IpStats

-- The watch that a detector gets.
abbrev pub watch_for : {C : Type 0} → C → Engine → IpStats → Watch C
watch_for ctx e stats = record { ctx = ctx; global = e.global; stats = stats }

-- "Run protocol-specific protection".
unfoldable pub run_protocol : Config → ℕ → Bool → Packet → Engine → IpStats → M Judged
run_protocol cfg now granted pkt e stats =
    let udp : M Judged = (do
      (v, w) ← lift (udp_protect_analyze cfg now pkt (watch_for e.udp e stats))
      pure (v, record e { udp = w.ctx; global = w.global }, w.stats)) in
    let tcp : M Judged = (do
      (v, c, w) ← tcp_protect_analyze cfg now granted pkt e.cache (watch_for e.tcp e stats)
      pure (v, record e { tcp = w.ctx; global = w.global; cache = c }, w.stats)) in
    let icmp : M Judged = (do
      (v, w) ← lift (icmp_protect_analyze cfg now pkt (watch_for e.icmp e stats))
      pure (v, record e { icmp = w.ctx; global = w.global }, w.stats)) in
    if pkt.protocol == proto_udp
    then udp
    else if pkt.protocol == proto_tcp
    then tcp
    else if pkt.protocol == proto_icmp
    then icmp
    else pure (accept, e, stats)

abbrev pub is_accept : Verdict → Bool
is_accept accept = true
is_accept drop = false
is_accept rate_limit = false
is_accept challenge = false

-- "HTTP layer check".
unfoldable pub run_http : Config → ℕ → Packet → Judged → M Judged
run_http cfg now pkt (v, e, stats) =
    let http : M Judged = (do
      (u, w) ← lift (http_protect_analyze cfg now pkt (watch_for e.http e stats))
      pure (u, record e { http = w.ctx; global = w.global }, w.stats)) in
    if is_accept v && pkt.is_http then http else pure (v, e, stats)

-- "Update reputation based on verdict".
unfoldable pub reward : Config → ℕ → Grants → IpAddr → Verdict → Engine → M Engine
reward cfg now grants ip accept e = analyzer_update_reputation cfg now grants e ip (pos 1)
reward cfg now grants ip drop e = analyzer_update_reputation cfg now grants e ip (negsuc 9)
reward cfg now grants ip rate_limit e = pure e
reward cfg now grants ip challenge e = pure e

-- A packet of an address with statistics.
unfoldable pub process_known :
    Config → ℕ → Grants → Packet → Engine → IpStats → M (Verdict × Engine)
unfolding contains_cidr run_protocol run_http reward
process_known cfg now grants pkt e stats =
    let ip = pkt.src_ip in
    let inspect : M (Verdict × Engine) = (do
      first ← run_protocol cfg now grants.connection pkt e stats
      (v, judged, s) ← run_http cfg now pkt first
      after ← reward cfg now grants ip v (put judged ip s)
      pure (v, after)) in
    if contains_cidr e.whitelist (some ip) now
    then pure (accept, put e ip (record stats { is_whitelisted = true }))
    else if contains_cidr e.blacklist (some ip) now
    then pure (drop, put e ip (record stats { is_blacklisted = true }))
    else inspect

unfoldable pub analyzer_process_packet :
    Config → ℕ → Grants → Packet → Engine → M (Verdict × Engine)
unfolding analyzer_get_ip_stats process_known
analyzer_process_packet cfg now grants pkt e h =
    elim (analyzer_get_ip_stats e.table pkt.src_ip grants.stats) [
      | endless ↦ unfinished
      | returned found_stats table ↦ elim found_stats [
        | Option.none ↦ pure (accept, record e { table = table }) h
        | Option.some stats ↦ process_known cfg now grants pkt (record e { table = table }) stats h
      ]
    ]
