-- ===== src/Analyzer/Blank.antt =====
-- What the lost entries of the address table of src/detection/analyzer.c mean for src/core/main.c.
use anti.Base.{
  ℕ, ◌+◌, ◌<◌, ◌^◌, ◌≡◌, refl, ap, ◌∙◌, Bool, false, none, List, [], ◌∷◌, arith, length, u64,
  if◌then◌else◌,
}
use anti.Types.{accept, Config}
use anti.Packet.{Packet}
use anti.Conn.Heap.{Heap, done, M, after}
use anti.Conn.Reason.{Returns}
use anti.Protect.Tcp.Steps.{after_done}
use anti.Lru.Links.{Returns-weaken}
use anti.Analyzer.{IpTable, returned, analyzer_get_ip_stats, initial}
use anti.Analyzer.Table.{IsBlank, analyzer_get_ip_stats-IsBlank}
use anti.Analyzer.Process.{Engine, Grants, analyzer_process_packet}
use anti.Analyzer.Handler.{Worker, Surroundings, counted, set_global, apply_verdict, packet_handler}

-- The packets of a run, each with what the surroundings answer.
unfoldable pub handle_all : Config → List (Surroundings × Packet) → Worker → M Worker
handle_all cfg [] w h = done w h
handle_all cfg ((s, pkt) ∷ rest) w h =
    after (packet_handler cfg s pkt w h) (λ u k. handle_all cfg rest u k)

-- Nothing but the counts of packets and bytes has changed, and `n` packets are counted.
pub record IsUntouched (w u : Worker) (n : ℕ) : Type 0 where
  pub total : u.engine.global.total_packets ≡ u64 (w.engine.global.total_packets + n)
  pub dropped : u.engine.global.dropped_packets ≡ w.engine.global.dropped_packets
  pub limited : u.engine.global.rate_limited_packets ≡ w.engine.global.rate_limited_packets
  pub detected : u.engine.global.attacks_detected ≡ w.engine.global.attacks_detected
  pub cache : u.engine.cache ≡ w.engine.cache
  pub udp : u.engine.udp ≡ w.engine.udp
  pub tcp : u.engine.tcp ≡ w.engine.tcp
  pub icmp : u.engine.icmp ≡ w.engine.icmp
  pub http : u.engine.http ≡ w.engine.http
  pub blacklist : u.engine.blacklist ≡ w.engine.blacklist
  pub firewall : u.firewall ≡ w.firewall

-- The worker after a packet.
abbrev pub after_packet : Packet → Worker → IpTable → Worker
after_packet pkt w table =
    let c =
      set_global (counted pkt) (record w { packets_processed = u64 (w.packets_processed + 1) }) in
    record c { engine = record (c.engine) { table = table } }

process_blank :
    (cfg : Config) (now : ℕ) (grants : Grants) (pkt : Packet) (e : Engine) (h : Heap)
    (table : IpTable)
    → analyzer_get_ip_stats e.table pkt.src_ip grants.stats ≡ returned none table
    → analyzer_process_packet cfg now grants pkt e h ≡ done (accept, record e { table = table }) h
unfolding analyzer_process_packet
process_blank cfg now grants pkt e h table eq = rw (eq, analyzer_process_packet) refl

run_else : {A : Type 0} (f g : M A) (b : Bool) (h : Heap) → b ≡ false → (if b then f else g) h ≡ g h
run_else f g b h e = rw e refl

pub handler-IsBlank :
    (cfg : Config) (s : Surroundings) (pkt : Packet) (w : Worker) (h : Heap)
    → w.shutdown ≡ false
    → IsBlank w.engine.table
    → (table : IpTable) × IsBlank table
      × (packet_handler cfg s pkt w h ≡ done (after_packet pkt w table) h)
unfolding packet_handler apply_verdict
handler-IsBlank cfg s pkt w h running blank =
    let (table, e, still) =
      analyzer_get_ip_stats-IsBlank w.engine.table pkt.src_ip s.grants.stats blank in
    let engine : Engine = record (w.engine) { global = counted pkt w.engine.global } in
    (
      table,
      still,
      run_else _ _ (w.shutdown) h running
          ∙ after_done _ (process_blank cfg s.now s.grants pkt engine h table e),
    )

handle_all-IsBlank :
    (cfg : Config) (packets : List (Surroundings × Packet)) (w : Worker) (h : Heap)
    → w.shutdown ≡ false
    → w.engine.global.total_packets < 2 ^ 64
    → IsBlank w.engine.table
    → Returns (λ u k. (k ≡ h) × IsUntouched w u (length packets)) (handle_all cfg packets w h)
unfolding handle_all
handle_all-IsBlank cfg [] w h running fits blank = (
  refl,
  record {
    total = omega (arith, fits);
    dropped = refl;
    limited = refl;
    detected = refl;
    cache = refl;
    udp = refl;
    tcp = refl;
    icmp = refl;
    http = refl;
    blacklist = refl;
    firewall = refl;
  },
)
handle_all-IsBlank cfg ((s, pkt) ∷ rest) w h running fits blank =
    let (table, still, e) = handler-IsBlank cfg s pkt w h running blank in
    let next = after_packet pkt w table in
    rw (e, after)
      (Returns-weaken (λ u k. (k ≡ h) × IsUntouched next u (length rest)) _
        (handle_all cfg rest next h)
        (λ u k x. (
          x.0,
          record {
            total = omega (arith, x.1.total);
            dropped = x.1.dropped;
            limited = x.1.limited;
            detected = x.1.detected;
            cache = x.1.cache;
            udp = x.1.udp;
            tcp = x.1.tcp;
            icmp = x.1.icmp;
            http = x.1.http;
            blacklist = x.1.blacklist;
            firewall = x.1.firewall;
          },
        ))
        (handle_all-IsBlank cfg rest next h running (omega arith) still))

-- From the table that `analyzer_init` leaves, a worker that is not shut down handles every sequence
-- of packets to the end, whatever they are: it counts them, drops, slows and reports none, leaves
-- the counters of every detector, and touches neither the connections nor the blacklist nor the
-- firewall.
pub handle_all-initial :
    (cfg : Config) (packets : List (Surroundings × Packet)) (w : Worker) (h : Heap)
    → w.shutdown ≡ false
    → w.engine.global.total_packets < 2 ^ 64
    → w.engine.table ≡ initial
    → Returns (λ u k. (k ≡ h) × IsUntouched w u (length packets)) (handle_all cfg packets w h)
handle_all-initial cfg packets w h running fits fresh =
    handle_all-IsBlank cfg packets w h running fits (λ i. ap (λ t. t i) fresh)
