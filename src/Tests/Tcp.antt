-- ===== src/Tests/Tcp.antt =====
-- TCP segments of a known connection, for the theorems on src/detection/tcp_protect.c.
use anti.Base.{◌≡◌, ◌⊎◌, refl, true, false, Option, some, [], ◌∷◌, inl, arith}
use anti.Addr.{inet}
use anti.Packet.{Packet}
use anti.Packet.Reads.{IsReadable}
use anti.Conn.Heap.{wild}
use anti.Conn.Reason.{Returns}
use anti.Protect.Watch.{Watch}
use anti.Protect.Tcp.{TcpProtectCtx}
use anti.Protect.Tcp.Analyze.{tcp_protect_analyze}
use anti.Protect.Tcp.Steps.{noted, is_slow}
use anti.Protect.Tcp.Analysis.{IsAnalyzed, watch_of, tcp_protect_analyze_lem}
use anti.Tests.Udp.{datagram, datagram-IsReadable, flow, totals, settings}
use anti.Tests.Lru.{one_cache, one_entry, one-IsValid, entry, found}

-- A segment of the connection, with ACK.
abbrev pub segment : Packet
segment = record datagram {
  protocol = 6;
  src_ip = inet 1;
  dst_ip = inet 2;
  src_port = 4000;
  dst_port = 80;
  tcp_flags = 0x10;
}

segment-IsReadable : IsReadable segment
segment-IsReadable = record { header = datagram-IsReadable.header; body = datagram-IsReadable.body }

abbrev pub counters : TcpProtectCtx
counters = record {
  total_tcp_packets = 7;
  syn_packets = 1;
  ack_packets = 6;
  rst_packets = 0;
  fin_packets = 0;
  dropped_packets = 0;
  last_update = 0;
}

abbrev pub watch : Watch (Option TcpProtectCtx)
watch = record { ctx = some counters; global = totals; stats = flow }

tcp_protect_analyze_lem_example :
    (((noted settings 150 segment entry (watch_of counters watch)).2 ≡ false)
      × (is_slow settings 150 segment entry (watch_of counters watch) ≡ true)
      × (tcp_protect_analyze settings 150 true segment one_cache watch one_entry ≡ wild))
    ⊎ ((((noted settings 150 segment entry (watch_of counters watch)).2 ≡ true)
          ⊎ (is_slow settings 150 segment entry (watch_of counters watch) ≡ false))
        × Returns
            (IsAnalyzed segment counters)
            (tcp_protect_analyze settings 150 true segment one_cache watch one_entry))
tcp_protect_analyze_lem_example =
    tcp_protect_analyze_lem settings 150 segment one_cache one_entry (0 ∷ []) entry counters watch
      one-IsValid (omega arith, omega arith) segment-IsReadable refl refl (inl (0, found, refl))
