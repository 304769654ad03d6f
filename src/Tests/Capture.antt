-- ===== src/Tests/Capture.antt =====
-- A captured frame on its way to the handler, for the theorems on src/packet/capture.c.
use anti.Base.{◌≡◌, refl, true, [], ◌∷◌, length, arith, ok, success}
use anti.Conn.Reason.{Returns}
use anti.Lru.Valid.Sequence.{no_entries}
use anti.Packet.{ntohs_at, byte_at}
use anti.Packet.Parser.{parse_ethernet, parse_ip, parse_ipv4, ntohl_at, parse_udp}
use anti.Packet.Http.{packet_parse, parse_transport}
use anti.Analyzer.Blank.{IsUntouched}
use anti.Capture.{Frame, parse_frame, deliver}
use anti.Capture.Laws.{packets_of, deliver-initial}
use anti.Tests.Parser.{frame, libc, parsed}
use anti.Tests.Udp.{settings}
use anti.Tests.Handler.{worker, at_noon}

abbrev pub arrival : Frame
arrival = record {
  captured = frame;
  tv_sec = 7;
  granted = true;
  data_granted = true;
  surroundings = at_noon;
}

pub arrival-parsed : parse_frame libc arrival ≡ ok (success, parsed)
unfolding packet_parse parse_ethernet parse_ip parse_ipv4 ntohl_at ntohs_at byte_at parse_transport
    parse_udp
arrival-parsed = refl

deliver-initial_example :
    Returns
      (λ u k. (k ≡ no_entries) × IsUntouched worker u (length (packets_of libc (arrival ∷ []))))
      (deliver settings libc (arrival ∷ []) worker no_entries)
deliver-initial_example =
    deliver-initial settings libc (arrival ∷ []) worker no_entries (λ e. cc (arrival-parsed, e), tt)
      refl (omega arith) refl
