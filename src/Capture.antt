-- ===== src/Capture.antt =====
-- src/packet/capture.c around the parser: the capture handle, and what is done with each frame. libpcap
-- is a parameter: whether it opens the interface, its kind of link, the frames that `pcap_loop` delivers
-- and the result that it ends with.
pub mod Laws
use anti.Base.{
  ℕ, Bool, true, false, ◌&&◌, List, [], ◌∷◌, Option, none, some, ◌==◌, if◌then◌else◌, length, ℤ,
  pos, negsuc, success, failure, is_zero, Run, ok, fault,
}
use anti.Addr.{inet}
use anti.Types.{Config}
use anti.Packet.{Packet}
use anti.Packet.Http.{Libc, packet_parse}
use anti.Conn.Heap.{M, pure, done, after, ◌>>=◌, lift}
use anti.Analyzer.Handler.{Worker, Surroundings, packet_handler}

-- `handle` is whether it is open.
pub record PacketCapture : Type 0 where
  pub handle : Bool
  pub interface : Option (List ℕ)
  pub promiscuous : Bool
  pub snaplen : ℕ
  pub running : Bool

-- `DLT_EN10MB`.
abbrev pub ethernet_link : ℕ
ethernet_link = 1

-- `granted` is the success of `calloc`, `name` what `strdup` makes of the interface, `opened` whether
-- `pcap_open_live` opens it, and `datalink` the kind of its link. A link that is not Ethernet is closed
-- again.
unfoldable pub packet_capture_init :
    Option (List ℕ) → Bool → ℕ → Bool → Bool → ℕ → Option PacketCapture
packet_capture_init name promiscuous snaplen granted opened datalink =
    if granted && opened && (datalink == ethernet_link)
    then some (record {
      handle = true;
      interface = name;
      promiscuous = promiscuous;
      snaplen = snaplen;
      running = false;
    })
    else none

-- The handle as it is freed.
unfoldable pub packet_capture_cleanup : Option PacketCapture → Option PacketCapture
packet_capture_cleanup none = none
packet_capture_cleanup (some pc) = some (record pc { handle = false; interface = none })

-- The capture, and whether `pcap_breakloop` was called.
unfoldable pub packet_capture_stop : Option PacketCapture → Option PacketCapture × Bool
packet_capture_stop none = (none, false)
packet_capture_stop (some pc) = (some (record pc { running = false }), pc.handle)

-- A frame: its captured bytes and its time, the successes of the two allocations that `pcap_callback`
-- makes for it, and what the handler meets.
pub record Frame : Type 0 where
  pub captured : List ℕ
  pub tv_sec : ℕ
  pub granted : Bool
  pub data_granted : Bool
  pub surroundings : Surroundings

-- What `calloc` leaves of a packet.
abbrev pub zeroed : Packet
zeroed = record {
  bytes = [];
  len = 0;
  timestamp = 0;
  eth_header = none;
  ip_header = none;
  transport_header = none;
  payload = none;
  eth_len = 0;
  ip_len = 0;
  transport_len = 0;
  payload_len = 0;
  is_ipv4 = false;
  is_ipv6 = false;
  protocol = 0;
  src_ip = inet 0;
  dst_ip = inet 0;
  src_port = 0;
  dst_port = 0;
  tcp_flags = 0;
  tcp_seq = 0;
  tcp_ack = 0;
  is_http = false;
  http_method = none;
  http_uri = none;
  http_user_agent = none;
  http_content_length = 0;
}

-- The result of `packet_capture_start` from that of `pcap_loop`.
abbrev pub ends : ℤ → ℤ
ends (pos n) = success
ends (negsuc n) = if n == 0 then failure else success

-- The handler runs on a packet that was parsed.
abbrev pub handle_parsed : Config → Surroundings → ℤ × Packet → Worker → M Worker
handle_parsed cfg s (ret, pkt) w =
    let handle : M Worker = packet_handler cfg s pkt w in if is_zero ret then handle else pure w

-- The texts that `packet_free` frees beside the packet and its bytes.
unfoldable pub packet_free : Option Packet → List (Option (List ℕ))
packet_free none = []
packet_free (some pkt) = pkt.http_method ∷ pkt.http_uri ∷ pkt.http_user_agent ∷ []

-- `packet_parse` on the copy of the frame.
abbrev pub parse_frame : Libc → Frame → Run (ℤ × Packet)
parse_frame libc f = packet_parse libc zeroed f.captured (length f.captured) f.tv_sec

module _ (cfg : Config) (libc : Libc) where
  -- `pcap_callback` with `packet_handler` as the callback.
  unfoldable pub pcap_callback : Frame → Worker → M Worker
  unfolding packet_parse packet_handler
  pcap_callback f w =
      let run : M Worker = (do
        parsed ← lift (parse_frame libc f)
        handle_parsed cfg f.surroundings parsed w) in
      if f.granted && f.data_granted then run else pure w

  -- The callbacks of `pcap_loop`.
  unfoldable pub deliver : List Frame → Worker → M Worker
  unfolding pcap_callback
  deliver [] w = pure w
  deliver (f ∷ fs) w = do u ← pcap_callback f w; deliver fs u

  -- `frames` are what `pcap_loop` delivers until it ends with `ret`, where it ends.
  unfoldable pub packet_capture_start :
      Option PacketCapture → List Frame → ℤ → Worker → M (ℤ × Option PacketCapture × Worker)
  unfolding deliver
  packet_capture_start none frames ret w = pure (failure, none, w)
  packet_capture_start (some pc) frames ret w = do
    u ← deliver frames w
    pure (ends ret, some (record pc { running = true }), u)
