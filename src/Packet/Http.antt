-- ===== src/Packet/Http.antt =====
-- `parse_http` and `packet_parse` of src/packet/parser.c. The string functions of C read the
-- payload as text up to its NUL, whatever `payload_len` says; past the captured bytes is a fault.
-- `strdup` and `atoi` are the library's: the copy that it makes, or `none` for NULL, and the value.
pub mod Laws
pub mod Claims
use anti.Base.{
  ℕ, zero, suc, ◌+◌, ◌-◌, ◌++◌, Bool, true, false, ◌&&◌, ◌||◌, List, [], ◌∷◌, Option, none, some,
  ltb, ◌==◌, if◌then◌else◌, take, drop, length, u32, ℤ, success, failure, is_zero, Run, ok, fault,
  ◌>>=◌,
}
use anti.Packet.{Packet, proto_tcp, proto_udp, proto_icmp}
use anti.Packet.Parser.{Parsed, parse_ethernet, parse_ip, parse_tcp, parse_udp, parse_icmp}

pub record Libc : Type 0 where
  pub strdup : List ℕ → Option (List ℕ)
  pub atoi : List ℕ → ℕ

-- `strncmp(text, pattern, n) == 0` for a pattern of `n` characters without NUL.
unfoldable pub starts_with : List ℕ → List ℕ → Run Bool
starts_with text [] = ok true
starts_with [] (p ∷ ps) = fault
starts_with (t ∷ ts) (p ∷ ps) = let rest = starts_with ts ps in if t == p then rest else ok false

-- `strchr`, as the text from the character on.
unfoldable pub strchr : List ℕ → ℕ → Run (Option (List ℕ))
strchr [] c = fault
strchr (t ∷ ts) c =
    let rest = strchr ts c in
    if t == c then ok (some (t ∷ ts)) else if t == 0 then ok none else rest

-- `strstr`, as the text from the match on.
unfoldable pub strstr : List ℕ → List ℕ → Run (Option (List ℕ))
unfolding starts_with
strstr [] pattern = fault
strstr (t ∷ ts) pattern =
    let rest = strstr ts pattern in
    do
      found ← starts_with (t ∷ ts) pattern
      if found then ok (some (t ∷ ts)) else if t == 0 then ok none else rest

-- `while (*ua_start == ' ') ua_start++`.
unfoldable pub skip_spaces : List ℕ → Run (List ℕ)
skip_spaces [] = fault
skip_spaces (t ∷ ts) = let rest = skip_spaces ts in if t == 0x20 then rest else ok (t ∷ ts)

abbrev pub get_text : List ℕ
get_text = b'G' ∷ b'E' ∷ b'T' ∷ []

abbrev pub post_text : List ℕ
post_text = b'P' ∷ b'O' ∷ b'S' ∷ b'T' ∷ []

abbrev pub head_text : List ℕ
head_text = b'H' ∷ b'E' ∷ b'A' ∷ b'D' ∷ []

abbrev pub put_text : List ℕ
put_text = b'P' ∷ b'U' ∷ b'T' ∷ []

abbrev pub delete_text : List ℕ
delete_text = b'D' ∷ b'E' ∷ b'L' ∷ b'E' ∷ b'T' ∷ b'E' ∷ []

abbrev pub user_agent_text : List ℕ
user_agent_text = b'U' ∷ b's' ∷ b'e' ∷ b'r' ∷ b'-' ∷ b'A' ∷ b'g' ∷ b'e' ∷ b'n' ∷ b't' ∷ b':' ∷ []

abbrev pub content_length_text : List ℕ
content_length_text =
    b'C' ∷ b'o' ∷ b'n' ∷ b't' ∷ b'e' ∷ b'n' ∷ b't' ∷ b'-' ∷ b'L' ∷ b'e' ∷ b'n' ∷ b'g' ∷ b't' ∷ b'h'
    ∷ b':' ∷ []

abbrev pub methods : List (List ℕ)
methods = get_text ∷ post_text ∷ head_text ∷ put_text ∷ delete_text ∷ []

-- The chain of `strncmp` tests, in the order of the code.
unfoldable pub method_of : List ℕ → List (List ℕ) → Run (Option (List ℕ))
unfolding starts_with
method_of payload [] = ok none
method_of payload (m ∷ ms) =
    let rest = method_of payload ms in
    do found ← starts_with payload (m ++ (0x20 ∷ [])); if found then ok (some m) else rest

-- What lies between two spaces, if it is shorter than 2048 characters: `uri_end - uri_start` is
-- the difference of what is left.
unfoldable pub uri_of : List ℕ → Run (Option (List ℕ))
unfolding strchr
uri_of payload = do
  uri ← strchr payload 0x20
  elim uri [
    | Option.none ↦ ok none
    | Option.some t ↦ do
      let uri_start = drop 1 t
      end ← strchr uri_start 0x20
      elim end [
        | Option.none ↦ ok none
        | Option.some uri_end ↦
            let uri_len = length uri_start - length uri_end in
            ok (if ltb 0 uri_len && ltb uri_len 2048 then some (take uri_len uri_start) else none)
      ]
  ]

unfoldable pub user_agent_of : List ℕ → Run (Option (List ℕ))
unfolding strstr skip_spaces
user_agent_of payload = do
  ua_header ← strstr payload user_agent_text
  elim ua_header [
    | Option.none ↦ ok none
    | Option.some t ↦ do
      ua_start ← skip_spaces (drop 11 t)
      end ← strstr ua_start (13 ∷ 10 ∷ [])
      elim end [
        | Option.none ↦ ok none
        | Option.some ua_end ↦
            let ua_len = length ua_start - length ua_end in
            ok (if ltb 0 ua_len && ltb ua_len 512 then some (take ua_len ua_start) else none)
      ]
  ]

-- `strndup` of a found text; where none is found, the field keeps its value.
unfoldable pub assign_text : Libc → Option (List ℕ) → Option (List ℕ) → Option (List ℕ)
assign_text libc none field = field
assign_text libc (some t) field = libc.strdup t

-- The part of `parse_http` behind the check of the payload.
unfoldable pub parse_http_text : Libc → Packet → List ℕ → Run Parsed
unfolding method_of uri_of user_agent_of strstr assign_text
parse_http_text libc pkt payload = do
  method ← method_of payload methods
  elim method [
    | Option.none ↦ ok (failure, pkt)
    | Option.some m ↦ do
      uri ← uri_of payload
      user_agent ← user_agent_of payload
      cl_header ← strstr payload content_length_text
      ok (
        success,
        record pkt {
          is_http = true;
          http_method = libc.strdup m;
          http_uri = assign_text libc uri pkt.http_uri;
          http_user_agent = assign_text libc user_agent pkt.http_user_agent;
          http_content_length = content_length libc cl_header pkt.http_content_length;
        },
      )
  ]
  where
    content_length : Libc → Option (List ℕ) → ℕ → ℕ
    content_length lib none field = field
    content_length lib (some t) field = u32 (lib.atoi (drop 15 t))

unfoldable pub parse_http : Libc → Packet → Run Parsed
parse_http libc pkt = elim pkt.payload [
  | Option.none ↦ ok (failure, pkt)
  | Option.some o ↦
      if ltb pkt.payload_len 16
      then ok (failure, pkt)
      else parse_http_text libc pkt (drop o pkt.bytes)
]

abbrev pub http_port : Packet → Bool
http_port pkt =
    pkt.dst_port == 80 || pkt.dst_port == 8080 || pkt.src_port == 80 || pkt.src_port == 8080

-- The switch of `packet_parse`, which takes no notice of what the transport parsers return.
unfoldable pub parse_transport : Libc → Packet → Run Packet
parse_transport libc pkt =
    if pkt.protocol == proto_tcp
    then (do
      (ret, tcp) ← parse_tcp pkt
      if http_port tcp then (do (http_ret, http) ← parse_http libc tcp; ok http) else ok tcp)
    else if pkt.protocol == proto_udp
    then (do (ret, udp) ← parse_udp pkt; ok udp)
    else if pkt.protocol == proto_icmp
    then (do (ret, icmp) ← parse_icmp pkt; ok icmp)
    else ok pkt

-- `data` is not NULL, as its callers see to; `len` is the length of the capture.
unfoldable pub packet_parse : Libc → Packet → List ℕ → ℕ → ℕ → Run Parsed
unfolding parse_ethernet
packet_parse libc pkt bytes len timestamp =
    let (eth_ret, eth) =
      parse_ethernet (record pkt { bytes = bytes; len = len; timestamp = timestamp }) in
    if len == 0
    then ok (failure, pkt)
    else if is_zero eth_ret
    then (do
      (ip_ret, ip) ← parse_ip eth
      if is_zero ip_ret
          then (do r ← parse_transport libc ip; ok (success, r))
          else ok (failure, ip))
    else ok (failure, eth)
