-- ===== src/Server.antt =====
-- src/api/rest_server.c and src/api/websocket.c: two servers that each run a thread. `threads` is the
-- number of threads of a server that run; `pthread_join` waits for the thread, whose loop ends once
-- `running` is false. jansson is left to a list of its members.
pub mod Laws
use Prim.Native.String.{String}
use anti.Base.{
  ℕ, ◌+◌, ◌-◌, Bool, true, false, ◌||◌, not, List, [], ◌∷◌, Option, none, some, if◌then◌else◌, ℤ,
  success, failure,
}
use anti.Addr.{IpAddr}
use anti.Addr.Text.{Inet, ascii, ip_addr_to_string, attack_type_to_string}
use anti.Types.{Attack, GlobalStats}

pub record ApiServer : Type 0 where
  pub bind_addr : Option (List ℕ)
  pub port : ℕ
  pub auth_token : Option (List ℕ)
  pub running : Bool
  pub threads : ℕ

-- `strdup`, which fails where its argument says so.
abbrev pub copy : Bool → List ℕ → Option (List ℕ)
copy copied text = if copied then some text else none

-- `granted` is the success of `calloc`, and `copied` of each `strdup`.
unfoldable pub api_server_init :
    Option (List ℕ) → ℕ → Option (List ℕ) → Bool → Bool → Option ApiServer
api_server_init bind_addr port auth_token granted copied =
    let address : List ℕ = elim bind_addr [ Option.none ↦ ascii "0.0.0.0" | Option.some t ↦ t ] in
    let token : Option (List ℕ) = elim auth_token [
      | Option.none ↦ none
      | Option.some t ↦ copy copied t
    ] in
    if granted
    then some (record {
      bind_addr = copy copied address;
      port = port;
      auth_token = token;
      running = false;
      threads = 0;
    })
    else none

-- `created` is the success of `pthread_create`.
unfoldable pub api_server_start : Option ApiServer → Bool → ℤ × Option ApiServer
api_server_start none created = (failure, none)
api_server_start (some s) created =
    if s.running
    then (failure, some s)
    else if created
    then (success, some (record s { running = true; threads = s.threads + 1 }))
    else (failure, some (record s { running = false }))

unfoldable pub api_server_stop : Option ApiServer → Option ApiServer
api_server_stop none = none
api_server_stop (some s) =
    if s.running then some (record s { running = false; threads = s.threads - 1 }) else some s

-- What the server is as it is freed.
unfoldable pub api_server_cleanup : Option ApiServer → Option ApiServer
unfolding api_server_stop
api_server_cleanup none = none
api_server_cleanup (some s) = if s.running then api_server_stop (some s) else some s

-- A member of a JSON object.
pub data Json : Type 0 where
  integer : ℕ → Json
  text : List ℕ → Json

abbrev pub Message : Type 0
Message = List (String × Json)

-- `sent` are the messages that its broadcasts write to the log, the last one first.
pub record WebsocketServer : Type 0 where
  pub port : ℕ
  pub running : Bool
  pub threads : ℕ
  pub sent : List Message

unfoldable pub websocket_server_init : ℕ → Bool → Option WebsocketServer
websocket_server_init port granted =
    if granted then some (record { port = port; running = false; threads = 0; sent = [] }) else none

unfoldable pub websocket_server_start : Option WebsocketServer → Bool → ℤ × Option WebsocketServer
websocket_server_start none created = (failure, none)
websocket_server_start (some s) created =
    if s.running
    then (failure, some s)
    else if created
    then (success, some (record s { running = true; threads = s.threads + 1 }))
    else (failure, some (record s { running = false }))

unfoldable pub websocket_server_stop : Option WebsocketServer → Option WebsocketServer
websocket_server_stop none = none
websocket_server_stop (some s) =
    if s.running then some (record s { running = false; threads = s.threads - 1 }) else some s

unfoldable pub websocket_server_cleanup : Option WebsocketServer → Option WebsocketServer
unfolding websocket_server_stop
websocket_server_cleanup none = none
websocket_server_cleanup (some s) = if s.running then websocket_server_stop (some s) else some s

-- The text is the message that `json_dumps` makes, `none` for NULL; it is only logged.
unfoldable pub websocket_broadcast :
    Option WebsocketServer → Option Message → ℤ × Option WebsocketServer
websocket_broadcast (some s) (some m) = (success, some (record s { sent = m ∷ s.sent }))
websocket_broadcast server message = (failure, server)

abbrev pub stats_message : GlobalStats → Message
stats_message g =
    ("total_packets", integer (g.total_packets))
    ∷ ("total_bytes", integer (g.total_bytes))
    ∷ ("dropped_packets", integer (g.dropped_packets))
    ∷ ("current_connections", integer (g.current_connections))
    ∷ []

-- `dumped` is the success of `json_dumps`.
abbrev pub dumps : Bool → Message → Option Message
dumps dumped m = if dumped then some m else none

unfoldable pub websocket_broadcast_stats :
    Option WebsocketServer → Option GlobalStats → Bool → ℤ × Option WebsocketServer
unfolding websocket_broadcast
websocket_broadcast_stats (some s) (some g) dumped =
    (success, (websocket_broadcast (some s) (dumps dumped (stats_message g))).1)
websocket_broadcast_stats server stats dumped = (failure, server)

-- `now` is what `time(NULL)` returns.
unfoldable pub websocket_broadcast_attack :
    Inet → Option WebsocketServer → Attack → Option IpAddr → ℕ → Bool → ℤ × Option WebsocketServer
unfolding websocket_broadcast ip_addr_to_string attack_type_to_string
websocket_broadcast_attack net (some s) type (some ip) now dumped =
    let m : Message =
      ("type", text (ascii "attack"))
      ∷ ("attack_type", text (ascii (attack_type_to_string type)))
      ∷ ("source_ip", text (ip_addr_to_string net ip))
      ∷ ("timestamp", integer now)
      ∷ [] in
    (success, (websocket_broadcast (some s) (dumps dumped m)).1)
websocket_broadcast_attack net server type ip now dumped = (failure, server)

-- The loop of the thread, over the statistics of each second in which `running` is still true.
unfoldable pub websocket_server_thread :
    WebsocketServer → List (Option GlobalStats × Bool) → WebsocketServer
unfolding websocket_broadcast_stats
websocket_server_thread s [] = s
websocket_server_thread s ((none, dumped) ∷ rest) = websocket_server_thread s rest
websocket_server_thread s ((some g, dumped) ∷ rest) =
    let told : WebsocketServer = elim (websocket_broadcast_stats (some s) (some g) dumped).1 [
      | Option.none ↦ s
      | Option.some t ↦ t
    ] in
    websocket_server_thread told rest
