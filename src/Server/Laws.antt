-- ===== src/Server/Laws.antt =====
-- A server has one thread exactly while it runs.
use anti.Base.{
  ℕ, ◌≡◌, refl, Bool, true, false, List, [], ◌∷◌, Option, none, some, if◌then◌else◌, arith,
}
use anti.Server.{
  ApiServer, api_server_init, api_server_start, api_server_stop, api_server_cleanup,
  WebsocketServer, websocket_server_init, websocket_server_start, websocket_server_stop,
  websocket_server_cleanup,
}

-- What is called on a server: a start, with the success of `pthread_create`, or a stop.
pub data Call : Type 0 where
  start : Bool → Call
  stop : Call

abbrev pub api_call : Option ApiServer → Call → Option ApiServer
api_call s (start created) = (api_server_start s created).1
api_call s stop = api_server_stop s

abbrev pub api_calls : Option ApiServer → List Call → Option ApiServer
api_calls s [] = s
api_calls s (c ∷ cs) = api_calls (api_call s c) cs

abbrev pub websocket_call : Option WebsocketServer → Call → Option WebsocketServer
websocket_call s (start created) = (websocket_server_start s created).1
websocket_call s stop = websocket_server_stop s

abbrev pub websocket_calls : Option WebsocketServer → List Call → Option WebsocketServer
websocket_calls s [] = s
websocket_calls s (c ∷ cs) = websocket_calls (websocket_call s c) cs

abbrev pub IsSound : Bool → ℕ → Type 0
IsSound running threads = threads ≡ (if running then 1 else 0)

abbrev pub ApiSound : Option ApiServer → Type 0
ApiSound none = Unit {0}
ApiSound (some s) = IsSound s.running s.threads

abbrev pub WebsocketSound : Option WebsocketServer → Type 0
WebsocketSound none = Unit {0}
WebsocketSound (some s) = IsSound s.running s.threads

api_call-ApiSound : (c : Call) (s : Option ApiServer) → ApiSound s → ApiSound (api_call s c)
unfolding api_server_start api_server_stop
api_call-ApiSound (start created) none h = tt
api_call-ApiSound stop none h = tt
api_call-ApiSound (start created) (some s) h = ground arith
api_call-ApiSound stop (some s) h = ground arith

websocket_call-WebsocketSound :
    (c : Call) (s : Option WebsocketServer) → WebsocketSound s → WebsocketSound (websocket_call s c)
unfolding websocket_server_start websocket_server_stop
websocket_call-WebsocketSound (start created) none h = tt
websocket_call-WebsocketSound stop none h = tt
websocket_call-WebsocketSound (start created) (some s) h = ground arith
websocket_call-WebsocketSound stop (some s) h = ground arith

api_calls-ApiSound :
    (cs : List Call) (s : Option ApiServer) → ApiSound s → ApiSound (api_calls s cs)
api_calls-ApiSound [] s h = h
api_calls-ApiSound (c ∷ cs) s h = api_calls-ApiSound cs (api_call s c) (api_call-ApiSound c s h)

websocket_calls-WebsocketSound :
    (cs : List Call) (s : Option WebsocketServer)
    → WebsocketSound s
    → WebsocketSound (websocket_calls s cs)
websocket_calls-WebsocketSound [] s h = h
websocket_calls-WebsocketSound (c ∷ cs) s h =
    websocket_calls-WebsocketSound cs (websocket_call s c) (websocket_call-WebsocketSound c s h)

-- A server that is freed runs no thread.
abbrev pub ApiStopped : Option ApiServer → Type 0
ApiStopped none = Unit {0}
ApiStopped (some s) = (s.threads ≡ 0) × (s.running ≡ false)

abbrev pub WebsocketStopped : Option WebsocketServer → Type 0
WebsocketStopped none = Unit {0}
WebsocketStopped (some s) = (s.threads ≡ 0) × (s.running ≡ false)

api_server_cleanup-ApiStopped :
    (s : Option ApiServer) → ApiSound s → ApiStopped (api_server_cleanup s)
unfolding api_server_cleanup api_server_stop
api_server_cleanup-ApiStopped none h = tt
api_server_cleanup-ApiStopped (some s) h = ground arith

websocket_server_cleanup-WebsocketStopped :
    (s : Option WebsocketServer) → WebsocketSound s → WebsocketStopped (websocket_server_cleanup s)
unfolding websocket_server_cleanup websocket_server_stop
websocket_server_cleanup-WebsocketStopped none h = tt
websocket_server_cleanup-WebsocketStopped (some s) h = ground arith

api_server_init-ApiSound :
    (bind_addr : Option (List ℕ)) (port : ℕ) (token : Option (List ℕ)) (granted copied : Bool)
    → ApiSound (api_server_init bind_addr port token granted copied)
unfolding api_server_init
api_server_init-ApiSound bind_addr port token true copied = refl
api_server_init-ApiSound bind_addr port token false copied = tt

websocket_server_init-WebsocketSound :
    (port : ℕ) (granted : Bool) → WebsocketSound (websocket_server_init port granted)
unfolding websocket_server_init
websocket_server_init-WebsocketSound port true = refl
websocket_server_init-WebsocketSound port false = tt

-- From their creation, both servers have one thread while they run and none while they do not, whatever
-- starts, failed starts and stops are called, in whatever order; and as a server is freed it runs no
-- thread.
pub servers-Sound :
    (bind_addr : Option (List ℕ)) (port : ℕ) (token : Option (List ℕ)) (granted copied : Bool)
    (calls : List Call)
    → let api = api_calls (api_server_init bind_addr port token granted copied) calls in
      let websocket = websocket_calls (websocket_server_init port granted) calls in
      (ApiSound api × ApiStopped (api_server_cleanup api))
      × (WebsocketSound websocket × WebsocketStopped (websocket_server_cleanup websocket))
servers-Sound bind_addr port token granted copied calls =
    let api =
      api_calls-ApiSound calls _ (api_server_init-ApiSound bind_addr port token granted copied) in
    let websocket =
      websocket_calls-WebsocketSound calls _ (websocket_server_init-WebsocketSound port granted) in
    (
      (api, api_server_cleanup-ApiStopped _ api),
      (websocket, websocket_server_cleanup-WebsocketStopped _ websocket),
    )
