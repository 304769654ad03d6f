-- ===== src/Tests/Server.antt =====
-- A server that is started twice and stopped, for the theorem on src/api.
use anti.Base.{true, false, [], ◌∷◌, none}
use anti.Server.{
  api_server_init, api_server_cleanup, websocket_server_init, websocket_server_cleanup,
}
use anti.Server.Laws.{
  start, stop, api_calls, websocket_calls, ApiSound, ApiStopped, WebsocketSound, WebsocketStopped,
  servers-Sound,
}

servers-Sound_example :
    let calls = start true ∷ start true ∷ stop ∷ start false ∷ start true ∷ [] in
    let api = api_calls (api_server_init none 8080 none true true) calls in
    let websocket = websocket_calls (websocket_server_init 8080 true) calls in
    (ApiSound api × ApiStopped (api_server_cleanup api))
    × (WebsocketSound websocket × WebsocketStopped (websocket_server_cleanup websocket))
servers-Sound_example =
    servers-Sound none 8080 none true true
      (start true ∷ start true ∷ stop ∷ start false ∷ start true ∷ [])
