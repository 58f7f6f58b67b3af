-- ===== src/Api/Websocket/Tests.antt =====
-- A client that subscribes, gets a message, misses one, and leaves.
use stock_trading_platform.Prelude.{ℕ, ◌≡◌, refl, true, false, some, none, List, [], ◌∷◌, ◌++◌, map}
use stock_trading_platform.Prelude.Dict.{lookup}
use stock_trading_platform.Api.Broadcaster.{
  Message, trade, init_broadcaster, has_client, put_nowait,
}
use stock_trading_platform.Api.Websocket.{
  subscribed_to, broadcasted, subscription, Event, arrives, wakes, disconnect, ping, Connection,
  websocket_endpoint, stream,
}
use stock_trading_platform.Api.Websocket.Sublist.{Sublist}
use stock_trading_platform.Api.Websocket.Session.{arrivals}
use stock_trading_platform.Api.Websocket.Endpoint.{
  endpoint_sends, endpoint_cleans_up, LeavesNothing,
}

abbrev tell : ℕ → Message
tell n = trade n "AAPL" 100 5

abbrev connection : Connection
connection = record { broadcaster = init_broadcaster; mailboxes = λ d. []; sent = []; active = 2 }

-- The second message was taken from the queue when the client left.
abbrev events : List Event
events =
    arrives (tell 0)
    ∷ wakes none true true
    ∷ arrives (tell 1)
    ∷ wakes (some ping) false true
    ∷ wakes (some disconnect) true true
    ∷ []

sent_lem :
    (websocket_endpoint 1 (subscription ("AAPL" ∷ []) true) events connection).0.sent
    ≡ subscribed_to ("AAPL" ∷ []) ∷ broadcasted (tell 0) ∷ []
unfolding websocket_endpoint stream put_nowait
sent_lem = refl

ended : (websocket_endpoint 1 (subscription ("AAPL" ∷ []) true) events connection).1 ≡ false
unfolding websocket_endpoint stream put_nowait
ended = refl

endpoint_sends_example :
    (ms : List Message) × ((websocket_endpoint 1
        (subscription ("AAPL" ∷ []) true)
        events
        connection).0.sent
      ≡ [] ++ subscribed_to ("AAPL" ∷ []) ∷ map broadcasted ms)
    × Sublist ms (arrivals events)
endpoint_sends_example = endpoint_sends 1 ("AAPL" ∷ []) events connection refl

endpoint_cleans_up_example :
    LeavesNothing connection
      (websocket_endpoint 1 (subscription ("AAPL" ∷ []) true) events connection).0
unfolding init_broadcaster lookup has_client
endpoint_cleans_up_example =
    endpoint_cleans_up 1 connection (λ t. tt) (λ t. refl) (subscription ("AAPL" ∷ []) true) events
      refl ended
