-- ===== src/Api/Websocket.antt =====
-- `websocket_endpoint` of trading/api/websocket.py: one client from its connection on.
pub mod Cleanup
pub mod Sublist
pub mod Session
pub mod Endpoint
mod Tests
use stock_trading_platform.Prelude.{
  ℕ, suc, ◌-◌, String, Bool, true, false, Option, none, some, List, [], ◌∷◌, ◌++◌, ◌==◌,
  if◌then◌else◌,
}
use stock_trading_platform.Api.Broadcaster.{
  Message, Broadcaster, subscribe, unsubscribe, Mailboxes, put_nowait,
}

-- What the server sends: the error for a first message of another kind, the confirmation, and the
-- broadcast messages.
pub data Payload : Type 0 where
  bad_first_message : Payload
  subscribed_to : List String → Payload
  broadcasted : Message → Payload

-- The first text of a client: a subscription, or JSON of another kind, with whether the answer to it
-- can be sent; or a text that raises an exception, as it is no JSON or its tickers are no texts; or
-- the client left before it.
pub data Opening : Type 0 where
  subscription : List String → (sends : Bool) → Opening
  other_message : (sends : Bool) → Opening
  unreadable left_early : Opening

-- A frame while the messages are streamed: `websocket.disconnect`, which also stands for a receive
-- that raises an exception, or any other, such as a ping.
pub data Frame : Type 0 where
  disconnect ping : Frame

-- What happens to a connection: a broadcast reaches the client's queue; or `asyncio.wait` returns,
-- with the frame that came in, if one did, and whether `client_queue.get()` was done, and the
-- sending then succeeds or raises.
pub data Event : Type 0 where
  arrives : Message → Event
  wakes : Option Frame → (got : Bool) → (sends : Bool) → Event

-- The client's queue is a number, and takes 100 messages.
pub record Connection : Type 0 where
  pub broadcaster : Broadcaster
  pub mailboxes : Mailboxes
  pub sent : List Payload
  pub active : ℕ

abbrev pub queue_size : ℕ
queue_size = 100

abbrev pub set_mailbox : ℕ → List Message → Mailboxes → Mailboxes
set_mailbox c q ms d = if d == c then q else ms d

-- `client_queue.get()` takes the oldest message; `get` on an empty queue is not done.
abbrev pub take_payload : ℕ → Connection → List Message → (sends : Bool) → Connection × Bool
take_payload c k [] sends = (k, true)
take_payload c k (x ∷ q) sends =
    let k' = record k { mailboxes = set_mailbox c q k.mailboxes } in
    if sends then (record k' { sent = k.sent ++ broadcasted x ∷ [] }, true) else (k', false)

-- A message that was taken when the client left goes with it.
abbrev pub lose_payload : ℕ → Connection → List Message → Connection
lose_payload c k [] = k
lose_payload c k (x ∷ q) = record k { mailboxes = set_mailbox c q k.mailboxes }

-- One round of the loop; the Boolean says whether the connection is still open.
abbrev pub wake : ℕ → Option Frame → (got sends : Bool) → Connection → Connection × Bool
wake c (some disconnect) true sends k = (lose_payload c k (k.mailboxes c), false)
wake c (some disconnect) false sends k = (k, false)
wake c (some ping) true sends k = take_payload c k (k.mailboxes c) sends
wake c (some ping) false sends k = (k, true)
wake c none true sends k = take_payload c k (k.mailboxes c) sends
wake c none false sends k = (k, true)

abbrev pub on_event : ℕ → Event → Connection → Connection × Bool
on_event c (arrives x) k = (record k { mailboxes = put_nowait queue_size c x k.mailboxes }, true)
on_event c (wakes f got sends) k = wake c f got sends k

unfoldable pub stream : ℕ → List Event → Connection → Connection × Bool
stream c [] k = (k, true)
stream c (e ∷ es) k =
    let (k', is_open) = on_event c e k in
    elim is_open [ true ↦ stream c es k' | false ↦ (k', false) ]

-- The `finally` of the endpoint.
abbrev pub close : ℕ → (subscribed : Bool) → Connection → Connection
close c subscribed k = record k {
  broadcaster = if subscribed then unsubscribe c k.broadcaster else k.broadcaster;
  active = k.active - 1;
}

abbrev pub after_stream : ℕ → Connection × Bool → Connection × Bool
after_stream c (k, true) = (k, true)
after_stream c (k, false) = (close c true k, false)

abbrev pub send : Payload → Connection → Connection
send p k = record k { sent = k.sent ++ p ∷ [] }

abbrev pub enter : ℕ → List String → Connection → Connection
enter c ts k = record k { broadcaster = subscribe c ts k.broadcaster; active = suc k.active }

-- `websocket_endpoint`, from the counting of the accepted connection on.
unfoldable pub websocket_endpoint : ℕ → Opening → List Event → Connection → Connection × Bool
unfolding stream
websocket_endpoint c (subscription ts true) es k =
    after_stream c (stream c es (send (subscribed_to ts) (enter c ts k)))
websocket_endpoint c (subscription ts false) es k = (close c true (enter c ts k), false)
websocket_endpoint c (other_message true) es k =
    (close c false (send bad_first_message (record k { active = suc k.active })), false)
websocket_endpoint c (other_message false) es k =
    (close c false (record k { active = suc k.active }), false)
websocket_endpoint c unreadable es k = (close c false (record k { active = suc k.active }), false)
websocket_endpoint c left_early es k = (close c false (record k { active = suc k.active }), false)
