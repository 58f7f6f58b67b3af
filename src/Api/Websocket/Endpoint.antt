-- ===== src/Api/Websocket/Endpoint.antt =====
-- A whole connection: what its client is sent, and what it leaves behind.
use stock_trading_platform.Prelude.{
  ℕ, ◌≡◌, refl, ap, sym, ◌∙◌, subst, String, Bool, true, false, List, [], ◌∷◌, ◌++◌, map, arith,
}
use stock_trading_platform.Api.Broadcaster.{Message, unsubscribe}
use stock_trading_platform.Api.Delivery.{HasSets}
use stock_trading_platform.Api.Websocket.{
  subscribed_to, broadcasted, Opening, subscription, other_message, unreadable, left_early, Event,
  Connection, stream, after_stream, send, enter, websocket_endpoint,
}
use stock_trading_platform.Api.Websocket.Cleanup.{is_subscribed, unsubscribe-subscribe}
use stock_trading_platform.Api.Websocket.Sublist.{Sublist, Sublist-refl}
use stock_trading_platform.Api.Websocket.Session.{arrivals, After, stream-After, After→Served}

streams :
    (c : ℕ) (ts : List String) (es : List Event) (k : Connection)
    → k.mailboxes c ≡ []
    → After c k ts (arrivals es) (stream c es (send (subscribed_to ts) (enter c ts k)))
streams c ts es k e = stream-After c k ts es [] (send (subscribed_to ts) (enter c ts k)) (record {
  messages = [];
  sent_so_far = refl;
  waiting = subst (λ q. Sublist q []) (sym e) (Sublist-refl []);
  entered = refl;
  counted = refl;
})

after_stream-sent : (c : ℕ) (r : Connection × Bool) → (after_stream c r).0.sent ≡ r.0.sent
after_stream-sent c (k, true) = refl
after_stream-sent c (k, false) = refl

-- A client that subscribed with an empty queue and got its confirmation is then sent messages that
-- were broadcast to it, in the order in which they were, each at most as often as it was; however
-- the connection goes on, whether messages were dropped, and whether it ended.
pub endpoint_sends :
    (c : ℕ) (ts : List String) (es : List Event) (k : Connection)
    → k.mailboxes c ≡ []
    → (ms : List Message) × ((websocket_endpoint c (subscription ts true) es k).0.sent
        ≡ k.sent ++ subscribed_to ts ∷ map broadcasted ms)
      × Sublist ms (arrivals es)
unfolding websocket_endpoint
endpoint_sends c ts es k e =
    let s = After→Served c k ts (arrivals es) _ (streams c ts es k e) in
    (s.messages, after_stream-sent c _ ∙ s.sent_in_all, s.in_order)

-- The clients of every ticker are the same, and as many connections are counted.
abbrev pub LeavesNothing : Connection → Connection → Type 0
LeavesNothing k k' =
    ((d : ℕ) (t : String)
      → is_subscribed d t k'.broadcaster.subscriptions
        ≡ is_subscribed d t k.broadcaster.subscriptions)
    × (k'.active ≡ k.active)

module _ (c : ℕ) (k : Connection) (sets : HasSets k.broadcaster.subscriptions)
    (absent : (t : String) → is_subscribed c t k.broadcaster.subscriptions ≡ false) where
  after_stream-LeavesNothing :
      (ts : List String) (ys : List Message) (r : Connection × Bool)
      → After c k ts ys r
      → (after_stream c r).1 ≡ false
      → LeavesNothing k (after_stream c r).0
  after_stream-LeavesNothing ts ys (k', true) s ended = ground (arith, ended)
  after_stream-LeavesNothing ts ys (k', false) s ended = (
    λ d t.
        ap (λ b. is_subscribed d t (unsubscribe c b).subscriptions) s.entered
        ∙ unsubscribe-subscribe c ts k.broadcaster sets absent d t,
    omega (arith, s.counted),
  )

  -- A connection that has ended, whatever its first message was and whether a send failed, has left
  -- nothing behind: every ticker has the clients that it had before, and the number of active
  -- connections is as before. The client's queue was empty and subscribed to nothing.
  pub endpoint_cleans_up :
      (o : Opening) (es : List Event)
      → k.mailboxes c ≡ []
      → (websocket_endpoint c o es k).1 ≡ false
      → LeavesNothing k (websocket_endpoint c o es k).0
  unfolding websocket_endpoint
  endpoint_cleans_up (subscription ts true) es e ended =
      after_stream-LeavesNothing ts (arrivals es) _ (streams c ts es k e) ended
  endpoint_cleans_up (subscription ts false) es e ended =
      (unsubscribe-subscribe c ts k.broadcaster sets absent, omega arith)
  endpoint_cleans_up (other_message true) es e ended = ((λ d t. refl), omega arith)
  endpoint_cleans_up (other_message false) es e ended = ((λ d t. refl), omega arith)
  endpoint_cleans_up unreadable es e ended = ((λ d t. refl), omega arith)
  endpoint_cleans_up left_early es e ended = ((λ d t. refl), omega arith)
