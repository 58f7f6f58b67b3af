-- ===== src/Api/Broadcaster.antt =====
-- `class Broadcaster` of trading/api/broadcaster.py. A client's queue is a number, its identity;
-- a message stands for its JSON text.
use stock_trading_platform.Prelude.{
  ℕ, String, Bool, false, not, ◌&&◌, ◌||◌, Option, none, some, List, [], ◌∷◌, ◌++◌, ltb, ◌==◌,
  if◌then◌else◌, length,
}
use stock_trading_platform.Prelude.Dict.{Dict, lookup, insert}
use stock_trading_platform.Prelude.Int.{ℤ}
use stock_trading_platform.Events.{OrderStatus}

pub data Message : Type 0 where
  book_update : String → (best_bid best_ask : Option ℕ) → (spread : Option ℤ) → Message
  trade : (trade_id : ℕ) → String → (price quantity : ℕ) → Message
  order_status : String → String → OrderStatus → (filled_quantity remaining_quantity : ℕ) → Message

-- The clients of each ticker, and the tickers of each client.
pub record Broadcaster : Type 0 where
  pub subscriptions : Dict (List ℕ)
  pub client_tickers : List (ℕ × List String)

unfoldable pub init_broadcaster : Broadcaster
init_broadcaster = record { subscriptions = []; client_tickers = [] }

-- Sets of clients.
unfoldable pub has_client : ℕ → List ℕ → Bool
has_client c [] = false
has_client c (d ∷ ds) = d == c || has_client c ds

unfoldable pub add_client : ℕ → List ℕ → List ℕ
unfolding has_client
add_client c ds = if has_client c ds then ds else c ∷ ds

unfoldable pub discard_client : ℕ → List ℕ → List ℕ
discard_client c [] = []
discard_client c (d ∷ ds) = if d == c then discard_client c ds else d ∷ discard_client c ds

abbrev pub clients_of : String → Dict (List ℕ) → List ℕ
clients_of t m = elim (lookup t m) [ none ↦ [] | some ds ↦ ds ]

unfoldable pub subscribe_all : ℕ → List String → Dict (List ℕ) → Dict (List ℕ)
subscribe_all c [] m = m
subscribe_all c (t ∷ ts) m = subscribe_all c ts (insert t (add_client c (clients_of t m)) m)

-- The dict from clients to their tickers.
unfoldable pub set_tickers : ℕ → List String → List (ℕ × List String) → List (ℕ × List String)
set_tickers c ts [] = (c, ts) ∷ []
set_tickers c ts ((d, us) ∷ m) = if d == c then (d, ts) ∷ m else (d, us) ∷ set_tickers c ts m

unfoldable pub get_tickers : ℕ → List (ℕ × List String) → List String
get_tickers c [] = []
get_tickers c ((d, us) ∷ m) = if d == c then us else get_tickers c m

unfoldable pub drop_tickers : ℕ → List (ℕ × List String) → List (ℕ × List String)
drop_tickers c [] = []
drop_tickers c ((d, us) ∷ m) = if d == c then m else (d, us) ∷ drop_tickers c m

-- `subscribe`
unfoldable pub subscribe : ℕ → List String → Broadcaster → Broadcaster
unfolding subscribe_all set_tickers
subscribe c ts b = record {
  subscriptions = subscribe_all c ts b.subscriptions;
  client_tickers = set_tickers c ts b.client_tickers;
}

-- An unknown ticker gets no entry.
abbrev pub discard_from : ℕ → String → Dict (List ℕ) → Dict (List ℕ)
discard_from c t m = elim (lookup t m) [ none ↦ m | some ds ↦ insert t (discard_client c ds) m ]

unfoldable pub discard_all : ℕ → List String → Dict (List ℕ) → Dict (List ℕ)
discard_all c [] m = m
discard_all c (t ∷ ts) m = discard_all c ts (discard_from c t m)

-- `unsubscribe`
unfoldable pub unsubscribe : ℕ → Broadcaster → Broadcaster
unfolding discard_all get_tickers drop_tickers
unsubscribe c b = record {
  subscriptions = discard_all c (get_tickers c b.client_tickers) b.subscriptions;
  client_tickers = drop_tickers c b.client_tickers;
}

-- The messages that wait in the clients' queues, and how many each queue takes; 0 is any number.
abbrev pub Mailboxes : Type 0
Mailboxes = ℕ → List Message

abbrev pub is_full : ℕ → List Message → Bool
is_full capacity ms = ltb 0 capacity && not (ltb (length ms) capacity)

-- `put_nowait`, where a full queue drops the message.
unfoldable pub put_nowait : (capacity : ℕ) → ℕ → Message → Mailboxes → Mailboxes
put_nowait capacity c x ms d =
    if d == c then (if is_full capacity (ms c) then ms c else ms c ++ x ∷ []) else ms d

unfoldable pub deliver : (capacity : ℕ) → List ℕ → Message → Mailboxes → Mailboxes
deliver capacity [] x ms = ms
deliver capacity (c ∷ cs) x ms = deliver capacity cs x (put_nowait capacity c x ms)

-- `broadcast`
unfoldable pub broadcast : (capacity : ℕ) → Broadcaster → String → Message → Mailboxes → Mailboxes
unfolding deliver
broadcast capacity b t x ms = deliver capacity (clients_of t b.subscriptions) x ms

abbrev pub notify_book_update :
    (capacity : ℕ)
    → Broadcaster
    → String
    → (best_bid best_ask : Option ℕ) → Option ℤ
    → Mailboxes
    → Mailboxes
notify_book_update capacity b t best_bid best_ask spread =
    broadcast capacity b t (book_update t best_bid best_ask spread)

abbrev pub notify_trade :
    (capacity : ℕ)
    → Broadcaster
    → (trade_id : ℕ) → String
    → (price quantity : ℕ) → Mailboxes
    → Mailboxes
notify_trade capacity b id t price quantity = broadcast capacity b t (trade id t price quantity)

abbrev pub notify_order_status :
    (capacity : ℕ)
    → Broadcaster
    → String
    → String
    → OrderStatus
    → (filled remaining : ℕ) → Mailboxes
    → Mailboxes
notify_order_status capacity b id t status filled remaining =
    broadcast capacity b t (order_status id t status filled remaining)
