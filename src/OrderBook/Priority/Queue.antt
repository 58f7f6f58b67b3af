-- ===== src/OrderBook/Priority/Queue.antt =====
-- The inner loop against the specification: its trades are the deals, and what it leaves in the
-- queue are the offers left.
use stock_trading_platform.Prelude.{
  ℕ, suc, ◌+◌, ◌-◌, ◌≤◌, ◌<◌, ◌≡◌, refl, ap, sym, ◌∙◌, String, Bool, true, List, [], ◌∷◌, ◌++◌, map,
  map-append, arith, min, leb, ◌==◌, if◌then◌else◌, Bool-cases, inl, inr, length, Keeps, while_ends,
}
use stock_trading_platform.Events.{OrderSide, buy, sell, Order, Trade, remaining_quantity, Heap}
use stock_trading_platform.OrderBook.Matching.{
  Fill, fill_head, fill_queue, can_fill, settle, make_trade, accepts,
}
use stock_trading_platform.OrderBook.Fills.{settle-terms}
use stock_trading_platform.OrderBook.FillQueue
use stock_trading_platform.OrderBook.FillQueue.{Filling, fill_rounds}
use stock_trading_platform.OrderBook.Resting.{Ascending}
use stock_trading_platform.OrderBook.Priority.{
  Offer, Deal, Allocation, allocate, after_deals, after_deals-append, deal_of, offer_of,
  queue_offers,
}

pub queue_offers-frame :
    (h h' : Heap) (p lo hi : ℕ) (q : List ℕ)
    → ((x : ℕ) → lo ≤ x → x < hi → h' x ≡ h x)
    → Ascending lo hi q
    → queue_offers h' p q ≡ queue_offers h p q
queue_offers-frame h h' p lo hi [] f a = refl
queue_offers-frame h h' p lo hi (r ∷ q) f (l, m, a) =
    let rest = queue_offers-frame h h' p (suc r) hi q (λ x i j. f x (omega arith) j) a in
    (λ i.
      record {
        price = p;
        order = r;
        order_id = (f r l m i).order_id;
        quantity = remaining_quantity (f r l m i);
      }
      ∷ rest i)

deal_of-make_trade :
    (ticker : String) (side : OrderSide) (price : ℕ) (x y : Order) (id qty time : ℕ)
    → deal_of side (make_trade ticker side price x y id qty time)
      ≡ record { price = price; order_id = y.order_id; quantity = qty }
deal_of-make_trade ticker buy price x y id qty time = refl
deal_of-make_trade ticker sell price x y id qty time = refl

pub allocate-nothing :
    (ok : ℕ → Bool) (wanted : ℕ) (xs : List Offer)
    → wanted ≡ 0
    → allocate ok wanted xs ≡ record { deals = []; unfilled = 0; offers = xs }
unfolding allocate
allocate-nothing ok wanted [] e = ground arith
allocate-nothing ok wanted (x ∷ xs) e = ground arith

-- One step of the specification, in the words of the loop.
allocate-head :
    (ok : ℕ → Bool) (wanted : ℕ) (x : Offer) (xs : List Offer)
    → 0 < wanted
    → 0 < x.quantity
    → ok x.price ≡ true
    → (qty : ℕ) → qty ≡ min wanted x.quantity
    → allocate ok wanted (x ∷ xs)
      ≡ after_deals (record { price = x.price; order_id = x.order_id; quantity = qty } ∷ []) (
          allocate ok
            (wanted - qty)
            (if x.quantity - qty == 0 then xs else record x { quantity = x.quantity - qty } ∷ xs))
unfolding allocate
allocate-head ok wanted x xs w q o qty e = elim (Bool-cases (leb x.quantity wanted)) [
  | inl le ↦ let whole : qty ≡ x.quantity = ground arith in rw whole (ground (arith, o, le))
  | inr gt ↦
      let part : qty ≡ wanted = ground arith in
      rw part (
        ground (
          arith,
          o,
          gt,
          allocate-nothing ok (wanted - wanted) (record x { quantity = x.quantity - wanted } ∷ xs)
              (omega arith),
        ))
]

-- The loop at one price, with the offers at worse prices behind it. `total` is the whole
-- allocation.
module _ (clock : ℕ → ℕ) (ticker : String) (side : OrderSide) (o price n : ℕ) (h₀ : Heap)
    (before left c₀ : ℕ) (ok : ℕ → Bool) (behind : List Offer) (total : Allocation) where
  -- What the specification does from here on.
  abbrev pub still : Heap → List ℕ → Allocation
  still h q = allocate ok (remaining_quantity (h o)) (queue_offers h price q ++ behind)

  abbrev pub Allocates : Fill → Type 0
  Allocates s = after_deals (map (deal_of side) s.trades) (still s.heap s.queue) ≡ total

  abbrev IsFilling : Fill → Type 0
  IsFilling = Filling clock ticker side o price n h₀ before left c₀

  module _ (fresh : n ≤ o) (ok_price : accepts side (h₀ o).order_type (h₀ o).price price ≡ true)
      (allowed : ok price ≡ true) (s : Fill) (f : IsFilling s) (r : ℕ) (rs : List ℕ)
      (e : s.queue ≡ r ∷ rs) (more : 0 < remaining_quantity (s.heap o)) where
    abbrev taken : ℕ
    taken = min (remaining_quantity (s.heap o)) (remaining_quantity (s.heap r))

    abbrev h' : Heap
    h' = settle s.heap o r taken

    order_in : Ascending 0 n (r ∷ rs)
    order_in =
        FillQueue.order clock ticker side o price n h₀ before left c₀ fresh ok_price s f r rs e more

    some_left : 0 < remaining_quantity (s.heap r)
    some_left = omega (
      arith,
      (FillQueue.rests clock ticker side o price n h₀ before left c₀ fresh ok_price s f r rs e
          more).0.unfilled,
    )

    resting_left : remaining_quantity (h' r) ≡ remaining_quantity (s.heap r) - taken
    resting_left =
        FillQueue.next_resting_left clock ticker side o price n h₀ before left c₀ fresh ok_price s f
          r rs e more

    incoming_left : remaining_quantity (h' o) ≡ remaining_quantity (s.heap o) - taken
    incoming_left =
        FillQueue.next_incoming_left clock ticker side o price n h₀ before left c₀ fresh ok_price s
          f r rs e more

    same_id : (h' r).order_id ≡ (s.heap r).order_id
    same_id = ap (λ (x : Order). x.order_id) (settle-terms s.heap o r taken r)

    behind_same : queue_offers h' price rs ≡ queue_offers s.heap price rs
    behind_same =
        queue_offers-frame s.heap h' price (suc r) n rs
          (FillQueue.next_other clock ticker side o price n h₀ before left c₀ fresh ok_price s f r
            rs e more)
          order_in.2

    -- What the round leaves of the queue is what one step of the specification leaves.
    queue_left :
        queue_offers h' price (if remaining_quantity (h' r) == 0 then rs else r ∷ rs) ++ behind ≡ (
          if remaining_quantity (s.heap r) - taken == 0
          then queue_offers s.heap price rs ++ behind
          else record (offer_of s.heap price r) { quantity = remaining_quantity (s.heap r) - taken }
            ∷ (queue_offers s.heap price rs ++ behind))
    queue_left = ground (arith, resting_left, same_id, behind_same)

    abbrev trade : Trade
    trade =
        make_trade ticker side price (s.heap o) (s.heap r) s.trade_counter taken
          (clock s.trade_counter)

    deal : Deal
    deal = record { price = price; order_id = (s.heap r).order_id; quantity = taken }

    trades_so_far :
        map (deal_of side) (s.trades ++ trade ∷ []) ≡ map (deal_of side) s.trades ++ deal ∷ []
    unfolding deal
    trades_so_far =
        map-append (deal_of side) s.trades (trade ∷ [])
        ∙ ap (λ d. map (deal_of side) s.trades ++ d ∷ [])
            (deal_of-make_trade ticker side price (s.heap o) (s.heap r) s.trade_counter taken
              (clock s.trade_counter))

    abbrev next_queue : List ℕ
    next_queue = if remaining_quantity (h' r) == 0 then rs else r ∷ rs

    one_step : still s.heap s.queue ≡ after_deals (deal ∷ []) (still h' next_queue)
    unfolding deal
    one_step =
        rw (e, incoming_left, queue_left)
          (allocate-head ok (remaining_quantity (s.heap o)) (offer_of s.heap price r)
            (queue_offers s.heap price rs ++ behind) more some_left allowed taken refl)

    fill_head-Allocates : Allocates s → Allocates (fill_head clock ticker side o price s (r ∷ rs))
    unfolding fill_head
    fill_head-Allocates a =
        ap (λ d. after_deals d (still h' next_queue)) trades_so_far
        ∙ after_deals-append (map (deal_of side) s.trades) (deal ∷ []) (still h' next_queue)
        ∙ ap (after_deals (map (deal_of side) s.trades)) (sym one_step)
        ∙ a

  module _ (fresh : n ≤ o) (ok_price : accepts side (h₀ o).order_type (h₀ o).price price ≡ true)
      (allowed : ok price ≡ true) where
    abbrev rounds : Fill → ℕ
    rounds = fill_rounds clock ticker side o price n h₀ before left c₀

    abbrev IsRound : Fill → Type 0
    IsRound s = IsFilling s × Allocates s

    round :
        (s : Fill) (q : List ℕ)
        → s.queue ≡ q
        → IsRound s
        → can_fill clock ticker side o price s ≡ true
        → IsRound (fill_head clock ticker side o price s q)
          × (rounds (fill_head clock ticker side o price s q) < rounds s)
    round s [] e f g = absurd (ground arith)
    round s (r ∷ rs) e f g = (
      (
        FillQueue.fill_head-Filling clock ticker side o price n h₀ before left c₀ fresh ok_price s
            f.0 r rs e (ground arith),
        fill_head-Allocates fresh ok_price allowed s f.0 r rs e (ground arith) f.1,
      ),
      FillQueue.fill_head-lower clock ticker side o price n h₀ before left c₀ fresh ok_price s f.0 r
          rs e (ground arith),
    )

    IsRound-Keeps :
        Keeps IsRound rounds
          (can_fill clock ticker side o price)
          (λ s. fill_head clock ticker side o price s s.queue)
    IsRound-Keeps = record {
      kept = λ s f g. (round s s.queue refl f g).0;
      lower = λ s f g. (round s s.queue refl f g).1;
    }

    pub fill_queue-Allocates :
        (s : Fill) → IsFilling s → Allocates s → Allocates (fill_queue clock ticker side o price s)
    unfolding fill_queue
    fill_queue-Allocates s f a =
        (while_ends IsRound-Keeps (length s.queue + 2) s (ground arith) (f, a)).0.1
