-- ===== src/OrderBook/Priority.antt =====
-- Price-time priority as a specification: one side of a book is a list of offers, the best price
-- first and the older order first, and an incoming order takes from its head.
pub mod Sorting
pub mod Queue
pub mod Sweeping
pub mod Matched
pub mod Execution
use stock_trading_platform.Prelude.{
  ℕ, ◌-◌, ◌≡◌, String, Bool, true, false, Option, none, some, List, [], ◌∷◌, ◌++◌, map, leb, ◌==◌,
  if◌then◌else◌, sym, append_assoc, ap,
}
use stock_trading_platform.Events.{
  OrderSide, buy, sell, limit, market, Order, Trade, remaining_quantity, Heap,
}
use stock_trading_platform.OrderBook.Levels.{Levels}

-- What an order in the book has left to give at a price.
pub record Offer : Type 0 where
  pub price : ℕ
  pub order : ℕ
  pub order_id : String
  pub quantity : ℕ

-- What a trade takes from a resting order.
pub record Deal : Type 0 where
  pub price : ℕ
  pub order_id : String
  pub quantity : ℕ

pub record Allocation : Type 0 where
  pub deals : List Deal
  pub unfilled : ℕ
  pub offers : List Offer

-- A buyer with a limit pays at most that, a seller gets at least that; without one any price will
-- do.
abbrev pub allows : OrderSide → Option ℕ → ℕ → Bool
allows side none p = true
allows buy (some own) p = leb p own
allows sell (some own) p = leb own p

abbrev pub limit_of : Order → Option ℕ
limit_of x = elim x.order_type [ limit ↦ x.price | market ↦ none ]

abbrev pub take_all : Offer → Allocation → Allocation
take_all x a = record a {
  deals = record { price = x.price; order_id = x.order_id; quantity = x.quantity } ∷ a.deals;
}

-- The offers are taken one by one, each as a whole, while some quantity is wanted and the price is
-- allowed; of the last one perhaps a part.
unfoldable pub allocate : (ℕ → Bool) → ℕ → List Offer → Allocation
allocate ok wanted [] = record { deals = []; unfilled = wanted; offers = [] }
allocate ok wanted (x ∷ xs) =
    let rest = allocate ok (wanted - x.quantity) xs in
    if wanted == 0
    then record { deals = []; unfilled = 0; offers = x ∷ xs }
    else if ok x.price
    then if leb x.quantity wanted then take_all x rest else record {
      deals = record { price = x.price; order_id = x.order_id; quantity = wanted } ∷ [];
      unfilled = 0;
      offers = record x { quantity = x.quantity - wanted } ∷ xs;
    }
    else record { deals = []; unfilled = wanted; offers = x ∷ xs }

-- Deals that were made before an allocation.
abbrev pub after_deals : List Deal → Allocation → Allocation
after_deals ds a = record a { deals = ds ++ a.deals }

pub after_deals-append :
    (ds es : List Deal) (a : Allocation)
    → after_deals (ds ++ es) a ≡ after_deals ds (after_deals es a)
after_deals-append ds es a =
    ap (λ (xs : List Deal). record a { deals = xs }) (append_assoc ds es a.deals)

-- The resting order's part in a trade.
abbrev pub deal_of : OrderSide → Trade → Deal
deal_of buy t = record { price = t.price; order_id = t.seller_order_id; quantity = t.quantity }
deal_of sell t = record { price = t.price; order_id = t.buyer_order_id; quantity = t.quantity }

abbrev pub offer_of : Heap → ℕ → ℕ → Offer
offer_of h p r = record {
  price = p;
  order = r;
  order_id = (h r).order_id;
  quantity = remaining_quantity (h r);
}

abbrev pub queue_offers : Heap → ℕ → List ℕ → List Offer
queue_offers h p q = map (offer_of h p) q

abbrev pub level_offers : Heap → Levels → List Offer
level_offers h [] = []
level_offers h ((p, q) ∷ ls) = queue_offers h p q ++ level_offers h ls

-- For an incoming order of this side, `p` is at least as good as `q`.
abbrev pub is_better : OrderSide → ℕ → ℕ → Bool
is_better buy p q = leb p q
is_better sell p q = leb q p

abbrev pub insert_sorted_level : OrderSide → ℕ × List ℕ → Levels → Levels
insert_sorted_level side e [] = e ∷ []
insert_sorted_level side e (d ∷ ls) =
    let rest = insert_sorted_level side e ls in
    if is_better side e.0 d.0 then e ∷ d ∷ ls else d ∷ rest

abbrev pub sort_levels : OrderSide → Levels → Levels
sort_levels side [] = []
sort_levels side (e ∷ ls) = insert_sorted_level side e (sort_levels side ls)

-- The side that an incoming order of `side` meets, best price first, older orders first.
unfoldable pub offers_by_priority : OrderSide → Heap → Levels → List Offer
offers_by_priority side h ls = level_offers h (sort_levels side ls)
