-- ===== src/OrderBook/Priority/Sweeping.antt =====
-- The outer loop against the specification.
use stock_trading_platform.Prelude.{
  ℕ, suc, ◌≤◌, ◌<◌, ◌≡◌, ◌≢◌, refl, ap, sym, ◌∙◌, subst, String, Bool, true, false, some, List, [],
  ◌∷◌, ◌++◌, map, All, arith, ◌==◌, Bool-cases, inl, inr, ==→eq, ==→ne,
}
use stock_trading_platform.Events.{OrderSide, Order, remaining_quantity, Heap}
use stock_trading_platform.OrderBook.Levels.{
  Levels, get_queue, del_level, set_queue, put_back, best_price,
}
use stock_trading_platform.OrderBook.Matching.{Fill, Match, match_level, accepts}
use stock_trading_platform.OrderBook.Resting.{Place, Rests, Ascending, across}
use stock_trading_platform.OrderBook.Trades.{Precedes}
use stock_trading_platform.OrderBook.Side.{IsLevel, NoKey, IsSide}
use stock_trading_platform.OrderBook.Best.{IsBest, best_price-IsBest, All-set_queue}
use stock_trading_platform.OrderBook.Sweep
use stock_trading_platform.OrderBook.Sweep.{Matching}
use stock_trading_platform.OrderBook.Priority.{
  Offer, Allocation, allocate, after_deals, deal_of, queue_offers, level_offers, sort_levels,
  offers_by_priority,
}
use stock_trading_platform.OrderBook.Priority.Sorting.{
  All-sort_levels, sort_levels-best, get_queue-set_queue, del_level-set_queue, HasKey-set_queue,
}
use stock_trading_platform.OrderBook.Priority.Queue.{fill_queue-Allocates}

-- Levels whose orders have not changed give the same offers.
level_offers-frame :
    (h h' : Heap) (ls : Levels)
    → All (λ e. queue_offers h' e.0 e.1 ≡ queue_offers h e.0 e.1) ls
    → level_offers h' ls ≡ level_offers h ls
level_offers-frame h h' [] a = refl
level_offers-frame h h' (e ∷ ls) a = rw (a.0, level_offers-frame h h' ls a.1) refl

queue_offers-frame-Rests :
    (h h' : Heap) (place : Place) (price lo n : ℕ) (q : List ℕ)
    → ((x : ℕ) → x < n → Rests h place price x → h' x ≡ h x)
    → Ascending lo n q
    → All (Rests h place price) q
    → queue_offers h' price q ≡ queue_offers h price q
queue_offers-frame-Rests h h' place price lo n [] f a t = refl
queue_offers-frame-Rests h h' place price lo n (r ∷ q) f a t =
    rw (f r a.1 t.0, queue_offers-frame-Rests h h' place price (suc r) n q f a.2 t.1) refl

module _ (h h' : Heap) (place : Place) (n b : ℕ)
    (frame : (x price : ℕ) → price ≢ b → x < n → Rests h place price x → h' x ≡ h x) where
  level-frame :
      (e : ℕ × List ℕ)
      → e.0 ≢ b
      → IsLevel h place n e
      → queue_offers h' e.0 e.1 ≡ queue_offers h e.0 e.1
  level-frame e ne l =
      queue_offers-frame-Rests h h' place e.0 0 n e.1 (λ x. frame x e.0 ne) l.ordered l.resting

  levels-frame :
      (ls : Levels)
      → NoKey b ls
      → IsSide h place n ls
      → All (λ e. queue_offers h' e.0 e.1 ≡ queue_offers h e.0 e.1) ls
  levels-frame [] k s = tt
  levels-frame (e ∷ ls) k s = (level-frame e k.0 s.0, levels-frame ls k.1 s.2)

  other_levels-frame :
      (ls : Levels)
      → IsSide h place n ls
      → All (λ e. queue_offers h' e.0 e.1 ≡ queue_offers h e.0 e.1) (del_level b ls)
  unfolding del_level
  other_levels-frame [] s = tt
  other_levels-frame (e ∷ ls) s = elim (Bool-cases (e.0 == b)) [
    | inl here ↦ rw here (levels-frame ls (subst (λ x. NoKey x ls) (==→eq e.0 b here) s.1) s.2)
    | inr there ↦ rw there (level-frame e (==→ne e.0 b there) s.0, other_levels-frame ls s.2)
  ]

  offers_elsewhere :
      (side : OrderSide) (ls : Levels)
      → IsSide h place n ls
      → level_offers h' (sort_levels side (del_level b ls))
        ≡ level_offers h (sort_levels side (del_level b ls))
  offers_elsewhere side ls s = level_offers-frame h h' (sort_levels side (del_level b ls)) (
      All-sort_levels (λ e. queue_offers h' e.0 e.1 ≡ queue_offers h e.0 e.1) side (del_level b ls)
        (other_levels-frame ls s))

  -- The side after the queue at its best price was filled from.
  pub offers-put_back :
      (side : OrderSide) (q : List ℕ) (ls : Levels)
      → IsBest side b ls
      → IsSide h place n ls
      → offers_by_priority side h' (put_back b q ls)
        ≡ queue_offers h' b q ++ level_offers h (sort_levels side (del_level b ls))
  unfolding offers_by_priority put_back
  offers-put_back side [] ls best s = offers_elsewhere side ls s
  offers-put_back side (r ∷ rs) ls best s =
      ap (level_offers h') (
        sort_levels-best side b (set_queue b (r ∷ rs) ls)
          (HasKey-set_queue b (r ∷ rs) ls best.present)
          (All-set_queue (Precedes side b) b (r ∷ rs) ls best.first))
      ∙ rw (get_queue-set_queue b (r ∷ rs) ls best.present, del_level-set_queue b (r ∷ rs) ls)
          (ap (λ xs. queue_offers h' b (r ∷ rs) ++ xs) (offers_elsewhere side ls s))

pub offers-best :
    (side : OrderSide) (h : Heap) (b : ℕ) (ls : Levels)
    → IsBest side b ls
    → offers_by_priority side h ls
      ≡ queue_offers h b (get_queue b ls) ++ level_offers h (sort_levels side (del_level b ls))
unfolding offers_by_priority
offers-best side h b ls best =
    ap (level_offers h) (sort_levels-best side b ls best.present best.first)

-- Nothing more can be taken: all is filled, or there are no offers, or the best price is not
-- allowed.
pub allocate-stop :
    (ok : ℕ → Bool) (wanted b : ℕ) (h : Heap) (q : List ℕ) (behind : List Offer)
    → ok b ≡ false
    → q ≢ []
    → allocate ok wanted (queue_offers h b q ++ behind)
      ≡ record { deals = []; unfilled = wanted; offers = queue_offers h b q ++ behind }
unfolding allocate
allocate-stop ok wanted b h [] behind e ne = absurd (ne refl)
allocate-stop ok wanted b h (r ∷ rs) behind e ne = ground (arith, e)

module _ (clock : ℕ → ℕ) (ticker : String) (side : OrderSide) (o n : ℕ) (h₀ : Heap) (ls₀ : Levels)
    (before left c₀ : ℕ) (ok : ℕ → Bool) (total : Allocation) (fresh : n ≤ o)
    (agrees : (p : ℕ) → accepts side (h₀ o).order_type (h₀ o).price p ≡ ok p) where
  -- What the specification does from here on.
  abbrev pub still : Heap → Levels → Allocation
  still h ls = allocate ok (remaining_quantity (h o)) (offers_by_priority side h ls)

  abbrev pub Allocates : Match → Type 0
  Allocates s = after_deals (map (deal_of side) s.trades) (still s.heap s.levels) ≡ total

  abbrev pub IsMatching : Match → Type 0
  IsMatching = Matching clock ticker side o n h₀ ls₀ before left c₀

  pub agrees_now :
      (s : Match)
      → IsMatching s
      → (p : ℕ) → accepts side (s.heap o).order_type (s.heap o).price p ≡ ok p
  agrees_now s m p =
      ap (λ (x : Order). accepts side x.order_type x.price p) (m.same_terms o) ∙ agrees p

  module _ (s : Match) (m : IsMatching s) (b : ℕ) (e : best_price side s.levels ≡ some b)
      (more : 0 < remaining_quantity (s.heap o))
      (ok_price : accepts side (s.heap o).order_type (s.heap o).price b ≡ true) where
    best : IsBest side b s.levels
    best = best_price-IsBest side s.levels b e

    abbrev behind : List Offer
    behind = level_offers s.heap (sort_levels side (del_level b s.levels))

    abbrev done : Fill
    done = Sweep.done clock ticker side o n h₀ ls₀ before left c₀ fresh s m b e more ok_price

    pub match_level-Allocates : Allocates s → Allocates (match_level clock ticker side o s (some b))
    unfolding match_level
    match_level-Allocates a =
        rw
          (offers-put_back s.heap done.heap (across ticker side) n b
            (Sweep.frame clock ticker side o n h₀ ls₀ before left c₀ fresh s m b e more ok_price)
            side done.queue s.levels best m.levels_kept)
          (fill_queue-Allocates clock ticker side o b n s.heap before
            (Sweep.queue_left clock ticker side o n h₀ ls₀ before left c₀ fresh s m b e more
              ok_price)
            c₀ ok behind total fresh ok_price (sym (agrees_now s m b) ∙ ok_price)
            (Sweep.start clock ticker side o n h₀ ls₀ before left c₀ fresh s m b e more ok_price)
            (Sweep.start-Filling clock ticker side o n h₀ ls₀ before left c₀ fresh s m b e more
              ok_price)
            (rw (sym (offers-best side s.heap b s.levels best)) a))
