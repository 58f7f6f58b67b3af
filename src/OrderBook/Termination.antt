-- ===== src/OrderBook/Termination.antt =====
-- The loops of `_match_buy_order` and `_match_sell_order` as runs without fuel.
use stock_trading_platform.Prelude.{
  [], ℕ, suc, zero, ◌+◌, ◌≤◌, ◌<◌, ◌≡◌, refl, ap, sym, ◌∙◌, subst, String, Bool, true, false, some,
  arith, Bool-cases, inl, inr, Option-cases, length, while, Runs, while-Runs, Runs→while,
}
use stock_trading_platform.Events.{OrderSide, remaining_quantity, Heap}
use stock_trading_platform.OrderBook.Levels.{Levels, get_queue, put_back, best_price}
use stock_trading_platform.OrderBook.Matching.{
  Fill, Match, fill_head, fill_queue, can_fill, match_level, match_order, can_match, accepts,
}
use stock_trading_platform.OrderBook.Resting.{IsTracked}
use stock_trading_platform.OrderBook.Side.{total_quantity}
use stock_trading_platform.OrderBook.Book.{OrderBook, match_side}
use stock_trading_platform.OrderBook.Validity.{
  IsBook, facing, match_state, start, start-Matching, match_side_state,
}
use stock_trading_platform.OrderBook.FillQueue
use stock_trading_platform.OrderBook.FillQueue.{Filling}
use stock_trading_platform.OrderBook.Sweep
use stock_trading_platform.OrderBook.Sweep.{Matching}

-- The inner loop's state when a round of the outer loop begins, and what is made of its last one.
abbrev pub begin : ℕ → Match → Fill
begin b s = record {
  heap = s.heap;
  queue = get_queue b s.levels;
  trade_counter = s.trade_counter;
  trades = s.trades;
}

abbrev pub finish : ℕ → Match → Fill → Match
finish b s f = record {
  heap = f.heap;
  levels = put_back b f.queue s.levels;
  trade_counter = f.trade_counter;
  trades = f.trades;
}

module _ (clock : ℕ → ℕ) (ticker : String) (side : OrderSide) (o : ℕ) where
  -- A run of the inner loop at a price.
  abbrev pub Fills : ℕ → Fill → Fill → Type 0
  Fills b = Runs (can_fill clock ticker side o b) (λ s. fill_head clock ticker side o b s s.queue)

  -- A run of the outer loop, each of whose rounds is a run of the inner one.
  pub data Sweeps : Match → Match → Type 0 where
    stops : {s : Match} → can_match clock ticker side o s ≡ false → Sweeps s s
    sweeps :
        {s t : Match} (b : ℕ) (f : Fill)
        → can_match clock ticker side o s ≡ true
        → best_price side s.levels ≡ some b
        → Fills b (begin b s) f
        → Sweeps (finish b s f) t
        → Sweeps s t

module _ (clock : ℕ → ℕ) (ticker : String) (side : OrderSide) (o n : ℕ) (h₀ : Heap) (ls₀ : Levels)
    (before left c₀ : ℕ) (fresh : n ≤ o) where
  abbrev IsMatching : Match → Type 0
  IsMatching = Matching clock ticker side o n h₀ ls₀ before left c₀

  abbrev rounds : Match → ℕ
  rounds = Sweep.match_rounds clock ticker side o n h₀ ls₀ before left c₀

  abbrev guard : Match → Bool
  guard = can_match clock ticker side o

  abbrev body : Match → Match
  body s = match_level clock ticker side o s (best_price side s.levels)

  module _ (s : Match) (m : IsMatching s) (b : ℕ) (e : best_price side s.levels ≡ some b)
      (g : guard s ≡ true) where
    open_price :
        (0 < remaining_quantity (s.heap o))
        × (accepts side (s.heap o).order_type (s.heap o).price b ≡ true)
    open_price = Sweep.can_match-some clock ticker side o n h₀ ls₀ before left c₀ s b e g

    abbrev queue_left : ℕ
    queue_left =
        Sweep.queue_left clock ticker side o n h₀ ls₀ before left c₀ fresh s m b e open_price.0
          open_price.1

    begin-Filling : Filling clock ticker side o b n s.heap before queue_left c₀ (begin b s)
    begin-Filling =
        Sweep.start-Filling clock ticker side o n h₀ ls₀ before left c₀ fresh s m b e open_price.0
          open_price.1

    fill_queue-Fills :
        Fills clock ticker side o b (begin b s) (fill_queue clock ticker side o b (begin b s))
    unfolding fill_queue
    fill_queue-Fills =
        while-Runs
          (FillQueue.Filling-Keeps clock ticker side o b n s.heap before queue_left c₀ fresh
            open_price.1)
          (length (get_queue b s.levels) + 2) (begin b s) (ground arith) begin-Filling

    Fills→fill_queue :
        (f : Fill)
        → Fills clock ticker side o b (begin b s) f
        → f ≡ fill_queue clock ticker side o b (begin b s)
    unfolding fill_queue
    Fills→fill_queue f r =
        Runs→while
          (FillQueue.Filling-Keeps clock ticker side o b n s.heap before queue_left c₀ fresh
            open_price.1)
          (length (get_queue b s.levels) + 2) (begin b s) r (ground arith) begin-Filling

    finish-match_level : finish b s (fill_queue clock ticker side o b (begin b s)) ≡ body s
    unfolding match_level
    finish-match_level = rw (e, match_level) refl

    body-Matching : IsMatching (body s) × (rounds (body s) < rounds s)
    body-Matching =
        Sweep.round clock ticker side o n h₀ ls₀ before left c₀ fresh s (best_price side s.levels)
          refl m g

  while-Sweeps :
      (fuel : ℕ) (s : Match)
      → rounds s < fuel
      → IsMatching s
      → Sweeps clock ticker side o s (while fuel guard body s)
  unfolding while
  while-Sweeps zero s l m = absurd (omega arith)
  while-Sweeps (suc fuel) s l m = elim (Bool-cases (guard s)) [
    | inl more ↦
        rw (more, while)
          (elim (Option-cases (best_price side s.levels)) [
            | inl e ↦ absurd (Sweep.no_price clock ticker side o n h₀ ls₀ before left c₀ s e more)
            | inr (b, e) ↦
                let next = body-Matching s m b e more in
                sweeps b (fill_queue clock ticker side o b (begin b s)) more e
                  (fill_queue-Fills s m b e more)
                  (subst (λ t. Sweeps clock ticker side o t (while fuel guard body (body s)))
                    (sym (finish-match_level s m b e more))
                    (while-Sweeps fuel (body s) (omega (arith, next.1)) next.0))
          ])
    | inr done ↦ rw (done, while) (stops done)
  ]

  Sweeps→while :
      (fuel : ℕ) (s : Match) {t : Match}
      → Sweeps clock ticker side o s t
      → rounds s < fuel
      → IsMatching s
      → t ≡ while fuel guard body s
  unfolding while
  Sweeps→while zero s r l m = absurd (omega arith)
  Sweeps→while (suc fuel) s (stops done) l m = rw (done, while) refl
  Sweeps→while (suc fuel) s {t} (sweeps b f more e r rest) l m =
      let next = body-Matching s m b e more in
      let same : finish b s f ≡ body s =
        ap (finish b s) (Fills→fill_queue s m b e more f r) ∙ finish-match_level s m b e more in
      rw (more, while)
        (Sweeps→while fuel (body s) (subst (λ u. Sweeps clock ticker side o u t) same rest)
          (omega (arith, next.1)) next.0)

  pub match_order-Sweeps :
      (s : Match)
      → IsMatching s
      → Sweeps clock ticker side o s (match_order clock ticker side o s)
        × ((t : Match) → Sweeps clock ticker side o s t → t ≡ match_order clock ticker side o s)
  unfolding match_order
  match_order-Sweeps s m = (
    while-Sweeps (length s.levels + 2) s (ground arith) m,
    λ t r. Sweeps→while (length s.levels + 2) s r (ground arith) m,
  )

-- The state before the first round.
abbrev pub unmatched : OrderSide → Heap → OrderBook → Match
unmatched side h b = record {
  heap = h;
  levels = facing side b;
  trade_counter = b.trade_counter;
  trades = [];
}

module _ (clock : ℕ → ℕ) (h : Heap) (n : ℕ) (b : OrderBook) (o : ℕ) (v : IsBook h n b)
    (fresh : n ≤ o) (tracked : IsTracked (h o)) where
  -- Matching ends. On a well-formed book, for an incoming order that is never overfilled, the
  -- nested loops run until each stops by its own test, with no bound on their rounds; the model's
  -- result, which counts rounds, is the result of this run, and no run has another.
  pub match_side-Sweeps :
      (side : OrderSide)
      → let r = match_side clock side h b o in
        Sweeps clock b.ticker side o (unmatched side h b) (match_state side r)
        × ((t : Match)
            → Sweeps clock b.ticker side o (unmatched side h b) t
            → t ≡ match_state side r)
  match_side-Sweeps side = rw (match_side_state clock h n b o v fresh tracked side) (
      match_order-Sweeps clock b.ticker side o n h (facing side b) (h o).filled_quantity
        (total_quantity h (facing side b)) b.trade_counter fresh
        (start clock h n b o v fresh tracked side)
        (start-Matching clock h n b o v fresh tracked side))
