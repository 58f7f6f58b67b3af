-- ===== src/OrderBook/Fills.antt =====
-- One trade's effect on the two orders: `apply_fill` and `settle`.
use stock_trading_platform.Prelude.{ℕ, ◌+◌, ◌≤◌, ◌<◌, ◌≡◌, ◌≢◌, arith}
use stock_trading_platform.Events.{Order, remaining_quantity, Heap}
use stock_trading_platform.OrderBook.Matching.{apply_fill, settle}
use stock_trading_platform.OrderBook.Resting.{IsTracked, terms}

pub apply_fill-terms : (q : ℕ) (x : Order) → terms (apply_fill q x) ≡ terms x
unfolding apply_fill
apply_fill-terms q x = ground arith

pub apply_fill_quantity :
    (q : ℕ) (x : Order)
    → ((apply_fill q x).filled_quantity ≡ x.filled_quantity + q)
      × ((apply_fill q x).quantity ≡ x.quantity)
unfolding apply_fill
apply_fill_quantity q x = ground arith

-- A fill of an open order, by at most what is left, keeps it tracked.
pub apply_fill-IsTracked :
    (q : ℕ) (x : Order) → 0 < q → q ≤ remaining_quantity x → IsTracked (apply_fill q x)
unfolding apply_fill
apply_fill-IsTracked q x p l = ground arith

module _ (h : Heap) (o r q : ℕ) (ne : o ≢ r) where
  pub settle_incoming : settle h o r q o ≡ apply_fill q (h o)
  unfolding settle
  settle_incoming = ground arith

  pub settle_resting : settle h o r q r ≡ apply_fill q (h r)
  unfolding settle
  settle_resting = ground arith

pub settle_other : (h : Heap) (o r q x : ℕ) → x ≢ o → x ≢ r → settle h o r q x ≡ h x
unfolding settle
settle_other h o r q x a b = ground arith

pub settle-terms : (h : Heap) (o r q x : ℕ) → terms (settle h o r q x) ≡ terms (h x)
unfolding settle
settle-terms h o r q x = ground (
  arith,
  apply_fill-terms q (h o),
  apply_fill-terms q (h r),
  apply_fill-terms q (apply_fill q (h o)),
)
