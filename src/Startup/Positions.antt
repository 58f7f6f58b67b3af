-- ===== src/Startup/Positions.antt =====
-- Positions as the risk checker rebuilds them from the log.
use stock_trading_platform.Prelude.{
  ℕ, suc, ◌≡◌, refl, ap, sym, ◌∙◌, String, Option, none, some, append-nil, List, [], ◌∷◌, ◌++◌,
  arith,
}
use stock_trading_platform.Prelude.Int.{ℤ, pos, ◌+ℤ◌}
use stock_trading_platform.Prelude.Dict.{Dict}
use stock_trading_platform.Events.{OrderType, limit, market, Order, Heap}
use stock_trading_platform.Engine.Matcher.{MatchingEngine}
use stock_trading_platform.Risk.Checker.{
  RiskChecker, record_open_order, record_cancel, reduce_notional, get_position,
}
use stock_trading_platform.Risk.Positions.{change, get_position-record_fill}
use stock_trading_platform.Persistence.EventLog.{
  Event, order_submitted, trade_executed, order_cancelled, idempotency_cached, Entry, EventLog,
  append_event, read_lines, read_all, Line, blank, broken, logged, file_lines, written_line,
}
use stock_trading_platform.Persistence.Replay.{read_lines-append, IsEnded}
use stock_trading_platform.Startup.Steps.{
  rebuild_open_orders, rebuild_fill, rebuild_positions, rebuild_risk,
}

-- A position after an event.
abbrev pub moved : Event → String → String → ℤ → ℤ
moved (trade_executed t buyer seller) a u z = z +ℤ change t buyer seller a u
moved (order_submitted x) a u z = z
moved (order_cancelled id ticker) a u z = z
moved (idempotency_cached id response expires_at) a u z = z

-- The position after these events, from `z` on.
abbrev pub position_after : List Entry → String → String → ℤ → ℤ
position_after [] a u z = z
position_after (x ∷ xs) a u z = position_after xs a u (moved x.event a u z)

position_after-append :
    (xs ys : List Entry) (a u : String) (z : ℤ)
    → position_after (xs ++ ys) a u z ≡ position_after ys a u (position_after xs a u z)
position_after-append [] ys a u z = refl
position_after-append (x ∷ xs) ys a u z = position_after-append xs ys a u (moved x.event a u z)

pub get_position-record_open_order :
    (c : RiskChecker) (o : Order) (a u : String)
    → get_position (record_open_order c o) a u ≡ get_position c a u
unfolding record_open_order get_position
get_position-record_open_order c o a u = ground arith

pub get_position-record_cancel :
    (c : RiskChecker) (o : Order) (a u : String)
    → get_position (record_cancel c o) a u ≡ get_position c a u
unfolding record_cancel reduce_notional get_position
get_position-record_cancel c o a u = ground arith

limit_open :
    (c : RiskChecker) (o : Order) (t : OrderType) (a u : String)
    → get_position (elim t [ limit ↦ record_open_order c o | market ↦ c ]) a u ≡ get_position c a u
limit_open c o limit a u = get_position-record_open_order c o a u
limit_open c o market a u = refl

rebuild_open_orders-position :
    (h : Heap) (d : Dict (String × ℕ)) (c : RiskChecker) (a u : String)
    → get_position (rebuild_open_orders h d c) a u ≡ get_position c a u
unfolding rebuild_open_orders
rebuild_open_orders-position h [] c a u = refl
rebuild_open_orders-position h ((id, (t, r)) ∷ d) c a u =
    rebuild_open_orders-position h d _ a u ∙ limit_open c (h r) (h r).order_type a u

rebuild_fill-position :
    (e : Event) (c : RiskChecker) (a u : String)
    → get_position (rebuild_fill e c) a u ≡ moved e a u (get_position c a u)
rebuild_fill-position (trade_executed t buyer seller) c a u =
    get_position-record_fill c t buyer seller a u
rebuild_fill-position (order_submitted x) c a u = refl
rebuild_fill-position (order_cancelled id ticker) c a u = refl
rebuild_fill-position (idempotency_cached id response expires_at) c a u = refl

rebuild_positions-position :
    (xs : List Entry) (c : RiskChecker) (a u : String)
    → get_position (rebuild_positions xs c) a u ≡ position_after xs a u (get_position c a u)
unfolding rebuild_positions
rebuild_positions-position [] c a u = refl
rebuild_positions-position (x ∷ xs) c a u =
    rebuild_positions-position xs (rebuild_fill x.event c) a u
    ∙ ap (position_after xs a u) (rebuild_fill-position x.event c a u)

-- What the whole log says of a position.
abbrev pub logged_position : EventLog → String → String → ℤ
logged_position l a u = position_after (read_all 0 l) a u (pos 0)

pub rebuild_risk-position :
    (h : Heap) (e : MatchingEngine) (l : EventLog) (c : RiskChecker) (a u : String)
    → get_position c a u ≡ pos 0
    → get_position (rebuild_risk h e l c) a u ≡ logged_position l a u
unfolding rebuild_risk
rebuild_risk-position h e l c a u zero =
    rebuild_positions-position (read_all 0 l) _ a u
    ∙ ap (position_after (read_all 0 l) a u)
        (rebuild_open_orders-position h e.order_registry c a u ∙ zero)

-- A new entry is read, whatever its event.
read_one :
    (e : Event) (n : ℕ)
    → read_lines 0 (logged (record { seq = some (suc n); event = e }) ∷ [])
      ≡ record { seq = some (suc n); event = e } ∷ []
unfolding read_lines
read_one e n = ground arith

pub read_all-append_event :
    (e : Event) (l : EventLog)
    → IsEnded l
    → read_all 0 (append_event e l)
      ≡ read_all 0 l ++ record { seq = some (suc l.sequence); event = e } ∷ []
unfolding append_event read_lines
read_all-append_event e l ended =
    let x : Entry = record { seq = some (suc l.sequence); event = e } in
    ap (λ t. read_lines 0 (l.lines ++ written_line t x ∷ [])) ended
    ∙ read_lines-append 0 l.lines (logged x ∷ [])
    ∙ ap (λ xs. read_lines 0 l.lines ++ xs) (read_one e l.sequence)
    ∙ sym (ap (λ t. read_lines 0 (file_lines l.lines t) ++ x ∷ []) ended)

-- A piece at the end of the file that is no entry.
abbrev pub IsUnread : Option Line → Type 0
IsUnread none = Unit
IsUnread (some blank) = Unit
IsUnread (some broken) = Unit
IsUnread (some (logged x)) = ⊥

position_appended :
    (e : Event) (l : EventLog) (a u : String)
    → ((z : ℤ) → moved e a u z ≡ z)
    → position_after
        (read_lines 0 (l.lines ++ logged (record { seq = some (suc l.sequence); event = e }) ∷ []))
        a
        u
        (pos 0)
      ≡ position_after (read_lines 0 l.lines) a u (pos 0)
position_appended e l a u still =
    let x : Entry = record { seq = some (suc l.sequence); event = e } in
    ap (λ xs. position_after xs a u (pos 0))
      (read_lines-append 0 l.lines (logged x ∷ [])
        ∙ ap (λ xs. read_lines 0 l.lines ++ xs) (read_one e l.sequence))
    ∙ position_after-append (read_lines 0 l.lines) (x ∷ []) a u (pos 0)
    ∙ still _

-- A log whose first event may be lost.
position_unread :
    (e : Event) (l : EventLog) (t : Option Line) (a u : String)
    → IsUnread t
    → ((z : ℤ) → moved e a u z ≡ z)
    → position_after
        (read_lines 0
          (l.lines ++ written_line t (record { seq = some (suc l.sequence); event = e }) ∷ []))
        a
        u
        (pos 0)
      ≡ position_after (read_lines 0 (file_lines l.lines t)) a u (pos 0)
unfolding read_lines
position_unread e l none a u k still = position_appended e l a u still
position_unread e l (some blank) a u k still =
    position_appended e l a u still
    ∙ ap (λ xs. position_after xs a u (pos 0))
        (sym (read_lines-append 0 l.lines (blank ∷ []) ∙ append-nil (read_lines 0 l.lines)))
position_unread e l (some broken) a u k still = refl
position_unread e l (some (logged y)) a u k still = absurd k

pub logged_position-append_event :
    (e : Event) (l : EventLog) (a u : String)
    → IsEnded l
    → logged_position (append_event e l) a u ≡ moved e a u (logged_position l a u)
logged_position-append_event e l a u ended =
    ap (λ xs. position_after xs a u (pos 0)) (read_all-append_event e l ended)
    ∙ position_after-append (read_all 0 l) _ a u (pos 0)

-- An event that is no trade changes no position, whether it is lost or not.
pub logged_position_still :
    (e : Event) (l : EventLog) (a u : String)
    → IsUnread l.tail
    → ((z : ℤ) → moved e a u z ≡ z)
    → logged_position (append_event e l) a u ≡ logged_position l a u
unfolding append_event
logged_position_still e l a u k still = position_unread e l l.tail a u k still
