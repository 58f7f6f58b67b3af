-- ===== src/Persistence/EventLog.antt =====
-- `class EventLog` of trading/persistence/event_log.py. A line of the file stands for what
-- `json.loads` makes of it; the time `ts`, which nothing reads, is left out.
use stock_trading_platform.Prelude.{
  ℕ, suc, ◌+◌, ◌*◌, String, Option, none, some, List, [], ◌∷◌, ◌++◌, ltb, if◌then◌else◌,
}
use stock_trading_platform.Events.{Order, Trade}
use stock_trading_platform.Api.Schemas.{OrderResponse}

pub data Event : Type 0 where
  order_submitted : Order → Event
  trade_executed : Trade → (buyer_account seller_account : String) → Event
  order_cancelled : (order_id ticker : String) → Event
  idempotency_cached : (order_id : String) → OrderResponse → (expires_at : ℕ) → Event

-- An event with its `seq`.
pub record Entry : Type 0 where
  pub seq : Option ℕ
  pub event : Event

-- A line is blank, is no JSON, or holds an entry.
pub data Line : Type 0 where
  blank broken : Line
  logged : Entry → Line

-- The lines that end in a newline, and what stands after the last newline, if anything does: a write
-- that was cut off may leave a piece there.
pub record EventLog : Type 0 where
  pub lines : List Line
  pub tail : Option Line
  pub sequence : ℕ

-- The lines as a reader of the file meets them.
abbrev pub file_lines : List Line → Option Line → List Line
file_lines ls none = ls
file_lines ls (some x) = ls ++ x ∷ []

-- `event.get("seq", 0)`
abbrev pub seq_or_zero : Entry → ℕ
seq_or_zero x = elim x.seq [ none ↦ 0 | some n ↦ n ]

-- The loop of `_read_max_sequence`.
unfoldable pub max_sequence : ℕ → List Line → ℕ
max_sequence m [] = m
max_sequence m (blank ∷ ls) = max_sequence m ls
max_sequence m (broken ∷ ls) = max_sequence m ls
max_sequence m (logged x ∷ ls) =
    max_sequence (if ltb m (seq_or_zero x) then seq_or_zero x else m) ls

-- `EventLog(path)` over what the file holds; no file has no lines.
unfoldable pub open_log : List Line → Option Line → EventLog
unfolding max_sequence
open_log ls tail = record {
  lines = ls;
  tail = tail;
  sequence = max_sequence 0 (file_lines ls tail);
}

-- The line that is made by a write at the end of the file: after a piece it joins that.
abbrev pub written_line : Option Line → Entry → Line
written_line none x = logged x
written_line (some blank) x = logged x
written_line (some broken) x = broken
written_line (some (logged y)) x = broken

-- `_next_seq` and `_write`, by which every `append_...` adds its event.
unfoldable pub append_event : Event → EventLog → EventLog
append_event e l = record {
  lines = l.lines ++ written_line l.tail (record { seq = some (suc l.sequence); event = e }) ∷ [];
  tail = none;
  sequence = suc l.sequence;
}

abbrev pub append_order_submitted : Order → EventLog → EventLog
append_order_submitted o = append_event (order_submitted o)

abbrev pub append_trade_executed : Trade → String → String → EventLog → EventLog
append_trade_executed t buyer seller = append_event (trade_executed t buyer seller)

abbrev pub append_order_cancelled : String → String → EventLog → EventLog
append_order_cancelled id ticker = append_event (order_cancelled id ticker)

-- `now` and the expiry count seconds.
abbrev pub append_idempotency_cached :
    (now : ℕ) → String → OrderResponse → (ttl_hours : ℕ) → EventLog → EventLog
append_idempotency_cached now id r ttl_hours =
    append_event (idempotency_cached id r (now + ttl_hours * 3_600))

unfoldable pub read_lines : ℕ → List Line → List Entry
read_lines after [] = []
read_lines after (blank ∷ ls) = read_lines after ls
read_lines after (broken ∷ ls) = read_lines after ls
read_lines after (logged x ∷ ls) =
    let rest = read_lines after ls in if ltb after (seq_or_zero x) then x ∷ rest else rest

-- `read_all`
abbrev pub read_all : ℕ → EventLog → List Entry
read_all after l = read_lines after (file_lines l.lines l.tail)
