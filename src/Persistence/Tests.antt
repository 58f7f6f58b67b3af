-- ===== src/Persistence/Tests.antt =====
-- A log file with a blank line and a line that was cut off, opened and written on.
use stock_trading_platform.Prelude.{
  ℕ, zero, suc, ap, String, Option, ◌≡◌, none, refl, some, List, [], ◌∷◌, ◌++◌,
}
use stock_trading_platform.Events.{Order, Trade, sell}
use stock_trading_platform.Persistence.Json.{
  order_to_dict, dict_to_order, logged_order, replayed_order, trade_to_dict, rebuilt_trade,
}
use stock_trading_platform.Persistence.Json.Reading.{written_and_read}
use stock_trading_platform.OrderBook.Book.{empty_book, ok}
use stock_trading_platform.Engine.Samples.{order, heap, book, book-IsBook}
use stock_trading_platform.Persistence.Snapshot.{Restoring, save_book, restore_orders}
use stock_trading_platform.Persistence.Values.{values}
use stock_trading_platform.Persistence.Recovery.{restore_orders-save_book}
use stock_trading_platform.Persistence.EventLog.{
  Event, order_cancelled, Line, blank, broken, logged, open_log, max_sequence, read_lines, read_all,
}
use stock_trading_platform.Persistence.Replay.{entries_after, append_all, open_log-append_all}

abbrev old_lines : List Line
old_lines =
    logged (record { seq = some 1; event = order_cancelled "a" "AAPL" })
    ∷ blank
    ∷ logged (record { seq = some 2; event = order_cancelled "b" "AAPL" })
    ∷ broken
    ∷ []

abbrev events : List Event
events = order_cancelled "c" "MSFT" ∷ order_cancelled "d" "MSFT" ∷ []

sequence_of_file : (open_log old_lines (some broken)).sequence ≡ 2
unfolding open_log max_sequence
sequence_of_file = refl

read_after_one :
    read_all 1 (open_log old_lines (some broken))
    ≡ record { seq = some 2; event = order_cancelled "b" "AAPL" } ∷ []
unfolding open_log read_lines
read_after_one = refl

open_log-append_all_example :
    (open_log
        (append_all events (open_log old_lines none)).lines
        (append_all events (open_log old_lines none)).tail
      ≡ append_all events (open_log old_lines none))
    × (read_all
          (open_log old_lines (some broken)).sequence
          (append_all (order_cancelled "b" "AAPL" ∷ events) (open_log old_lines (some broken)))
        ≡ entries_after (suc (open_log old_lines (some broken)).sequence) events)
open_log-append_all_example =
    open_log-append_all old_lines events (order_cancelled "b" "AAPL") broken tt

restore_orders-save_book_example :
    (s : Restoring) × (restore_orders "AAPL"
        ((save_book heap book).bids ++ (save_book heap book).asks)
        (ok (record { heap = heap; next = 6; book = empty_book "AAPL"; registry = [] }))
      ≡ ok s)
    × (values s.heap s.book.bids ≡ values heap book.bids)
    × (values s.heap s.book.asks ≡ values heap book.asks)
restore_orders-save_book_example = restore_orders-save_book heap 4 book heap 6 [] book-IsBook

-- Texts for numbers, in place of the library's: as many marks as the number.
tally : String → ℕ
tally String.[] = 0
tally (String.◌∷◌ c t) = suc (tally t)

marks : ℕ → String
marks zero = ""
marks (suc n) = String.◌∷◌ "|" (marks n)

read_marks : String → Option ℕ
read_marks t = some (tally t)

tally-marks : (n : ℕ) → tally (marks n) ≡ n
unfolding tally marks
tally-marks zero = refl
tally-marks (suc n) = ap suc (tally-marks n)

read_marks-marks : (n : ℕ) → read_marks (marks n) ≡ some n
unfolding read_marks
read_marks-marks n = ap some (tally-marks n)

written_and_read_example :
    ((x : Order)
      → (dict_to_order marks read_marks marks read_marks
            (order_to_dict marks read_marks marks read_marks x)
          ≡ some x)
        × (replayed_order marks read_marks marks read_marks
              (logged_order marks read_marks marks read_marks x)
            ≡ some x))
    × ((t : Trade)
        → rebuilt_trade marks read_marks marks read_marks
            (trade_to_dict marks read_marks marks read_marks t)
          ≡ some t)
written_and_read_example =
    written_and_read marks read_marks marks read_marks read_marks-marks read_marks-marks

written_order : order_to_dict marks read_marks marks read_marks (order "a1" sell 5 2) ≡ record {
  order_id = "a1";
  ticker = "AAPL";
  side = "SELL";
  order_type = "LIMIT";
  quantity = 5;
  filled_quantity = 0;
  price = some "||";
  status = "NEW";
  account_id = "default";
  timestamp = "";
}
unfolding order_to_dict marks
written_order = refl
