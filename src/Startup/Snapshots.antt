-- ===== src/Startup/Snapshots.antt =====
-- The snapshots of main.py: a round of `_periodic_snapshot`, the shutdown at the end of `lifespan`,
-- and what a start replays after one of them. `file` is what the snapshot's file holds.
use stock_trading_platform.Prelude.{
  All, [], ◌∷◌, true, ℕ, ◌≡◌, refl, ap, ◌∙◌, subst, String, Option, some, List, arith,
}
use stock_trading_platform.Events.{Heap}
use stock_trading_platform.OrderBook.Book.{Result, ok, raise}
use stock_trading_platform.Engine.Manager.{OrderBookManager, is_supported, get_supported_tickers}
use stock_trading_platform.Engine.Routing.{IsManager}
use stock_trading_platform.Engine.Tickers.{supported_lem, get_order_book_ok}
use stock_trading_platform.Engine.Matcher.{MatchingEngine, evict_stale_registry}
use stock_trading_platform.Persistence.EventLog.{Event, read_all}
use stock_trading_platform.Persistence.Replay.{
  append_all, entries_after, IsBounded, IsEnded, read_all-append_all,
}
use stock_trading_platform.Persistence.Snapshot.{
  SavedBook, Snapshot, save_book, add_saved, save_books, snapshot_version, make_snapshot, save,
  load, Restored, restore,
}
use stock_trading_platform.Api.Consumer.{Platform}
use stock_trading_platform.Startup.Steps.{recover, replay_events}

-- The snapshot replaces the file's; after an exception the file is as it was.
abbrev pub written_file : Option Snapshot → Result Snapshot → Option Snapshot
written_file file (raise e) = file
written_file file (ok s) = some s

-- `_periodic_snapshot` after a sleep.
abbrev pub snapshot_round : (now ttl : ℕ) → Platform → Option Snapshot → Platform × Option Snapshot
snapshot_round now ttl p file =
    let p' = record p { engine = (evict_stale_registry now ttl p.heap p.engine).0 } in
    (p', written_file file (save p'.heap p'.engine p'.log.sequence))

-- The end of `lifespan`, when the tasks are canceled.
abbrev pub shutdown : Platform → Option Snapshot → Option Snapshot
shutdown p file = written_file file (save p.heap p.engine p.log.sequence)

abbrev IsOf : ℕ → Result Snapshot → Type 0
IsOf n (raise e) = Unit
IsOf n (ok s) = (s.version ≡ snapshot_version) × (s.sequence ≡ n)

make_snapshot-IsOf :
    (n : ℕ) (books : Result (List (String × SavedBook))) → IsOf n (make_snapshot n books)
make_snapshot-IsOf n (raise e) = tt
make_snapshot-IsOf n (ok books) = (refl, refl)

save-IsOf : (h : Heap) (e : MatchingEngine) (n : ℕ) → IsOf n (save h e n)
unfolding save
save-IsOf h e n = make_snapshot-IsOf n _

save_books_ok :
    (h : Heap) (m : OrderBookManager) (n : ℕ) (ts : List String)
    → IsManager h n m
    → All (λ (t : String). is_supported t m.supported_tickers ≡ true) ts
    → (books : List (String × SavedBook)) × (save_books h m ts ≡ ok books)
unfolding save_books
save_books_ok h m n [] v s = ([], refl)
save_books_ok h m n (t ∷ ts) v s =
    let (b, found) = get_order_book_ok m h n t v s.0 in
    let (books, rest) = save_books_ok h m n ts v s.1 in
    (
      (t, save_book h b) ∷ books,
      ap (λ x. add_saved h t x (save_books h m ts)) found ∙ ap (add_saved h t (ok b)) rest,
    )

-- On books in order a snapshot is saved without an exception.
pub save_ok :
    (h : Heap) (e : MatchingEngine) (n sequence : ℕ)
    → IsManager h n e.manager
    → (s : Snapshot) × (save h e sequence ≡ ok s)
unfolding save
save_ok h e n sequence v =
    let (books, saved) =
      save_books_ok h e.manager n (get_supported_tickers e.manager) v (supported_lem e.manager) in
    (_, ap (make_snapshot sequence) saved)

-- A service whose books are in order, and whose log is bounded by its counter and ends in a newline,
-- is shut down, and whatever the snapshot's file held, a snapshot of this service is in it. If the
-- log then goes on with any events, a start from both replays exactly these events, in their order,
-- on the restored books: none is missed and none is replayed twice. Where nothing was logged since,
-- none is replayed.
pub recover_since_snapshot :
    (clock : ℕ → ℕ) (now n : ℕ) (p : Platform) (file : Option Snapshot) (es : List Event)
    (r : Restored)
    → IsBounded p.log
    → IsEnded p.log
    → IsManager p.heap n p.engine.manager
    → (s : Snapshot) × (save p.heap p.engine p.log.sequence ≡ ok s)
      × (shutdown p file ≡ some s)
      × (recover clock now (load (shutdown p file)) (append_all es p.log) r
          ≡ replay_events clock now (entries_after p.log.sequence es) (restore s r))
unfolding load
recover_since_snapshot clock now n p file es r bounded ended v =
    let (s, e) = save_ok p.heap p.engine n p.log.sequence v in
    let (version, sequence) =
      subst (IsOf p.log.sequence) e (save-IsOf p.heap p.engine p.log.sequence) in
    let stands : shutdown p file ≡ some s = ap (written_file file) e in
    let loaded : load (some s) ≡ some s = ground (arith, version) in
    (
      s,
      e,
      stands,
      ap (λ f. recover clock now f (append_all es p.log) r) (ap (λ f. load f) stands ∙ loaded)
          ∙ ap (λ xs. replay_events clock now xs (restore s r))
              (ap (λ n. read_all n (append_all es p.log)) sequence
                ∙ read_all-append_all es p.log bounded ended),
    )
