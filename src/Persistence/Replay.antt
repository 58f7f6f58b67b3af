-- ===== src/Persistence/Replay.antt =====
-- Sequence numbers of the event log: over appending, reading and opening again.
use stock_trading_platform.Prelude.{
  ℕ, suc, ◌+◌, ◌≤◌, ◌≡◌, refl, ap, sym, ◌∙◌, subst, Option, none, some, List, [], ◌∷◌, ◌++◌, ltb,
  arith, if◌then◌else◌, All, All-append, length, map, append-nil, append_assoc,
}
use stock_trading_platform.Persistence.EventLog.{
  Event, Entry, Line, blank, broken, logged, EventLog, file_lines, written_line, seq_or_zero,
  max_sequence, open_log, append_event, read_lines, read_all,
}

abbrev pub append_all : List Event → EventLog → EventLog
append_all [] l = l
append_all (e ∷ es) l = append_all es (append_event e l)

-- The entries that these events make, numbered after `n`.
abbrev pub entries_after : ℕ → List Event → List Entry
entries_after n [] = []
entries_after n (e ∷ es) = record { seq = some (suc n); event = e } ∷ entries_after (suc n) es

abbrev pub line_seq : Line → ℕ
line_seq blank = 0
line_seq broken = 0
line_seq (logged x) = seq_or_zero x

-- No line has a number above the log's.
abbrev pub IsBounded : EventLog → Type 0
IsBounded l = All (λ x. line_seq x ≤ l.sequence) (file_lines l.lines l.tail)

-- The file is empty or ends in a newline.
abbrev pub IsEnded : EventLog → Type 0
IsEnded l = l.tail ≡ none

max_sequence-grows : (m : ℕ) (ls : List Line) → m ≤ max_sequence m ls
unfolding max_sequence
max_sequence-grows m [] = omega arith
max_sequence-grows m (blank ∷ ls) = max_sequence-grows m ls
max_sequence-grows m (broken ∷ ls) = max_sequence-grows m ls
max_sequence-grows m (logged x ∷ ls) =
    ground (arith, max_sequence-grows (seq_or_zero x) ls, max_sequence-grows m ls)

max_sequence-bounds : (m : ℕ) (ls : List Line) → All (λ x. line_seq x ≤ max_sequence m ls) ls
unfolding max_sequence
max_sequence-bounds m [] = tt
max_sequence-bounds m (blank ∷ ls) = (omega arith, max_sequence-bounds m ls)
max_sequence-bounds m (broken ∷ ls) = (omega arith, max_sequence-bounds m ls)
max_sequence-bounds m (logged x ∷ ls) = (
  ground (arith, max_sequence-grows (seq_or_zero x) ls, max_sequence-grows m ls),
  max_sequence-bounds (if ltb m (seq_or_zero x) then seq_or_zero x else m) ls,
)

pub open_log-IsBounded : (ls : List Line) (tail : Option Line) → IsBounded (open_log ls tail)
unfolding open_log
open_log-IsBounded ls tail = max_sequence-bounds 0 (file_lines ls tail)

pub read_lines-append :
    (n : ℕ) (ls ks : List Line) → read_lines n (ls ++ ks) ≡ read_lines n ls ++ read_lines n ks
unfolding read_lines
read_lines-append n [] ks = refl
read_lines-append n (blank ∷ ls) ks = read_lines-append n ls ks
read_lines-append n (broken ∷ ls) ks = read_lines-append n ls ks
read_lines-append n (logged x ∷ ls) ks = ground (arith, read_lines-append n ls ks)

read_lines-nothing : (n : ℕ) (ls : List Line) → All (λ x. line_seq x ≤ n) ls → read_lines n ls ≡ []
unfolding read_lines
read_lines-nothing n [] b = refl
read_lines-nothing n (blank ∷ ls) b = read_lines-nothing n ls b.1
read_lines-nothing n (broken ∷ ls) b = read_lines-nothing n ls b.1
read_lines-nothing n (logged x ∷ ls) b = ground (arith, b.0, read_lines-nothing n ls b.1)

max_sequence-append :
    (m : ℕ) (ls ks : List Line) → max_sequence m (ls ++ ks) ≡ max_sequence (max_sequence m ls) ks
unfolding max_sequence
max_sequence-append m [] ks = refl
max_sequence-append m (blank ∷ ls) ks = max_sequence-append m ls ks
max_sequence-append m (broken ∷ ls) ks = max_sequence-append m ls ks
max_sequence-append m (logged x ∷ ls) ks =
    max_sequence-append (if ltb m (seq_or_zero x) then seq_or_zero x else m) ls ks

max_sequence-entries :
    (n : ℕ) (es : List Event) → max_sequence n (map logged (entries_after n es)) ≡ n + length es
unfolding max_sequence
max_sequence-entries n [] = omega arith
max_sequence-entries n (e ∷ es) = ground (arith, max_sequence-entries (suc n) es)

read_lines-entries :
    (k n : ℕ) (es : List Event)
    → k ≤ n
    → read_lines k (map logged (entries_after n es)) ≡ entries_after n es
unfolding read_lines
read_lines-entries k n [] le = refl
read_lines-entries k n (e ∷ es) le = ground (arith, read_lines-entries k (suc n) es)

append_all_fields :
    (es : List Event) (l : EventLog)
    → IsEnded l
    → ((append_all es l).lines ≡ l.lines ++ map logged (entries_after l.sequence es))
      × ((append_all es l).sequence ≡ l.sequence + length es)
      × IsEnded (append_all es l)
unfolding append_event
append_all_fields [] l ended = (sym (append-nil l.lines), omega arith, ended)
append_all_fields (e ∷ es) l ended =
    let rest = append_all_fields es (append_event e l) refl in
    (
      rest.0
          ∙ append_assoc l.lines _ _
          ∙ ap
              (λ t.
                l.lines
                ++ written_line t (record { seq = some (suc l.sequence); event = e })
                  ∷ map logged (entries_after (suc l.sequence) es))
              ended,
      omega (arith, rest.1),
      rest.2,
    )

read_from :
    (n : ℕ) (es : List Event) (l : EventLog)
    → IsEnded l
    → All (λ x. line_seq x ≤ n) l.lines
    → n ≤ l.sequence
    → read_all n (append_all es l) ≡ entries_after l.sequence es
read_from n es l ended bounded le =
    let (lines, counted, ended') = append_all_fields es l ended in
    ap (λ t. read_lines n (file_lines (append_all es l).lines t)) ended'
    ∙ ap (read_lines n) lines
    ∙ read_lines-append n l.lines (map logged (entries_after l.sequence es))
    ∙ ap (λ xs. xs ++ read_lines n (map logged (entries_after l.sequence es)))
        (read_lines-nothing n l.lines bounded)
    ∙ read_lines-entries n l.sequence es le

-- Events are appended to a log whose file ends in a newline, and in which no number is above the
-- counter. Reading after the number that the log had before returns exactly these events, in their
-- order and numbered without a gap.
pub read_all-append_all :
    (es : List Event) (l : EventLog)
    → IsBounded l
    → IsEnded l
    → read_all l.sequence (append_all es l) ≡ entries_after l.sequence es
read_all-append_all es l b ended =
    let bounded : All (λ x. line_seq x ≤ l.sequence) l.lines =
      subst (λ t. All (λ x. line_seq x ≤ l.sequence) (file_lines l.lines t)) ended b in
    read_from l.sequence es l ended bounded (omega arith)

-- A piece that is more than white space.
abbrev pub IsPiece : Line → Type 0
IsPiece blank = ⊥
IsPiece broken = Unit
IsPiece (logged y) = Unit

joined_lem : (x : Line) (e : Entry) → IsPiece x → written_line (some x) e ≡ broken
joined_lem blank e k = absurd k
joined_lem broken e k = refl
joined_lem (logged y) e k = refl

front :
    (n : ℕ) (ls : List Line) (x : Line)
    → All (λ y. line_seq y ≤ n) (ls ++ x ∷ [])
    → All (λ y. line_seq y ≤ n) ls
front n [] x b = tt
front n (l ∷ ls) x b = (b.0, front n ls x b.1)

-- A log is opened from a file whose last line was cut off, whatever that piece is, and events are
-- appended: the first joins the piece and is lost, and with it what could be read of the piece; the
-- others are read, after the number that the log had.
pub torn_tail_loses_first :
    (e : Event) (es : List Event) (ls : List Line) (x : Line)
    → IsPiece x
    → read_all (open_log ls (some x)).sequence (append_all (e ∷ es) (open_log ls (some x)))
      ≡ entries_after (suc (open_log ls (some x)).sequence) es
unfolding open_log append_event
torn_tail_loses_first e es ls x k =
    let l = open_log ls (some x) in
    let n = l.sequence in
    let whole = open_log-IsBounded ls (some x) in
    let joined = joined_lem x (record { seq = some (suc n); event = e }) k in
    read_from n es (append_event e l) refl
      (All-append _ ls _ (front n ls x whole)
        (subst (λ y. All (λ z. line_seq z ≤ n) (y ∷ [])) (sym joined) (omega arith, tt)))
      (omega arith)

-- A log is opened from any file. If the file ends in a newline, then after any events, opened again
-- from what the file holds, it is the log that was left: its numbers go on where they stopped. If the
-- file ends in a line that was cut off, the first event that is appended joins this line and is never
-- read, and the events after it are read in their order, numbered after it.
pub open_log-append_all :
    (ls : List Line) (es : List Event) (e : Event) (x : Line)
    → IsPiece x
    → (open_log (append_all es (open_log ls none)).lines (append_all es (open_log ls none)).tail
        ≡ append_all es (open_log ls none))
      × (read_all (open_log ls (some x)).sequence (append_all (e ∷ es) (open_log ls (some x)))
          ≡ entries_after (suc (open_log ls (some x)).sequence) es)
unfolding open_log
open_log-append_all ls es e x k =
    let (lines, counted, ended) = append_all_fields es (open_log ls none) refl in
    (
      ap
          (λ k. record {
            lines = (append_all es (open_log ls none)).lines;
            tail = (append_all es (open_log ls none)).tail;
            sequence = k;
          })
          (ap (λ t. max_sequence 0 (file_lines (append_all es (open_log ls none)).lines t)) ended
            ∙ ap (max_sequence 0) lines
            ∙ max_sequence-append 0 ls (map logged (entries_after (max_sequence 0 ls) es))
            ∙ max_sequence-entries (max_sequence 0 ls) es
            ∙ sym counted),
      torn_tail_loses_first e es ls x k,
    )
