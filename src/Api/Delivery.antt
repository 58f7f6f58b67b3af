-- ===== src/Api/Delivery.antt =====
-- Whom a broadcast reaches.
use stock_trading_platform.Prelude.{
  ℕ, ◌≡◌, refl, ap, ◌∙◌, String, false, ◌&&◌, ◌||◌, List, [], ◌∷◌, ◌++◌, arith, ◌==◌, if◌then◌else◌,
  str_eq, eq_iff, Bool, Bool-cases, inl, inr, ==→eq,
}
use stock_trading_platform.Prelude.Dict.{Dict, insert, lookup-insert}
use stock_trading_platform.Engine.Manager.{is_supported}
use stock_trading_platform.Api.Broadcaster.{
  Message, Broadcaster, has_client, add_client, clients_of, subscribe_all, subscribe, Mailboxes,
  is_full, put_nowait, deliver, broadcast,
}

-- Each client once.
abbrev pub IsClientSet : List ℕ → Type 0
IsClientSet [] = Unit
IsClientSet (c ∷ cs) = (has_client c cs ≡ false) × IsClientSet cs

-- What one message does to the queue of a client that is or is not among its receivers.
abbrev pub received : (capacity : ℕ) → Bool → Message → List Message → List Message
received capacity reached x ms =
    if reached then (if is_full capacity ms then ms else ms ++ x ∷ []) else ms

pub deliver-received :
    (capacity : ℕ) (cs : List ℕ) (x : Message) (ms : Mailboxes) (d : ℕ)
    → IsClientSet cs
    → deliver capacity cs x ms d ≡ received capacity (has_client d cs) x (ms d)
unfolding deliver has_client put_nowait
deliver-received capacity [] x ms d s = refl
deliver-received capacity (c ∷ cs) x ms d s = elim (Bool-cases (c == d)) [
  | inl same ↦
      let here = ap (λ k. has_client k cs) (==→eq c d same) in
      ground (
        arith,
        same,
        s.0,
        here,
        deliver-received capacity cs x (put_nowait capacity c x ms) d s.1,
        ap ms (==→eq c d same),
      )
  | inr other ↦
      ground (arith, other, deliver-received capacity cs x (put_nowait capacity c x ms) d s.1)
]

has_client-add_client :
    (d c : ℕ) (ds : List ℕ) → has_client d (add_client c ds) ≡ (c == d || has_client d ds)
unfolding add_client has_client
has_client-add_client d c ds = elim (Bool-cases (c == d)) [
  | inl same ↦ ground (arith, same, ap (λ k. has_client k ds) (==→eq c d same))
  | inr other ↦ ground (arith, other)
]

add_client-IsClientSet : (c : ℕ) (ds : List ℕ) → IsClientSet ds → IsClientSet (add_client c ds)
unfolding add_client
add_client-IsClientSet c ds s = elim (Bool-cases (has_client c ds)) [
  | inl e ↦ rw e s
  | inr e ↦ rw e (e, s)
]

pub clients_of-insert :
    (t u : String) (ds : List ℕ) (m : Dict (List ℕ))
    → clients_of u (insert t ds m) ≡ (if str_eq t u then ds else clients_of u m)
clients_of-insert t u ds m = ground (arith, lookup-insert t u ds m)

-- Each ticker's clients are a set.
abbrev pub HasSets : Dict (List ℕ) → Type 0
HasSets m = (t : String) → IsClientSet (clients_of t m)

insert-HasSets :
    (t : String) (c : ℕ) (m : Dict (List ℕ))
    → HasSets m
    → HasSets (insert t (add_client c (clients_of t m)) m)
insert-HasSets t c m s u = elim (Bool-cases (str_eq t u)) [
  | inl e ↦
      rw (clients_of-insert t u (add_client c (clients_of t m)) m, e)
        (add_client-IsClientSet c (clients_of t m) (s t))
  | inr e ↦ rw (clients_of-insert t u (add_client c (clients_of t m)) m, e) (s u)
]

pub subscribe_all_lem :
    (c : ℕ) (ts : List String) (m : Dict (List ℕ)) (u : String) (d : ℕ)
    → HasSets m
    → IsClientSet (clients_of u (subscribe_all c ts m))
      × (has_client d (clients_of u (subscribe_all c ts m))
          ≡ (has_client d (clients_of u m) || (c == d && is_supported u ts)))
unfolding subscribe_all is_supported
subscribe_all_lem c [] m u d s = (s u, ground arith)
subscribe_all_lem c (t ∷ ts) m u d s =
    let next =
      subscribe_all_lem c ts (insert t (add_client c (clients_of t m)) m) u d
        (insert-HasSets t c m s) in
    (
      next.0,
      ground (
        arith,
        next.1,
        clients_of-insert t u (add_client c (clients_of t m)) m,
        has_client-add_client d c (clients_of t m),
        eq_iff t u,
      ),
    )

-- In a broadcaster whose tickers have sets of clients, a client subscribes to some tickers, and
-- then a message is broadcast for a ticker. It comes once, at the end of its queue unless that is
-- full, to this client if the ticker is one of those, and to each client that was subscribed to the
-- ticker before; to no other.
pub broadcast-subscribe :
    (capacity : ℕ) (c : ℕ) (ts : List String) (b : Broadcaster) (t : String) (x : Message)
    (ms : Mailboxes) (d : ℕ)
    → HasSets b.subscriptions
    → broadcast capacity (subscribe c ts b) t x ms d
      ≡ received capacity
          (has_client d (clients_of t b.subscriptions) || (c == d && is_supported t ts))
          x
          (ms d)
unfolding broadcast subscribe
broadcast-subscribe capacity c ts b t x ms d s =
    let after = subscribe_all_lem c ts b.subscriptions t d s in
    deliver-received capacity (clients_of t (subscribe_all c ts b.subscriptions)) x ms d after.0
    ∙ ap (λ (r : Bool). received capacity r x (ms d)) after.1
