-- ===== src/Api/Websocket/Cleanup.antt =====
-- What a connection leaves behind.
use stock_trading_platform.Prelude.{
  ℕ, ◌≡◌, refl, ap, ◌∙◌, String, Bool, false, not, ◌&&◌, none, some, List, [], ◌∷◌, arith, ◌==◌,
  str_eq, eq_iff, Bool-cases, Option-cases, inl, inr, subst, ==→eq,
}
use stock_trading_platform.Prelude.Dict.{Dict, lookup}
use stock_trading_platform.Engine.Manager.{is_supported}
use stock_trading_platform.Api.Broadcaster.{
  Broadcaster, has_client, clients_of, discard_client, discard_from, discard_all, set_tickers,
  get_tickers, subscribe_all, subscribe, unsubscribe,
}
use stock_trading_platform.Api.Delivery.{HasSets, subscribe_all_lem, clients_of-insert}

get_tickers-set_tickers :
    (c : ℕ) (ts : List String) (m : List (ℕ × List String))
    → get_tickers c (set_tickers c ts m) ≡ ts
unfolding get_tickers set_tickers
get_tickers-set_tickers c ts [] = ground arith
get_tickers-set_tickers c ts ((d, us) ∷ m) = ground (arith, get_tickers-set_tickers c ts m)

has_client-discard_client :
    (d c : ℕ) (ds : List ℕ) → has_client d (discard_client c ds) ≡ (has_client d ds && not (c == d))
unfolding has_client discard_client
has_client-discard_client d c [] = refl
has_client-discard_client d c (e ∷ ds) = ground (arith, has_client-discard_client d c ds)

-- The client is at a ticker.
abbrev pub is_subscribed : ℕ → String → Dict (List ℕ) → Bool
is_subscribed d u m = has_client d (clients_of u m)

discard_from_lem :
    (c : ℕ) (t u : String) (d : ℕ) (m : Dict (List ℕ))
    → is_subscribed d u (discard_from c t m) ≡ (is_subscribed d u m && not (c == d && str_eq t u))
unfolding has_client
discard_from_lem c t u d m = elim (Option-cases (lookup t m)) [
  | inl nobody ↦
      rw (discard_from, nobody)
        (elim (Bool-cases (str_eq t u)) [
          | inl same ↦
              let at_u : lookup u m ≡ none =
                ground (arith, nobody, ap (λ k. lookup k m) ((eq_iff t u).0 same)) in
              ground (arith, at_u)
          | inr other ↦ ground (arith, other)
        ])
  | inr (ds, e) ↦
      rw (discard_from, e)
        (elim (Bool-cases (str_eq t u)) [
          | inl same ↦
              let at_u : lookup u m ≡ some ds =
                ground (arith, e, ap (λ k. lookup k m) ((eq_iff t u).0 same)) in
              ground (
                arith,
                same,
                at_u,
                clients_of-insert t u (discard_client c ds) m,
                ap (has_client d) (clients_of-insert t u (discard_client c ds) m),
                has_client-discard_client d c ds,
              )
          | inr other ↦
              ground
                (arith, other, ap (has_client d) (clients_of-insert t u (discard_client c ds) m))
        ])
]

discard_all_lem :
    (c : ℕ) (ts : List String) (u : String) (d : ℕ) (m : Dict (List ℕ))
    → is_subscribed d u (discard_all c ts m)
      ≡ (is_subscribed d u m && not (c == d && is_supported u ts))
unfolding discard_all is_supported
discard_all_lem c [] u d m = ground arith
discard_all_lem c (t ∷ ts) u d m =
    ground (arith, discard_all_lem c ts u d (discard_from c t m), discard_from_lem c t u d m)

-- A client that no ticker has, and that subscribes and unsubscribes, leaves every ticker's clients
-- as they were.
pub unsubscribe-subscribe :
    (c : ℕ) (ts : List String) (b : Broadcaster)
    → HasSets b.subscriptions
    → ((u : String) → is_subscribed c u b.subscriptions ≡ false)
    → (d : ℕ) (u : String)
    → is_subscribed d u (unsubscribe c (subscribe c ts b)).subscriptions
      ≡ is_subscribed d u b.subscriptions
unfolding unsubscribe subscribe
unsubscribe-subscribe c ts b sets absent d u =
    let m = subscribe_all c ts b.subscriptions in
    ap (λ us. is_subscribed d u (discard_all c us m))
      (get_tickers-set_tickers c ts b.client_tickers)
    ∙ discard_all_lem c ts u d m
    ∙ elim (Bool-cases (c == d)) [
      | inl same ↦
          let gone : is_subscribed d u b.subscriptions ≡ false =
            subst (λ k. is_subscribed k u b.subscriptions ≡ false) (==→eq c d same) (absent u) in
          ground (arith, gone, same, (subscribe_all_lem c ts b.subscriptions u d sets).1)
      | inr other ↦ ground (arith, other, (subscribe_all_lem c ts b.subscriptions u d sets).1)
    ]
