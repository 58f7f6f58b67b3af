-- ===== src/Api/Websocket/Session.antt =====
-- What a client is sent while its connection streams.
use stock_trading_platform.Prelude.{
  ℕ, suc, ◌≡◌, refl, ap, sym, ◌∙◌, subst, String, Bool, true, false, Option, none, some, List, [],
  ◌∷◌, ◌++◌, map, map-append, append-nil, append_assoc, arith, Bool-cases, inl, inr,
}
use stock_trading_platform.Api.Broadcaster.{Message, subscribe, Mailboxes, is_full, put_nowait}
use stock_trading_platform.Api.Websocket.{
  subscribed_to, broadcasted, Frame, disconnect, ping, Event, arrives, wakes, Connection,
  queue_size, set_mailbox, take_payload, lose_payload, wake, on_event, stream,
}
use stock_trading_platform.Api.Websocket.Sublist.{
  Sublist, Sublist-skip_last, Sublist-keep_last, Sublist-trans, Sublist-more, front, drop_middle,
}

-- The messages that were broadcast to the client.
abbrev pub arrivals : List Event → List Message
arrivals [] = []
arrivals (arrives x ∷ es) = x ∷ arrivals es
arrivals (wakes f got sends ∷ es) = arrivals es

module _ (c : ℕ) (k₀ : Connection) (ts : List String) where
  -- Since its confirmation the client was sent these messages of `ys`, and while it is connected
  -- the others wait in its queue or were dropped by it.
  pub record Serves (ys : List Message) (k : Connection) : Type 0 where
    pub messages : List Message
    pub sent_so_far : k.sent ≡ k₀.sent ++ subscribed_to ts ∷ map broadcasted messages
    pub waiting : Sublist (messages ++ k.mailboxes c) ys
    pub entered : k.broadcaster ≡ subscribe c ts k₀.broadcaster
    pub counted : k.active ≡ suc k₀.active

  pub record Served (ys : List Message) (k : Connection) : Type 0 where
    pub messages : List Message
    pub sent_in_all : k.sent ≡ k₀.sent ++ subscribed_to ts ∷ map broadcasted messages
    pub in_order : Sublist messages ys
    pub entered : k.broadcaster ≡ subscribe c ts k₀.broadcaster
    pub counted : k.active ≡ suc k₀.active

  abbrev pub After : List Message → Connection × Bool → Type 0
  After ys (k, true) = Serves ys k
  After ys (k, false) = Served ys k

  Serves→Served : (ys : List Message) (k : Connection) → Serves ys k → Served ys k
  Serves→Served ys k s = record {
    messages = s.messages;
    sent_in_all = s.sent_so_far;
    in_order = Sublist-trans (front s.messages (k.mailboxes c)) s.waiting;
    entered = s.entered;
    counted = s.counted;
  }

  Served-more : (ys zs : List Message) (k : Connection) → Served ys k → Served (ys ++ zs) k
  Served-more ys zs k s = record {
    messages = s.messages;
    sent_in_all = s.sent_in_all;
    in_order = Sublist-more zs s.in_order;
    entered = s.entered;
    counted = s.counted;
  }

  arrival_waits :
      (x : Message) (ys ms : List Message) (q : Mailboxes)
      → Sublist (ms ++ q c) ys
      → Sublist (ms ++ put_nowait queue_size c x q c) (ys ++ x ∷ [])
  unfolding put_nowait
  arrival_waits x ys ms q s = elim (Bool-cases (is_full queue_size (q c))) [
    | inl full ↦
        let same : put_nowait queue_size c x q c ≡ q c = ground (arith, full) in
        subst (λ l. Sublist (ms ++ l) (ys ++ x ∷ [])) (sym same) (Sublist-skip_last x s)
    | inr room ↦
        let longer : put_nowait queue_size c x q c ≡ q c ++ x ∷ [] = ground (arith, room) in
        subst (λ l. Sublist (ms ++ l) (ys ++ x ∷ [])) (sym longer)
          (subst (λ l. Sublist l (ys ++ x ∷ [])) (append_assoc ms (q c) (x ∷ []))
            (Sublist-keep_last x s))
  ]

  arrives-Serves :
      (x : Message) (ys : List Message) (k : Connection)
      → Serves ys k
      → Serves (ys ++ x ∷ []) (record k { mailboxes = put_nowait queue_size c x k.mailboxes })
  arrives-Serves x ys k s = record {
    messages = s.messages;
    sent_so_far = s.sent_so_far;
    waiting = arrival_waits x ys s.messages k.mailboxes s.waiting;
    entered = s.entered;
    counted = s.counted;
  }

  taken : (q : List Message) (ms : Mailboxes) → set_mailbox c q ms c ≡ q
  taken q ms = ground arith

  -- The oldest message is taken and sent.
  sends-Serves :
      (x : Message) (q ys : List Message) (k : Connection)
      → k.mailboxes c ≡ x ∷ q
      → Serves ys k
      → Serves ys (record k {
        mailboxes = set_mailbox c q k.mailboxes;
        sent = k.sent ++ broadcasted x ∷ [];
      })
  sends-Serves x q ys k e s = record {
    messages = s.messages ++ x ∷ [];
    sent_so_far =
        ap (λ l. l ++ broadcasted x ∷ []) s.sent_so_far
        ∙ append_assoc k₀.sent (subscribed_to ts ∷ map broadcasted s.messages) (broadcasted x ∷ [])
        ∙ ap (λ l. k₀.sent ++ subscribed_to ts ∷ l)
            (sym (map-append broadcasted s.messages (x ∷ [])));
    waiting =
        subst (λ l. Sublist ((s.messages ++ x ∷ []) ++ l) ys) (sym (taken q k.mailboxes))
          (subst (λ l. Sublist l ys) (sym (append_assoc s.messages (x ∷ []) q))
            (subst (λ l. Sublist (s.messages ++ l) ys) e s.waiting));
    entered = s.entered;
    counted = s.counted;
  }

  -- The oldest message is taken and not sent.
  loses-Serves :
      (x : Message) (q ys : List Message) (k : Connection)
      → k.mailboxes c ≡ x ∷ q
      → Serves ys k
      → Serves ys (record k { mailboxes = set_mailbox c q k.mailboxes })
  loses-Serves x q ys k e s = record {
    messages = s.messages;
    sent_so_far = s.sent_so_far;
    waiting =
        subst (λ l. Sublist (s.messages ++ l) ys) (sym (taken q k.mailboxes))
          (Sublist-trans (drop_middle s.messages x q)
            (subst (λ l. Sublist (s.messages ++ l) ys) e s.waiting));
    entered = s.entered;
    counted = s.counted;
  }

  take_payload-After :
      (q ys : List Message) (k : Connection) (sends : Bool)
      → k.mailboxes c ≡ q
      → Serves ys k
      → After ys (take_payload c k q sends)
  take_payload-After [] ys k sends e s = s
  take_payload-After (x ∷ q) ys k true e s = sends-Serves x q ys k e s
  take_payload-After (x ∷ q) ys k false e s = Serves→Served ys _ (loses-Serves x q ys k e s)

  lose_payload-Serves :
      (q ys : List Message) (k : Connection)
      → k.mailboxes c ≡ q
      → Serves ys k
      → Serves ys (lose_payload c k q)
  lose_payload-Serves [] ys k e s = s
  lose_payload-Serves (x ∷ q) ys k e s = loses-Serves x q ys k e s

  wake-After :
      (f : Option Frame) (got sends : Bool) (ys : List Message) (k : Connection)
      → Serves ys k
      → After ys (wake c f got sends k)
  wake-After (some disconnect) true sends ys k s =
      Serves→Served ys _ (lose_payload-Serves (k.mailboxes c) ys k refl s)
  wake-After (some disconnect) false sends ys k s = Serves→Served ys k s
  wake-After (some ping) true sends ys k s = take_payload-After (k.mailboxes c) ys k sends refl s
  wake-After (some ping) false sends ys k s = s
  wake-After none true sends ys k s = take_payload-After (k.mailboxes c) ys k sends refl s
  wake-After none false sends ys k s = s

  -- The rest of the stream, if the connection is open.
  resumes-After :
      (es : List Event) (ys zs : List Message) (r : Connection × Bool)
      → ((k : Connection) → Serves ys k → After (ys ++ zs) (stream c es k))
      → After ys r
      → After (ys ++ zs) (elim r.1 [ true ↦ stream c es r.0 | false ↦ (r.0, false) ])
  resumes-After es ys zs (k, true) rest s = rest k s
  resumes-After es ys zs (k, false) rest s = Served-more ys zs k s

  pub stream-After :
      (es : List Event) (ys : List Message) (k : Connection)
      → Serves ys k
      → After (ys ++ arrivals es) (stream c es k)
  unfolding stream
  stream-After [] ys k s = subst (λ l. Serves l k) (sym (append-nil ys)) s
  stream-After (arrives x ∷ es) ys k s =
      subst (λ l. After l (stream c es (on_event c (arrives x) k).0))
        (append_assoc ys (x ∷ []) (arrivals es))
        (stream-After es (ys ++ x ∷ []) _ (arrives-Serves x ys k s))
  stream-After (wakes f got sends ∷ es) ys k s =
      resumes-After es ys (arrivals es) (wake c f got sends k) (λ k' s'. stream-After es ys k' s')
        (wake-After f got sends ys k s)

  pub After→Served : (ys : List Message) (r : Connection × Bool) → After ys r → Served ys r.0
  After→Served ys (k, true) s = Serves→Served ys k s
  After→Served ys (k, false) s = s
