-- ===== src/Api/Websocket/Sublist.antt =====
-- Sequences of messages of which some were lost.
use stock_trading_platform.Prelude.{List, [], ◌∷◌, ◌++◌}
use stock_trading_platform.Api.Broadcaster.{Message}

-- Some of the messages, in their order.
pub data Sublist : List Message → List Message → Type 0 where
  nothing : {ys : List Message} → Sublist [] ys
  keeps : {x : Message} {xs ys : List Message} → Sublist xs ys → Sublist (x ∷ xs) (x ∷ ys)
  skips : {x : Message} {xs ys : List Message} → Sublist xs ys → Sublist xs (x ∷ ys)

pub Sublist-refl : (xs : List Message) → Sublist xs xs
Sublist-refl [] = nothing
Sublist-refl (x ∷ xs) = keeps (Sublist-refl xs)

pub Sublist-skip_last :
    (x : Message) {xs ys : List Message} → Sublist xs ys → Sublist xs (ys ++ x ∷ [])
Sublist-skip_last x nothing = nothing
Sublist-skip_last x (keeps s) = keeps (Sublist-skip_last x s)
Sublist-skip_last x (skips s) = skips (Sublist-skip_last x s)

last_one : (x : Message) (ys : List Message) → Sublist (x ∷ []) (ys ++ x ∷ [])
last_one x [] = keeps nothing
last_one x (y ∷ ys) = skips (last_one x ys)

pub Sublist-keep_last :
    (x : Message) {xs ys : List Message} → Sublist xs ys → Sublist (xs ++ x ∷ []) (ys ++ x ∷ [])
Sublist-keep_last x {ys = ys} nothing = last_one x ys
Sublist-keep_last x (keeps s) = keeps (Sublist-keep_last x s)
Sublist-keep_last x (skips s) = skips (Sublist-keep_last x s)

pub Sublist-trans : {xs ys zs : List Message} → Sublist xs ys → Sublist ys zs → Sublist xs zs
Sublist-trans nothing t = nothing
Sublist-trans s (skips t) = skips (Sublist-trans s t)
Sublist-trans (keeps s) (keeps t) = keeps (Sublist-trans s t)
Sublist-trans (skips s) (keeps t) = skips (Sublist-trans s t)

pub front : (xs zs : List Message) → Sublist xs (xs ++ zs)
front [] zs = nothing
front (x ∷ xs) zs = keeps (front xs zs)

pub drop_middle :
    (xs : List Message) (x : Message) (zs : List Message) → Sublist (xs ++ zs) (xs ++ x ∷ zs)
drop_middle [] x zs = skips (Sublist-refl zs)
drop_middle (y ∷ xs) x zs = keeps (drop_middle xs x zs)

pub Sublist-more :
    {xs ys : List Message} (zs : List Message) → Sublist xs ys → Sublist xs (ys ++ zs)
Sublist-more {ys = ys} zs s = Sublist-trans s (front ys zs)
