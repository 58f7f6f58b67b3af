-- ===== src/OrderBook/Side/PutBack.antt =====
-- A side after the queue at its best price was filled from: `put_back`.
use stock_trading_platform.Prelude.{
  sym, ==→eq, ==→ne, subst, ℕ, ◌+◌, ◌≤◌, ◌<◌, ◌≡◌, ◌≢◌, refl, List, [], ◌∷◌, All, arith, ◌==◌, inl,
  inr, Bool-cases, length,
}
use stock_trading_platform.Events.{Heap}
use stock_trading_platform.OrderBook.Levels.{Levels, get_queue, del_level, set_queue, put_back}
use stock_trading_platform.OrderBook.Resting.{
  Place, Rests, Ascending, open_quantity, open_quantity-frame-Rests,
}
use stock_trading_platform.OrderBook.Side.{
  IsLevel, NoKey, HasKey, IsSide, total_quantity, IsLevel-frame, IsSide-frame_ne, NoKey-set_queue,
  NoKey-del_level,
}

-- The queue at `p` has changed to `q'`, and the orders at other prices have not.
module _ (h h' : Heap) (place : Place) (n p : ℕ) (q' : List ℕ)
    (frame : (x price : ℕ) → price ≢ p → x < n → Rests h place price x → h' x ≡ h x) where
  frame-Rests : (x price : ℕ) → price ≢ p → x < n → Rests h place price x → Rests h' place price x
  frame-Rests x price ne l t = ground (arith, frame x price ne l t)

  IsSide-del_level :
      (ls : Levels) → HasKey p ls → IsSide h place n ls → IsSide h' place n (del_level p ls)
  unfolding del_level
  IsSide-del_level [] k s = tt
  IsSide-del_level (e ∷ ls) k s = elim (Bool-cases (e.0 == p)) [
    | inl here ↦ rw here (
        IsSide-frame_ne h h' place p n n ls (omega arith) frame-Rests
          (subst (λ x. NoKey x ls) (==→eq e.0 p here) s.1) s.2)
    | inr there ↦ rw there (
      IsLevel-frame h h' place n n e (omega arith) (λ x. frame-Rests x e.0 (==→ne e.0 p there)) s.0,
      NoKey-del_level p e.0 ls s.1,
      IsSide-del_level ls (ground (arith, ==→ne e.0 p there)) s.2,
    )
  ]

  IsSide-set_queue :
      (ls : Levels)
      → HasKey p ls
      → IsLevel h' place n (p, q')
      → IsSide h place n ls
      → IsSide h' place n (set_queue p q' ls)
  unfolding set_queue
  IsSide-set_queue [] k l s = tt
  IsSide-set_queue (e ∷ ls) k l s = elim (Bool-cases (e.0 == p)) [
    | inl here ↦ rw here (
      subst (λ x. IsLevel h' place n (x, q')) (sym (==→eq e.0 p here)) l,
      s.1,
      IsSide-frame_ne h h' place p n n ls (omega arith) frame-Rests
          (subst (λ x. NoKey x ls) (==→eq e.0 p here) s.1) s.2,
    )
    | inr there ↦ rw there (
      IsLevel-frame h h' place n n e (omega arith) (λ x. frame-Rests x e.0 (==→ne e.0 p there)) s.0,
      NoKey-set_queue p e.0 q' ls s.1,
      IsSide-set_queue ls (ground (arith, ==→ne e.0 p there)) l s.2,
    )
  ]

  pub IsSide-put_back :
      (q : List ℕ) (ls : Levels)
      → q' ≡ q
      → HasKey p ls
      → Ascending 0 n q
      → All (Rests h' place p) q
      → IsSide h place n ls
      → IsSide h' place n (put_back p q ls)
  unfolding put_back
  IsSide-put_back [] ls e k a t s = IsSide-del_level ls k s
  IsSide-put_back (r ∷ rs) ls e k a t s =
      subst (λ q. IsSide h' place n (set_queue p q ls)) e
        (IsSide-set_queue ls k
          (rw e (record { nonempty = λ x. ground arith; ordered = a; resting = t })) s)

  pub total_quantity-frame :
      (ls : Levels) → NoKey p ls → IsSide h place n ls → total_quantity h' ls ≡ total_quantity h ls
  unfolding total_quantity
  total_quantity-frame [] k s = refl
  total_quantity-frame (e ∷ ls) k s = omega (
    arith,
    open_quantity-frame-Rests h h' place e.0 0 n e.1 (λ x. frame x e.0 k.0) s.0.ordered s.0.resting,
    total_quantity-frame ls k.1 s.2,
  )

  total_quantity-del_level :
      (ls : Levels)
      → HasKey p ls
      → IsSide h place n ls
      → total_quantity h' (del_level p ls) + open_quantity h (get_queue p ls) ≡ total_quantity h ls
  unfolding total_quantity del_level get_queue
  total_quantity-del_level [] k s = absurd k
  total_quantity-del_level (e ∷ ls) k s = elim (Bool-cases (e.0 == p)) [
    | inl here ↦ rw here (
        omega (arith, total_quantity-frame ls (subst (λ x. NoKey x ls) (==→eq e.0 p here) s.1) s.2))
    | inr there ↦ rw there (
        omega (
          arith,
          open_quantity-frame-Rests h h' place e.0 0 n e.1 (λ x. frame x e.0 (==→ne e.0 p there))
              s.0.ordered s.0.resting,
          total_quantity-del_level ls (ground (arith, ==→ne e.0 p there)) s.2,
        ))
  ]

  total_quantity-set_queue :
      (ls : Levels)
      → HasKey p ls
      → IsSide h place n ls
      → total_quantity h' (set_queue p q' ls) + open_quantity h (get_queue p ls)
        ≡ total_quantity h ls + open_quantity h' q'
  unfolding total_quantity set_queue get_queue
  total_quantity-set_queue [] k s = absurd k
  total_quantity-set_queue (e ∷ ls) k s = elim (Bool-cases (e.0 == p)) [
    | inl here ↦ rw here (
        omega (arith, total_quantity-frame ls (subst (λ x. NoKey x ls) (==→eq e.0 p here) s.1) s.2))
    | inr there ↦ rw there (
        omega (
          arith,
          open_quantity-frame-Rests h h' place e.0 0 n e.1 (λ x. frame x e.0 (==→ne e.0 p there))
              s.0.ordered s.0.resting,
          total_quantity-set_queue ls (ground (arith, ==→ne e.0 p there)) s.2,
        ))
  ]

  pub total_quantity-put_back :
      (q : List ℕ) (ls : Levels)
      → q' ≡ q
      → HasKey p ls
      → IsSide h place n ls
      → total_quantity h' (put_back p q ls) + open_quantity h (get_queue p ls)
        ≡ total_quantity h ls + open_quantity h' q
  unfolding put_back
  total_quantity-put_back [] ls e k s = omega (arith, total_quantity-del_level ls k s)
  total_quantity-put_back (r ∷ rs) ls e k s =
      subst
        (λ q.
          total_quantity h' (set_queue p q ls) + open_quantity h (get_queue p ls)
          ≡ total_quantity h ls + open_quantity h' q)
        e (total_quantity-set_queue ls k s)

length-set_queue : (p : ℕ) (q : List ℕ) (ls : Levels) → length (set_queue p q ls) ≡ length ls
unfolding set_queue
length-set_queue p q [] = refl
length-set_queue p q (e ∷ ls) = ground (arith, length-set_queue p q ls)

length-del_level : (p : ℕ) (ls : Levels) → HasKey p ls → length (del_level p ls) + 1 ≡ length ls
unfolding del_level
length-del_level p [] k = absurd k
length-del_level p (e ∷ ls) k = ground (arith, length-del_level p ls)

pub length-put_back :
    (p : ℕ) (q : List ℕ) (ls : Levels)
    → HasKey p ls
    → (length (put_back p q ls) ≤ length ls) × (q ≡ [] → length (put_back p q ls) < length ls)
unfolding put_back
length-put_back p [] ls k =
    (omega (arith, length-del_level p ls k), λ e. omega (arith, length-del_level p ls k))
length-put_back p (r ∷ rs) ls k =
    (omega (arith, length-set_queue p (r ∷ rs) ls), λ e. absurd (ground arith))

HasKey-set_queue : (p k : ℕ) (q : List ℕ) (ls : Levels) → HasKey k (set_queue p q ls) → HasKey k ls
unfolding set_queue
HasKey-set_queue p k q [] a = a
HasKey-set_queue p k q (e ∷ ls) a = ground (arith, HasKey-set_queue p k q ls)

HasKey-del_level : (p k : ℕ) (ls : Levels) → HasKey k (del_level p ls) → HasKey k ls
unfolding del_level
HasKey-del_level p k [] a = a
HasKey-del_level p k (e ∷ ls) a = ground (arith, HasKey-del_level p k ls)

pub HasKey-put_back :
    (p k : ℕ) (q : List ℕ) (ls : Levels) → HasKey k (put_back p q ls) → HasKey k ls
unfolding put_back
HasKey-put_back p k [] ls a = HasKey-del_level p k ls a
HasKey-put_back p k (r ∷ rs) ls a = HasKey-set_queue p k (r ∷ rs) ls a
