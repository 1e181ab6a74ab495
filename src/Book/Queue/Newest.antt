-- ===== src/Book/Queue/Newest.antt =====
-- A map of levels to which an order has come: at the end of the level of its price, which may be a
-- new one. The queue gets the order behind those of its price.
use quanta_trader.Common.{
  ℕ, ◌<◌, ◌≡◌, sym, ◌∙◌, ap, arith, true, false, ltb, ◌==◌, ==-eq, Bool-cases, inl, inr, none, some,
  [], ◌∷◌, ◌++◌,
}
use quanta_trader.Common.Maps.{Map, find, put, insert_sorted}
use quanta_trader.Common.Maps.Ascending.{Above, Above-mono, IsAscending}
use quanta_trader.Common.Maps.Extremes.{Above-lt}
use quanta_trader.Order.{OrderSide, sell, buy}
use quanta_trader.Level.{Level}
use quanta_trader.Book.Sound.{Orders}
use quanta_trader.Book.Queue.{flatten, backwards, ranked}
use quanta_trader.Book.Queue.Arrival.{
  enqueue, enqueue-behind, enqueue-before, enqueue-level, enqueue-last, arrival, flatten-append,
  flatten-AllBetter, LevelsBetter-backwards, Above-better, Above-worse, past_level, before_level,
}

module _ (orders : Orders) (p i : ℕ) (l' : Level) where
  -- The level that is found and gets the order.
  module _ (l : Level) (added : l'.orders ≡ l.orders ++ i ∷ []) where
    found-eq :
        (x : ℕ × Level) (m : Map Level) → find p (x ∷ m) ≡ some l → (p == x.0) ≡ true → x ≡ (p, l)
    unfolding find
    found-eq (q, v) m h same =
        let e : v ≡ l = ground (arith, ==-eq p q same) in
        ap (λ y. (y, v)) (sym (==-eq p q same)) ∙ ap (λ y. (p, y)) e

    lower :
        (x : ℕ × Level) (m : Map Level)
        → Above x.0 m
        → find p (x ∷ m) ≡ some l
        → (p == x.0) ≡ false
        → x.0 < p
    unfolding find
    lower x m a h ne = ground (arith, Above-lt x.0 p l m a)

    put-buy :
        (m : Map Level)
        → find p m ≡ some l
        → IsAscending m
        → flatten orders (put p l' m) ≡ enqueue buy (arrival orders p i) (flatten orders m)
    unfolding find put
    put-buy [] h a = cc
    put-buy (x ∷ m) h (above, a) = elim (Bool-cases (p == x.0)) [
      | inl same ↦
          let e = found-eq x m h same in
          rw (same, e, added)
            (sym (
              enqueue-level orders p i buy l.orders (flatten orders m) (
                flatten-AllBetter buy p true orders m (Above-better orders p i m (rw e at above)))))
      | inr ne ↦ rw ne (
          past_level orders p i x m (put p l' m) (lower x m above h ne)
            (put-buy m (ground arith) a))
    ]

    put-sell :
        (m : Map Level)
        → find p m ≡ some l
        → IsAscending m
        → flatten orders (backwards (put p l' m))
          ≡ enqueue sell (arrival orders p i) (flatten orders (backwards m))
    unfolding find put
    put-sell [] h a = cc
    put-sell (x ∷ m) h (above, a) = elim (Bool-cases (p == x.0)) [
      | inl same ↦
          let e = found-eq x m h same in
          let worse =
            LevelsBetter-backwards sell p false m (Above-worse orders p i m (rw e at above)) in
          rw (same, e)
            (flatten-append orders p i (backwards m) ((p, l') ∷ [])
              ∙ rw added (
                  sym (
                    ap (enqueue sell (arrival orders p i))
                      (flatten-append orders p i (backwards m) ((p, l) ∷ []))
                    ∙ enqueue-behind sell (arrival orders p i) (flatten orders (backwards m))
                        (flatten orders ((p, l) ∷ []))
                        (flatten-AllBetter sell p false orders (backwards m) worse)
                    ∙ ap (λ t. flatten orders (backwards m) ++ t)
                        (enqueue-level orders p i sell l.orders [] tt))))
      | inr ne ↦ rw ne (
          before_level orders p i x m (put p l' m) (lower x m above h ne)
            (put-sell m (ground arith) a))
    ]

    pub put-ranked :
        (side : OrderSide) (m : Map Level)
        → find p m ≡ some l
        → IsAscending m
        → flatten orders (ranked side (put p l' m))
          ≡ enqueue side (arrival orders p i) (flatten orders (ranked side m))
    put-ranked sell m h a = put-sell m h a
    put-ranked buy m h a = put-buy m h a

  -- The level that is new and has the order alone.
  module _ (alone : l'.orders ≡ i ∷ []) where
    insert-buy :
        (m : Map Level)
        → find p m ≡ none
        → IsAscending m
        → flatten orders (insert_sorted p l' m)
          ≡ enqueue buy (arrival orders p i) (flatten orders m)
    unfolding find insert_sorted enqueue
    insert-buy [] h a = rw alone
    insert-buy (x ∷ m) h (above, a) = elim (Bool-cases (ltb p x.0)) [
      | inl lt ↦
          rw (lt, alone)
            (sym (
              enqueue-before buy (arrival orders p i) [] (flatten orders (x ∷ m)) (
                flatten-AllBetter buy p true orders (x ∷ m) (
                  Above-better orders p i (x ∷ m)
                    (ground arith, Above-mono p x.0 m (ground arith) above)))))
      | inr ge ↦ rw ge (
          past_level orders p i x m (insert_sorted p l' m) (ground arith)
            (insert-buy m (ground arith) a))
    ]

    insert-sell :
        (m : Map Level)
        → find p m ≡ none
        → IsAscending m
        → flatten orders (backwards (insert_sorted p l' m))
          ≡ enqueue sell (arrival orders p i) (flatten orders (backwards m))
    unfolding find insert_sorted enqueue
    insert-sell [] h a = rw alone
    insert-sell (x ∷ m) h (above, a) = elim (Bool-cases (ltb p x.0)) [
      | inl lt ↦
          let worse = LevelsBetter-backwards sell p false (x ∷ m) (
            Above-worse orders p i (x ∷ m)
              (ground arith, Above-mono p x.0 m (ground arith) above)) in
          rw lt (
            flatten-append orders p i (backwards (x ∷ m)) ((p, l') ∷ [])
            ∙ rw alone (
                sym (
                  enqueue-last sell (arrival orders p i) (flatten orders (backwards (x ∷ m)))
                    (flatten-AllBetter sell p false orders (backwards (x ∷ m)) worse))))
      | inr ge ↦ rw ge (
          before_level orders p i x m (insert_sorted p l' m) (ground arith)
            (insert-sell m (ground arith) a))
    ]

    pub insert-ranked :
        (side : OrderSide) (m : Map Level)
        → find p m ≡ none
        → IsAscending m
        → flatten orders (ranked side (insert_sorted p l' m))
          ≡ enqueue side (arrival orders p i) (flatten orders (ranked side m))
    insert-ranked sell m h a = insert-sell m h a
    insert-ranked buy m h a = insert-buy m h a
