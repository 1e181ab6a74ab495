-- ===== src/Book/Queue/Front.antt =====
-- The queue after its first order has lost some of its open quantity, or has left.
use quanta_trader.Common.{
  ℕ, ◌≡◌, refl, ◌∙◌, ap, arith, true, false, ◌==◌, ==_refl, if◌then◌else◌, Bool-cases, inl, inr,
  some, List, [], ◌∷◌, ◌++◌, is_empty, sub64, done,
}
use quanta_trader.Common.Maps.{Map, find, put, erase, find-put, put_twice, erase-put}
use quanta_trader.Order.{Order, OrderSide}
use quanta_trader.Level.{Level, linked, unlink}
use quanta_trader.Book.State.{PriceLevelOrderBook, LevelsName, OrderWithLevelIterator}
use quanta_trader.Book.Sound.{Orders, order_write_other, order_write_self}
use quanta_trader.Book.Progress.{orders_of, IsWellFormed}
use quanta_trader.Book.Progress.Writes.{set_levels_self}
use quanta_trader.Book.Remove.{remove_order}
use quanta_trader.Book.Progress.Removal
use quanta_trader.Book.Progress.Removal.{left_level, levelled, unlinked, removed}
use quanta_trader.Book.Progress.Reduction
use quanta_trader.Book.Progress.Reduction.{IsReduction}
use quanta_trader.Book.Queue.{Resting, entries, flatten, ranked}
use quanta_trader.Book.Queue.Ranked.{AreOthers, IsHead}

module _ (i : ℕ) (orders orders' : Orders)
    (same : (j : ℕ) → (j == i) ≡ false → orders' j ≡ orders j) where
  pub entries_other :
      (p : ℕ) (is : List ℕ) → linked i is ≡ false → entries orders' p is ≡ entries orders p is
  unfolding linked
  entries_other p [] h = refl
  entries_other p (x ∷ is) h = rw (same x (ground arith), entries_other p is (ground arith))

  flatten_others :
      (m : Map Level) (p : ℕ)
      → ((q : ℕ) (l : Level) → find q m ≡ some l → (q == p) ≡ false → linked i l.orders ≡ false)
      → (r : Map Level) → AreOthers m p r
      → flatten orders' r ≡ flatten orders r
  flatten_others m p free [] others = refl
  flatten_others m p free (x ∷ r) (found, ne, others) =
      rw (entries_other x.0 x.1.orders (free x.0 x.1 found ne), flatten_others m p free r others)

is_none : (is : List ℕ) {js : List ℕ} → js ≡ is → is_empty js ≡ true → is ≡ []
is_none [] e h = refl
is_none (x ∷ is) e h = ground (arith, ap is_empty e)

module _ (b : PriceLevelOrderBook) (w : IsWellFormed b) (i : ℕ) (e : OrderWithLevelIterator)
    (level : Level) (stored : find i b.orders ≡ some e)
    (at_level : find e.level_it.price (b.levels e.level_it.levels) ≡ some level) (side : OrderSide)
    (rest : Map Level) (head : IsHead side (b.levels e.level_it.levels) e.level_it.price level rest)
    (is : List ℕ) (first : level.orders ≡ i ∷ is) where
  abbrev k : LevelsName
  k = e.level_it.levels

  abbrev p : ℕ
  p = e.level_it.price

  -- The queue behind its first order.
  abbrev pub behind : List Resting
  behind = entries (orders_of b) p is ++ flatten (orders_of b) rest

  pub before_trade :
      flatten (orders_of b) (ranked side (b.levels k))
      ≡ record { id = i; price = p; open_quantity = e.order.open_quantity } ∷ behind
  before_trade = rw (head.head, first, stored)

  free_is : linked i is ≡ false
  unfolding linked
  free_is = let d = (w.sound.stocked k p level at_level).distinct in (rw first at d).0

  free_elsewhere :
      (q : ℕ) (l : Level)
      → find q (b.levels k) ≡ some l
      → (q == p) ≡ false
      → linked i l.orders ≡ false
  free_elsewhere q l found ne = elim (Bool-cases (linked i l.orders)) [
    | inr free ↦ free
    | inl link ↦
        let (f, stored', x, y, _) = w.sound.member k q l i found link in absurd (ground arith)
  ]

  behind_same :
      (orders' : Orders)
      → ((j : ℕ) → (j == i) ≡ false → orders' j ≡ find j b.orders)
      → entries orders' p is ++ flatten orders' rest ≡ behind
  behind_same orders' same = rw (
    entries_other i (orders_of b) orders' same p is free_is,
    flatten_others i (orders_of b) orders' same (b.levels k) p free_elsewhere rest head.others,
  )

  module _ (r' : Order) (amount : ℕ) (b₁ : PriceLevelOrderBook)
      (reduction : IsReduction e.order b r' amount b₁) where
    abbrev settled : PriceLevelOrderBook
    settled = Reduction.settled b w i e level stored at_level r' amount b₁ reduction

    abbrev level' : Level
    level' = record level { volume = sub64 level.volume amount }

    abbrev entry' : OrderWithLevelIterator
    entry' = record e { order = r' }

    settled_levels : settled.levels k ≡ put p level' (b.levels k)
    settled_levels = set_levels_self k (put p level' (b₁.levels k)) b₁ ∙ rw reduction.same_levels

    settled_other : (j : ℕ) → (j == i) ≡ false → find j settled.orders ≡ find j b.orders
    settled_other =
        order_write_other
          (Reduction.settled-IsOrderWrite b w i e level stored at_level r' amount b₁ reduction)

    settled_self : find i settled.orders ≡ some entry'
    settled_self =
        order_write_self
          (Reduction.settled-IsOrderWrite b w i e level stored at_level r' amount b₁ reduction)

    -- The first order stays, with less left open.
    pub after_trade :
        flatten (orders_of settled) (ranked side (settled.levels k))
        ≡ record { id = i; price = p; open_quantity = r'.open_quantity } ∷ behind
    after_trade =
        ap (λ m. flatten (orders_of settled) (ranked side m)) settled_levels
        ∙ ap (flatten (orders_of settled)) (head.head-put level')
        ∙ rw (first, settled_self)
            (ap (λ t. record { id = i; price = p; open_quantity = r'.open_quantity } ∷ t)
              (behind_same (orders_of settled) settled_other))

    settled_at : find p (settled.levels k) ≡ some level'
    settled_at = ap (find p) settled_levels ∙ find-put p p level' (b.levels k) ∙ rw ==_refl

    settled_link : linked i level'.orders ≡ true
    unfolding linked
    settled_link = rw (first, ==_refl)

    -- The book after the first order has been deleted.
    abbrev pub without : PriceLevelOrderBook
    without = removed i entry' level' settled

    abbrev left : Level
    left = left_level i entry' level'

    left_orders : unlink i level.orders ≡ is
    unfolding unlink
    left_orders = rw (first, ==_refl)

    levelled_levels : (levelled i entry' level' settled).levels k ≡ put p left (b.levels k)
    levelled_levels =
        set_levels_self k (put p left (settled.levels k)) settled
        ∙ ap (put p left) settled_levels
        ∙ put_twice p level' left (b.levels k)

    -- What remains of the level, if anything does.
    abbrev remaining : Map Level
    remaining = if is_empty (unlink i level.orders) then [] else (p, left) ∷ []

    without_levels : ranked side (without.levels k) ≡ remaining ++ rest
    without_levels = elim (Bool-cases (is_empty (unlink i level.orders))) [
      | inl gone ↦
          let old = levelled i entry' level' settled in
          rw gone (
            ap (ranked side) (
              set_levels_self k (erase p (old.levels k)) old
              ∙ ap (erase p) levelled_levels
              ∙ erase-put p left (b.levels k))
            ∙ head.head-erase)
      | inr stays ↦ rw stays (ap (ranked side) levelled_levels ∙ head.head-put left)
    ]

    flatten-remaining :
        (orders' : Orders)
        → flatten orders' (remaining ++ rest) ≡ entries orders' p is ++ flatten orders' rest
    flatten-remaining orders' = elim (Bool-cases (is_empty (unlink i level.orders))) [
      | inl gone ↦ rw (gone, is_none is left_orders gone)
      | inr stays ↦ rw stays (ap (λ js. entries orders' p js ++ flatten orders' rest) left_orders)
    ]

    without_other : (j : ℕ) → (j == i) ≡ false → find j without.orders ≡ find j b.orders
    without_other j ne =
        order_write_other
          (Removal.removed-write settled
            (Reduction.settled-IsSound b w i e level stored at_level r' amount b₁ reduction)
            (Reduction.settled-IsAscending b w i e level stored at_level r' amount b₁ reduction)
            (Reduction.settled-IsUncrossed b w i e level stored at_level r' amount b₁ reduction) i
            entry' settled_self level' settled_at settled_link)
          j ne
        ∙ settled_other j ne

    -- The first order is gone.
    pub after_removal : flatten (orders_of without) (ranked side (without.levels k)) ≡ behind
    after_removal =
        ap (flatten (orders_of without)) without_levels
        ∙ flatten-remaining (orders_of without)
        ∙ behind_same (orders_of without) without_other

    -- What `deleteOrder` does before its call of `activateStopOrders`.
    pub remove_order-settled : remove_order i settled ≡ done without
    remove_order-settled =
        Removal.remove_order-done settled
          (Reduction.settled-IsSound b w i e level stored at_level r' amount b₁ reduction)
          (Reduction.settled-IsAscending b w i e level stored at_level r' amount b₁ reduction)
          (Reduction.settled-IsUncrossed b w i e level stored at_level r' amount b₁ reduction) i
          entry' settled_self level' settled_at settled_link
