-- ===== src/Book/Queue/Amending.antt =====
-- An order that loses some of its open quantity where it stands, in the two queues of a book.
use quanta_trader.Common.{
  ℕ, ◌≡◌, refl, sym, ◌∙◌, ap, arith, true, false, ◌==◌, ==-eq, if◌then◌else◌, Bool-cases, inl, inr,
  some, List, [], ◌∷◌, ◌++◌, sub64,
}
use quanta_trader.Common.Maps.{Map, find, put}
use quanta_trader.Order.{Order, OrderSide}
use quanta_trader.Level.{Level}
use quanta_trader.Book.State.{PriceLevelOrderBook, LevelsName, OrderWithLevelIterator, same_levels}
use quanta_trader.Book.Match.{opposite}
use quanta_trader.Book.Sound.{Orders, same_levels-eq, order_write_other, order_write_self, open_of}
use quanta_trader.Book.Progress.{orders_of, IsWellFormed}
use quanta_trader.Book.Progress.Reduction
use quanta_trader.Book.Progress.Reduction.{IsReduction}
use quanta_trader.Book.Progress.Writes.{set_levels_self}
use quanta_trader.Book.Queue.{Resting, queue, ranked, flatten, entries}
use quanta_trader.Book.Queue.Levels.{AllLevels, AllLevels-found, AllLevels-ranked}
use quanta_trader.Book.Queue.Leaving.{without, adjust, ranked-adjust, put-adjust}
use quanta_trader.Book.Queue.Quiet.{HasNoStops, HasNoStops-beside}

-- The order of an id has another quantity open.
unfoldable pub set_open : ℕ → ℕ → List Resting → List Resting
set_open i q [] = []
set_open i q (r ∷ rs) = (if r.id == i then record r { open_quantity = q } else r) ∷ set_open i q rs

-- An order with nothing left open leaves the queue.
unfoldable pub amend : ℕ → ℕ → List Resting → List Resting
amend i q rs = if q == 0 then without i rs else set_open i q rs

set_open-append :
    (i q : ℕ) (rs ss : List Resting) → set_open i q (rs ++ ss) ≡ set_open i q rs ++ set_open i q ss
unfolding set_open
set_open-append i q [] ss = refl
set_open-append i q (r ∷ rs) ss = rw (set_open-append i q rs ss)

pub without-set_open : (i q : ℕ) (rs : List Resting) → without i (set_open i q rs) ≡ without i rs
unfolding without set_open
without-set_open i q [] = refl
without-set_open i q (r ∷ rs) = ground (arith, without-set_open i q rs)

module _ (i q : ℕ) (orders orders' : Orders)
    (same : (j : ℕ) → (j == i) ≡ false → orders' j ≡ orders j) (now : open_of (orders' i) ≡ q) where
  entries-set_open :
      (p : ℕ) (is : List ℕ) → entries orders' p is ≡ set_open i q (entries orders p is)
  unfolding set_open
  entries-set_open p [] = refl
  entries-set_open p (j ∷ is) = elim (Bool-cases (j == i)) [
    | inl here ↦ rw (here, ==-eq j i here, now, entries-set_open p is)
    | inr other ↦ rw (other, same j other, entries-set_open p is)
  ]

  flatten-set_open : (m : Map Level) → flatten orders' m ≡ set_open i q (flatten orders m)
  unfolding set_open
  flatten-set_open [] = refl
  flatten-set_open (x ∷ m) =
      ap (λ t. t ++ flatten orders' m) (entries-set_open x.0 x.1.orders)
      ∙ ap (λ t. set_open i q (entries orders x.0 x.1.orders) ++ t) (flatten-set_open m)
      ∙ sym (set_open-append i q (entries orders x.0 x.1.orders) (flatten orders m))

-- Another level with the same orders makes no difference.
flatten-adjust_same :
    (orders : Orders) (p : ℕ) (l : Level) (m : Map Level)
    → AllLevels (λ x. (p == x.0) ≡ true → l.orders ≡ x.1.orders) m
    → flatten orders (adjust p l m) ≡ flatten orders m
unfolding adjust
flatten-adjust_same orders p l [] h = refl
flatten-adjust_same orders p l (x ∷ m) (e, h) = elim (Bool-cases (p == x.0)) [
  | inl same ↦ rw (same, e same, ==-eq p x.0 same, flatten-adjust_same orders p l m h)
  | inr ne ↦ rw (ne, flatten-adjust_same orders p l m h)
]

module _ (b : PriceLevelOrderBook) (w : IsWellFormed b) (i : ℕ) (e : OrderWithLevelIterator)
    (level : Level) (stored : find i b.orders ≡ some e)
    (at_level : find e.level_it.price (b.levels e.level_it.levels) ≡ some level) (r' : Order)
    (amount : ℕ) (b' : PriceLevelOrderBook) (reduction : IsReduction e.order b r' amount b') where
  abbrev k : LevelsName
  k = e.level_it.levels

  abbrev p : ℕ
  p = e.level_it.price

  abbrev settled : PriceLevelOrderBook
  settled = Reduction.settled b w i e level stored at_level r' amount b' reduction

  abbrev level' : Level
  level' = record level { volume = sub64 level.volume amount }

  settled_levels : settled.levels k ≡ adjust p level' (b.levels k)
  settled_levels =
      set_levels_self k (put p level' (b'.levels k)) b'
      ∙ rw reduction.same_levels (put-adjust p level level' (b.levels k) at_level (w.ascending k))

  others_kept : (j : LevelsName) → same_levels j k ≡ false → settled.levels j ≡ b.levels j
  others_kept j away = rw away (rw reduction.same_levels)

  same_list :
      (orders : Orders) (side : OrderSide)
      → flatten orders (ranked side (settled.levels k)) ≡ flatten orders (ranked side (b.levels k))
  same_list orders side =
      ap (λ m. flatten orders (ranked side m)) settled_levels
      ∙ ap (flatten orders) (ranked-adjust p level' side (b.levels k))
      ∙ flatten-adjust_same orders p level' (ranked side (b.levels k)) (
          AllLevels-ranked _ side (b.levels k) (
            AllLevels-found _ (b.levels k) (w.ascending k)
              λ q l found same. ground (arith, ==-eq p q same)))

  -- In both queues the order has what is left open of it, and all else is as it was.
  pub queue-settled :
      (side : OrderSide) → queue side settled ≡ set_open i r'.open_quantity (queue side b)
  queue-settled side =
      let j = opposite side in
      let write =
        Reduction.settled-IsOrderWrite b w i e level stored at_level r' amount b' reduction in
      let amended =
        flatten-set_open i r'.open_quantity (orders_of b) (orders_of settled)
          (order_write_other write) (ap open_of (order_write_self write))
          (ranked side (b.levels j)) in
      elim (Bool-cases (same_levels j k)) [
        | inl same ↦
            let own = same_list (orders_of settled) side in
            (rw (same_levels-eq j k same) own) ∙ amended
        | inr away ↦
            ap (λ m. flatten (orders_of settled) (ranked side m)) (others_kept j away) ∙ amended
      ]

  pub settled-HasNoStops : HasNoStops b → HasNoStops settled
  settled-HasNoStops = HasNoStops-beside b settled k p level at_level others_kept
