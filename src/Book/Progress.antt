-- ===== src/Book/Progress.antt =====
-- Well-formed books, and what a run of `activateStopOrders` may change of one.
pub mod Fresh
pub mod Writes
pub mod Removal
pub mod Insertion
pub mod Undo
pub mod Reduction
pub mod Matching
pub mod Trailing
pub mod Activation
use quanta_trader.Common.{
  ℕ, ◌+◌, ◌<◌, ◌≤◌, ◌≡◌, refl, sym, ◌∙◌, arith, Option, none, some, List, [], ◌∷◌, u64_mod, Outcome,
  Returns,
}
use quanta_trader.Common.Maps.{find, sum_by}
use quanta_trader.Common.Maps.Ascending.{IsAscending}
use quanta_trader.Order.{
  Order, OrderType, market, limit, stop, stop_limit, trailing_stop, trailing_stop_limit,
}
use quanta_trader.Event.{Event, EventHandler}
use quanta_trader.Book.State.{LevelsName, PriceLevelOrderBook, OrderWithLevelIterator, notify}
use quanta_trader.Book.Sound.Crossing.{IsUncrossed}
use quanta_trader.Book.Sound.{Orders, Shelves, IsSound, Distinct, total, open_of}

abbrev pub orders_of : PriceLevelOrderBook → Orders
orders_of b i = find i b.orders

abbrev pub shelves_of : PriceLevelOrderBook → Shelves
shelves_of b k p = find p (b.levels k)

-- How many orders an order may still count as: a stop order turns into a limit order.
abbrev pub type_weight : OrderType → ℕ
type_weight market = 1
type_weight limit = 1
type_weight stop = 2
type_weight stop_limit = 2
type_weight trailing_stop = 2
type_weight trailing_stop_limit = 2

abbrev pub weight : OrderWithLevelIterator → ℕ
weight e = type_weight e.order.type

-- The measure that falls in every nested call and in every round of a loop.
pub activity : PriceLevelOrderBook → ℕ
activity b = sum_by weight b.orders

pub activity-notify :
    (event : Event) (b : PriceLevelOrderBook) → activity (notify event b) ≡ activity b
unfolding activity
activity-notify event b = refl

-- The handler does not matter.
pub activity-attach :
    (handler : EventHandler) (b : PriceLevelOrderBook)
    → activity (record b { event_handler = handler }) ≡ activity b
unfolding activity
activity-attach handler b = refl

-- A limit order of the book has something left open.
abbrev pub IsLive : OrderWithLevelIterator → Type 0
IsLive e = type_weight e.order.type ≡ 1 → 0 < e.order.open_quantity

pub record IsWellFormed (b : PriceLevelOrderBook) : Type 0 where
  pub sound : IsSound [] b.symbol_id (orders_of b) (shelves_of b)
  pub ascending : (k : LevelsName) → IsAscending (b.levels k)
  pub uncrossed : IsUncrossed (shelves_of b)
  pub live : (i : ℕ) (e : OrderWithLevelIterator) → find i b.orders ≡ some e → IsLive e

-- No order is new, none has more left open, and the activity has not grown.
pub record IsProgress (b b' : PriceLevelOrderBook) : Type 0 where
  pub same_symbol : b'.symbol_id ≡ b.symbol_id
  pub none_new : (i : ℕ) → find i b.orders ≡ none → find i b'.orders ≡ none
  pub shrinks : (i : ℕ) → open_of (find i b'.orders) ≤ open_of (find i b.orders)
  pub calmer : activity b' ≤ activity b

pub IsProgress-refl : (b : PriceLevelOrderBook) → IsProgress b b
IsProgress-refl b = record {
  same_symbol = refl;
  none_new = λ i h. h;
  shrinks = λ i. omega arith;
  calmer = omega arith;
}

pub IsProgress-trans :
    {b c d : PriceLevelOrderBook} → IsProgress b c → IsProgress c d → IsProgress b d
IsProgress-trans p q = record {
  same_symbol = q.same_symbol ∙ p.same_symbol;
  none_new = λ i h. q.none_new i (p.none_new i h);
  shrinks = λ i. omega (arith, p.shrinks i, q.shrinks i);
  calmer = omega (arith, p.calmer, q.calmer);
}

-- An order of the given open quantity still fits in: no volume can overflow.
pub record HasRoom (q : ℕ) (b : PriceLevelOrderBook) : Type 0 where
  pub room : (is : List ℕ) → Distinct is → total (orders_of b) is + q < u64_mod

pub shrinks_total :
    (b b' : PriceLevelOrderBook)
    → ((i : ℕ) → open_of (find i b'.orders) ≤ open_of (find i b.orders))
    → (is : List ℕ) → total (orders_of b') is ≤ total (orders_of b) is
shrinks_total b b' h [] = omega arith
shrinks_total b b' h (i ∷ is) = omega (arith, h i, shrinks_total b b' h is)

pub IsProgress-HasRoom :
    {b b' : PriceLevelOrderBook} (q : ℕ) → IsProgress b b' → HasRoom q b → HasRoom q b'
IsProgress-HasRoom {b} {b'} q p r = record {
  room = λ is d. omega (arith, shrinks_total b b' p.shrinks is, r.room is d);
}

-- The call returns a well-formed book, and only makes progress.
abbrev pub IsGood : PriceLevelOrderBook → Outcome PriceLevelOrderBook → Type 0
IsGood b m = Returns m (λ b'. IsWellFormed b' × IsProgress b b')
