-- ===== src/Book/Sound.antt =====
-- What holds of an order book between two calls: the map of the orders and the six maps of levels
-- agree. Both are read as functions here, from ids to orders and from prices to levels.
mod Ids
pub mod Unlink
pub mod Link
pub mod Trade
pub mod Release
pub mod Crossing
pub use Ids.*
use quanta_trader.Common.{
  ℕ, ◌+◌, ◌<◌, ◌≡◌, ◌⊎◌, inl, inr, refl, arith, Bool, true, false, ◌&&◌, ◌==◌, if◌then◌else◌,
  Bool-cases, Option, none, some, List, [], ◌∷◌, is_empty, u64_mod,
}
use quanta_trader.Order.{
  Order, OrderType, market, limit, stop, stop_limit, trailing_stop, trailing_stop_limit,
}
use quanta_trader.Level.{Level, linked}
use quanta_trader.Book.State.{
  LevelsName, LevelIterator, OrderWithLevelIterator, same_levels, sell_levels, buy_levels,
  stop_sell_levels, stop_buy_levels, trailing_stop_sell_levels, trailing_stop_buy_levels,
}
use quanta_trader.Book.Insert.{level_side}
use quanta_trader.Book.Remove.{levels_for}

abbrev pub Orders : Type 0
Orders = ℕ → Option OrderWithLevelIterator

abbrev pub Shelves : Type 0
Shelves = LevelsName → ℕ → Option Level

-- The price under which an order stands: its stop price until it is set off.
abbrev pub price_by : OrderType → Order → ℕ
price_by market o = o.price
price_by limit o = o.price
price_by stop o = o.stop_price
price_by stop_limit o = o.stop_price
price_by trailing_stop o = o.stop_price
price_by trailing_stop_limit o = o.stop_price

abbrev pub resting_price : Order → ℕ
resting_price o = price_by o.type o

-- A stored order has its own id and the book's symbol, and its iterator names the map of its type
-- and side and its price.
pub record IsFiled (s i : ℕ) (e : OrderWithLevelIterator) : Type 0 where
  pub same_id : e.order.id ≡ i
  pub same_symbol : e.order.symbol_id ≡ s
  pub right_levels : levels_for e.order.type e.order.side ≡ e.level_it.levels
  pub right_price : resting_price e.order ≡ e.level_it.price

-- The level to which an order's iterator leads exists, and links the order.
abbrev pub InLevel : ℕ → LevelIterator → Shelves → Type 0
InLevel i it shelves =
    (level : Level) × (shelves it.levels it.price ≡ some level) × (linked i level.orders ≡ true)

-- A level has the price and the side of its place and the book's symbol, and links some orders, none
-- of them twice.
pub record IsStocked (s : ℕ) (k : LevelsName) (p : ℕ) (level : Level) : Type 0 where
  pub level_price : level.price ≡ p
  pub right_side : level.side ≡ level_side k
  pub level_symbol : level.symbol_id ≡ s
  pub nonempty : is_empty level.orders ≡ false
  pub distinct : Distinct level.orders

-- What a level at a place links is a stored order whose iterator leads there; the ids of `loose` are
-- in no level.
abbrev pub IsMember : List ℕ → Orders → LevelsName → ℕ → ℕ → Type 0
IsMember loose orders k p i =
    (e : OrderWithLevelIterator) × (orders i ≡ some e)
    × (e.level_it.levels ≡ k)
    × (e.level_it.price ≡ p)
    × (linked i loose ≡ false)

-- The maps agree, but for the orders of `loose`, which are stored and in no level; and no set of
-- orders has an open quantity of 2 ^ 64 together.
pub record IsSound (loose : List ℕ) (s : ℕ) (orders : Orders) (shelves : Shelves) : Type 0 where
  pub filed : (i : ℕ) (e : OrderWithLevelIterator) → orders i ≡ some e → IsFiled s i e
  pub placed :
      (i : ℕ) (e : OrderWithLevelIterator)
      → orders i ≡ some e
      → linked i loose ≡ false
      → InLevel i e.level_it shelves
  pub stocked :
      (k : LevelsName) (p : ℕ) (level : Level) → shelves k p ≡ some level → IsStocked s k p level
  pub member :
      (k : LevelsName) (p : ℕ) (level : Level) (i : ℕ)
      → shelves k p ≡ some level
      → linked i level.orders ≡ true
      → IsMember loose orders k p i
  pub volume :
      (k : LevelsName) (p : ℕ) (level : Level)
      → shelves k p ≡ some level
      → level.volume ≡ total orders level.orders
  pub bounded : (is : List ℕ) → Distinct is → total orders is < u64_mod

abbrev pub same_place : LevelsName → ℕ → LevelsName → ℕ → Bool
same_place j q k p = same_levels j k && q == p

-- The levels after a write at one place, and the orders after a write at one id.
pub record IsLevelWrite (k : LevelsName) (p : ℕ) (value : Option Level) (shelves shelves' : Shelves)
    : Type 0 where
  pub level_write :
      (j : LevelsName) (q : ℕ) → shelves' j q ≡ (if same_place j q k p then value else shelves j q)

pub record IsOrderWrite (i : ℕ) (value : Option OrderWithLevelIterator) (orders orders' : Orders)
    : Type 0 where
  pub order_write : (j : ℕ) → orders' j ≡ (if j == i then value else orders j)

pub same_levels-eq : (j k : LevelsName) → same_levels j k ≡ true → j ≡ k
same_levels-eq j k h = ground arith

pub same_place-eq :
    (j : LevelsName) (q : ℕ) (k : LevelsName) (p : ℕ)
    → same_place j q k p ≡ true
    → (j ≡ k) × (q ≡ p)
same_place-eq j q k p h = ground (arith, same_levels-eq j k)

pub same_place_refl : (k : LevelsName) (p : ℕ) → same_place k p k p ≡ true
same_place_refl k p = ground arith

-- A place is the written one, or it holds what it held.
pub level_write_cases :
    {k : LevelsName} {p : ℕ} {value : Option Level} {shelves shelves' : Shelves}
    → IsLevelWrite k p value shelves shelves'
    → (j : LevelsName) (q : ℕ)
    → ((j ≡ k) × (q ≡ p) × (shelves' j q ≡ value))
      ⊎ ((same_place j q k p ≡ false) × (shelves' j q ≡ shelves j q))
level_write_cases {k} {p} w j q = elim (Bool-cases (same_place j q k p)) [
  | inl here ↦
      let (x, y) = same_place-eq j q k p here in inl (x, y, ground (arith, w.level_write j q))
  | inr other ↦ inr (other, ground (arith, w.level_write j q))
]

pub order_write_other :
    {i : ℕ} {value : Option OrderWithLevelIterator} {orders orders' : Orders}
    → IsOrderWrite i value orders orders'
    → (j : ℕ) → (j == i) ≡ false
    → orders' j ≡ orders j
order_write_other w j h = ground (arith, w.order_write j)

pub order_write_self :
    {i : ℕ} {value : Option OrderWithLevelIterator} {orders orders' : Orders}
    → IsOrderWrite i value orders orders'
    → orders' i ≡ value
order_write_self {i} w = ground (arith, w.order_write i)
