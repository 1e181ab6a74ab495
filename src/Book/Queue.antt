-- ===== src/Book/Queue.antt =====
-- A side of the book as one queue in price-time priority, and the matching of an order against such
-- a queue: what `match` is to do, stated without levels, maps or iterators.
pub mod Ranked
pub mod Quiet
pub mod Front
pub mod Round
pub mod Head
pub mod Refinement
pub mod Conservation
pub mod Levels
pub mod Arrival
pub mod Newest
pub mod Joining
pub mod Unmet
pub mod View
pub mod Arriving
pub mod Leaving
pub mod Deleting
pub mod Amending
pub mod Lookup
pub mod Seen
use quanta_trader.Common.{
  ℕ, ◌-◌, Bool, ◌&&◌, not, ltb, ◌==◌, if◌then◌else◌, List, [], ◌∷◌, ◌++◌, Option,
}
use quanta_trader.Common.Maps.{Map, find}
use quanta_trader.Order.{OrderSide, sell, buy}
use quanta_trader.Level.{Level}
use quanta_trader.Book.State.{PriceLevelOrderBook, OrderWithLevelIterator}
use quanta_trader.Book.Match.{opposite, crosses}
use quanta_trader.Book.Sound.{Orders, open_of}

-- An order that rests at a price, with what is left open of it.
pub record Resting : Type 0 where
  pub id : ℕ
  pub price : ℕ
  pub open_quantity : ℕ

-- The levels in the order in which an incoming order of the side meets them.
abbrev pub backwards : Map Level → Map Level
backwards [] = []
backwards (x ∷ m) = backwards m ++ x ∷ []

abbrev pub ranked : OrderSide → Map Level → Map Level
ranked sell m = backwards m
ranked buy m = m

abbrev pub entries : Orders → ℕ → List ℕ → List Resting
entries orders p [] = []
entries orders p (i ∷ is) =
    record { id = i; price = p; open_quantity = open_of (orders i) } ∷ entries orders p is

abbrev pub flatten : Orders → Map Level → List Resting
flatten orders [] = []
flatten orders ((p, l) ∷ m) = entries orders p l.orders ++ flatten orders m

-- The orders that an incoming order of the side meets, in their order.
abbrev pub queue : OrderSide → PriceLevelOrderBook → List Resting
queue side b = flatten (λ i. find i b.orders) (ranked side (b.levels (opposite side)))

-- What is left of an incoming order and of the queue, and the price of the last trade.
pub record Fill : Type 0 where
  pub open_quantity : ℕ
  pub last_price : ℕ
  pub rest : List Resting

-- An order with the given side, price limit and open quantity takes from the head of the queue, at
-- the resting orders' prices, until it is filled or the next price is past its limit.
unfoldable pub fill : OrderSide → ℕ → ℕ → ℕ → List Resting → Fill
fill side limit q last [] = record { open_quantity = q; last_price = last; rest = [] }
fill side limit q last (r ∷ rs) =
    let later = fill side limit (q - r.open_quantity) r.price rs in
    if crosses side limit r.price && not (q == 0)
    then (if ltb q r.open_quantity
        then record {
          open_quantity = 0;
          last_price = r.price;
          rest = record r { open_quantity = r.open_quantity - q } ∷ rs;
        }
        else later)
    else record { open_quantity = q; last_price = last; rest = r ∷ rs }
