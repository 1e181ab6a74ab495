-- ===== src/Level.antt =====
-- Price levels: include/matching/level.h and src/matching/level.cpp, without printing. The
-- intrusive list of a level links orders that are stored elsewhere: here it holds their ids, and a
-- function that reads a linked order is given `orders`, by which an id leads to its order.
pub mod Volume
use quanta_trader.Common.{
  ℕ, Bool, true, false, ◌&&◌, Option, none, some, List, [], ◌∷◌, ◌++◌, add64, sub64, ◌==◌, leb,
  if◌then◌else◌, is_empty, first, last, drop_first, drop_last, length, Outcome, done, fault,
  undefined_behaviour, ◌>>=◌, ◌>>◌, assert, deref, not,
}
use quanta_trader.Order.{Order, OrderSide}

pub data LevelSide : Type 0 where
  sell buy : LevelSide

pub record Level : Type 0 where
  pub price : ℕ
  pub orders : List ℕ
  pub side : LevelSide
  pub symbol_id : ℕ
  pub volume : ℕ

-- The constructor.
unfoldable pub new_level : ℕ → LevelSide → ℕ → Level
new_level price side symbol_id = record {
  price = price;
  orders = [];
  side = side;
  symbol_id = symbol_id;
  volume = 0;
}

abbrev pub size : Level → ℕ
size level = length level.orders

abbrev pub empty : Level → Bool
empty level = is_empty level.orders

unfoldable pub front : Level → Outcome ℕ
front level = assert (not (is_empty level.orders)) >> deref (first level.orders)

unfoldable pub back : Level → Outcome ℕ
back level = assert (not (is_empty level.orders)) >> deref (last level.orders)

abbrev pub same_side : OrderSide → LevelSide → Bool
same_side OrderSide.sell LevelSide.sell = true
same_side OrderSide.sell LevelSide.buy = false
same_side OrderSide.buy LevelSide.sell = false
same_side OrderSide.buy LevelSide.buy = true

unfoldable pub add_order : Order → Level → Outcome Level
add_order order level = do
  assert (same_side order.side level.side)
  assert (order.symbol_id == level.symbol_id)
  done (record level {
    volume = add64 level.volume order.open_quantity;
    orders = level.orders ++ order.id ∷ [];
  })

-- `list::erase` of one element.
unfoldable pub unlink : ℕ → List ℕ → List ℕ
unlink i [] = []
unlink i (j ∷ js) = let rest = unlink i js in if i == j then js else j ∷ rest

unfoldable pub linked : ℕ → List ℕ → Bool
linked i [] = false
linked i (j ∷ js) = if i == j then true else linked i js

-- To erase an order that the list does not link is undefined.
unfoldable pub delete_order : Order → Level → Outcome Level
delete_order order level =
    if linked order.id level.orders
    then done (record level {
      volume = sub64 level.volume order.open_quantity;
      orders = unlink order.id level.orders;
    })
    else fault undefined_behaviour

unfoldable pub reduce_volume : ℕ → Level → Outcome Level
reduce_volume amount level = do
  assert (leb amount level.volume)
  done (record level { volume = sub64 level.volume amount })

-- An order leaves the level, and its open quantity the volume.
abbrev take_volume : Order → List ℕ → Level → Level
take_volume order rest level = record level {
  volume = sub64 level.volume order.open_quantity;
  orders = rest;
}

module _ (orders : ℕ → Option Order) where
  -- `popFront`, which asserts nothing.
  unfoldable pub pop_front : Level → Outcome Level
  pop_front level = do
    order ← deref (orders (← deref (first level.orders)))
    done (take_volume order (drop_first level.orders) level)

  -- `popBack`
  unfoldable pub pop_back : Level → Outcome Level
  pop_back level = do
    order ← deref (orders (← deref (last level.orders)))
    done (take_volume order (drop_last level.orders) level)

  -- `removeFront`
  unfoldable pub remove_front : Level → Outcome Level
  remove_front level = do
    order ← deref (orders (← front level))
    done (take_volume order (drop_first level.orders) level)

  -- `removeBack`
  unfoldable pub remove_back : Level → Outcome Level
  remove_back level = do
    order ← deref (orders (← back level))
    done (take_volume order (drop_last level.orders) level)
