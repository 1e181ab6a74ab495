-- ===== src/Book/State.antt =====
-- The state of the order book, its constructor and its queries. The six level maps are told apart
-- by their names, and an iterator into one of them is a name with a key.
pub mod Best
use quanta_trader.Common.{
  ℕ, Bool, none, some, [], ◌∷◌, u64_max, ◌==◌, if◌then◌else◌, is_empty, first, last, Outcome, done,
  deref, ◌>>=◌,
}
use quanta_trader.Common.Maps.{Map, find, put, contains}
use quanta_trader.Order.{Order}
use quanta_trader.Level.{Level}
use quanta_trader.Event.{Event, EventHandler}

pub data LevelsName : Type 0 where
  sell_levels buy_levels stop_sell_levels stop_buy_levels : LevelsName
  trailing_stop_sell_levels trailing_stop_buy_levels : LevelsName

abbrev pub levels_value : LevelsName → ℕ
levels_value sell_levels = 0
levels_value buy_levels = 1
levels_value stop_sell_levels = 2
levels_value stop_buy_levels = 3
levels_value trailing_stop_sell_levels = 4
levels_value trailing_stop_buy_levels = 5

abbrev pub same_levels : LevelsName → LevelsName → Bool
same_levels k j = levels_value k == levels_value j

-- `std::map<uint64_t, Level>::iterator`
pub record LevelIterator : Type 0 where
  pub levels : LevelsName
  pub price : ℕ

pub record OrderWithLevelIterator : Type 0 where
  pub order : Order
  pub level_it : LevelIterator

pub record PriceLevelOrderBook : Type 0 where
  pub symbol_id : ℕ
  pub event_handler : EventHandler
  pub last_traded_price : ℕ
  pub trailing_buy_price : ℕ
  pub trailing_sell_price : ℕ
  pub orders : Map OrderWithLevelIterator
  pub levels : LevelsName → Map Level

-- The constructor.
unfoldable pub new_book : ℕ → EventHandler → PriceLevelOrderBook
new_book symbol_id event_handler = record {
  symbol_id = symbol_id;
  event_handler = event_handler;
  last_traded_price = 0;
  trailing_buy_price = 0;
  trailing_sell_price = u64_max;
  orders = [];
  levels = λ k. [];
}

-- A call of the event handler.
abbrev pub notify : Event → PriceLevelOrderBook → PriceLevelOrderBook
notify event b = record b { event_handler = event ∷ b.event_handler }

abbrev pub set_levels : LevelsName → Map Level → PriceLevelOrderBook → PriceLevelOrderBook
set_levels k m b = record b { levels = λ j. if same_levels j k then m else b.levels j }

-- What an iterator into `orders` or into a level map refers to.
abbrev pub find_order : ℕ → PriceLevelOrderBook → Outcome OrderWithLevelIterator
find_order i b = deref (find i b.orders)

abbrev pub level_at : LevelIterator → PriceLevelOrderBook → Outcome Level
level_at it b = deref (find it.price (b.levels it.levels))

-- Writes through a reference to a level, and to a stored order.
abbrev pub put_level : LevelIterator → Level → PriceLevelOrderBook → PriceLevelOrderBook
put_level it level b = set_levels it.levels (put it.price level (b.levels it.levels)) b

abbrev pub put_order : ℕ → OrderWithLevelIterator → PriceLevelOrderBook → PriceLevelOrderBook
put_order i e b = record b { orders = put i e b.orders }

-- `getBestBuy`, `getBestSell`
unfoldable pub get_best_buy : PriceLevelOrderBook → ℕ
get_best_buy b = elim (last (b.levels buy_levels)) [ none ↦ 0 | some e ↦ e.0 ]

unfoldable pub get_best_sell : PriceLevelOrderBook → ℕ
get_best_sell b = elim (first (b.levels sell_levels)) [ none ↦ u64_max | some e ↦ e.0 ]

-- `hasOrder`, `getOrder`, `empty`
unfoldable pub has_order : ℕ → PriceLevelOrderBook → Bool
has_order i b = contains i b.orders

unfoldable pub get_order : ℕ → PriceLevelOrderBook → Outcome Order
get_order i b = do e ← find_order i b; done e.order

unfoldable pub empty : PriceLevelOrderBook → Bool
empty b = is_empty b.orders

-- `lastTradedBuyPrice`, `lastTradedSellPrice`
unfoldable pub last_traded_buy_price : PriceLevelOrderBook → ℕ
last_traded_buy_price b = b.last_traded_price

unfoldable pub last_traded_sell_price : PriceLevelOrderBook → ℕ
last_traded_sell_price b = if b.last_traded_price == 0 then u64_max else b.last_traded_price
