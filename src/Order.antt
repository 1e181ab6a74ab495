-- ===== src/Order.antt =====
-- Orders: include/matching/order.h and src/matching/order.cpp, without the printing of an order.
-- The clock that the factories read is the argument `now`. The hook by which a boost list links an
-- order is not a field here: a list of the model holds the ids of its orders.
pub mod Execution
use quanta_trader.Common.{ℕ, ◌%◌, min, Bool, add64, sub64, u32_mod, ◌==◌}

pub data OrderSide : Type 0 where
  sell buy : OrderSide

pub data OrderType : Type 0 where
  market limit stop stop_limit trailing_stop trailing_stop_limit : OrderType

pub data OrderTimeInForce : Type 0 where
  gtc ioc aon fok : OrderTimeInForce

-- The values of the enumerators, by which `==` compares them.
abbrev pub side_value : OrderSide → ℕ
side_value sell = 0
side_value buy = 1

abbrev pub type_value : OrderType → ℕ
type_value market = 0
type_value limit = 1
type_value stop = 2
type_value stop_limit = 3
type_value trailing_stop = 4
type_value trailing_stop_limit = 5

abbrev pub time_in_force_value : OrderTimeInForce → ℕ
time_in_force_value gtc = 0
time_in_force_value ioc = 1
time_in_force_value aon = 2
time_in_force_value fok = 3

abbrev pub is_side : OrderSide → OrderSide → Bool
is_side s t = side_value s == side_value t

abbrev pub is_type : OrderType → OrderType → Bool
is_type s t = type_value s == type_value t

abbrev pub is_time_in_force : OrderTimeInForce → OrderTimeInForce → Bool
is_time_in_force s t = time_in_force_value s == time_in_force_value t

pub record Order : Type 0 where
  pub id : ℕ
  pub type : OrderType
  pub side : OrderSide
  pub time_in_force : OrderTimeInForce
  pub symbol_id : ℕ
  pub price : ℕ
  pub stop_price : ℕ
  pub trail_amount : ℕ
  pub last_executed_price : ℕ
  pub quantity : ℕ
  pub executed_quantity : ℕ
  pub open_quantity : ℕ
  pub last_executed_quantity : ℕ
  pub timestamp : ℕ

-- The constructor.
unfoldable pub new_order :
    ℕ → OrderType → OrderSide → OrderTimeInForce → ℕ → ℕ → ℕ → ℕ → ℕ → ℕ → Order
new_order id type side time_in_force symbol_id price stop_price trail_amount quantity timestamp =
    record {
      id = id;
      type = type;
      side = side;
      time_in_force = time_in_force;
      symbol_id = symbol_id;
      price = price;
      stop_price = stop_price;
      trail_amount = trail_amount;
      last_executed_price = 0;
      quantity = quantity;
      executed_quantity = 0;
      open_quantity = quantity;
      last_executed_quantity = 0;
      timestamp = timestamp;
    }

unfoldable pub market_sell_order : ℕ → ℕ → ℕ → OrderTimeInForce → ℕ → Order
market_sell_order order_id symbol_id quantity time_in_force now =
    new_order order_id OrderType.market OrderSide.sell time_in_force symbol_id 0 0 0 quantity now

unfoldable pub market_buy_order : ℕ → ℕ → ℕ → OrderTimeInForce → ℕ → Order
market_buy_order order_id symbol_id quantity time_in_force now =
    new_order order_id OrderType.market OrderSide.buy time_in_force symbol_id 0 0 0 quantity now

unfoldable pub limit_sell_order : ℕ → ℕ → ℕ → ℕ → OrderTimeInForce → ℕ → Order
limit_sell_order order_id symbol_id price quantity time_in_force now =
    new_order order_id OrderType.limit OrderSide.sell time_in_force symbol_id price 0 0 quantity now

unfoldable pub limit_buy_order : ℕ → ℕ → ℕ → ℕ → OrderTimeInForce → ℕ → Order
limit_buy_order order_id symbol_id price quantity time_in_force now =
    new_order order_id OrderType.limit OrderSide.buy time_in_force symbol_id price 0 0 quantity now

unfoldable pub stop_sell_order : ℕ → ℕ → ℕ → ℕ → OrderTimeInForce → ℕ → Order
stop_sell_order order_id symbol_id stop_price quantity time_in_force now =
    new_order order_id OrderType.stop OrderSide.sell time_in_force symbol_id 0 stop_price 0 quantity
      now

unfoldable pub stop_buy_order : ℕ → ℕ → ℕ → ℕ → OrderTimeInForce → ℕ → Order
stop_buy_order order_id symbol_id stop_price quantity time_in_force now =
    new_order order_id OrderType.stop OrderSide.buy time_in_force symbol_id 0 stop_price 0 quantity
      now

unfoldable pub stop_limit_sell_order : ℕ → ℕ → ℕ → ℕ → ℕ → OrderTimeInForce → ℕ → Order
stop_limit_sell_order order_id symbol_id price stop_price quantity time_in_force now =
    new_order order_id OrderType.stop_limit OrderSide.sell time_in_force symbol_id price stop_price
      0 quantity now

unfoldable pub stop_limit_buy_order : ℕ → ℕ → ℕ → ℕ → ℕ → OrderTimeInForce → ℕ → Order
stop_limit_buy_order order_id symbol_id price stop_price quantity time_in_force now =
    new_order order_id OrderType.stop_limit OrderSide.buy time_in_force symbol_id price stop_price 0
      quantity now

unfoldable pub trailing_stop_sell_order : ℕ → ℕ → ℕ → ℕ → OrderTimeInForce → ℕ → Order
trailing_stop_sell_order order_id symbol_id trail_amount quantity time_in_force now =
    new_order order_id OrderType.trailing_stop OrderSide.sell time_in_force symbol_id 0 0
      trail_amount quantity now

unfoldable pub trailing_stop_buy_order : ℕ → ℕ → ℕ → ℕ → OrderTimeInForce → ℕ → Order
trailing_stop_buy_order order_id symbol_id trail_amount quantity time_in_force now =
    new_order order_id OrderType.trailing_stop OrderSide.buy time_in_force symbol_id 0 0
      trail_amount quantity now

unfoldable pub trailing_stop_limit_sell_order : ℕ → ℕ → ℕ → ℕ → ℕ → OrderTimeInForce → ℕ → Order
trailing_stop_limit_sell_order order_id symbol_id price trail_amount quantity time_in_force now =
    new_order order_id OrderType.trailing_stop_limit OrderSide.sell time_in_force symbol_id price 0
      trail_amount quantity now

unfoldable pub trailing_stop_limit_buy_order : ℕ → ℕ → ℕ → ℕ → ℕ → OrderTimeInForce → ℕ → Order
trailing_stop_limit_buy_order order_id symbol_id price trail_amount quantity time_in_force now =
    new_order order_id OrderType.trailing_stop_limit OrderSide.buy time_in_force symbol_id price 0
      trail_amount quantity now

-- `operator==`
unfoldable pub order_eq : Order → Order → Bool
order_eq a b = a.id == b.id

abbrev pub set_id : ℕ → Order → Order
set_id id o = record o { id = id }

abbrev pub set_type : OrderType → Order → Order
set_type type o = record o { type = type }

abbrev pub set_time_in_force : OrderTimeInForce → Order → Order
set_time_in_force time_in_force o = record o { time_in_force = time_in_force }

abbrev pub set_price : ℕ → Order → Order
set_price price o = record o { price = price }

abbrev pub set_stop_price : ℕ → Order → Order
set_stop_price stop_price o = record o { stop_price = stop_price }

abbrev pub set_trail_amount : ℕ → Order → Order
set_trail_amount trail_amount o = record o { trail_amount = trail_amount }

-- `setQuantity`: the smaller of the two becomes the quantity, and the argument itself the open
-- quantity.
unfoldable pub set_quantity : ℕ → Order → Order
set_quantity q o = record o { quantity = min q o.open_quantity; open_quantity = q }

-- `execute`, whose price parameter is a `uint32_t`.
unfoldable pub execute : ℕ → ℕ → Order → Order
execute price q o = record o {
  open_quantity = sub64 o.open_quantity q;
  executed_quantity = add64 o.executed_quantity q;
  last_executed_price = price % u32_mod;
  last_executed_quantity = q;
}
