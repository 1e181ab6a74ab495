-- ===== src/Scenarios/Parts.antt =====
-- The theorems on stop prices, unknown ids, the engine, levels and single orders at concrete inputs.
use quanta_trader.Common.{
  ℕ, Option, ◌==◌, if◌then◌else◌, arith, ◌<◌, u32_mod, u64_max, ◌↔◌, List, [], ◌∷◌, some, ◌≡◌, refl,
}
use quanta_trader.Order
use quanta_trader.Order.{Order, gtc, fok}
use quanta_trader.Level
use quanta_trader.Book.Prices
use quanta_trader.Book.Stops
use quanta_trader.Book.Prices.Saturation.{calculate_stop_price_saturates}
use quanta_trader.Book.Stops.Trigger.{add_stop_order_untraded}
use quanta_trader.Order.Execution.{execute_price_iff}
use quanta_trader.Engine
use quanta_trader.Engine.Symbols.{Request, Leaves, IsPaired, serve_all, serve_all-new_engine}
use quanta_trader.Scenarios.{runs, first_order, fresh}

abbrev trailing : Order
trailing = Order.trailing_stop_buy_order 4 1 7 5 gtc 0

calculate_stop_price_saturates_example :
    ((Prices.calculate_stop_price trailing fresh).0 ≡ u64_max)
    × ((Prices.calculate_stop_price trailing fresh).1.stop_price
        ≡ (Prices.calculate_stop_price trailing fresh).0)
unfolding runs
calculate_stop_price_saturates_example =
    calculate_stop_price_saturates trailing fresh (omega arith) (omega arith)

add_stop_order_untraded_example :
    Stops.add_stop_order (Stops.activate_stop_orders 20) 20 trailing fresh
    ≡ Stops.add_triggered (Stops.activate_stop_orders 20) 20 trailing fresh
unfolding runs
add_stop_order_untraded_example =
    add_stop_order_untraded (Stops.activate_stop_orders 20) 20 trailing fresh refl (omega arith)

abbrev requests : List Request
requests =
    Request.add_symbol 1 "A"
    ∷ Request.add_order first_order
    ∷ Request.add_symbol 1 "B"
    ∷ Request.delete_symbol 1
    ∷ []

serve_all-new_engine_example : Leaves IsPaired (serve_all 20 requests (Engine.new_engine []))
serve_all-new_engine_example = serve_all-new_engine 20 requests []

abbrev level : Level.Level
level = record {
  price = 100;
  orders = 1 ∷ [];
  side = Level.LevelSide.sell;
  symbol_id = 1;
  volume = 4;
}

abbrev second_seller : Order
second_seller = Order.limit_sell_order 5 1 100 6 gtc 0

abbrev stored_orders : ℕ → Option Order
stored_orders i = if i == 1 then some first_order else some second_seller

execute_price_iff_example :
    ((Order.execute 5000000000 3 first_order).last_executed_price ≡ 5000000000)
    ↔ (5000000000 < u32_mod)
execute_price_iff_example = execute_price_iff 5000000000 3 first_order
