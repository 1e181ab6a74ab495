-- ===== src/Sample.antt =====
-- The sample program: sample/engine_sample.cpp. What its event handler prints is in Printing.
use quanta_trader.Common.{ℕ, String, []}
use quanta_trader.Order.{Order, gtc, limit_buy_order, limit_sell_order}
use quanta_trader.Engine.{Call, Engine, new_engine, add_symbol, add_order}
use quanta_trader.Engine.Session.{and_then}

-- The two orders, with the times at which they are created.
unfoldable pub order1 : ℕ → ℕ → Order
order1 symbol_id now = limit_buy_order 1 symbol_id 350 200 gtc now

unfoldable pub order2 : ℕ → ℕ → Order
order2 symbol_id now = limit_sell_order 2 symbol_id 300 300 gtc now

-- `main`, up to the end of the engine.
unfoldable pub main : ℕ → ℕ → ℕ → Call Engine
main fuel now1 now2 =
    let engine = new_engine [] in
    let symbol_name : String = "SMPL" in
    let symbol_id : ℕ = 1 in
    and_then (add_order fuel (order2 symbol_id now2))
      (and_then (add_order fuel (order1 symbol_id now1)) (add_symbol symbol_id symbol_name engine))
