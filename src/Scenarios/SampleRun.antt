-- ===== src/Scenarios/SampleRun.antt =====
-- The run of the sample program.
use quanta_trader.Common.{◌≡◌, refl, [], ◌∷◌}
use quanta_trader.Order.{execute}
use quanta_trader.Event.{symbol_added, order_added, order_executed, order_deleted}
use quanta_trader.Engine
use quanta_trader.Engine.{Call, Engine, returned, thrown, faulted, unfinished}
use quanta_trader.Sample.{order1, order2, main}
use quanta_trader.Scenarios.{runs}
use quanta_trader.Scenarios.Calls.{engine_of}

-- Two orders are added and two executed, and the order to buy is deleted. The events stand latest
-- first.
sample_events :
    (engine_of (main 20 3 4)).orderbook_handler.event_handler
    ≡ order_deleted (execute 350 200 (order1 1 3))
      ∷ order_executed (execute 350 200 (order2 1 4))
      ∷ order_executed (execute 350 200 (order1 1 3))
      ∷ order_added (order2 1 4)
      ∷ order_added (order1 1 3)
      ∷ symbol_added 1 "SMPL"
      ∷ []
unfolding runs main order1 order2 Engine.add_symbol Engine.add_order_book Engine.new_engine
    Engine.on_book Engine.add_order
sample_events = refl
