-- ===== src/Event.antt =====
-- The events of include/event_handling/event.h, and the handlers of
-- include/event_handling/event_handler.h. A handler belongs to the client of the library: the model
-- keeps the events that it was called with, the newest first.
use quanta_trader.Common.{ℕ, String, List}
use quanta_trader.Order.{Order}

pub data Event : Type 0 where
  symbol_added symbol_deleted : ℕ → String → Event
  order_added order_deleted order_executed order_updated : Order → Event

abbrev pub EventHandler : Type 0
EventHandler = List Event
