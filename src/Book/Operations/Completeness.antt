-- ===== src/Book/Operations/Completeness.antt =====
-- What the code makes of the times in force that ask for complete execution.
use quanta_trader.Order.{Order, OrderTimeInForce, gtc, ioc, aon, fok, set_time_in_force}
use quanta_trader.Book.Queue.View.{View}

-- All-or-none is treated as good-till-cancelled, and fill-or-kill as immediate-or-cancel.
abbrev pub handled_as : OrderTimeInForce → OrderTimeInForce
handled_as gtc = gtc
handled_as ioc = ioc
handled_as aon = gtc
handled_as fok = ioc

-- The order as if it did not ask for complete execution.
abbrev pub handled : Order → Order
handled o = set_time_in_force (handled_as o.time_in_force) o
