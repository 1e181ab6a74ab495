-- ===== src/Engine/Client.antt =====
-- A client of an engine: any sequence of calls from a new engine on, exceptions included.
use quanta_trader.Common.{ℕ, ◌<◌, ◌≡◌, is_empty, false, subst, some}
use quanta_trader.Common.Maps.{find}
use quanta_trader.Event.{EventHandler}
use quanta_trader.Book.State.{
  PriceLevelOrderBook, buy_levels, sell_levels, get_best_buy, get_best_sell,
}
use quanta_trader.Book.Operations.Client.{uncrossed_best}
use quanta_trader.Engine.{Call, returned, thrown, faulted, unfinished, Engine, new_engine}
use quanta_trader.Engine.Symbols.{Request, serve}
use quanta_trader.Engine.Books.{IsRunning, IsReady, Ends, addressed, serve_total}

-- A call that ends, by returning or with an exception, with a new state of the engine.
abbrev pub EndsIn : {S : Type 0} → S → Call S → Type 0
EndsIn s c = Ends (λ t. t ≡ s) c

-- The engines that a client can have made of a new one, exceptions included.
pub data Reach (handler : EventHandler) : Engine → Type 0 where
  start : Reach handler (new_engine handler)
  later :
      {before after : Engine} (fuel : ℕ) (r : Request)
      → Reach handler before
      → IsReady fuel (addressed r) before
      → EndsIn after (serve fuel r before)
      → Reach handler after

EndsIn-Ends : {S : Type 0} (P : S → Type 0) (s : S) (c : Call S) → Ends P c → EndsIn s c → P s
EndsIn-Ends P s (returned t) ends same = subst P same ends
EndsIn-Ends P s (thrown what t) ends same = subst P same ends
EndsIn-Ends P s (faulted f) ends same = absurd ends
EndsIn-Ends P s unfinished ends same = absurd ends

new_engine-IsRunning : (handler : EventHandler) → IsRunning (new_engine handler)
unfolding new_engine find
new_engine-IsRunning handler = record { books = λ s b found. cc }

pub Reach-IsRunning : {handler : EventHandler} {e : Engine} → Reach handler e → IsRunning e
Reach-IsRunning {handler} start = new_engine-IsRunning handler
Reach-IsRunning {e} (later {before} fuel r reach ready ended) =
    EndsIn-Ends IsRunning e (serve fuel r before)
      (serve_total fuel r before (Reach-IsRunning reach) ready) ended

-- In every book of every engine that a client can have made of a new one, with calls that returned
-- or threw, the best buying price is below the best selling price, where there are both.
pub engine_never_crossed :
    {handler : EventHandler} {e : Engine}
    → Reach handler e
    → (s : ℕ) (b : PriceLevelOrderBook) → find s e.orderbook_handler.symbol_to_order_book ≡ some b
    → is_empty (b.levels buy_levels) ≡ false
    → is_empty (b.levels sell_levels) ≡ false
    → get_best_buy b < get_best_sell b
engine_never_crossed reach s b found some_buy some_sell =
    uncrossed_best b ((Reach-IsRunning reach).books s b found).0 some_buy some_sell
