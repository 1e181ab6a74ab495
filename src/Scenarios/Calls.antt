-- ===== src/Scenarios/Calls.antt =====
-- The theorems on an engine and its client at concrete inputs.
use mathlib.Core.Option.{some-injective}
use quanta_trader.Common.{ℕ, ◌<◌, ◌≡◌, refl, subst, arith, [], ◌∷◌, u64_mod}
use quanta_trader.Order
use quanta_trader.Order.{gtc}
use quanta_trader.Event.{symbol_added}
use quanta_trader.Book.State
use quanta_trader.Book.State.{PriceLevelOrderBook}
use quanta_trader.Book.Operations
use quanta_trader.Book.Operations.Accepted.{IsAccepted}
use quanta_trader.Book.Operations.Total.{HasFuel, add_order_total}
use quanta_trader.Book.Operations.Room.{IsAccepted-HasRoom}
use quanta_trader.Book.Operations.Client
use quanta_trader.Book.Operations.Client.{IsAllowed}
use quanta_trader.Book.Progress.{activity, HasRoom, IsWellFormed}
use quanta_trader.Book.Progress.Fresh.{new_book-IsWellFormed}
use quanta_trader.Engine
use quanta_trader.Engine.{Engine, Call, returned, thrown, faulted, unfinished}
use quanta_trader.Engine.Symbols.{Request, serve}
use quanta_trader.Engine.Books.{IsRunning, IsReady, Ends, addressed, serve_total}
use quanta_trader.Engine.Client.{Reach, Reach-IsRunning, engine_never_crossed}
use quanta_trader.Scenarios
use quanta_trader.Scenarios.{runs, first_order, fresh, fresh_facts, returned-Returns}

abbrev pub engine_of : Call Engine → Engine
engine_of (returned e) = e
engine_of (thrown what e) = e
engine_of (faulted f) = Engine.new_engine []
engine_of unfinished = Engine.new_engine []

abbrev pub named : Engine
named = engine_of (serve 20 (Request.add_symbol 1 "A") (Engine.new_engine []))

-- The engine's book, with the event of the new symbol.
abbrev pub empty_book : PriceLevelOrderBook
empty_book = record (State.new_book 1 []) { event_handler = symbol_added 1 "A" ∷ [] }

pub empty_facts :
    IsWellFormed empty_book
    × (activity empty_book ≡ 0)
    × ((q : ℕ) → q < u64_mod → HasRoom q empty_book)
unfolding State.new_book
empty_facts = new_book-IsWellFormed 1 (symbol_added 1 "A" ∷ [])

abbrev pub buyer : Order.Order
buyer = Order.limit_buy_order 2 1 90 10 gtc 0

abbrev seller_book : PriceLevelOrderBook
seller_book = Scenarios.returned (Operations.add_order 20 first_order empty_book)

seller_book-IsAccepted : IsAccepted 1 4 empty_book seller_book
unfolding runs
seller_book-IsAccepted =
    returned-Returns (IsAccepted 1 4 empty_book) (Operations.add_order 20 first_order empty_book) (
      add_order_total 20 first_order empty_book empty_facts.0 (omega (arith, empty_facts.1)) refl
        refl (empty_facts.2 4 (omega arith)))

abbrev selling : Engine
selling = engine_of (serve 20 (Request.add_order first_order) named)

abbrev both_sides : Engine
both_sides = engine_of (serve 20 (Request.add_order buyer) selling)

named-Reach : Reach [] named
unfolding runs serve Engine.add_symbol Engine.add_order_book Engine.new_engine
named-Reach = Reach.later 20 (Request.add_symbol 1 "A") Reach.start tt refl

-- What the two books that the orders come to are ready for.
fresh-IsReady : IsReady 20 (addressed (Request.add_order first_order)) named
unfolding runs serve Engine.add_symbol Engine.add_order_book Engine.new_engine
fresh-IsReady b found =
    let r = Client.Request.add_order first_order in
    let e : fresh ≡ b = some-injective _ _ found in
    subst (λ x. HasFuel 20 x × IsAllowed r x) e
      (omega (arith, fresh_facts.1), (refl, refl, fresh_facts.2 4 (omega arith)))

selling-Reach : Reach [] selling
unfolding runs serve Engine.add_symbol Engine.add_order_book Engine.new_engine Engine.on_book
    Engine.add_order
selling-Reach = Reach.later 20 (Request.add_order first_order) named-Reach fresh-IsReady refl

seller-IsReady : IsReady 20 (addressed (Request.add_order buyer)) selling
unfolding runs serve Engine.add_symbol Engine.add_order_book Engine.new_engine Engine.on_book
    Engine.add_order
seller-IsReady b found =
    let r = Client.Request.add_order buyer in
    let e : seller_book ≡ b = some-injective _ _ found in
    subst (λ x. HasFuel 20 x × IsAllowed r x) e
      (
        omega (arith, seller_book-IsAccepted.two_more, empty_facts.1),
        (refl, refl, IsAccepted-HasRoom seller_book-IsAccepted 10 (empty_facts.2 14 (omega arith))),
      )

serve_total_example : Ends IsRunning (serve 20 (Request.add_order buyer) selling)
serve_total_example =
    serve_total 20 (Request.add_order buyer) selling (Reach-IsRunning selling-Reach) seller-IsReady

abbrev crossing_book : PriceLevelOrderBook
crossing_book = Scenarios.returned (
    Operations.add_order 20 buyer
      (record seller_book { event_handler = selling.orderbook_handler.event_handler }))

engine_never_crossed_example : State.get_best_buy crossing_book < State.get_best_sell crossing_book
unfolding runs serve Engine.add_symbol Engine.add_order_book Engine.new_engine Engine.on_book
    Engine.add_order
engine_never_crossed_example =
    engine_never_crossed
      (Reach.later {after = both_sides} 20 (Request.add_order buyer) selling-Reach seller-IsReady
        refl)
      1 crossing_book refl refl refl
