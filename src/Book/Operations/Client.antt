-- ===== src/Book/Operations/Client.antt =====
-- A client of a book: any sequence of allowed requests, from a new book on.
use quanta_trader.Common.{
  ℕ, ◌<◌, ◌≤◌, ◌≡◌, ◌⊎◌, false, none, some, is_empty, first, last, Option-cases, inl, inr, Outcome,
  done, Returns, Returns-mono,
}
use quanta_trader.Common.Maps.{find}
use quanta_trader.Common.Maps.Extremes.{first-is_empty, last-is_empty}
use quanta_trader.Order.{Order}
use quanta_trader.Event.{EventHandler}
use quanta_trader.Book.State.{
  PriceLevelOrderBook, OrderWithLevelIterator, new_book, buy_levels, sell_levels, get_best_buy,
  get_best_sell,
}
use quanta_trader.Book.Operations
use quanta_trader.Book.Operations.Total.{HasFuel, add_order_total, delete_order_total}
use quanta_trader.Book.Operations.Reduce.{
  cancel_order_total, execute_order_at_total, execute_order-Returns,
}
use quanta_trader.Book.Operations.Replace.{modify_order_total}
use quanta_trader.Book.Progress.{IsWellFormed, HasRoom}
use quanta_trader.Book.Progress.Fresh.{new_book-IsWellFormed}
use quanta_trader.Book.Progress.Matching.{find-first, find-last}

pub data Request : Type 0 where
  add_order : Order → Request
  delete_order : ℕ → Request
  modify_order : ℕ → ℕ → ℕ → Request
  cancel_order : ℕ → ℕ → Request
  execute_order_at : ℕ → ℕ → ℕ → Request
  execute_order : ℕ → ℕ → Request

unfoldable pub perform : ℕ → Request → PriceLevelOrderBook → Outcome PriceLevelOrderBook
perform fuel (add_order o) b = Operations.add_order fuel o b
perform fuel (delete_order i) b = Operations.delete_order fuel i b
perform fuel (modify_order i j price) b = Operations.modify_order fuel i j price b
perform fuel (cancel_order i q) b = Operations.cancel_order fuel i q b
perform fuel (execute_order_at i q price) b = Operations.execute_order_at fuel i q price b
perform fuel (execute_order i q) b = Operations.execute_order fuel i q b

-- The book has an order of the id.
abbrev pub Has : ℕ → PriceLevelOrderBook → Type 0
Has i b = (e : OrderWithLevelIterator) × (find i b.orders ≡ some e)

-- What a client must see to: an id is new where one is given to an order and known elsewhere, an
-- order has the book's symbol and fits in, and a cancellation leaves no more than is open.
abbrev pub IsAllowed : Request → PriceLevelOrderBook → Type 0
IsAllowed (add_order o) b =
    (find o.id b.orders ≡ none) × (o.symbol_id ≡ b.symbol_id) × HasRoom o.open_quantity b
IsAllowed (delete_order i) b = Has i b
IsAllowed (modify_order i j price) b = Has i b × ((j ≡ i) ⊎ (find j b.orders ≡ none))
IsAllowed (cancel_order i q) b =
    (e : OrderWithLevelIterator) × (find i b.orders ≡ some e) × (q ≤ e.order.open_quantity)
IsAllowed (execute_order_at i q price) b = Has i b
IsAllowed (execute_order i q) b = Has i b

-- What a request leaves: a well-formed book of the same symbol.
abbrev pub IsServed : PriceLevelOrderBook → PriceLevelOrderBook → Type 0
IsServed b b' = IsWellFormed b' × (b'.symbol_id ≡ b.symbol_id)

pub perform-IsServed :
    (fuel : ℕ) (r : Request) (b : PriceLevelOrderBook)
    → IsWellFormed b
    → HasFuel fuel b
    → IsAllowed r b
    → Returns (perform fuel r b) (IsServed b)
unfolding perform
perform-IsServed fuel (add_order o) b w enough (absent, symbol, room) =
    Returns-mono (IsServed b) (Operations.add_order fuel o b)
      (add_order_total fuel o b w enough absent symbol room)
      (λ b' a. (a.well_formed, a.same_symbol))
perform-IsServed fuel (delete_order i) b w enough (e, stored) =
    Returns-mono (IsServed b) (Operations.delete_order fuel i b)
      (delete_order_total fuel b w enough i e stored) (λ b' a. (a.0, a.2.same_symbol))
perform-IsServed fuel (modify_order i j price) b w enough ((e, stored), free) =
    Returns-mono (IsServed b) (Operations.modify_order fuel i j price b)
      (modify_order_total fuel i j price b e w enough stored free)
      (λ b' a. (a.well_formed, a.same_symbol))
perform-IsServed fuel (cancel_order i q) b w enough (e, stored, le) =
    Returns-mono (IsServed b) (Operations.cancel_order fuel i q b)
      (cancel_order_total fuel b w enough i e stored q le)
      (λ b' a. (a.well_formed, a.progress.same_symbol))
perform-IsServed fuel (execute_order_at i q price) b w enough (e, stored) =
    Returns-mono (IsServed b) (Operations.execute_order_at fuel i q price b)
      (execute_order_at_total fuel b w enough i e stored q price)
      (λ b' a. (a.well_formed, a.progress.same_symbol))
perform-IsServed fuel (execute_order i q) b w enough (e, stored) =
    Returns-mono (IsServed b) (Operations.execute_order fuel i q b)
      (execute_order-Returns fuel b w enough i e stored q)
      (λ b' a. (a.well_formed, a.progress.same_symbol))

-- With enough fuel, every request that is allowed on a well-formed book returns a well-formed book:
-- no assertion fails, nothing is undefined, and no loop runs on.
pub perform_total :
    (fuel : ℕ) (r : Request) (b : PriceLevelOrderBook)
    → IsWellFormed b
    → HasFuel fuel b
    → IsAllowed r b
    → Returns (perform fuel r b) IsWellFormed
perform_total fuel r b w enough allowed =
    Returns-mono IsWellFormed (perform fuel r b) (perform-IsServed fuel r b w enough allowed)
      (λ b' served. served.0)

-- An allowed request, with enough fuel.
pub data Step : PriceLevelOrderBook → PriceLevelOrderBook → Type 0 where
  request :
      {b b' : PriceLevelOrderBook} (fuel : ℕ) (r : Request)
      → HasFuel fuel b
      → IsAllowed r b
      → perform fuel r b ≡ done b'
      → Step b b'

-- The books that a client can have made of a new one.
pub data Reach (s : ℕ) (handler : EventHandler) : PriceLevelOrderBook → Type 0 where
  start : Reach s handler (new_book s handler)
  later : {b b' : PriceLevelOrderBook} → Reach s handler b → Step b b' → Reach s handler b'

Step-IsWellFormed : {b b' : PriceLevelOrderBook} → Step b b' → IsWellFormed b → IsWellFormed b'
Step-IsWellFormed {b} (request fuel r enough allowed e) w =
    rw e at (perform_total fuel r b w enough allowed)

-- Every reachable book is well-formed.
pub Reach-IsWellFormed :
    {s : ℕ} {handler : EventHandler} {b : PriceLevelOrderBook} → Reach s handler b → IsWellFormed b
Reach-IsWellFormed {s} {handler} start = (new_book-IsWellFormed s handler).0
Reach-IsWellFormed (later r step) = Step-IsWellFormed step (Reach-IsWellFormed r)

-- In a well-formed book, the best buying price is below the best selling price.
pub uncrossed_best :
    (b : PriceLevelOrderBook)
    → IsWellFormed b
    → is_empty (b.levels buy_levels) ≡ false
    → is_empty (b.levels sell_levels) ≡ false
    → get_best_buy b < get_best_sell b
unfolding get_best_buy get_best_sell
uncrossed_best b w some_buy some_sell = elim (Option-cases (last (b.levels buy_levels))) [
  | inl empty ↦ cc (last-is_empty (b.levels buy_levels) empty)
  | inr (e, best) ↦ elim (Option-cases (first (b.levels sell_levels))) [
    | inl empty ↦ cc (first-is_empty (b.levels sell_levels) empty)
    | inr (f, least) ↦
        let (m, found) = find-last (b.levels buy_levels) e best in
        let (l, found') = find-first (b.levels sell_levels) least in
        rw (best, get_best_buy)
          (rw (least, get_best_sell) (w.uncrossed.apart f.0 e.0 l m found' found))
  ]
]

-- No reachable book is crossed: where there are orders on both sides, the best buying price is below
-- the best selling price.
pub never_crossed :
    {s : ℕ} {handler : EventHandler} {b : PriceLevelOrderBook}
    → Reach s handler b
    → is_empty (b.levels buy_levels) ≡ false
    → is_empty (b.levels sell_levels) ≡ false
    → get_best_buy b < get_best_sell b
never_crossed {b} r some_buy some_sell = uncrossed_best b (Reach-IsWellFormed r) some_buy some_sell
