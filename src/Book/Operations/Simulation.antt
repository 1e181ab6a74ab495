-- ===== src/Book/Operations/Simulation.antt =====
-- What a client that sends no stop orders sees: each of its requests is a step of a specification of
-- two price-time queues.
use quanta_trader.Common.{
  ℕ, ◌-◌, ◌≤◌, ◌≡◌, ◌⊎◌, inl, inr, none, some, List, [], ◌∷◌, done, Returns, Returns-mono,
}
use quanta_trader.Common.Maps.{find}
use quanta_trader.Order.{Order, set_id, set_price}
use quanta_trader.Event.{EventHandler}
use quanta_trader.Book.State.{PriceLevelOrderBook, new_book, OrderWithLevelIterator}
use quanta_trader.Book.Operations
use quanta_trader.Book.Operations.Client.{Request, perform, IsAllowed}
use quanta_trader.Book.Operations.Total.{HasFuel}
use quanta_trader.Book.Operations.Arrivals.{IsPlain, add_order_refines}
use quanta_trader.Book.Operations.Departures.{delete_order_refines}
use quanta_trader.Book.Operations.Modification.{modify_order_refines}
use quanta_trader.Book.Operations.Reduction.{
  cancel_order_refines, execute_order_at_refines, execute_order_refines,
}
use quanta_trader.Book.Operations.Queries.{stored_stands, missing_seen}
use quanta_trader.Book.Progress.{IsWellFormed}
use quanta_trader.Book.Queue.Arrival.{facing}
use quanta_trader.Book.Queue.Lookup.{lookup}
use quanta_trader.Book.Queue.Quiet.{HasNoStops}
use quanta_trader.Book.Queue.Seen.{seen, shown}
use quanta_trader.Book.Queue.View.{View, view, arrive, leave, reduce}

-- A market or limit order that stands in the queue of its side.
abbrev pub Stands : ℕ → Order → View → Type 0
Stands i o v = IsPlain o × (lookup i (v.queues (facing o.side)) ≡ some (shown o))

-- What a request makes of a view: a new order arrives; an order leaves; it leaves and arrives again,
-- with another id and price; its open quantity shrinks; or some of it is executed at a price, which
-- may be its own.
pub data Move : Request → View → View → Type 0 where
  arrives :
      {v v' : View} (o : Order)
      → IsPlain o
      → seen o.id v ≡ none
      → v' ≡ arrive o v
      → Move (Request.add_order o) v v'
  leaves :
      {v v' : View} (i : ℕ) (o : Order)
      → Stands i o v
      → v' ≡ leave i v
      → Move (Request.delete_order i) v v'
  changes :
      {v v' : View} (i j price : ℕ) (o : Order)
      → Stands i o v
      → (j ≡ i) ⊎ (seen j v ≡ none)
      → v' ≡ arrive (set_price price (set_id j o)) (leave i v)
      → Move (Request.modify_order i j price) v v'
  shrinks :
      {v v' : View} (i q : ℕ) (o : Order)
      → Stands i o v
      → q ≤ o.open_quantity
      → v' ≡ reduce i q v
      → Move (Request.cancel_order i q) v v'
  trades_at :
      {v v' : View} (i q price : ℕ) (o : Order)
      → Stands i o v
      → v' ≡ record (reduce i (o.open_quantity - q) v) { last_price = price }
      → Move (Request.execute_order_at i q price) v v'
  trades :
      {v v' : View} (i q : ℕ) (o : Order)
      → Stands i o v
      → v' ≡ record (reduce i (o.open_quantity - q) v) { last_price = o.price }
      → Move (Request.execute_order i q) v v'

-- A request that brings no stop order.
abbrev pub IsPlainRequest : Request → Type 0
IsPlainRequest (Request.add_order o) = IsPlain o
IsPlainRequest (Request.delete_order i) = Unit
IsPlainRequest (Request.modify_order i j price) = Unit
IsPlainRequest (Request.cancel_order i q) = Unit
IsPlainRequest (Request.execute_order_at i q price) = Unit
IsPlainRequest (Request.execute_order i q) = Unit

-- What such a request leaves: a book without stop orders, whose view is a move away.
abbrev pub HasMoved : Request → PriceLevelOrderBook → PriceLevelOrderBook → Type 0
HasMoved r b b' = HasNoStops b' × Move r (view b) (view b')

standing :
    (b : PriceLevelOrderBook)
    → IsWellFormed b
    → HasNoStops b
    → (i : ℕ) (e : OrderWithLevelIterator) → find i b.orders ≡ some e
    → Stands i e.order (view b)
standing b w calm i e stored =
    let (plain, stands, _) = stored_stands b w calm i e stored in (plain, stands)

pub perform-HasMoved :
    (fuel : ℕ) (r : Request) (b : PriceLevelOrderBook)
    → IsWellFormed b
    → HasNoStops b
    → HasFuel fuel b
    → IsAllowed r b
    → IsPlainRequest r
    → Returns (perform fuel r b) (HasMoved r b)
unfolding perform
perform-HasMoved fuel (Request.add_order o) b w calm enough (absent, symbol, room) plain =
    Returns-mono (HasMoved (Request.add_order o) b) (Operations.add_order fuel o b)
      (add_order_refines fuel o b w calm enough absent symbol room plain)
      (λ b' (calm', e). (calm', Move.arrives o plain (missing_seen b w o.id absent) e))
perform-HasMoved fuel (Request.delete_order i) b w calm enough (e, stored) plain =
    Returns-mono (HasMoved (Request.delete_order i) b) (Operations.delete_order fuel i b)
      (delete_order_refines fuel i e b w calm enough stored)
      (λ b' (calm', s). (calm', Move.leaves i e.order (standing b w calm i e stored) s))
perform-HasMoved fuel (Request.modify_order i j price) b w calm enough ((e, stored), free) plain =
    let free' : (j ≡ i) ⊎ (seen j (view b) ≡ none) = elim free [
      | inl same ↦ inl same
      | inr new ↦ inr (missing_seen b w j new)
    ] in
    Returns-mono (HasMoved (Request.modify_order i j price) b)
      (Operations.modify_order fuel i j price b)
      (modify_order_refines fuel i j price b e w calm enough stored free)
      (λ b' (calm', s).
        (calm', Move.changes i j price e.order (standing b w calm i e stored) free' s))
perform-HasMoved fuel (Request.cancel_order i q) b w calm enough (e, stored, le) plain =
    Returns-mono (HasMoved (Request.cancel_order i q) b) (Operations.cancel_order fuel i q b)
      (cancel_order_refines fuel i q e b w calm enough stored le)
      (λ b' (calm', s). (calm', Move.shrinks i q e.order (standing b w calm i e stored) le s))
perform-HasMoved fuel (Request.execute_order_at i q price) b w calm enough (e, stored) plain =
    Returns-mono (HasMoved (Request.execute_order_at i q price) b)
      (Operations.execute_order_at fuel i q price b)
      (execute_order_at_refines fuel i q price e b w calm enough stored)
      (λ b' (calm', s). (calm', Move.trades_at i q price e.order (standing b w calm i e stored) s))
perform-HasMoved fuel (Request.execute_order i q) b w calm enough (e, stored) plain =
    Returns-mono (HasMoved (Request.execute_order i q) b) (Operations.execute_order fuel i q b)
      (execute_order_refines fuel i q e b w calm enough stored)
      (λ b' (calm', s). (calm', Move.trades i q e.order (standing b w calm i e stored) s))

-- The books that a client without stop orders can have made of a new one, with its requests, the
-- latest first.
pub data PlainReach (s : ℕ) (handler : EventHandler)
    : List Request → PriceLevelOrderBook → Type 0 where
  start : PlainReach s handler [] (new_book s handler)
  later :
      {rs : List Request} {b b' : PriceLevelOrderBook} (fuel : ℕ) (r : Request)
      → PlainReach s handler rs b
      → HasFuel fuel b
      → IsAllowed r b
      → IsPlainRequest r
      → perform fuel r b ≡ done b'
      → PlainReach s handler (r ∷ rs) b'

-- The views to which requests lead from two empty queues.
pub data Traded : List Request → View → Type 0 where
  opening : {v : View} → v ≡ record { queues = λ side. []; last_price = 0 } → Traded [] v
  move :
      {rs : List Request} {v v' : View} (r : Request)
      → Traded rs v
      → Move r v v'
      → Traded (r ∷ rs) v'

-- What is kept along the way.
record IsSimulated (rs : List Request) (b : PriceLevelOrderBook) : Type 0 where
  well_formed : IsWellFormed b
  calm : HasNoStops b
  traded : Traded rs (view b)
