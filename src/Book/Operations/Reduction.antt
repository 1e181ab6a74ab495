-- ===== src/Book/Operations/Reduction.antt =====
-- `cancelOrder` and both versions of `executeOrder` on a book without stop orders, and the two queues
-- of `View`.
use quanta_trader.Common.{
  ℕ, zero, suc, ◌-◌, ◌≤◌, ◌≡◌, refl, ◌∙◌, ap, fun_ext, arith, true, ◌==◌, Bool-cases, inl, inr,
  ==_refl, if◌then◌else◌, some, min, sub64, done, Returns, Returns->>=, Returns-mono,
}
use quanta_trader.Common.Maps.{find, find-put}
use quanta_trader.Order.{Order, OrderSide, set_quantity, execute}
use quanta_trader.Level
use quanta_trader.Level.{Level, linked}
use quanta_trader.Event.{order_updated, order_executed}
use quanta_trader.Book.State.{PriceLevelOrderBook, OrderWithLevelIterator, put_order, notify}
use quanta_trader.Book.Remove
use quanta_trader.Book.Stops.{activate_stop_orders}
use quanta_trader.Book.Operations.{
  settle, delete_order, cancel_order, execute_order, execute_order_at,
}
use quanta_trader.Book.Operations.Total.{HasFuel}
use quanta_trader.Book.Operations.Reduce.{cancel-IsReduction, execute-IsReduction}
use quanta_trader.Book.Sound.{order_write_self}
use quanta_trader.Book.Progress.{IsWellFormed}
use quanta_trader.Book.Progress.Writes.{put-write, set_levels_self}
use quanta_trader.Book.Progress.Reduction
use quanta_trader.Book.Progress.Reduction.{IsReduction}
use quanta_trader.Book.Progress.Removal.{removed, remove_order-done}
use quanta_trader.Book.Progress.Matching.{stored_word}
use quanta_trader.Book.Queue.{queue}
use quanta_trader.Book.Queue.Amending.{amend, without-set_open, queue-settled, settled-HasNoStops}
use quanta_trader.Book.Queue.Leaving.{without}
use quanta_trader.Book.Queue.Deleting.{queue-removed, removed_price, removed-HasNoStops}
use quanta_trader.Book.Queue.Quiet.{HasNoStops, quiet, activate_stop_orders-quiet}
use quanta_trader.Book.Queue.View.{view, reduce}

module _ (fuel : ℕ) (b : PriceLevelOrderBook) (w : IsWellFormed b) (calm : HasNoStops b) (i : ℕ)
    (e : OrderWithLevelIterator) (stored : find i b.orders ≡ some e) (level : Level)
    (at_level : find e.level_it.price (b.levels e.level_it.levels) ≡ some level)
    (link : linked i level.orders ≡ true) (r' : Order) (amount : ℕ) (b' : PriceLevelOrderBook)
    (reduction : IsReduction e.order b r' amount b') where
  abbrev entry : OrderWithLevelIterator
  entry = record e { order = r' }

  abbrev settled : PriceLevelOrderBook
  settled = Reduction.settled b w i e level stored at_level r' amount b' reduction

  abbrev level' : Level
  level' = record level { volume = sub64 level.volume amount }

  settled_stored : find i settled.orders ≡ some entry
  settled_stored =
      order_write_self
        (Reduction.settled-IsOrderWrite b w i e level stored at_level r' amount b' reduction)

  settled_at : find e.level_it.price (settled.levels e.level_it.levels) ≡ some level'
  settled_at =
      let m = b'.levels e.level_it.levels in
      ap (find e.level_it.price) (set_levels_self e.level_it.levels _ b')
      ∙ find-put e.level_it.price e.level_it.price level' m
      ∙ rw ==_refl

  -- The book shows the reduced order, at the last price of `b'`.
  abbrev Shows : PriceLevelOrderBook → Type 0
  Shows b₂ =
      HasNoStops b₂
      × (view b₂
          ≡ record (reduce i r'.open_quantity (view b)) { last_price = b'.last_traded_price })

  amended :
      (b₂ : PriceLevelOrderBook)
      → ((side : OrderSide) → queue side b₂ ≡ amend i r'.open_quantity (queue side b))
      → b₂.last_traded_price ≡ b'.last_traded_price
      → view b₂ ≡ record (reduce i r'.open_quantity (view b)) { last_price = b'.last_traded_price }
  unfolding reduce
  amended b₂ queues price = λ t. record { queues = fun_ext queues t; last_price = price t }

  -- What the call of `deleteOrder` leaves, if anything is deleted.
  abbrev after : PriceLevelOrderBook
  after = removed i entry level' settled

  settled-Shows :
      Returns
        (if r'.open_quantity == 0
          then Remove.delete_order (activate_stop_orders (suc (suc fuel))) i settled
          else done settled)
        Shows
  unfolding Remove.delete_order amend
  settled-Shows =
      let calm' = settled-HasNoStops b w i e level stored at_level r' amount b' reduction calm in
      let queues = queue-settled b w i e level stored at_level r' amount b' reduction in
      let sound = Reduction.settled-IsSound b w i e level stored at_level r' amount b' reduction in
      let sorted =
        Reduction.settled-IsAscending b w i e level stored at_level r' amount b' reduction in
      let apart =
        Reduction.settled-IsUncrossed b w i e level stored at_level r' amount b' reduction in
      elim (Bool-cases (r'.open_quantity == 0)) [
        | inr some_open ↦
            rw some_open (calm', amended settled (λ side. queues side ∙ rw some_open) refl)
        | inl zero_open ↦
            let left =
              removed-HasNoStops settled sound sorted apart i entry settled_stored level' settled_at
                link calm' in
            let gone =
              queue-removed settled sound sorted apart i entry settled_stored level' settled_at
                link in
            let price =
              removed_price settled sound sorted apart i entry settled_stored level' settled_at
                link in
            rw zero_open (
              rw
                (
                  remove_order-done settled sound sorted apart i entry settled_stored level'
                      settled_at link,
                  activate_stop_orders-quiet fuel after left,
                )
                (
                  record { no_stops = left.no_stops },
                  amended (quiet after)
                      (λ side.
                        gone side
                        ∙ ap (without i) (queues side)
                        ∙ without-set_open i r'.open_quantity (queue side b)
                        ∙ rw zero_open)
                      price,
                ))
      ]

  settle-Shows : Returns (settle (suc (suc fuel)) i amount r' (put_order i entry b')) Shows
  unfolding settle delete_order Level.reduce_volume
  settle-Shows =
      let found : find i (put_order i entry b').orders ≡ some entry =
        order_write_self (put-write i entry b'.orders) in
      let at' : find e.level_it.price (b'.levels e.level_it.levels) ≡ some level =
        rw reduction.same_levels at_level in
      let fits = Reduction.settled_volume b w i e level stored at_level r' amount b' reduction in
      let settles =
        if r'.open_quantity == 0
        then Remove.delete_order (activate_stop_orders (suc (suc fuel))) i settled
        else done settled in
      rw found (
        rw at' (
          rw fits (
            Returns->>= Shows settles (activate_stop_orders (suc (suc fuel))) settled-Shows
              λ b₂ (calm', shown).
                rw (activate_stop_orders-quiet fuel b₂ calm')
                  (record { no_stops = calm'.no_stops }, shown))))

-- With enough fuel, `cancelOrder` of an order that a well-formed book without stop orders has, down
-- to at most what is open of it, returns; and what the book shows is what it showed before, but that
-- the order has the new quantity open, where it stands, or at 0 has left.
pub cancel_order_refines :
    (fuel i q : ℕ) (e : OrderWithLevelIterator) (b : PriceLevelOrderBook)
    → IsWellFormed b
    → HasNoStops b
    → HasFuel fuel b
    → find i b.orders ≡ some e
    → q ≤ e.order.open_quantity
    → Returns (cancel_order fuel i q b) (λ b'. HasNoStops b' × (view b' ≡ reduce i q (view b)))
unfolding cancel_order set_quantity linked reduce
cancel_order_refines zero i q e b w calm enough stored le = absurd (omega arith)
cancel_order_refines (suc zero) i q e b w calm enough stored le = absurd (omega arith)
cancel_order_refines (suc (suc n)) i q e b w calm enough stored le =
    let (level, at_level, link) = w.sound.placed i e stored refl in
    let r' = set_quantity q e.order in
    rw stored (
      settle-Shows n b w calm i e stored level at_level link r' (sub64 e.order.open_quantity q)
        (notify (order_updated r') b)
        (cancel-IsReduction e.order b q le (stored_word b i e w stored)))

-- With enough fuel, `executeOrder` of an order that a well-formed book without stop orders has, for
-- any quantity and at any price, returns; and what the book shows is what it showed before, but that
-- the order has so much less open, where it stands, or has left if that is all of it, and that the
-- last traded price is the given one.
pub execute_order_at_refines :
    (fuel i q price : ℕ) (e : OrderWithLevelIterator) (b : PriceLevelOrderBook)
    → IsWellFormed b
    → HasNoStops b
    → HasFuel fuel b
    → find i b.orders ≡ some e
    → Returns (execute_order_at fuel i q price b) (λ b'.
      HasNoStops b'
      × (view b' ≡ record (reduce i (e.order.open_quantity - q) (view b)) { last_price = price }))
unfolding execute_order_at execute linked reduce
execute_order_at_refines zero i q price e b w calm enough stored = absurd (omega arith)
execute_order_at_refines (suc zero) i q price e b w calm enough stored = absurd (omega arith)
execute_order_at_refines (suc (suc n)) i q price e b w calm enough stored =
    let (level, at_level, link) = w.sound.placed i e stored refl in
    let r' = execute price (min q e.order.open_quantity) e.order in
    let word = stored_word b i e w stored in
    let reduction = execute-IsReduction e.order b q price word in
    let less : r'.open_quantity ≡ e.order.open_quantity - q = omega (arith, reduction.taken) in
    rw stored (
      Returns-mono _
        (settle (suc (suc n)) i (min q e.order.open_quantity) r' (
          put_order i (record e { order = r' })
            (notify (order_executed r') (record b { last_traded_price = price }))))
        (settle-Shows n b w calm i e stored level at_level link r' (min q e.order.open_quantity)
          (notify (order_executed r') (record b { last_traded_price = price })) reduction)
        (λ b₂ (calm', shown).
          (calm', shown ∙ ap (λ x. record (reduce i x (view b)) { last_price = price }) less)))

-- The same for `executeOrder` without a price, at the order's own.
pub execute_order_refines :
    (fuel i q : ℕ) (e : OrderWithLevelIterator) (b : PriceLevelOrderBook)
    → IsWellFormed b
    → HasNoStops b
    → HasFuel fuel b
    → find i b.orders ≡ some e
    → Returns (execute_order fuel i q b) (λ b'.
      HasNoStops b'
      × (view b'
          ≡ record (reduce i (e.order.open_quantity - q) (view b)) { last_price = e.order.price }))
unfolding execute_order
execute_order_refines fuel i q e b w calm enough stored =
    rw stored (execute_order_at_refines fuel i q e.order.price e b w calm enough stored)
