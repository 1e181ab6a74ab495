-- ===== src/Book/Operations/Total.antt =====
-- The order book's operations return, on books that their earlier calls can leave.
use quanta_trader.Common.{
  ℕ, ◌+◌, ◌≤◌, ◌≡◌, refl, ◌∙◌, ap, inl, inr, arith, if◌then◌else◌, Bool-cases, none, some, Outcome,
  Returns, Returns->>=, Returns-mono,
}
use quanta_trader.Common.Maps.{find}
use quanta_trader.Order.{
  Order, OrderType, market, limit, stop, stop_limit, trailing_stop, trailing_stop_limit,
  set_stop_price,
}
use quanta_trader.Event.{order_added}
use quanta_trader.Book.State.{PriceLevelOrderBook, OrderWithLevelIterator, notify}
use quanta_trader.Book.Prices.{triggered, market_price, calculate_stop_price}
use quanta_trader.Book.Insert.{insert_stop_order, insert_trailing_stop_order}
use quanta_trader.Book.Remove
use quanta_trader.Book.Remove.{levels_for}
use quanta_trader.Book.Match.{add_market_order, add_limit_order}
use quanta_trader.Book.Stops.{activate_stop_orders, add_stop_order, add_triggered, is_trailing}
use quanta_trader.Book.Operations.{add_order, add_by_type, delete_order}
use quanta_trader.Book.Progress.{
  activity, activity-notify, type_weight, IsWellFormed, IsProgress, HasRoom, IsGood,
}
use quanta_trader.Book.Operations.Accepted.{IsAccepted, added-IsAccepted, rests-Returns}
use quanta_trader.Book.Progress.Matching.{
  Settles, delete_order-Returns, IsAdded, add_market_order-Returns, add_limit_order-Returns,
}
use quanta_trader.Book.Progress.Activation.{add_triggered-Returns, activate_stop_orders-Settles}

-- `fuel` is enough for a book of the activity: each nested call and each round takes one.
abbrev pub HasFuel : ℕ → PriceLevelOrderBook → Type 0
HasFuel fuel b = activity b + 5 ≤ fuel

module _ (fuel : ℕ) (b : PriceLevelOrderBook) (w : IsWellFormed b) (enough : HasFuel fuel b) where
  settled :
      (b' : PriceLevelOrderBook)
      → IsWellFormed b'
      → activity b' ≤ activity b + 2
      → IsGood b' (activate_stop_orders fuel b')
  settled b' w' h =
      (activate_stop_orders-Settles fuel (activity b + 3) (omega arith)).settles b' w' (omega arith)

  nested : Settles (activity b) (activate_stop_orders fuel)
  nested = activate_stop_orders-Settles fuel (activity b) (omega arith)

  -- With enough fuel, `activateStopOrders` returns on a well-formed book, and leaves a well-formed
  -- book with no new order, no order with more left open, and no more activity.
  pub activate_stop_orders_total : IsGood b (activate_stop_orders fuel b)
  activate_stop_orders_total = settled b w (omega arith)

  -- With enough fuel, deleting an order that a well-formed book has returns a well-formed book that does not have the
  -- order, and in which no order is new and none has more left open.
  pub delete_order_total :
      (i : ℕ) (e : OrderWithLevelIterator)
      → find i b.orders ≡ some e
      → Returns
          (delete_order fuel i b)
          (λ b'. IsWellFormed b' × (find i b'.orders ≡ none) × IsProgress b b')
  unfolding delete_order
  delete_order_total i e stored =
      Returns-mono (λ b'. IsWellFormed b' × (find i b'.orders ≡ none) × IsProgress b b')
        (Remove.delete_order (activate_stop_orders fuel) i b)
        (delete_order-Returns nested b w.sound w.ascending w.uncrossed i e stored
          (λ j f h ne. w.live j f h) (omega arith))
        (λ b' (w', p, gone, _, _). (w', gone, p))

  module _ (o : Order) (absent : find o.id b.orders ≡ none) (symbol : o.symbol_id ≡ b.symbol_id)
      (room : HasRoom o.open_quantity b) where
    -- `addStopOrder` once the stop price is known.
    priced_stop-Returns :
        type_weight o.type ≡ 2
        → Returns
            (if triggered o.side (market_price o.side b) o.stop_price
              then add_triggered (activate_stop_orders fuel) fuel o b
              else if is_trailing o
              then insert_trailing_stop_order o b
              else insert_stop_order o b)
            (IsAccepted o.id o.open_quantity b)
    priced_stop-Returns heavy =
        elim (Bool-cases (triggered o.side (market_price o.side b) o.stop_price)) [
          | inl goes ↦ rw goes (
              Returns-mono (IsAccepted o.id o.open_quantity b)
                (add_triggered (activate_stop_orders fuel) fuel o b)
                (add_triggered-Returns nested fuel o b w (omega arith) room (omega arith) absent
                  symbol)
                (λ b' a. added-IsAccepted o a))
          | inr waits ↦ rw waits (rests-Returns o b w room absent symbol heavy)
        ]

  module _ (o : Order) (absent : find o.id b.orders ≡ none) (symbol : o.symbol_id ≡ b.symbol_id)
      (room : HasRoom o.open_quantity b) where
    add_stop_order-Returns :
        type_weight o.type ≡ 2
        → Returns
            (add_stop_order (activate_stop_orders fuel) fuel o b)
            (IsAccepted o.id o.open_quantity b)
    unfolding add_stop_order calculate_stop_price
    add_stop_order-Returns heavy = elim (Bool-cases (is_trailing o)) [
      | inl trailing ↦ rw trailing (
          priced_stop-Returns (set_stop_price (calculate_stop_price o b).0 o) absent symbol room
            heavy)
      | inr plain ↦ rw plain (priced_stop-Returns o absent symbol room heavy)
    ]

    -- The market and limit branches of `addOrder`.
    plain_added :
        (m : Outcome PriceLevelOrderBook)
        → Returns m (IsAdded o b)
        → Returns m (IsAccepted o.id o.open_quantity b)
    plain_added m r =
        Returns-mono (IsAccepted o.id o.open_quantity b) m r (λ b' a. added-IsAccepted o a)

    add_by_type-Returns :
        (t : OrderType)
        → o.type ≡ t
        → Returns (add_by_type fuel t o b) (IsAccepted o.id o.open_quantity b)
    unfolding add_by_type
    add_by_type-Returns market e =
        plain_added (add_market_order (activate_stop_orders fuel) fuel o b)
          (add_market_order-Returns nested fuel o b w (omega arith) room (omega arith) absent)
    add_by_type-Returns limit e =
        plain_added (add_limit_order (activate_stop_orders fuel) fuel o b) (
          add_limit_order-Returns nested fuel o b w (omega arith) room (omega arith) absent e
            symbol)
    add_by_type-Returns stop e = add_stop_order-Returns (ap type_weight e)
    add_by_type-Returns stop_limit e = add_stop_order-Returns (ap type_weight e)
    add_by_type-Returns trailing_stop e = add_stop_order-Returns (ap type_weight e)
    add_by_type-Returns trailing_stop_limit e = add_stop_order-Returns (ap type_weight e)

    IsAccepted-on :
        (b₁ b₂ : PriceLevelOrderBook)
        → IsAccepted o.id o.open_quantity b b₁
        → IsWellFormed b₂
        → IsProgress b₁ b₂
        → IsAccepted o.id o.open_quantity b b₂
    IsAccepted-on b₁ b₂ a w₂ p = record {
      well_formed = w₂;
      same_symbol = p.same_symbol ∙ a.same_symbol;
      none_other = λ j ne h. p.none_new j (a.none_other j ne h);
      others_shrink = λ j ne. omega (arith, p.shrinks j, a.others_shrink j ne);
      no_more = omega (arith, p.shrinks o.id, a.no_more);
      two_more = omega (arith, p.calmer, a.two_more);
    }

added_event :
    (o : Order) (b b' : PriceLevelOrderBook)
    → IsAccepted o.id o.open_quantity (notify (order_added o) b) b'
    → IsAccepted o.id o.open_quantity b b'
added_event o b b' a = record {
  well_formed = a.well_formed;
  same_symbol = a.same_symbol;
  none_other = a.none_other;
  others_shrink = a.others_shrink;
  no_more = a.no_more;
  two_more = omega (arith, a.two_more, activity-notify (order_added o) b);
}

pub notify-IsWellFormed :
    (o : Order) (b : PriceLevelOrderBook) → IsWellFormed b → IsWellFormed (notify (order_added o) b)
notify-IsWellFormed o b w = record {
  sound = w.sound;
  ascending = w.ascending;
  uncrossed = w.uncrossed;
  live = w.live;
}

-- With enough fuel, adding an order of any type to a well-formed book returns a well-formed book, if
-- the order's id is not in the book, its symbol is the book's and its open quantity fits beside what
-- is open; only that order may be new, with no more left open than it came with, and no other order
-- has more.
pub add_order_total :
    (fuel : ℕ) (o : Order) (b : PriceLevelOrderBook)
    → IsWellFormed b
    → HasFuel fuel b
    → find o.id b.orders ≡ none
    → o.symbol_id ≡ b.symbol_id
    → HasRoom o.open_quantity b
    → Returns (add_order fuel o b) (IsAccepted o.id o.open_quantity b)
unfolding add_order
add_order_total fuel o b w enough absent symbol room =
    let b₀ = notify (order_added o) b in
    let same = activity-notify (order_added o) b in
    let enough₀ : HasFuel fuel b₀ = omega (arith, same) in
    let w₀ = notify-IsWellFormed o b w in
    let room₀ : HasRoom o.open_quantity b₀ = record { room = room.room } in
    Returns->>= (IsAccepted o.id o.open_quantity b) (add_by_type fuel o.type o b₀) _
      (add_by_type-Returns fuel b₀ w₀ enough₀ o absent symbol room₀ o.type refl)
      λ b₁ a.
        let a₁ = added_event o b b₁ a in
        Returns-mono (IsAccepted o.id o.open_quantity b) (activate_stop_orders fuel b₁)
          (settled fuel b₀ w₀ enough₀ b₁ a₁.well_formed (omega (arith, a.two_more, same)))
          (λ b₂ (w₂, p).
            added_event o b b₂
              (IsAccepted-on fuel b₀ w₀ enough₀ o absent symbol room₀ b₁ b₂ a w₂ p))
