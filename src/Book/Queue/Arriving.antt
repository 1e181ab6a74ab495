-- ===== src/Book/Queue/Arriving.antt =====
-- `addOrder` on a book without stop orders does to the view of the book what `arrive` says.
use quanta_trader.Common.{
  ℕ, zero, suc, ◌+◌, ◌≤◌, ◌≡◌, refl, sym, subst, ◌∙◌, inl, inr, arith, Bool, true, false, ◌&&◌, not,
  ◌==◌, Bool-cases, none, u64_max, Returns, Returns->>=, Returns-mono,
}
use quanta_trader.Common.Maps.{find}
use quanta_trader.Order.{
  Order, OrderSide, sell, buy, market, limit, set_price, is_time_in_force, ioc, fok,
}
use quanta_trader.Event.{order_deleted}
use quanta_trader.Book.State.{PriceLevelOrderBook, LevelsName, same_levels, levels_value, notify}
use quanta_trader.Book.Insert.{insert_limit_order}
use quanta_trader.Book.Remove.{levels_for}
use quanta_trader.Book.Match.{
  match_loop, match_order, add_market_order, add_limit_order, opposite, best_opposite,
}
use quanta_trader.Book.Match.FillOrKill.{can_match_order-crosses}
use quanta_trader.Book.Stops.{activate_stop_orders}
use quanta_trader.Book.Progress.{activity, IsWellFormed, IsProgress-HasRoom, HasRoom}
use quanta_trader.Book.Progress.Matching.{
  IsMatch, HasRoom-word, HasRoom-less, match_order-Returns, can_match_order-Returns,
  level_volume_pos,
}
use quanta_trader.Book.Progress.Activation.{activate_stop_orders-Settles}
use quanta_trader.Book.Queue.{queue}
use quanta_trader.Book.Queue.Arrival.{enqueue, facing}
use quanta_trader.Book.Queue.Quiet.{HasNoStops}
use quanta_trader.Book.Queue.Head.{level_cases, best_of-found}
use quanta_trader.Book.Queue.Round.{HasNoStops-next}
use quanta_trader.Book.Queue.Refinement.{
  IsFilled, fill_by, match_loop_refines, unmatched_fill, both,
}
use quanta_trader.Book.Queue.Unmet.{queue_kept}
use quanta_trader.Book.Queue.Joining.{insert_limit_order-enqueues}
use quanta_trader.Book.Queue.View.{View, view, two_queues, join, arrive, may_rest, view-eq}

-- `match` implements `fill` for an order of any time in force: the check of a fill-or-kill order
-- says no only where nothing would be matched.
match_order-IsFilled :
    (fuel : ℕ) (o : Order) (b : PriceLevelOrderBook)
    → IsWellFormed b
    → HasNoStops b
    → HasRoom o.open_quantity b
    → activity b + 4 ≤ fuel
    → Returns (match_order (activate_stop_orders fuel) fuel o b) (IsFilled o.side b (fill_by o b))
unfolding match_order match_loop
match_order-IsFilled zero o b w calm room enough = absurd (omega arith)
match_order-IsFilled (suc n) o b w calm room enough =
    let loop = match_loop_refines (suc n) o b w calm room enough in
    elim (Bool-cases (is_time_in_force o.time_in_force fok)) [
      | inr other ↦ rw (other, match_order) loop
      | inl kills ↦ elim (level_cases o b) [
        | inl (over, cases) ↦
            let (answer, e) = can_match_order-Returns o b w (HasRoom-word o.open_quantity b room) in
            elim (Bool-cases answer) [
              | inl good ↦ rw (kills, match_order) (rw e (rw good loop))
              | inr bad ↦ rw (kills, match_order) (rw e (rw bad (unmatched_fill o b w cases)))
            ]
        | inr (p, level, goes) ↦
            let k = opposite o.side in
            let found = best_of-found o.side (b.levels k) (p, level) goes.best (w.ascending k) in
            let e =
              can_match_order-crosses o b (record { levels = k; price = p }) level
                (rw (goes.best, best_opposite)) (rw found)
                (level_volume_pos b o.side p level w found) (HasRoom-word o.open_quantity b room) in
            rw (kills, match_order) (rw (e, goes.accepted) loop)
      ]
    ]

facing-other : (side : OrderSide) → same_levels (opposite (facing side)) (opposite side) ≡ false
facing-other sell = refl
facing-other buy = refl

and_assoc : (x y z : Bool) → (x && y && z) ≡ (x && (y && z))
and_assoc true y z = refl
and_assoc false y z = refl

limit_light :
    (k : LevelsName) (side : OrderSide)
    → 2 ≤ levels_value k
    → same_levels k (levels_for limit side) ≡ false
limit_light k side h = ground arith

module _ (fuel : ℕ) (o : Order) (b : PriceLevelOrderBook) (w : IsWellFormed b) (calm : HasNoStops b)
    (room : HasRoom o.open_quantity b) (enough : activity b + 4 ≤ fuel) where
  -- What `match` returns.
  abbrev IsMatched : Order × PriceLevelOrderBook → Type 0
  IsMatched t = IsMatch o b t.0 t.1 × IsFilled o.side b (fill_by o b) t

  match_order-IsMatched : Returns (match_order (activate_stop_orders fuel) fuel o b) IsMatched
  match_order-IsMatched =
      let nested = activate_stop_orders-Settles fuel (activity b) (omega arith) in
      both (λ t. IsMatch o b t.0 t.1) (IsFilled o.side b (fill_by o b))
        (match_order (activate_stop_orders fuel) fuel o b)
        (Returns-mono _ (match_order (activate_stop_orders fuel) fuel o b)
          (match_order-Returns nested fuel o b w (omega arith) room (omega arith))
          (λ t (m, over). m))
        (match_order-IsFilled fuel o b w calm room enough)

  unmet :
      (t : Order × PriceLevelOrderBook)
      → IsMatched t
      → queue (facing o.side) t.1 ≡ queue (facing o.side) b
  unmet t (m, f) =
      queue_kept b t.1 m.progress.shrinks (facing o.side) w m.well_formed
        (f.others_kept (opposite (facing o.side)) (facing-other o.side))

  -- The view once `rests` says whether what is left of the order joins the queue of its side.
  abbrev arrived : Bool → View
  arrived rests =
      let f = fill_by o b in
      record {
        queues = two_queues o.side f.rest (join rests o f.open_quantity (queue (facing o.side) b));
        last_price = f.last_price;
      }

  abbrev IsArrived : Bool → PriceLevelOrderBook → Type 0
  IsArrived rests b' = HasNoStops b' × (view b' ≡ arrived rests)

  -- The order leaves.
  view-leaves :
      (t : Order × PriceLevelOrderBook)
      → IsMatched t
      → HasNoStops (notify (order_deleted t.0) t.1)
        × (view (notify (order_deleted t.0) t.1) ≡ record {
          queues = two_queues o.side (fill_by o b).rest (queue (facing o.side) b);
          last_price = (fill_by o b).last_price;
        })
  view-leaves t (m, f) =
      let calm' = HasNoStops-next o.side b t.1 calm f.others_kept in
      (
        record { no_stops = calm'.no_stops },
        view-eq o.side (notify (order_deleted t.0) t.1) (fill_by o b).rest (queue (facing o.side) b)
            (fill_by o b).last_price f.same_queue (unmet t (m, f)) f.same_price,
      )

  -- Nothing is left of the order, or it may not rest.
  leaves :
      (rests : Bool) (t : Order × PriceLevelOrderBook)
      → IsMatched t
      → (not ((fill_by o b).open_quantity == 0) && rests) ≡ false
      → IsArrived rests (notify (order_deleted t.0) t.1)
  leaves rests t matched over = let (calm', e) = view-leaves t matched in (calm', rw over e)

  -- What is left of the order joins the queue of its side.
  stays :
      (rests : Bool) (t : Order × PriceLevelOrderBook)
      → find o.id b.orders ≡ none
      → o.symbol_id ≡ b.symbol_id
      → IsMatched t
      → (not ((fill_by o b).open_quantity == 0) && rests) ≡ true
      → Returns (insert_limit_order t.0 t.1) (IsArrived rests)
  stays rests (o', b') absent symbol (m, f) goes =
      let s = m.same_order in
      let absent' : find o'.id b'.orders ≡ none =
        subst (λ i. find i b'.orders ≡ none) (sym s.same_id) (m.progress.none_new o.id absent) in
      let calm' = HasNoStops-next o.side b b' calm f.others_kept in
      Returns-mono (IsArrived rests) (insert_limit_order o' b')
        (insert_limit_order-enqueues o' b' m.well_formed absent'
          (HasRoom-less s.no_more (IsProgress-HasRoom o.open_quantity m.progress room))
          (s.same_symbol ∙ symbol ∙ sym m.progress.same_symbol))
        λ b₁ j.
          let met = subst (λ x. queue x b₁ ≡ queue x b') s.same_side j.other_queue ∙ f.same_queue in
          let joined =
            subst
              (λ x.
                queue (facing x) b₁
                ≡ enqueue (facing x)
                    (record { id = o'.id; price = o'.price; open_quantity = o'.open_quantity })
                    (queue (facing x) b'))
              s.same_side j.joined_queue in
          (
            record {
              no_stops =
                  λ k stops. j.others_kept k (limit_light k o'.side stops) ∙ calm'.no_stops k stops;
            },
            view-eq o.side b₁ (fill_by o b).rest
                (join rests o (fill_by o b).open_quantity (queue (facing o.side) b))
                (fill_by o b).last_price met
                (rw goes
                  (joined ∙ rw (s.same_id, s.same_price, f.same_open, unmet (o', b') (m, f))))
                (j.same_price ∙ f.same_price),
          )

  -- The test of `addLimitOrder`.
  rests_test :
      (t : Order × PriceLevelOrderBook)
      → IsMatched t
      → (not (t.0.open_quantity == 0)
          && not (is_time_in_force t.0.time_in_force ioc)
          && not (is_time_in_force t.0.time_in_force fok))
        ≡ (not ((fill_by o b).open_quantity == 0) && may_rest limit o)
  rests_test t (m, f) =
      rw (m.same_order.same_time_in_force, f.same_open)
        (and_assoc (not ((fill_by o b).open_quantity == 0))
          (not (is_time_in_force o.time_in_force ioc)) (not (is_time_in_force o.time_in_force fok)))

  add_limit_order-IsArrived :
      find o.id b.orders ≡ none
      → o.symbol_id ≡ b.symbol_id
      → Returns
          (add_limit_order (activate_stop_orders fuel) fuel o b)
          (IsArrived (may_rest limit o))
  unfolding add_limit_order
  add_limit_order-IsArrived absent symbol =
      let rests = may_rest limit o in
      Returns->>= (IsArrived rests) (match_order (activate_stop_orders fuel) fuel o b) _
        match_order-IsMatched
        λ t (m, f).
          let test = rests_test t (m, f) in
          elim (Bool-cases (not ((fill_by o b).open_quantity == 0) && rests)) [
            | inl goes ↦ rw (test ∙ goes) (stays rests t absent symbol (m, f) goes)
            | inr over ↦ rw (test ∙ over) (leaves rests t (m, f) over)
          ]

and_false : (x : Bool) → (x && false) ≡ false
and_false true = refl
and_false false = refl

module _ (fuel : ℕ) (o : Order) (b : PriceLevelOrderBook) (w : IsWellFormed b) (calm : HasNoStops b)
    (room : HasRoom o.open_quantity b) (enough : activity b + 4 ≤ fuel) where
  -- The book has no stop orders, and shows what `arrive` says.
  abbrev pub ShowsArrival : PriceLevelOrderBook → Type 0
  ShowsArrival b' = HasNoStops b' × (view b' ≡ arrive o (view b))

  pub add_limit_order-ShowsArrival :
      find o.id b.orders ≡ none
      → o.symbol_id ≡ b.symbol_id
      → o.type ≡ limit
      → Returns (add_limit_order (activate_stop_orders fuel) fuel o b) ShowsArrival
  unfolding arrive
  add_limit_order-ShowsArrival absent symbol limited =
      Returns-mono ShowsArrival (add_limit_order (activate_stop_orders fuel) fuel o b)
        (add_limit_order-IsArrived fuel o b w calm room enough absent symbol)
        (λ b' (calm', e). (calm', e ∙ rw limited))

  pub add_market_order-ShowsArrival :
      o.type ≡ market → Returns (add_market_order (activate_stop_orders fuel) fuel o b) ShowsArrival
  unfolding arrive add_market_order
  add_market_order-ShowsArrival any_price =
      let priced : Order = set_price (elim o.side [ sell ↦ 0 | buy ↦ u64_max ]) o in
      Returns->>= ShowsArrival (match_order (activate_stop_orders fuel) fuel priced b) _
        (match_order-IsMatched fuel priced b w calm room enough)
        λ t matched.
          let (calm', e) = view-leaves fuel priced b w calm room enough t matched in
          (calm', e ∙ rw (any_price, and_false (not ((fill_by priced b).open_quantity == 0))))
