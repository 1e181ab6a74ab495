-- ===== src/Book/Progress/Activation/Trigger.antt =====
-- One stop order that is set off.
use quanta_trader.Common.{
  ℕ, ◌+◌, ◌<◌, ◌≤◌, ◌≡◌, ◌⊎◌, refl, sym, subst, ◌∙◌, ap, inl, inr, arith, true, false, ◌==◌, ==-eq,
  ◌||◌, Bool-cases, none, some, Outcome, Returns, Returns->>=, Returns-mono,
}
use quanta_trader.Common.Maps.{find}
use quanta_trader.Order.{Order, OrderType, OrderSide, market, limit, stop, trailing_stop, is_type}
use quanta_trader.Level
use quanta_trader.Level.{Level, linked}
use quanta_trader.Event.{order_updated}
use quanta_trader.Book.State.{
  PriceLevelOrderBook, LevelsName, OrderWithLevelIterator, notify, levels_value,
}
use quanta_trader.Book.Remove.{levels_for, delete_order}
use quanta_trader.Book.Match.{add_market_order, add_limit_order}
use quanta_trader.Book.Stops.{triggered_order, add_triggered, activate_stop_order, activate_front}
use quanta_trader.Book.Sound.{open_of}
use quanta_trader.Book.Progress.{activity, type_weight, weight, IsWellFormed, IsProgress, HasRoom}
use quanta_trader.Book.Progress.Matching.{
  Settles, delete_order-Returns, IsAdded, add_market_order-Returns, add_limit_order-Returns,
  first-linked,
}

-- An order that is set off keeps its id, symbol and open quantity, and is a market or limit order.
abbrev IsPlain : Order → Order → Type 0
IsPlain o p =
    (p.id ≡ o.id)
    × (p.open_quantity ≡ o.open_quantity)
    × (p.symbol_id ≡ o.symbol_id)
    × ((p.type ≡ market) ⊎ (p.type ≡ limit))

triggered_order-IsPlain : (o : Order) → IsPlain o (triggered_order o)
unfolding triggered_order
triggered_order-IsPlain o =
    elim (Bool-cases (is_type o.type stop || is_type o.type trailing_stop)) [
      | inl markets ↦ rw markets (refl, refl, refl, inl refl)
      | inr limits ↦ rw limits (refl, refl, refl, inr refl)
    ]

IsAdded-as :
    (o p : Order) (b b' : PriceLevelOrderBook)
    → IsPlain o p
    → IsAdded p (notify (order_updated p) b) b'
    → IsAdded o b b'
unfolding activity
IsAdded-as o p b b' (same, opens, _, _) a = record {
  well_formed = a.well_formed;
  same_symbol = a.same_symbol;
  none_other = λ j ne h. a.none_other j (subst (λ i. (j == i) ≡ false) (sym same) ne) h;
  others_shrink = λ j ne. a.others_shrink j (subst (λ i. (j == i) ≡ false) (sym same) ne);
  no_more =
      subst (λ i. open_of (find i b'.orders) ≤ o.open_quantity) same
        (omega (arith, a.no_more, opens));
  one_more = a.one_more;
}

module _ {bound : ℕ} {activate : PriceLevelOrderBook → Outcome PriceLevelOrderBook}
    (nested : Settles bound activate) (fuel : ℕ) where
  module _ (o : Order) (b : PriceLevelOrderBook) (w : IsWellFormed b) (small : activity b ≤ bound)
      (room : HasRoom o.open_quantity b) (enough : activity b + 1 < fuel)
      (absent : find o.id b.orders ≡ none) (symbol : o.symbol_id ≡ b.symbol_id) where
    -- An order that is set off is added as a market or limit order.
    pub add_triggered-Returns : Returns (add_triggered activate fuel o b) (IsAdded o b)
    unfolding add_triggered activity
    add_triggered-Returns =
        let p = triggered_order o in
        let b' = notify (order_updated p) b in
        let (same, opens, symbols, kind) = triggered_order-IsPlain o in
        let plain = triggered_order-IsPlain o in
        let w' : IsWellFormed b' = record {
          sound = w.sound;
          ascending = w.ascending;
          uncrossed = w.uncrossed;
          live = w.live;
        } in
        let room' : HasRoom p.open_quantity b' = record {
          room = λ is d. omega (arith, room.room is d, opens);
        } in
        let absent' : find p.id b'.orders ≡ none =
          subst (λ i. find i b.orders ≡ none) (sym same) absent in
        elim kind [
          | inl markets ↦
              let t : is_type p.type market ≡ true = rw markets in
              rw t (
                Returns-mono (IsAdded o b) (add_market_order activate fuel p b')
                  (add_market_order-Returns nested fuel p b' w' small room' enough absent')
                  (λ b₂ a. IsAdded-as o p b b₂ plain a))
          | inr limits ↦
              let t : is_type p.type market ≡ false = rw limits in
              rw t (
                Returns-mono (IsAdded o b) (add_limit_order activate fuel p b')
                  (add_limit_order-Returns nested fuel p b' w' small room' enough absent' limits
                    (symbols ∙ symbol))
                  (λ b₂ a. IsAdded-as o p b b₂ plain a))
        ]

  -- What the activation of a stop order leaves.
  abbrev pub IsCalmer : PriceLevelOrderBook → PriceLevelOrderBook → Type 0
  IsCalmer b b' = IsWellFormed b' × IsProgress b b' × (activity b' < activity b)

  module _ (b : PriceLevelOrderBook) (w : IsWellFormed b) (small : activity b ≤ bound)
      (enough : activity b + 1 < fuel) (i : ℕ) (e : OrderWithLevelIterator)
      (stored : find i b.orders ≡ some e) (heavy : type_weight e.order.type ≡ 2) where
    replaced :
        (b₁ b₂ : PriceLevelOrderBook)
        → e.order.id ≡ i
        → IsProgress b b₁
        → activity b₁ + weight e ≤ activity b
        → IsAdded e.order b₁ b₂
        → IsCalmer b b₂
    replaced b₁ b₂ named p calm a = (
      a.well_formed,
      record {
        same_symbol = a.same_symbol ∙ p.same_symbol;
        none_new = λ j h. elim (Bool-cases (j == e.order.id)) [
          | inl same ↦ absurd (ground (arith, ==-eq j e.order.id same))
          | inr ne ↦ a.none_other j ne (p.none_new j h)
        ];
        shrinks = λ j. elim (Bool-cases (j == e.order.id)) [
          | inl same ↦
              let s : open_of (find e.order.id b.orders) ≡ e.order.open_quantity =
                subst (λ x. open_of (find x b.orders) ≡ e.order.open_quantity) (sym named)
                  (ap open_of stored) in
              rw (==-eq j e.order.id same) (omega (arith, a.no_more))
          | inr ne ↦ omega (arith, a.others_shrink j ne, p.shrinks j)
        ];
        calmer = omega (arith, a.one_more);
      },
      omega (arith, a.one_more),
    )

    -- `activateStopOrder` returns, and lowers the activity.
    pub activate_stop_order-Returns :
        Returns (activate_stop_order activate fuel e.order b) (IsCalmer b)
    unfolding activate_stop_order
    activate_stop_order-Returns =
        let f = w.sound.filed i e stored in
        let here : find e.order.id b.orders ≡ some e =
          subst (λ x. find x b.orders ≡ some e) (sym f.same_id) stored in
        Returns->>= (IsCalmer b) (delete_order activate e.order.id b) _
          (delete_order-Returns nested b w.sound w.ascending w.uncrossed e.order.id e here
            (λ j g h ne. w.live j g h) small)
          λ b₁ (w₁, p, gone, calm, room).
            Returns-mono (IsCalmer b) (add_triggered activate fuel e.order b₁)
              (add_triggered-Returns e.order b₁ w₁ (omega (arith, p.calmer)) room
                (omega (arith, p.calmer)) gone (f.same_symbol ∙ sym p.same_symbol))
              (λ b₂ a. replaced b₁ b₂ f.same_id p calm a)

  heavy_levels :
      (t : OrderType) (s : OrderSide) (k : LevelsName)
      → levels_for t s ≡ k
      → 2 ≤ levels_value k
      → type_weight t ≡ 2
  heavy_levels t s k h l = ground arith

  -- The body of the loops over a map of stop orders returns, and lowers the activity.
  pub activate_front-Returns :
      (k : LevelsName) (p : ℕ) (level : Level) (b : PriceLevelOrderBook)
      → IsWellFormed b
      → activity b ≤ bound
      → activity b + 1 < fuel
      → 2 ≤ levels_value k
      → find p (b.levels k) ≡ some level
      → Returns (activate_front activate fuel (record { levels = k; price = p }) b) (IsCalmer b)
  unfolding activate_front Level.front
  activate_front-Returns k p level b w small enough stops found =
      let s = w.sound.stocked k p level found in
      let (i, head, link) = first-linked level.orders s.nonempty in
      let (e, stored, x, y, _) = w.sound.member k p level i found link in
      let heavy =
        heavy_levels e.order.type e.order.side k ((w.sound.filed i e stored).right_levels ∙ x)
          stops in
      rw (found, s.nonempty, head, stored)
        (activate_stop_order-Returns b w small enough i e stored heavy)
