-- ===== src/Book/Progress/Matching/Adding.antt =====
-- `match`, `addMarketOrder` and `addLimitOrder` on a well-formed book.
use quanta_trader.Common.{
  ◌⊎◌, true, ℕ, ◌+◌, ◌<◌, ◌≤◌, ◌≡◌, refl, sym, subst, ◌∙◌, ap, inl, inr, arith, Bool, false, ◌==◌,
  Bool-cases, Option-cases, none, some, u64_mod, u64_max, Outcome, done, Returns, Returns->>=,
  Returns-mono,
}
use quanta_trader.Common.Maps.{find}
use quanta_trader.Order.{Order, OrderSide, sell, buy, limit, set_price, is_time_in_force, fok, ioc}
use quanta_trader.Level.{Level}
use quanta_trader.Event.{order_deleted}
use quanta_trader.Book.State.{PriceLevelOrderBook, LevelIterator, sell_levels, buy_levels, notify}
use quanta_trader.Book.Insert.{insert_limit_order, insert_at}
use quanta_trader.Book.Remove.{levels_for}
use quanta_trader.Book.Match.{
  matching_level, match_loop, match_order, can_match_order, opposite, best_of, best_opposite,
  crosses, add_market_order, add_limit_order,
}
use quanta_trader.Book.Match.FillOrKill.{can_match_order-crosses}
use quanta_trader.Book.Sound.{price_by, open_of, open-le-total}
use quanta_trader.Book.Progress.{
  orders_of, activity, type_weight, IsWellFormed, IsProgress, HasRoom, IsProgress-HasRoom,
}
use quanta_trader.Book.Progress.Insertion.{insert_at-Returns}
use quanta_trader.Book.Progress.Matching.Apart.{matching_level-IsApart}
use quanta_trader.Book.Progress.Matching.Contract.{Settles}
use quanta_trader.Book.Progress.Matching.Loop.{
  IsMatch, IsMatch-refl, match_loop-Returns, best_of-find, first-linked, light_opposite,
  HasRoom-word, HasRoom-less,
}

-- A level on which orders of a side rest has a volume.
pub level_volume_pos :
    (b : PriceLevelOrderBook) (s : OrderSide) (p : ℕ) (level : Level)
    → IsWellFormed b
    → find p (b.levels (opposite s)) ≡ some level
    → 0 < level.volume
level_volume_pos b s p level w found =
    let stock = w.sound.stocked (opposite s) p level found in
    let (i, _, link) = first-linked level.orders stock.nonempty in
    let (e, stored, x, _, _) = w.sound.member (opposite s) p level i found link in
    let light =
      light_opposite e.order.type e.order.side s ((w.sound.filed i e stored).right_levels ∙ x) in
    let o : open_of (find i b.orders) ≡ e.order.open_quantity = ap open_of stored in
    omega (
      arith,
      w.sound.volume (opposite s) p level found,
      open-le-total (orders_of b) i level.orders link,
      w.live i e stored light,
    )

-- The check of a fill-or-kill order returns.
pub can_match_order-Returns :
    (o : Order) (b : PriceLevelOrderBook)
    → IsWellFormed b
    → o.open_quantity < u64_mod
    → (answer : Bool) × (can_match_order o b ≡ done answer)
unfolding can_match_order
can_match_order-Returns o b w word =
    elim (Option-cases (best_of o.side (b.levels (opposite o.side)))) [
      | inl empty ↦ (false, rw (empty, can_match_order, best_opposite))
      | inr (x, best) ↦
          let (l, found) = best_of-find o.side (b.levels (opposite o.side)) x best in
          let it : LevelIterator = record { levels = opposite o.side; price = x.0 } in
          (
            crosses o.side o.price x.0,
            can_match_order-crosses o b it l (rw (best, best_opposite)) (rw found)
                (level_volume_pos b o.side x.0 l w found) word,
          )
    ]

module _ {bound : ℕ} {activate : PriceLevelOrderBook → Outcome PriceLevelOrderBook}
    (nested : Settles bound activate) (fuel : ℕ) (o : Order) (b : PriceLevelOrderBook)
    (w : IsWellFormed b) (small : activity b ≤ bound) (room : HasRoom o.open_quantity b)
    (enough : activity b + 1 < fuel) where
  abbrev Match : Order × PriceLevelOrderBook → Type 0
  Match t =
      IsMatch o b t.0 t.1
      × ((is_time_in_force o.time_in_force fok ≡ true) ⊎ (matching_level t.0 t.1 ≡ none))

  loop-Returns : Returns (match_loop activate fuel o b) Match
  loop-Returns =
      Returns-mono Match (match_loop activate fuel o b)
        (match_loop-Returns nested fuel o b w small room (inr enough))
        (λ t (m, over). (m, inr over))

  -- `match` returns.
  pub match_order-Returns : Returns (match_order activate fuel o b) Match
  unfolding match_order
  match_order-Returns = elim (Bool-cases (is_time_in_force o.time_in_force fok)) [
    | inr other ↦ rw (other, match_order) loop-Returns
    | inl kills ↦
        let (answer, e) = can_match_order-Returns o b w (HasRoom-word o.open_quantity b room) in
        elim (Bool-cases answer) [
          | inl good ↦ rw (kills, match_order) (rw e (rw good loop-Returns))
          | inr bad ↦ rw (kills, match_order) (rw e (rw bad (IsMatch-refl o b w, inl kills)))
        ]
  ]

-- What adding an order leaves: a well-formed book in which only that order may be new.
pub record IsAdded (o : Order) (b b' : PriceLevelOrderBook) : Type 0 where
  pub well_formed : IsWellFormed b'
  pub same_symbol : b'.symbol_id ≡ b.symbol_id
  pub none_other : (j : ℕ) → (j == o.id) ≡ false → find j b.orders ≡ none → find j b'.orders ≡ none
  pub others_shrink :
      (j : ℕ) → (j == o.id) ≡ false → open_of (find j b'.orders) ≤ open_of (find j b.orders)
  pub no_more : open_of (find o.id b'.orders) ≤ o.open_quantity
  pub one_more : activity b' ≤ activity b + 1

IsAdded-deleted :
    (o : Order) (b : PriceLevelOrderBook)
    → find o.id b.orders ≡ none
    → (t : Order × PriceLevelOrderBook) → IsWellFormed t.1
    → IsProgress b t.1
    → IsAdded o b (notify (order_deleted t.0) t.1)
unfolding activity
IsAdded-deleted o b absent t w p = record {
  well_formed = record {
    sound = w.sound;
    ascending = w.ascending;
    uncrossed = w.uncrossed;
    live = w.live;
  };
  same_symbol = p.same_symbol;
  none_other = λ j ne h. p.none_new j h;
  others_shrink = λ j ne. p.shrinks j;
  no_more = omega (arith, ap open_of (p.none_new o.id absent));
  one_more = omega (arith, p.calmer);
}

pub insert_limit_order-at :
    (o : Order) (b : PriceLevelOrderBook)
    → insert_limit_order o b ≡ insert_at (levels_for limit o.side) o.price o b
unfolding insert_limit_order
insert_limit_order-at o b = by_side o.side
  where
    by_side :
        (s : OrderSide)
        → (elim s [
          | sell ↦ insert_at sell_levels o.price o b
          | buy ↦ insert_at buy_levels o.price o b
        ])
          ≡ insert_at (levels_for limit s) o.price o b
    by_side sell = refl
    by_side buy = refl

module _ {bound : ℕ} {activate : PriceLevelOrderBook → Outcome PriceLevelOrderBook}
    (nested : Settles bound activate) (fuel : ℕ) (o : Order) (b : PriceLevelOrderBook)
    (w : IsWellFormed b) (small : activity b ≤ bound) (room : HasRoom o.open_quantity b)
    (enough : activity b + 1 < fuel) (absent : find o.id b.orders ≡ none) where
  -- `addMarketOrder` returns.
  pub add_market_order-Returns : Returns (add_market_order activate fuel o b) (IsAdded o b)
  unfolding add_market_order
  add_market_order-Returns =
      let priced : Order = set_price (elim o.side [ sell ↦ 0 | buy ↦ u64_max ]) o in
      Returns->>= (IsAdded o b) (match_order activate fuel priced b) _
        (match_order-Returns nested fuel priced b w small room enough)
        (λ t (m, over). IsAdded-deleted o b absent t m.well_formed m.progress)

  module _ (limited : o.type ≡ limit) (symbol : o.symbol_id ≡ b.symbol_id) where
    rested :
        (o' : Order) (b' : PriceLevelOrderBook)
        → IsMatch o b o' b'
        → matching_level o' b' ≡ none
        → (o'.open_quantity == 0) ≡ false
        → Returns (insert_limit_order o' b') (IsAdded o b)
    rested o' b' m over some_open =
        let s = m.same_order in
        let typed : o'.type ≡ limit = s.same_type ∙ limited in
        let absent' : find o'.id b'.orders ≡ none =
          subst (λ i. find i b'.orders ≡ none) (sym s.same_id) (m.progress.none_new o.id absent) in
        rw (insert_limit_order-at o' b') (
          Returns-mono (IsAdded o b) (insert_at (levels_for limit o'.side) o'.price o' b')
            (insert_at-Returns (levels_for limit o'.side) o'.price o' b' m.well_formed absent'
              (HasRoom-less s.no_more (IsProgress-HasRoom o.open_quantity m.progress room))
              (record {
                same_id = refl;
                same_symbol = s.same_symbol ∙ symbol ∙ sym m.progress.same_symbol;
                right_levels = ap (λ t. levels_for t o'.side) typed;
                right_price = ap (λ t. price_by t o') typed;
              })
              (λ l. ground arith) (matching_level-IsApart o' b' m.well_formed over some_open))
            λ b₁ (w₁, sym₁, others, here, act). record {
              well_formed = w₁;
              same_symbol = sym₁ ∙ m.progress.same_symbol;
              none_other = λ j ne h.
                  others j (subst (λ i. (j == i) ≡ false) (sym s.same_id) ne)
                  ∙ m.progress.none_new j h;
              others_shrink = λ j ne. omega (
                arith,
                ap open_of (others j (subst (λ i. (j == i) ≡ false) (sym s.same_id) ne)),
                m.progress.shrinks j,
              );
              no_more =
                  subst (λ i. open_of (find i b₁.orders) ≤ o.open_quantity) s.same_id
                    (omega (arith, here, s.no_more));
              one_more = omega (arith, act, m.progress.calmer, ap type_weight typed);
            })

    unkilled :
        (o' : Order) (b' : PriceLevelOrderBook)
        → IsMatch o b o' b'
        → (is_time_in_force o.time_in_force fok ≡ true) ⊎ (matching_level o' b' ≡ none)
        → is_time_in_force o'.time_in_force fok ≡ false
        → matching_level o' b' ≡ none
    unkilled o' b' m (inr over) rests = over
    unkilled o' b' m (inl kills) rests =
        let same = ap (λ t. is_time_in_force t fok) m.same_order.same_time_in_force in
        absurd (ground arith)

    -- `addLimitOrder` returns.
    pub add_limit_order-Returns : Returns (add_limit_order activate fuel o b) (IsAdded o b)
    unfolding add_limit_order
    add_limit_order-Returns =
        Returns->>= (IsAdded o b) (match_order activate fuel o b) _
          (match_order-Returns nested fuel o b w small room enough)
          λ (o', b') (m, over). elim (Bool-cases (o'.open_quantity == 0)) [
            | inl zero_open ↦
                rw zero_open (IsAdded-deleted o b absent (o', b') m.well_formed m.progress)
            | inr some_open ↦ elim (Bool-cases (is_time_in_force o'.time_in_force ioc)) [
              | inl cancels ↦
                  rw (some_open, cancels)
                    (IsAdded-deleted o b absent (o', b') m.well_formed m.progress)
              | inr stays ↦ elim (Bool-cases (is_time_in_force o'.time_in_force fok)) [
                | inl kills ↦
                    rw (some_open, stays, kills)
                      (IsAdded-deleted o b absent (o', b') m.well_formed m.progress)
                | inr rests ↦
                    rw (some_open, stays, rests)
                      (rested o' b' m (unkilled o' b' m over rests) some_open)
              ]
            ]
          ]
