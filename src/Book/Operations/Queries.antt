-- ===== src/Book/Operations/Queries.antt =====
-- The queries of the order book: on a book without stop orders they are functions of what it shows.
use mathlib.Core.Option.{some-injective}
use quanta_trader.Common.{
  ℕ, subst, ◌⊎◌, ◌≡◌, refl, sym, ◌∙◌, ap, arith, true, false, ◌&&◌, ◌||◌, if◌then◌else◌, Bool-cases,
  inl, inr, Option-cases, none, some, is_empty, u64_max, done, ◌>>=◌, deref,
}
use quanta_trader.Common.Maps.{find, contains}
use quanta_trader.Order.{OrderSide, sell, buy, market, limit}
use quanta_trader.Level
use quanta_trader.Level.{Level, linked}
use quanta_trader.Book.State.{
  PriceLevelOrderBook, OrderWithLevelIterator, LevelsName, buy_levels, sell_levels, get_best_buy,
  get_best_sell, has_order, get_order, empty,
}
use quanta_trader.Book.Match.{opposite, best_of}
use quanta_trader.Book.Sound.{open_of}
use quanta_trader.Book.Progress.{IsWellFormed, orders_of}
use quanta_trader.Book.Queue.{queue, ranked, flatten}
use quanta_trader.Book.Queue.Quiet.{HasNoStops}
use quanta_trader.Book.Queue.Levels.{AllLevels-found, AllLevels-ranked}
use quanta_trader.Book.Queue.Ranked.{best_of-IsHead}
use quanta_trader.Book.Queue.Head.{best_of-found}
use quanta_trader.Book.Queue.Lookup.{
  listed-found, lookup, listed, listed-ranked, listed-none, lookup-flatten, resting_at,
}
use quanta_trader.Book.Queue.Arrival.{facing}
use quanta_trader.Book.Queue.View.{view}
use quanta_trader.Book.Operations.Modification.{plain_type}
use quanta_trader.Book.Queue.Seen.{
  seen, best_price, is_some, shown, plain_levels, listed_either, plain_price, best_of-none,
  ranked_none, best_price-entries, seen-none, nowhere-empty, empty-seen, find-empty, some_order,
}

module _ (b : PriceLevelOrderBook) (w : IsWellFormed b) where
  module _ (i p : ℕ)
      (only : (side : OrderSide) (q : ℕ) (l : Level)
        → find q (b.levels (opposite side)) ≡ some l
        → linked i l.orders ≡ true
        → q ≡ p) where
    lookup-queue :
        (side : OrderSide)
        → lookup i (queue side b) ≡ (
            if listed i (b.levels (opposite side))
            then some (resting_at i (orders_of b) p)
            else none)
    lookup-queue side =
        let m = b.levels (opposite side) in
        let P : ℕ × Level → Type 0 = λ x. linked i x.1.orders ≡ true → x.0 ≡ p in
        lookup-flatten i (orders_of b) p (ranked side m) (
          AllLevels-ranked P side m (AllLevels-found P m (w.ascending (opposite side)) (only side)))
        ∙ ap (λ t. if t then some (resting_at i (orders_of b) p) else none) (listed-ranked i side m)

    seen-listed : seen i (view b) ≡ (
        if listed i (b.levels buy_levels) || listed i (b.levels sell_levels)
        then some (resting_at i (orders_of b) p)
        else none)
    unfolding seen
    seen-listed = ground (arith, lookup-queue sell, lookup-queue buy)

  -- A stored order is a market or limit order. It stands in the queue of its side, with its price and
  -- its open quantity, and is seen there.
  pub stored_stands :
      HasNoStops b
      → (i : ℕ) (e : OrderWithLevelIterator) → find i b.orders ≡ some e
      → ((e.order.type ≡ market) ⊎ (e.order.type ≡ limit))
        × (lookup i (queue (facing e.order.side) b) ≡ some (shown e.order))
        × (seen i (view b) ≡ some (shown e.order))
  unfolding Level.linked
  stored_stands calm i e stored =
      let filed = w.sound.filed i e stored in
      let (level, at_level, link) = w.sound.placed i e stored refl in
      let p = e.level_it.price in
      let plain =
        plain_type b calm e.order.type e.order.side p level (rw filed.right_levels at_level) in
      let own : e.level_it.levels ≡ opposite (facing e.order.side) =
        sym filed.right_levels ∙ plain_levels e.order.type e.order.side plain in
      let here : listed i (b.levels (opposite (facing e.order.side))) ≡ true =
        listed-found i p level (b.levels (opposite (facing e.order.side)))
          (subst (λ k. find p (b.levels k) ≡ some level) own at_level) link in
      let only : (side : OrderSide) (q : ℕ) (l : Level)
          → find q (b.levels (opposite side)) ≡ some l
          → linked i l.orders ≡ true
          → q ≡ p =
        λ side q l found link'.
          let (f, stored', _, y, _) = w.sound.member (opposite side) q l i found link' in
          sym (ap (λ x. x.level_it.price) (some-injective _ _ (sym stored ∙ stored')) ∙ y) in
      let priced = sym filed.right_price ∙ plain_price e.order.type e.order plain in
      let left : open_of (find i b.orders) ≡ e.order.open_quantity = rw stored in
      let as_shown : some (resting_at i (orders_of b) p) ≡ some (shown e.order) = λ t.
        some (record { id = (sym filed.same_id) t; price = priced t; open_quantity = left t }) in
      (
        plain,
        lookup-queue i p only (facing e.order.side) ∙ rw here as_shown,
        seen-listed i p only ∙ rw (listed_either i b e.order.side here) as_shown,
      )

  unlinked :
      (i : ℕ)
      → find i b.orders ≡ none
      → (k : LevelsName) (q : ℕ) (l : Level) → find q (b.levels k) ≡ some l
      → linked i l.orders ≡ false
  unlinked i missing k q l found = elim (Bool-cases (linked i l.orders)) [
    | inr free ↦ free
    | inl link ↦ let (e, stored, _, _, _) = w.sound.member k q l i found link in cc
  ]

  pub missing_seen : (i : ℕ) → find i b.orders ≡ none → seen i (view b) ≡ none
  missing_seen i missing =
      let free : (k : LevelsName) → listed i (b.levels k) ≡ false = λ k.
        listed-none i (b.levels k) (
          AllLevels-found (λ x. linked i x.1.orders ≡ false) (b.levels k) (w.ascending k)
            (unlinked i missing k)) in
      seen-listed i 0
        (λ side q l found link. let free_here = unlinked i missing (opposite side) q l found in cc)
      ∙ rw (free buy_levels, free sell_levels)

  best_price-queue :
      (side : OrderSide) (default : ℕ)
      → best_price default (queue side b)
        ≡ (elim (best_of side (b.levels (opposite side))) [ none ↦ default | some e ↦ e.0 ])
  best_price-queue side default =
      let m = b.levels (opposite side) in
      elim (Option-cases (best_of side m)) [
        | inl over ↦ rw (over, best_of-none side m over, ranked_none side)
        | inr ((p, l), best) ↦
            let (rest, heads) = best_of-IsHead side m p l best (w.ascending (opposite side)) in
            let found = best_of-found side m (p, l) best (w.ascending (opposite side)) in
            rw (best, heads.head)
              (best_price-entries default (orders_of b) p l.orders (flatten (orders_of b) rest)
                (w.sound.stocked (opposite side) p l found).nonempty)
      ]

  shows_some : HasNoStops b → (i : ℕ) → has_order i b ≡ is_some (seen i (view b))
  unfolding has_order
  shows_some calm i = elim (Option-cases (find i b.orders)) [
    | inl missing ↦ rw (missing, contains, missing_seen i missing)
    | inr (e, stored) ↦ rw (stored, contains, (stored_stands calm i e stored).2)
  ]

  shows_order :
      HasNoStops b → (i : ℕ) → (do o ← get_order i b; done (shown o)) ≡ deref (seen i (view b))
  unfolding get_order
  shows_order calm i = elim (Option-cases (find i b.orders)) [
    | inl missing ↦ rw (missing, get_order, missing_seen i missing)
    | inr (e, stored) ↦ rw (stored, get_order, (stored_stands calm i e stored).2)
  ]

  queue-empty : HasNoStops b → empty b ≡ (is_empty (queue sell b) && is_empty (queue buy b))
  unfolding empty
  queue-empty calm = elim (Bool-cases (is_empty b.orders)) [
    | inl gone ↦
        let none_seen : (i : ℕ) → seen i (view b) ≡ none =
          λ i. missing_seen i (find-empty i b.orders gone) in
        let none_sold =
          nowhere-empty (queue sell b) (λ i. (seen-none i (view b) (none_seen i)).0) in
        let none_bought =
          nowhere-empty (queue buy b) (λ i. (seen-none i (view b) (none_seen i)).1) in
        cc
    | inr some_left ↦
        let (i, e, stored) = some_order b.orders some_left in
        let there = (stored_stands calm i e stored).2 in
        elim (Bool-cases (is_empty (queue sell b) && is_empty (queue buy b))) [
          | inr filled ↦ cc
          | inl bare ↦ cc (empty-seen i (view b) bare)
        ]
  ]

-- On a well-formed book without stop orders the queries tell what the book shows: the best prices
-- are those at the heads of the two queues, or 0 and the largest `uint64_t` where there are none; the
-- book has the orders that stand in a queue, and gives them with the price and the open quantity
-- that they have there, which is undefined for other ids; and it is empty when both queues are.
pub queries_refine :
    (b : PriceLevelOrderBook) (i : ℕ)
    → IsWellFormed b
    → HasNoStops b
    → (get_best_buy b ≡ best_price 0 ((view b).queues sell))
      × (get_best_sell b ≡ best_price u64_max ((view b).queues buy))
      × (has_order i b ≡ is_some (seen i (view b)))
      × ((do o ← get_order i b; done (shown o)) ≡ deref (seen i (view b)))
      × (empty b ≡ (is_empty ((view b).queues sell) && is_empty ((view b).queues buy)))
unfolding get_best_buy get_best_sell
queries_refine b i w calm = (
  sym (best_price-queue b w sell 0),
  sym (best_price-queue b w buy u64_max),
  shows_some b w calm i,
  shows_order b w calm i,
  queue-empty b w calm,
)
