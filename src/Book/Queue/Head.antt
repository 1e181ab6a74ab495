-- ===== src/Book/Queue/Head.antt =====
-- The level with which the loop of `match` goes on holds the head of the queue.
use quanta_trader.Common.{
  ℕ, ◌≡◌, ◌⊎◌, refl, sym, subst, ◌∙◌, inl, inr, arith, true, false, ◌==◌, ◌&&◌, not, Bool-cases,
  Option-cases, none, some, List, [], ◌∷◌, first, Outcome, done, Returns,
}
use quanta_trader.Common.Maps.{Map, find}
use quanta_trader.Common.Maps.Ascending.{IsAscending}
use quanta_trader.Common.Maps.Extremes
use quanta_trader.Order.{Order, OrderSide, sell, buy}
use quanta_trader.Level
use quanta_trader.Level.{Level, linked}
use quanta_trader.Book.State.{PriceLevelOrderBook, OrderWithLevelIterator}
use quanta_trader.Book.Match.{
  match_front, settle_front, execute_against, matching_level, opposite, best_of, best_opposite,
  crosses,
}
use quanta_trader.Book.Progress.{IsWellFormed, HasRoom}
use quanta_trader.Book.Progress.Matching.{
  IsTradeOf, against-IsTrade, HasRoom-word, stored_word, first-linked, light_opposite,
}
use quanta_trader.Book.Sound.{price_by}
use quanta_trader.Order.{OrderType}
use quanta_trader.Book.Progress.{type_weight}
use quanta_trader.Book.Queue.{Resting, queue}
use quanta_trader.Book.Queue.Ranked.{IsHead, best_of-IsHead}
use quanta_trader.Book.Queue.Quiet.{HasNoStops, quiet}
use quanta_trader.Book.Queue.Front.{behind}
use quanta_trader.Book.Queue.Round.{IsServed, before, settle_front-IsServed}

first_cons : (is : List ℕ) (i : ℕ) → first is ≡ some i → (js : List ℕ) × (is ≡ i ∷ js)
first_cons [] i h = cc
first_cons (x ∷ is) i h = (is, ground arith)

pub best_of-found :
    (s : OrderSide) (m : Map Level) (e : ℕ × Level)
    → best_of s m ≡ some e
    → IsAscending m
    → find e.0 m ≡ some e.1
best_of-found sell m e h a = Extremes.find-last m e h a
best_of-found buy m e h a = Extremes.find-first m e h

light_price : (t : OrderType) (o : Order) → type_weight t ≡ 1 → price_by t o ≡ o.price
light_price t o h = ground arith

-- The loop of `match` goes on at the best level of the other side, whose price the order accepts.
pub record GoesOnAt (o : Order) (b : PriceLevelOrderBook) (p : ℕ) (l : Level) : Type 0 where
  pub matching : matching_level o b ≡ some (record { levels = opposite o.side; price = p })
  pub best : best_of o.side (b.levels (opposite o.side)) ≡ some (p, l)
  pub accepted : crosses o.side o.price p ≡ true
  pub some_open : (o.open_quantity == 0) ≡ false

pub level_cases :
    (o : Order) (b : PriceLevelOrderBook)
    → ((matching_level o b ≡ none)
        × ((best_of o.side (b.levels (opposite o.side)) ≡ none)
            ⊎ ((p : ℕ) × (l : Level) × (best_of o.side (b.levels (opposite o.side)) ≡ some (p, l))
                × ((crosses o.side o.price p && not (o.open_quantity == 0)) ≡ false))))
      ⊎ ((p : ℕ) × (l : Level) × GoesOnAt o b p l)
unfolding matching_level
level_cases o b = elim (Option-cases (best_of o.side (b.levels (opposite o.side)))) [
  | inl empty ↦ inl (rw (empty, matching_level, best_opposite), inl empty)
  | inr ((p, l), best) ↦
      elim (Bool-cases (crosses o.side o.price p && not (o.open_quantity == 0))) [
        | inr stops ↦ inl (rw (best, stops, matching_level, best_opposite), inr (p, l, best, stops))
        | inl goes ↦ inr (
          p,
          l,
          record {
            matching = rw (best, goes, matching_level, best_opposite);
            best = best;
            accepted = ground arith;
            some_open = ground arith;
          },
        )
      ]
]

-- What a round does with the queue.
pub record IsHeadServed (activate : PriceLevelOrderBook → Outcome PriceLevelOrderBook) (o : Order)
    (b : PriceLevelOrderBook) (p : ℕ) : Type 0 where
  pub top : Resting
  pub behind : List Resting
  pub top_price : top.price ≡ p
  pub queued : queue o.side b ≡ top ∷ behind
  pub served :
      Returns
        (match_front activate (record { levels = opposite o.side; price = p }) o b)
        (IsServed o.side o b top behind)

IsServed-at :
    (activate : PriceLevelOrderBook → Outcome PriceLevelOrderBook)
    → ((b : PriceLevelOrderBook) → HasNoStops b → activate b ≡ done (quiet b))
    → (o : Order) (b : PriceLevelOrderBook) (w : IsWellFormed b) → HasNoStops b
    → (i : ℕ) (e : OrderWithLevelIterator) (level : Level) → find i b.orders ≡ some e
    → find e.level_it.price (b.levels e.level_it.levels) ≡ some level
    → e.level_it.levels ≡ opposite o.side
    → (rest : Map Level) → IsHead o.side (b.levels e.level_it.levels) e.level_it.price level rest
    → (is : List ℕ) → level.orders ≡ i ∷ is
    → (t : Order × Order × PriceLevelOrderBook) → IsTradeOf o e.order b t
    → e.order.price ≡ e.level_it.price
    → (top : Resting) × (behind : List Resting) × (top.price ≡ e.level_it.price)
      × (queue o.side b ≡ top ∷ behind)
      × Returns (settle_front activate e.level_it level i e t) (IsServed o.side o b top behind)
IsServed-at activate silent o b w calm i e level stored at_level right rest head is cons
      (o', r', b₁) trade priced =
    (
      record { id = i; price = e.level_it.price; open_quantity = e.order.open_quantity },
      behind b w i e level stored at_level o.side rest head is cons,
      refl,
      before activate silent b w calm i e level stored at_level o.side right rest head is cons o o'
          r' b₁ trade priced,
      settle_front-IsServed activate silent b w calm i e level stored at_level o.side right rest
          head is cons o o' r' b₁ trade priced,
    )

pub match_front-IsServed :
    (activate : PriceLevelOrderBook → Outcome PriceLevelOrderBook)
    → ((b : PriceLevelOrderBook) → HasNoStops b → activate b ≡ done (quiet b))
    → (o : Order) (b : PriceLevelOrderBook) (p : ℕ) (l : Level) → IsWellFormed b
    → HasNoStops b
    → HasRoom o.open_quantity b
    → GoesOnAt o b p l
    → IsHeadServed activate o b p
unfolding match_front Level.front
match_front-IsServed activate silent o b p level w calm room goes =
    let k = opposite o.side in
    let found = best_of-found o.side (b.levels k) (p, level) goes.best (w.ascending k) in
    let s = w.sound.stocked k p level found in
    let (i, head, link) = first-linked level.orders s.nonempty in
    let (is, cons) = first_cons level.orders i head in
    let (e, stored, x, y, _) = w.sound.member k p level i found link in
    let filed = w.sound.filed i e stored in
    let light = light_opposite e.order.type e.order.side o.side (filed.right_levels ∙ x) in
    let priced : e.order.price ≡ e.level_it.price =
      sym (light_price e.order.type e.order light) ∙ filed.right_price in
    let at_level : find e.level_it.price (b.levels e.level_it.levels) ≡ some level =
      rw (x, y) found in
    let (rest, heads) = best_of-IsHead o.side (b.levels k) p level goes.best (w.ascending k) in
    let heads' : IsHead o.side (b.levels e.level_it.levels) e.level_it.price level rest =
      rw (x, y) heads in
    let it : e.level_it ≡ record { levels = k; price = p } =
      λ t. record { levels = x t; price = y t } in
    let trade =
      against-IsTrade o e.order b (HasRoom-word o.open_quantity b room) (stored_word b i e w stored)
        o.side refl in
    let (top, behind, top_price, queued, served) =
      IsServed-at activate silent o b w calm i e level stored at_level x rest heads' is cons
        (execute_against o e.order b) trade priced in
    record {
      top = top;
      behind = behind;
      top_price = top_price ∙ y;
      queued = queued;
      served =
          rw (found, s.nonempty, head, stored)
            (subst
              (λ place.
                Returns (settle_front activate place level i e (execute_against o e.order b))
                  (IsServed o.side o b top behind))
              it served);
    }
