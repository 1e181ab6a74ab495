-- ===== src/Book/Queue/Refinement.antt =====
-- The loop of `match` implements `fill`: levels, maps and iterators together behave as one queue.
use quanta_trader.Common.{
  ℕ, zero, suc, ◌+◌, ◌-◌, ◌<◌, ◌≤◌, ◌≡◌, ◌⊎◌, refl, sym, subst, ◌∙◌, ap, inl, inr, arith, true,
  false, ◌==◌, ◌&&◌, not, ltb, is_empty, none, some, List, [], ◌∷◌, ◌++◌, Outcome, done, fault,
  out_of_fuel, Returns, Returns->>=, Returns-mono,
}
use quanta_trader.Common.Maps.{Map, find}
use quanta_trader.Common.Maps.Extremes.{last-is_empty}
use quanta_trader.Book.Sound.{open_of}
use quanta_trader.Order.{Order, OrderSide, sell, buy}
use quanta_trader.Level.{Level}
use quanta_trader.Book.State.{PriceLevelOrderBook, LevelsName, same_levels}
use quanta_trader.Book.Match.{match_loop, match_front, opposite, best_of, crosses}
use quanta_trader.Book.Stops.{activate_stop_orders}
use quanta_trader.Book.Progress.{orders_of, activity, IsWellFormed, IsProgress-HasRoom, HasRoom}
use quanta_trader.Book.Progress.Matching.{Settles, IsRound, match_front-Returns, HasRoom-less}
use quanta_trader.Book.Progress.Matching.Loop.{HasFuel}
use quanta_trader.Book.Progress.Activation.{activate_stop_orders-Settles}
use quanta_trader.Book.Queue.{Resting, Fill, fill, queue, ranked, flatten, entries}
use quanta_trader.Book.Queue.Ranked.{best_of-IsHead}
use quanta_trader.Book.Queue.Quiet.{HasNoStops, quiet, activate_stop_orders-quiet}
use quanta_trader.Book.Queue.Round.{IsServed, HasNoStops-next}
use quanta_trader.Book.Queue.Head.{level_cases, match_front-IsServed, best_of-found}

-- The order has the open quantity and the book the queue and the last price of the fill; the maps
-- other than that of the levels that the order is matched with are as they were.
pub record IsFilled (side : OrderSide) (b : PriceLevelOrderBook) (f : Fill)
    (t : Order × PriceLevelOrderBook) : Type 0 where
  pub same_open : t.0.open_quantity ≡ f.open_quantity
  pub same_queue : queue side t.1 ≡ f.rest
  pub same_price : t.1.last_traded_price ≡ f.last_price
  pub others_kept :
      (j : LevelsName) → same_levels j (opposite side) ≡ false → t.1.levels j ≡ b.levels j

-- The fill of an order by a book.
abbrev pub fill_by : Order → PriceLevelOrderBook → Fill
fill_by o b = fill o.side o.price o.open_quantity b.last_traded_price (queue o.side b)

-- `fill` stops where the head's price is not accepted or nothing is left open.
fill_over :
    (side : OrderSide) (limit q last : ℕ) (r : Resting) (rs : List Resting)
    → (crosses side limit r.price && not (q == 0)) ≡ false
    → fill side limit q last (r ∷ rs)
      ≡ record { open_quantity = q; last_price = last; rest = r ∷ rs }
unfolding fill
fill_over side limit q last r rs h = rw h

fill_zero :
    (side : OrderSide) (limit last : ℕ) (rs : List Resting)
    → fill side limit 0 last rs ≡ record { open_quantity = 0; last_price = last; rest = rs }
unfolding fill
fill_zero side limit last [] = refl
fill_zero side limit last (r ∷ rs) = ground arith

fill_part :
    (side : OrderSide) (limit q last : ℕ) (r : Resting) (rs : List Resting)
    → crosses side limit r.price ≡ true
    → (q == 0) ≡ false
    → q < r.open_quantity
    → fill side limit q last (r ∷ rs) ≡ record {
      open_quantity = 0;
      last_price = r.price;
      rest = record r { open_quantity = r.open_quantity - q } ∷ rs;
    }
unfolding fill
fill_part side limit q last r rs c z lt =
    let less : ltb q r.open_quantity ≡ true = ground arith in rw (c, z, less)

fill_whole :
    (side : OrderSide) (limit q last : ℕ) (r : Resting) (rs : List Resting)
    → crosses side limit r.price ≡ true
    → (q == 0) ≡ false
    → r.open_quantity ≤ q
    → fill side limit q last (r ∷ rs) ≡ fill side limit (q - r.open_quantity) r.price rs
unfolding fill
fill_whole side limit q last r rs c z le =
    let not_less : ltb q r.open_quantity ≡ false = ground arith in rw (c, z, not_less)

-- A round takes one step of `fill`.
served_step :
    (side : OrderSide) (limit : ℕ) (o : Order) (b : PriceLevelOrderBook) (r : Resting)
    (rs : List Resting) (t : Order × PriceLevelOrderBook)
    → crosses side limit r.price ≡ true
    → (o.open_quantity == 0) ≡ false
    → IsServed side o b r rs t
    → fill side limit o.open_quantity b.last_traded_price (r ∷ rs)
      ≡ fill side limit t.0.open_quantity t.1.last_traded_price (queue side t.1)
served_step side limit o b r rs t c z (inl (lt, nothing, next)) =
    fill_part side limit o.open_quantity b.last_traded_price r rs c z lt
    ∙ sym (
        rw (nothing, next.new_price, next.new_queue)
          (fill_zero side limit r.price
            (record r { open_quantity = r.open_quantity - o.open_quantity } ∷ rs)))
served_step side limit o b r rs t c z (inr (le, less, next)) =
    fill_whole side limit o.open_quantity b.last_traded_price r rs c z le
    ∙ rw (less, next.new_price, next.new_queue)

served_kept :
    (side : OrderSide) (o : Order) (b : PriceLevelOrderBook) (r : Resting) (rs : List Resting)
    (t : Order × PriceLevelOrderBook)
    → IsServed side o b r rs t
    → (j : LevelsName) → same_levels j (opposite side) ≡ false
    → t.1.levels j ≡ b.levels j
served_kept side o b r rs t (inl (_, _, next)) = next.others_kept
served_kept side o b r rs t (inr (_, _, next)) = next.others_kept

ranked-none : (s : OrderSide) (m : Map Level) → best_of s m ≡ none → ranked s m ≡ []
ranked-none s [] h = ground arith
ranked-none sell (x ∷ m) h = cc (last-is_empty (x ∷ m) h)
ranked-none buy (x ∷ m) h = cc

cons_of : (is : List ℕ) → is_empty is ≡ false → (i : ℕ) × (js : List ℕ) × (is ≡ i ∷ js)
cons_of [] h = cc
cons_of (i ∷ is) h = (i, is, refl)

unfilled :
    (o : Order) (b : PriceLevelOrderBook) (rs : List Resting)
    → queue o.side b ≡ rs
    → fill o.side o.price o.open_quantity b.last_traded_price rs
      ≡ record { open_quantity = o.open_quantity; last_price = b.last_traded_price; rest = rs }
    → IsFilled o.side b (fill_by o b) (o, b)
unfilled o b rs q f =
    let e = ap (fill o.side o.price o.open_quantity b.last_traded_price) q ∙ f in
    record {
      same_open = sym (ap (λ x. x.open_quantity) e);
      same_queue = q ∙ sym (ap (λ x. x.rest) e);
      same_price = sym (ap (λ x. x.last_price) e);
      others_kept = λ j h. refl;
    }

-- Where no level matches, `fill` leaves everything as it is.
pub unmatched_fill :
    (o : Order) (b : PriceLevelOrderBook)
    → IsWellFormed b
    → (best_of o.side (b.levels (opposite o.side)) ≡ none)
      ⊎ ((p : ℕ) × (l : Level) × (best_of o.side (b.levels (opposite o.side)) ≡ some (p, l))
          × ((crosses o.side o.price p && not (o.open_quantity == 0)) ≡ false))
    → IsFilled o.side b (fill_by o b) (o, b)
unfolding fill
unmatched_fill o b w (inl empty) =
    unfilled o b [] (rw (ranked-none o.side (b.levels (opposite o.side)) empty)) refl
unmatched_fill o b w (inr (p, l, best, stops)) =
    let m = b.levels (opposite o.side) in
    let sorted = w.ascending (opposite o.side) in
    let (rest, h) = best_of-IsHead o.side m p l best sorted in
    let found = best_of-found o.side m (p, l) best sorted in
    let (i, is, cons) = cons_of l.orders (w.sound.stocked (opposite o.side) p l found).nonempty in
    let r : Resting = record { id = i; price = p; open_quantity = open_of (find i b.orders) } in
    let rs = entries (orders_of b) p is ++ flatten (orders_of b) rest in
    unfilled o b (r ∷ rs)
      (ap (flatten (orders_of b)) h.head
        ∙ ap (λ js. entries (orders_of b) p js ++ flatten (orders_of b) rest) cons)
      (fill_over o.side o.price o.open_quantity b.last_traded_price r rs stops)

-- A call that returns has both properties.
pub both :
    {A : Type 0} (P Q : A → Type 0) (m : Outcome A)
    → Returns m P
    → Returns m Q
    → Returns m (λ a. P a × Q a)
both P Q (done a) p q = (p, q)
both P Q (fault e) p q = absurd p
both P Q out_of_fuel p q = absurd p

-- The fill at the side and the price of the order.
at_order :
    (side : OrderSide) (limit : ℕ) (o : Order) (b : PriceLevelOrderBook)
    (m : Outcome (Order × PriceLevelOrderBook))
    → o.side ≡ side
    → o.price ≡ limit
    → Returns m (IsFilled o.side b (fill_by o b))
    → Returns m
        (IsFilled side b (fill side limit o.open_quantity b.last_traded_price (queue side b)))
at_order side limit o b m s l r =
    subst
      (λ x. Returns m (IsFilled x b (fill x limit o.open_quantity b.last_traded_price (queue x b))))
      s
      (subst
        (λ x.
          Returns m (
            IsFilled o.side b (fill o.side x o.open_quantity b.last_traded_price (queue o.side b))))
        l r)

IsFilled-later :
    (side : OrderSide) (b b₁ : PriceLevelOrderBook) (f g : Fill) (t : Order × PriceLevelOrderBook)
    → f ≡ g
    → ((j : LevelsName) → same_levels j (opposite side) ≡ false → b₁.levels j ≡ b.levels j)
    → IsFilled side b₁ g t
    → IsFilled side b f t
IsFilled-later side b b₁ f g t e kept h = record {
  same_open = h.same_open ∙ sym (ap (λ x. x.open_quantity) e);
  same_queue = h.same_queue ∙ sym (ap (λ x. x.rest) e);
  same_price = h.same_price ∙ sym (ap (λ x. x.last_price) e);
  others_kept = λ j other. h.others_kept j other ∙ kept j other;
}

module _ {bound : ℕ} {activate : PriceLevelOrderBook → Outcome PriceLevelOrderBook}
    (nested : Settles bound activate)
    (silent : (b : PriceLevelOrderBook) → HasNoStops b → activate b ≡ done (quiet b)) where
  match_loop-IsFilled :
      (fuel : ℕ) (side : OrderSide) (limit : ℕ) (o : Order) (b : PriceLevelOrderBook)
      → o.side ≡ side
      → o.price ≡ limit
      → IsWellFormed b
      → HasNoStops b
      → activity b ≤ bound
      → HasRoom o.open_quantity b
      → HasFuel fuel o b
      → Returns
          (match_loop activate fuel o b)
          (IsFilled side b (fill side limit o.open_quantity b.last_traded_price (queue side b)))
  unfolding match_loop
  match_loop-IsFilled zero side limit o b s l w calm small room fuel = absurd (omega arith)
  match_loop-IsFilled (suc n) side limit o b s l w calm small room fuel =
      at_order side limit o b (match_loop activate (suc n) o b) s l (elim (level_cases o b) [
        | inl (over, cases) ↦ rw (over, match_loop) (unmatched_fill o b w cases)
        | inr (p, level, goes) ↦
            let k = opposite o.side in
            let h = match_front-IsServed activate silent o b p level w calm room goes in
            let m = match_front activate (record { levels = k; price = p }) o b in
            let round =
              match_front-Returns nested k p o b level w small room refl
                (best_of-found o.side (b.levels k) (p, level) goes.best (w.ascending k)) in
            rw (goes.matching, match_loop)
              (Returns->>= (IsFilled o.side b (fill_by o b)) m _
                (both (λ t. IsRound o b t.0 t.1) (IsServed o.side o b h.top h.behind) m round
                  h.served)
                λ (o₁, b₁) (r, served).
                  let kept = served_kept o.side o b h.top h.behind (o₁, b₁) served in
                  let next =
                    fill o.side o.price o₁.open_quantity b₁.last_traded_price (queue o.side b₁) in
                  let step : fill_by o b ≡ next =
                    ap (fill o.side o.price o.open_quantity b.last_traded_price) h.queued
                    ∙ served_step o.side o.price o b h.top h.behind (o₁, b₁)
                        (rw h.top_price goes.accepted) goes.some_open served in
                  Returns-mono (IsFilled o.side b (fill_by o b)) (match_loop activate n o₁ b₁)
                    (match_loop-IsFilled n o.side o.price o₁ b₁ r.same_order.same_side
                      r.same_order.same_price r.well_formed (HasNoStops-next o.side b b₁ calm kept)
                      (omega (arith, r.progress.calmer))
                      (HasRoom-less r.same_order.no_more
                        (IsProgress-HasRoom o.open_quantity r.progress room))
                      (ground (arith, r.ends)))
                    (λ t f. IsFilled-later o.side b b₁ (fill_by o b) next t step kept f))
      ])

-- On a well-formed book without stop orders, with enough fuel, the loop of `match` returns what
-- `fill` computes from the queue of the other side: the same quantity is left open, the same queue
-- remains, and the last traded price is the same; the other maps of the book are as they were. The
-- loop does not look at the time in force: an all-or-none order is filled in part too, against its
-- description in include/matching/order.h.
pub match_loop_refines :
    (fuel : ℕ) (o : Order) (b : PriceLevelOrderBook)
    → IsWellFormed b
    → HasNoStops b
    → HasRoom o.open_quantity b
    → activity b + 4 ≤ fuel
    → Returns (match_loop (activate_stop_orders fuel) fuel o b) (IsFilled o.side b (fill_by o b))
match_loop_refines zero o b w calm room enough = absurd (omega arith)
match_loop_refines (suc zero) o b w calm room enough = absurd (omega arith)
match_loop_refines (suc (suc n)) o b w calm room enough =
    match_loop-IsFilled (activate_stop_orders-Settles (suc (suc n)) (activity b) (omega arith))
      (activate_stop_orders-quiet n) (suc (suc n)) o.side o.price o b refl refl w calm (omega arith)
      room (inr (omega arith))
