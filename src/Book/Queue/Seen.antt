-- ===== src/Book/Queue/Seen.antt =====
-- An order that a view shows, by its id, and the price at the head of a queue.
use quanta_trader.Common.{
  ℕ, ◌≡◌, ◌⊎◌, refl, arith, Bool, true, false, ◌&&◌, ◌||◌, inl, inr, Option, Option-cases, none,
  some, List, [], ◌∷◌, ◌++◌, is_empty,
}
use quanta_trader.Common.Maps.{Map, find}
use quanta_trader.Order.{Order, OrderType, OrderSide, sell, buy, market, limit}
use quanta_trader.Level.{Level}
use quanta_trader.Book.State.{PriceLevelOrderBook, OrderWithLevelIterator, buy_levels, sell_levels}
use quanta_trader.Book.Match.{opposite, best_of}
use quanta_trader.Book.Remove.{levels_for}
use quanta_trader.Common.Maps.Extremes.{last-ne}
use quanta_trader.Book.Sound.{Orders, price_by}
use quanta_trader.Book.Queue.{Resting, ranked, entries}
use quanta_trader.Book.Queue.Lookup.{lookup, listed}
use quanta_trader.Book.Queue.Arrival.{facing}
use quanta_trader.Book.Queue.View.{View}

-- The order of an id, whichever queue it stands in.
unfoldable pub seen : ℕ → View → Option Resting
seen i v = elim (lookup i (v.queues sell)) [ none ↦ lookup i (v.queues buy) | some r ↦ some r ]

-- The price at the head of a queue.
abbrev pub best_price : ℕ → List Resting → ℕ
best_price default [] = default
best_price default (r ∷ rs) = r.price

abbrev pub is_some : Option Resting → Bool
is_some none = false
is_some (some r) = true

-- What a view shows of an order.
abbrev pub shown : Order → Resting
shown o = record { id = o.id; price = o.price; open_quantity = o.open_quantity }

-- Market and limit orders rest in the queue that faces their side.
pub plain_levels :
    (t : OrderType) (s : OrderSide)
    → (t ≡ market) ⊎ (t ≡ limit)
    → levels_for t s ≡ opposite (facing s)
plain_levels t sell (inl e) = rw e
plain_levels t buy (inl e) = rw e
plain_levels t sell (inr e) = rw e
plain_levels t buy (inr e) = rw e

pub listed_either :
    (i : ℕ) (b : PriceLevelOrderBook) (s : OrderSide)
    → listed i (b.levels (opposite (facing s))) ≡ true
    → (listed i (b.levels buy_levels) || listed i (b.levels sell_levels)) ≡ true
listed_either i b sell h = ground (arith, h)
listed_either i b buy h = ground (arith, h)

pub plain_price : (t : OrderType) (o : Order) → (t ≡ market) ⊎ (t ≡ limit) → price_by t o ≡ o.price
plain_price t o plain = ground (arith, plain)

pub best_of-none : (side : OrderSide) (m : Map Level) → best_of side m ≡ none → m ≡ []
best_of-none side [] h = refl
best_of-none sell (x ∷ m) h = absurd (last-ne x m h)
best_of-none buy (x ∷ m) h = cc

pub ranked_none : (side : OrderSide) → ranked side [] ≡ []
ranked_none sell = refl
ranked_none buy = refl

pub best_price-entries :
    (default : ℕ) (orders : Orders) (p : ℕ) (is : List ℕ) (rs : List Resting)
    → is_empty is ≡ false
    → best_price default (entries orders p is ++ rs) ≡ p
best_price-entries default orders p [] rs h = cc
best_price-entries default orders p (i ∷ is) rs h = refl

pub seen-none :
    (i : ℕ) (v : View)
    → seen i v ≡ none
    → (lookup i (v.queues sell) ≡ none) × (lookup i (v.queues buy) ≡ none)
unfolding seen
seen-none i v h = elim (Option-cases (lookup i (v.queues sell))) [
  | inl missing ↦ (missing, rw (missing, seen) at h)
  | inr (r, found) ↦ absurd (ground (arith, found, h))
]

-- An order that is nowhere, whichever its id, leaves a queue empty.
pub nowhere-empty : (rs : List Resting) → ((i : ℕ) → lookup i rs ≡ none) → is_empty rs ≡ true
unfolding lookup
nowhere-empty [] h = refl
nowhere-empty (r ∷ rs) h = ground (arith, h r.id)

pub lookup-empty : (i : ℕ) (rs : List Resting) → is_empty rs ≡ true → lookup i rs ≡ none
unfolding lookup
lookup-empty i [] h = refl
lookup-empty i (r ∷ rs) h = cc

pub empty-seen :
    (i : ℕ) (v : View)
    → (is_empty (v.queues sell) && is_empty (v.queues buy)) ≡ true
    → seen i v ≡ none
unfolding seen
empty-seen i v bare =
    let none_sold = lookup-empty i (v.queues sell) (ground arith) in
    let none_bought = lookup-empty i (v.queues buy) (ground arith) in
    rw (none_sold, none_bought, seen)

pub find-empty : (i : ℕ) (m : Map OrderWithLevelIterator) → is_empty m ≡ true → find i m ≡ none
unfolding find
find-empty i [] h = refl
find-empty i (x ∷ m) h = cc

pub some_order :
    (m : Map OrderWithLevelIterator)
    → is_empty m ≡ false
    → (i : ℕ) × (e : OrderWithLevelIterator) × (find i m ≡ some e)
unfolding find
some_order [] h = cc
some_order (x ∷ m) h = (x.0, x.1, ground arith)
