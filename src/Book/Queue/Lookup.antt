-- ===== src/Book/Queue/Lookup.antt =====
-- An order in a queue, by its id, and the level of the map that links it.
use quanta_trader.Common.{
  ℕ, ◌≡◌, refl, ◌∙◌, ap, arith, Bool, true, false, ◌==◌, ==-eq, ◌||◌, if◌then◌else◌, Bool-cases,
  inl, inr, Option, none, some, List, [], ◌∷◌, ◌++◌,
}
use quanta_trader.Common.Maps.{Map, find}
use quanta_trader.Order.{OrderSide, sell, buy}
use quanta_trader.Level.{Level, linked}
use quanta_trader.Book.Sound.{Orders, open_of}
use quanta_trader.Book.Queue.{Resting, entries, flatten, ranked, backwards}
use quanta_trader.Book.Queue.Levels.{AllLevels}

unfoldable pub lookup : ℕ → List Resting → Option Resting
lookup i [] = none
lookup i (r ∷ rs) = if r.id == i then some r else lookup i rs

-- Whether a level of the map links the order.
unfoldable pub listed : ℕ → Map Level → Bool
listed i [] = false
listed i (x ∷ m) = linked i x.1.orders || listed i m

lookup-append :
    (i : ℕ) (rs ss : List Resting) → lookup i rs ≡ none → lookup i (rs ++ ss) ≡ lookup i ss
unfolding lookup
lookup-append i [] ss h = refl
lookup-append i (r ∷ rs) ss h = ground (arith, lookup-append i rs ss)

lookup-append_found :
    (i : ℕ) (rs ss : List Resting) (r : Resting)
    → lookup i rs ≡ some r
    → lookup i (rs ++ ss) ≡ some r
unfolding lookup
lookup-append_found i [] ss r h = cc
lookup-append_found i (x ∷ rs) ss r h = ground (arith, lookup-append_found i rs ss r)

listed-append : (i : ℕ) (m n : Map Level) → listed i (m ++ n) ≡ (listed i m || listed i n)
unfolding listed
listed-append i [] n = refl
listed-append i (x ∷ m) n = ground (arith, listed-append i m n)

-- The order of the levels does not matter.
pub listed-ranked :
    (i : ℕ) (side : OrderSide) (m : Map Level) → listed i (ranked side m) ≡ listed i m
unfolding listed
listed-ranked i buy m = refl
listed-ranked i sell [] = refl
listed-ranked i sell (x ∷ m) =
    ground (arith, listed-append i (backwards m) (x ∷ []), listed-ranked i sell m)

pub listed-found :
    (i p : ℕ) (l : Level) (m : Map Level)
    → find p m ≡ some l
    → linked i l.orders ≡ true
    → listed i m ≡ true
unfolding listed find
listed-found i p l [] found link = cc
listed-found i p l (x ∷ m) found link = ground (arith, listed-found i p l m)

pub listed-none :
    (i : ℕ) (m : Map Level) → AllLevels (λ x. linked i x.1.orders ≡ false) m → listed i m ≡ false
unfolding listed
listed-none i [] h = refl
listed-none i (x ∷ m) (free, h) = ground (arith, listed-none i m)

module _ (i : ℕ) (orders : Orders) where
  lookup-entries_free :
      (p : ℕ) (is : List ℕ) → linked i is ≡ false → lookup i (entries orders p is) ≡ none
  unfolding lookup linked
  lookup-entries_free p [] h = refl
  lookup-entries_free p (j ∷ is) h = ground (arith, lookup-entries_free p is)

  -- The order as it stands in the queue at a price.
  abbrev pub resting_at : ℕ → Resting
  resting_at p = record { id = i; price = p; open_quantity = open_of (orders i) }

  lookup-entries :
      (p : ℕ) (is : List ℕ)
      → linked i is ≡ true
      → lookup i (entries orders p is) ≡ some (resting_at p)
  unfolding lookup linked
  lookup-entries p [] h = cc
  lookup-entries p (j ∷ is) h = elim (Bool-cases (j == i)) [
    | inl same ↦ rw same (
        ap (λ k. some (record { id = k; price = p; open_quantity = open_of (orders k) }))
          (==-eq j i same))
    | inr other ↦ rw other (lookup-entries p is (ground arith))
  ]

  -- Where only the level at p may link the order, it is found there or nowhere.
  pub lookup-flatten :
      (p : ℕ) (m : Map Level)
      → AllLevels (λ x. linked i x.1.orders ≡ true → x.0 ≡ p) m
      → lookup i (flatten orders m) ≡ (if listed i m then some (resting_at p) else none)
  unfolding listed lookup
  lookup-flatten p [] h = refl
  lookup-flatten p (x ∷ m) (only, h) = elim (Bool-cases (linked i x.1.orders)) [
    | inl link ↦ rw link (
        lookup-append_found i (entries orders x.0 x.1.orders) (flatten orders m) (resting_at p)
          (lookup-entries x.0 x.1.orders link ∙ ap (λ q. some (resting_at q)) (only link)))
    | inr free ↦ rw free (
        lookup-append i (entries orders x.0 x.1.orders) (flatten orders m)
          (lookup-entries_free x.0 x.1.orders free)
        ∙ lookup-flatten p m h)
  ]
