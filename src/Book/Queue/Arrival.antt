-- ===== src/Book/Queue/Arrival.antt =====
-- Where an order arrives in the queue of its side, and what that is for a map of levels: the order
-- goes to the end of the level of its price.
use mathlib.Core.List.{append_assoc}
use quanta_trader.Common.{
  ℕ, ◌<◌, ◌≡◌, refl, sym, ◌∙◌, ap, arith, Bool, true, false, ltb, if◌then◌else◌, Bool-cases, inl,
  inr, List, [], ◌∷◌, ◌++◌,
}
use quanta_trader.Common.Maps.{Map}
use quanta_trader.Common.Maps.Ascending.{Above}
use quanta_trader.Order.{OrderSide, sell, buy}
use quanta_trader.Level.{Level}
use quanta_trader.Book.Sound.{Orders, open_of}
use quanta_trader.Book.Queue.{Resting, entries, flatten, backwards}

-- The side whose incoming orders meet the resting orders of a side.
abbrev pub facing : OrderSide → OrderSide
facing sell = buy
facing buy = sell

-- For an incoming order of the side, the first price is better than the second.
abbrev pub better : OrderSide → ℕ → ℕ → Bool
better sell p q = ltb q p
better buy p q = ltb p q

-- A new order stands behind all orders of its price or a better one, and before the others.
unfoldable pub enqueue : OrderSide → Resting → List Resting → List Resting
enqueue side r [] = r ∷ []
enqueue side r (x ∷ xs) =
    let later = enqueue side r xs in if better side r.price x.price then r ∷ x ∷ xs else x ∷ later

-- Whether the order's price is better, for all orders of a list and for all levels of a map.
abbrev AllBetter : OrderSide → ℕ → Bool → List Resting → Type 0
AllBetter side p c [] = Unit
AllBetter side p c (x ∷ xs) = (better side p x.price ≡ c) × AllBetter side p c xs

abbrev LevelsBetter : OrderSide → ℕ → Bool → Map Level → Type 0
LevelsBetter side p c [] = Unit
LevelsBetter side p c (x ∷ m) = (better side p x.0 ≡ c) × LevelsBetter side p c m

AllBetter-append :
    (side : OrderSide) (p : ℕ) (c : Bool) (xs ys : List Resting)
    → AllBetter side p c xs
    → AllBetter side p c ys
    → AllBetter side p c (xs ++ ys)
AllBetter-append side p c [] ys h g = g
AllBetter-append side p c (x ∷ xs) ys (e, h) g = (e, AllBetter-append side p c xs ys h g)

entries-AllBetter :
    (side : OrderSide) (p : ℕ) (c : Bool) (orders : Orders) (q : ℕ) (is : List ℕ)
    → better side p q ≡ c
    → AllBetter side p c (entries orders q is)
entries-AllBetter side p c orders q [] h = tt
entries-AllBetter side p c orders q (i ∷ is) h = (h, entries-AllBetter side p c orders q is h)

pub flatten-AllBetter :
    (side : OrderSide) (p : ℕ) (c : Bool) (orders : Orders) (m : Map Level)
    → LevelsBetter side p c m
    → AllBetter side p c (flatten orders m)
flatten-AllBetter side p c orders [] h = tt
flatten-AllBetter side p c orders (x ∷ m) (e, h) =
    AllBetter-append side p c (entries orders x.0 x.1.orders) (flatten orders m)
      (entries-AllBetter side p c orders x.0 x.1.orders e) (flatten-AllBetter side p c orders m h)

LevelsBetter-add :
    (side : OrderSide) (p : ℕ) (c : Bool) (m : Map Level) (x : ℕ × Level)
    → LevelsBetter side p c m
    → better side p x.0 ≡ c
    → LevelsBetter side p c (m ++ x ∷ [])
LevelsBetter-add side p c [] x h e = (e, tt)
LevelsBetter-add side p c (y ∷ m) x (g, h) e = (g, LevelsBetter-add side p c m x h e)

pub LevelsBetter-backwards :
    (side : OrderSide) (p : ℕ) (c : Bool) (m : Map Level)
    → LevelsBetter side p c m
    → LevelsBetter side p c (backwards m)
LevelsBetter-backwards side p c [] h = tt
LevelsBetter-backwards side p c (x ∷ m) (e, h) =
    LevelsBetter-add side p c (backwards m) x (LevelsBetter-backwards side p c m h) e

-- An order is not better than what it stands behind.
pub enqueue-behind :
    (side : OrderSide) (r : Resting) (xs ys : List Resting)
    → AllBetter side r.price false xs
    → enqueue side r (xs ++ ys) ≡ xs ++ enqueue side r ys
unfolding enqueue
enqueue-behind side r [] ys h = refl
enqueue-behind side r (x ∷ xs) ys (e, h) = rw (e, enqueue-behind side r xs ys h)

-- An order is better than what it stands before.
pub enqueue-before :
    (side : OrderSide) (r : Resting) (xs ys : List Resting)
    → AllBetter side r.price true ys
    → enqueue side r (xs ++ ys) ≡ enqueue side r xs ++ ys
unfolding enqueue
enqueue-before side r [] [] h = refl
enqueue-before side r [] (y ∷ ys) (e, h) = rw e
enqueue-before side r (x ∷ xs) ys h = elim (Bool-cases (better side r.price x.price)) [
  | inl first ↦ rw first
  | inr later ↦ rw (later, enqueue-before side r xs ys h)
]

-- An order that is better than none is the last one.
pub enqueue-last :
    (side : OrderSide) (r : Resting) (xs : List Resting)
    → AllBetter side r.price false xs
    → enqueue side r xs ≡ xs ++ r ∷ []
unfolding enqueue
enqueue-last side r [] h = refl
enqueue-last side r (x ∷ xs) (e, h) = rw (e, enqueue-last side r xs h)

module _ (orders : Orders) (p i : ℕ) where
  abbrev pub arrival : Resting
  arrival = record { id = i; price = p; open_quantity = open_of (orders i) }

  entries-add :
      (is : List ℕ) → entries orders p (is ++ i ∷ []) ≡ entries orders p is ++ arrival ∷ []
  entries-add [] = refl
  entries-add (j ∷ is) = rw (entries-add is)

  not_better : (side : OrderSide) → better side p p ≡ false
  not_better sell = ground arith
  not_better buy = ground arith

  -- The order goes behind its level.
  pub enqueue-level :
      (side : OrderSide) (is : List ℕ) (rest : List Resting)
      → AllBetter side p true rest
      → enqueue side arrival (entries orders p is ++ rest) ≡ entries orders p (is ++ i ∷ []) ++ rest
  unfolding enqueue
  enqueue-level side is rest h =
      enqueue-behind side arrival (entries orders p is) rest
        (entries-AllBetter side p false orders p is (not_better side))
      ∙ ap (λ t. entries orders p is ++ t) (enqueue-before side arrival [] rest h)
      ∙ sym (append_assoc (entries orders p is) (arrival ∷ []) rest)
      ∙ ap (λ t. t ++ rest) (sym (entries-add is))

  pub flatten-append :
      (m n : Map Level) → flatten orders (m ++ n) ≡ flatten orders m ++ flatten orders n
  flatten-append [] n = refl
  flatten-append (x ∷ m) n =
      ap (λ t. entries orders x.0 x.1.orders ++ t) (flatten-append m n)
      ∙ sym (append_assoc (entries orders x.0 x.1.orders) (flatten orders m) (flatten orders n))

  pub Above-better : (m : Map Level) → Above p m → LevelsBetter buy p true m
  Above-better [] a = tt
  Above-better (x ∷ m) (lt, a) = (ground arith, Above-better m a)

  pub Above-worse : (m : Map Level) → Above p m → LevelsBetter sell p false m
  Above-worse [] a = tt
  Above-worse (x ∷ m) (lt, a) = (ground arith, Above-worse m a)

  -- One level more, at either end of the ranked levels.
  module _ (x : ℕ × Level) (m m' : Map Level) where
    pub past_level :
        x.0 < p
        → flatten orders m' ≡ enqueue buy arrival (flatten orders m)
        → flatten orders (x ∷ m') ≡ enqueue buy arrival (flatten orders (x ∷ m))
    past_level lt h =
        ap (λ t. entries orders x.0 x.1.orders ++ t) h
        ∙ sym (
            enqueue-behind buy arrival (entries orders x.0 x.1.orders) (flatten orders m)
              (entries-AllBetter buy p false orders x.0 x.1.orders (ground arith)))

    pub before_level :
        x.0 < p
        → flatten orders (backwards m') ≡ enqueue sell arrival (flatten orders (backwards m))
        → flatten orders (backwards (x ∷ m'))
          ≡ enqueue sell arrival (flatten orders (backwards (x ∷ m)))
    before_level lt h =
        flatten-append (backwards m') (x ∷ [])
        ∙ ap (λ t. t ++ flatten orders (x ∷ [])) h
        ∙ sym (
            enqueue-before sell arrival (flatten orders (backwards m)) (flatten orders (x ∷ []))
              (flatten-AllBetter sell p true orders (x ∷ []) (ground arith, tt)))
        ∙ ap (enqueue sell arrival) (sym (flatten-append (backwards m) (x ∷ [])))
