-- ===== src/Book/Sound/Ids.antt =====
-- Lists of order ids, and the open quantity of the orders that they link.
use quanta_trader.Common.{
  ℕ, ◌+◌, ◌≤◌, ◌≡◌, refl, arith, true, false, ◌==◌, if◌then◌else◌, Option, none, some, List, [],
  ◌∷◌, ◌++◌, is_empty,
}
use quanta_trader.Level.{linked, unlink}
use quanta_trader.Book.State.{OrderWithLevelIterator}

-- No id is listed twice.
abbrev pub Distinct : List ℕ → Type 0
Distinct [] = Unit
Distinct (i ∷ is) = (linked i is ≡ false) × Distinct is

abbrev pub open_of : Option OrderWithLevelIterator → ℕ
open_of none = 0
open_of (some e) = e.order.open_quantity

-- The open quantity of the listed orders together.
abbrev pub total : (ℕ → Option OrderWithLevelIterator) → List ℕ → ℕ
total orders [] = 0
total orders (i ∷ is) = open_of (orders i) + total orders is

pub linked-unlink_ne :
    (j i : ℕ) (is : List ℕ) → (j == i) ≡ false → linked j (unlink i is) ≡ linked j is
unfolding linked unlink
linked-unlink_ne j i [] h = refl
linked-unlink_ne j i (x ∷ is) h = ground (arith, linked-unlink_ne j i is h)

pub linked-unlink_self : (i : ℕ) (is : List ℕ) → Distinct is → linked i (unlink i is) ≡ false
unfolding linked unlink
linked-unlink_self i [] d = refl
linked-unlink_self i (x ∷ is) d = ground (arith, linked-unlink_self i is d.1)

pub Distinct-unlink : (i : ℕ) (is : List ℕ) → Distinct is → Distinct (unlink i is)
unfolding linked unlink
Distinct-unlink i [] d = tt
Distinct-unlink i (x ∷ is) d = ground (arith, Distinct-unlink i is d.1, linked-unlink_ne x i is)

pub linked-add :
    (j i : ℕ) (is : List ℕ) → linked j (is ++ i ∷ []) ≡ (if linked j is then true else j == i)
unfolding linked
linked-add j i [] = ground arith
linked-add j i (x ∷ is) = ground (arith, linked-add j i is)

pub Distinct-add :
    (i : ℕ) (is : List ℕ) → Distinct is → linked i is ≡ false → Distinct (is ++ i ∷ [])
unfolding linked
Distinct-add i [] d h = (refl, tt)
Distinct-add i (x ∷ is) d h = ground (arith, Distinct-add i is d.1, linked-add x i is)

pub unlink-add : (i : ℕ) (is : List ℕ) → linked i is ≡ false → unlink i (is ++ i ∷ []) ≡ is
unfolding linked unlink
unlink-add i [] h = ground arith
unlink-add i (j ∷ is) h = ground (arith, unlink-add i is)

pub is_empty-add : (i : ℕ) (is : List ℕ) → is_empty (is ++ i ∷ []) ≡ false
is_empty-add i [] = refl
is_empty-add i (x ∷ is) = refl

pub linked_empty : (i : ℕ) (is : List ℕ) → is_empty is ≡ true → linked i is ≡ false
unfolding linked
linked_empty i [] h = refl
linked_empty i (x ∷ is) h = cc

module _ (orders : ℕ → Option OrderWithLevelIterator) where
  pub total-unlink :
      (i : ℕ) (is : List ℕ)
      → linked i is ≡ true
      → total orders (unlink i is) + open_of (orders i) ≡ total orders is
  unfolding linked unlink
  total-unlink i [] h = cc
  total-unlink i (x ∷ is) h = ground (arith, total-unlink i is)

  pub total-add :
      (i : ℕ) (is : List ℕ) → total orders (is ++ i ∷ []) ≡ total orders is + open_of (orders i)
  total-add i [] = omega arith
  total-add i (x ∷ is) = omega (arith, total-add i is)

  pub open-le-total :
      (i : ℕ) (is : List ℕ) → linked i is ≡ true → open_of (orders i) ≤ total orders is
  unfolding linked
  open-le-total i [] h = cc
  open-le-total i (x ∷ is) h = ground (arith, open-le-total i is)

-- Two maps of orders that differ at most at one id.
module _ (i : ℕ) (orders orders' : ℕ → Option OrderWithLevelIterator)
    (same : (j : ℕ) → (j == i) ≡ false → orders' j ≡ orders j) where
  pub total_other : (is : List ℕ) → linked i is ≡ false → total orders' is ≡ total orders is
  unfolding linked
  total_other [] h = refl
  total_other (x ∷ is) h = ground (arith, total_other is, same x)

  pub total_changed :
      (is : List ℕ)
      → Distinct is
      → linked i is ≡ true
      → total orders' is + open_of (orders i) ≡ total orders is + open_of (orders' i)
  unfolding linked
  total_changed [] d h = cc
  total_changed (x ∷ is) d h = ground (arith, total_changed is d.1, total_other is, same x)

pub linked-append :
    (j : ℕ) (is js : List ℕ) → linked j (is ++ js) ≡ (if linked j is then true else linked j js)
unfolding linked
linked-append j [] js = refl
linked-append j (x ∷ is) js = ground (arith, linked-append j is js)

pub Distinct-append :
    (is js : List ℕ)
    → Distinct is
    → Distinct js
    → ((i : ℕ) → linked i is ≡ true → linked i js ≡ false)
    → Distinct (is ++ js)
unfolding linked
Distinct-append [] js d e apart = e
Distinct-append (x ∷ is) js d e apart = (
  ground (arith, linked-append x is js, apart x),
  Distinct-append is js d.1 e (λ i h. apart i (ground arith)),
)
