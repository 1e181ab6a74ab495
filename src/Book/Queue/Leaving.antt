-- ===== src/Book/Queue/Leaving.antt =====
-- An order that leaves the book, in the two queues: its level loses it, and goes if it was the last.
use mathlib.Core.List.{append-nil}
use quanta_trader.Common.{
  ℕ, ◌≡◌, refl, sym, ◌∙◌, ap, arith, true, false, ◌==◌, ==-eq, if◌then◌else◌, Bool-cases, inl, inr,
  some, List, [], ◌∷◌, ◌++◌,
}
use quanta_trader.Common.Maps.{Map, find, put, erase}
use quanta_trader.Common.Maps.Ascending.{Above, IsAscending}
use quanta_trader.Order.{OrderSide, sell, buy}
use quanta_trader.Level.{Level, linked, unlink}
use quanta_trader.Book.Sound.{Orders, Distinct}
use quanta_trader.Book.Queue.{Resting, entries, flatten, ranked, backwards}
use quanta_trader.Book.Queue.Levels.{AllLevels}

-- The queue without the order of an id.
unfoldable pub without : ℕ → List Resting → List Resting
without i [] = []
without i (r ∷ rs) = let rest = without i rs in if r.id == i then rest else r ∷ rest

-- A map with another level at a price.
unfoldable pub adjust : ℕ → Level → Map Level → Map Level
adjust p l [] = []
adjust p l (x ∷ m) = let rest = adjust p l m in if p == x.0 then (p, l) ∷ rest else x ∷ rest

without-append :
    (i : ℕ) (rs ss : List Resting) → without i (rs ++ ss) ≡ without i rs ++ without i ss
unfolding without
without-append i [] ss = refl
without-append i (r ∷ rs) ss = ground (arith, without-append i rs ss)

entries-free :
    (i : ℕ) (orders : Orders) (p : ℕ) (is : List ℕ)
    → linked i is ≡ false
    → without i (entries orders p is) ≡ entries orders p is
unfolding linked without
entries-free i orders p [] h = refl
entries-free i orders p (j ∷ is) h = ground (arith, entries-free i orders p is)

entries-unlink :
    (i : ℕ) (orders : Orders) (p : ℕ) (is : List ℕ)
    → Distinct is
    → entries orders p (unlink i is) ≡ without i (entries orders p is)
unfolding without unlink
entries-unlink i orders p [] d = refl
entries-unlink i orders p (j ∷ is) (d, ds) =
    ground (arith, entries-unlink i orders p is, entries-free i orders p is, ==-eq i j)

-- What is stored for the order itself does not matter.
without-entries :
    (i : ℕ) (orders orders' : Orders)
    → ((j : ℕ) → (j == i) ≡ false → orders' j ≡ orders j)
    → (p : ℕ) (is : List ℕ) → without i (entries orders' p is) ≡ without i (entries orders p is)
unfolding without
without-entries i orders orders' same p [] = refl
without-entries i orders orders' same p (j ∷ is) = elim (Bool-cases (j == i)) [
  | inl here ↦ rw here (without-entries i orders orders' same p is)
  | inr other ↦ rw (other, same j other, without-entries i orders orders' same p is)
]

pub without-flatten :
    (i : ℕ) (orders orders' : Orders)
    → ((j : ℕ) → (j == i) ≡ false → orders' j ≡ orders j)
    → (m : Map Level) → without i (flatten orders' m) ≡ without i (flatten orders m)
without-flatten i orders orders' same [] = refl
without-flatten i orders orders' same (x ∷ m) =
    without-append i (entries orders' x.0 x.1.orders) (flatten orders' m)
    ∙ rw
        (
          without-entries i orders orders' same x.0 x.1.orders,
          without-flatten i orders orders' same m,
        )
        (sym (without-append i (entries orders x.0 x.1.orders) (flatten orders m)))

-- The level at the price is `l`, and no other level links the order.
abbrev pub IsOnly : ℕ → ℕ → Level → ℕ × Level → Type 0
IsOnly i p l x =
    Distinct x.1.orders
    × ((p == x.0) ≡ true → x.1 ≡ l)
    × ((p == x.0) ≡ false → linked i x.1.orders ≡ false)

module _ (i : ℕ) (orders : Orders) (p : ℕ) (l : Level) where
  glue :
      (rs bs : List Resting) (x : ℕ × Level) (m : Map Level)
      → rs ≡ without i (entries orders x.0 x.1.orders)
      → bs ≡ without i (flatten orders m)
      → rs ++ bs ≡ without i (flatten orders (x ∷ m))
  glue rs bs x m h g =
      ap (λ t. t ++ bs) h
      ∙ ap (λ t. without i (entries orders x.0 x.1.orders) ++ t) g
      ∙ sym (without-append i (entries orders x.0 x.1.orders) (flatten orders m))

  -- The level at the price, without the order.
  own_level :
      (x : ℕ × Level)
      → IsOnly i p l x
      → (p == x.0) ≡ true
      → entries orders p (unlink i l.orders) ≡ without i (entries orders x.0 x.1.orders)
  own_level x (d, own, other) same =
      ap (λ y. entries orders p (unlink i y.orders)) (sym (own same))
      ∙ entries-unlink i orders p x.1.orders d
      ∙ ap (λ q. without i (entries orders q x.1.orders)) (==-eq p x.0 same)

  pub flatten-adjust :
      (l' : Level)
      → l'.orders ≡ unlink i l.orders
      → (m : Map Level) → AllLevels (IsOnly i p l) m
      → flatten orders (adjust p l' m) ≡ without i (flatten orders m)
  unfolding adjust without
  flatten-adjust l' e [] h = refl
  flatten-adjust l' e (x ∷ m) (only, h) =
      let rest = flatten-adjust l' e m h in
      elim (Bool-cases (p == x.0)) [
        | inl same ↦ rw same (
            glue (entries orders p l'.orders) (flatten orders (adjust p l' m)) x m
              (ap (entries orders p) e ∙ own_level x only same) rest)
        | inr ne ↦ rw ne (
            glue (entries orders x.0 x.1.orders) (flatten orders (adjust p l' m)) x m
              (sym (entries-free i orders x.0 x.1.orders (only.2 ne))) rest)
      ]

  pub flatten-erase :
      unlink i l.orders ≡ []
      → (m : Map Level) → AllLevels (IsOnly i p l) m
      → flatten orders (erase p m) ≡ without i (flatten orders m)
  unfolding erase without
  flatten-erase e [] h = refl
  flatten-erase e (x ∷ m) (only, h) =
      let rest = flatten-erase e m h in
      elim (Bool-cases (p == x.0)) [
        | inl same ↦ rw same (
            glue [] (flatten orders (erase p m)) x m
              (ap (entries orders p) (sym e) ∙ own_level x only same) rest)
        | inr ne ↦ rw ne (
            glue (entries orders x.0 x.1.orders) (flatten orders (erase p m)) x m
              (sym (entries-free i orders x.0 x.1.orders (only.2 ne))) rest)
      ]

  -- Where no level links the order, nothing leaves.
  pub flatten-absent :
      (m : Map Level)
      → AllLevels (λ x. linked i x.1.orders ≡ false) m
      → flatten orders m ≡ without i (flatten orders m)
  unfolding without
  flatten-absent [] h = refl
  flatten-absent (x ∷ m) (free, h) =
      glue (entries orders x.0 x.1.orders) (flatten orders m) x m
        (sym (entries-free i orders x.0 x.1.orders free)) (flatten-absent m h)

-- The two writes, in the order of a queue.
erase-append : (p : ℕ) (m n : Map Level) → erase p (m ++ n) ≡ erase p m ++ erase p n
unfolding erase
erase-append p [] n = refl
erase-append p (x ∷ m) n = ground (arith, erase-append p m n)

adjust-append :
    (p : ℕ) (l : Level) (m n : Map Level) → adjust p l (m ++ n) ≡ adjust p l m ++ adjust p l n
unfolding adjust
adjust-append p l [] n = refl
adjust-append p l (x ∷ m) n = ground (arith, adjust-append p l m n)

pub ranked-erase :
    (p : ℕ) (side : OrderSide) (m : Map Level) → ranked side (erase p m) ≡ erase p (ranked side m)
unfolding erase
ranked-erase p buy m = refl
ranked-erase p sell [] = refl
ranked-erase p sell (x ∷ m) =
    let last = erase-append p (backwards m) (x ∷ []) in
    let rest = ranked-erase p sell m in
    elim (Bool-cases (p == x.0)) [
      | inl same ↦
          let gone : erase p (x ∷ []) ≡ [] = rw same in
          rw same rest
          ∙ sym (
              last ∙ ap (λ t. erase p (backwards m) ++ t) gone ∙ append-nil (erase p (backwards m)))
      | inr ne ↦
          let stays : erase p (x ∷ []) ≡ x ∷ [] = rw ne in
          rw ne (ap (λ t. t ++ x ∷ []) rest)
          ∙ sym (last ∙ ap (λ t. erase p (backwards m) ++ t) stays)
    ]

pub ranked-adjust :
    (p : ℕ) (l : Level) (side : OrderSide) (m : Map Level)
    → ranked side (adjust p l m) ≡ adjust p l (ranked side m)
unfolding adjust
ranked-adjust p l buy m = refl
ranked-adjust p l sell [] = refl
ranked-adjust p l sell (x ∷ m) =
    let last = adjust-append p l (backwards m) (x ∷ []) in
    let rest = ranked-adjust p l sell m in
    elim (Bool-cases (p == x.0)) [
      | inl same ↦
          let new : adjust p l (x ∷ []) ≡ (p, l) ∷ [] = rw same in
          rw same (ap (λ t. t ++ (p, l) ∷ []) rest)
          ∙ sym (last ∙ ap (λ t. adjust p l (backwards m) ++ t) new)
      | inr ne ↦
          let stays : adjust p l (x ∷ []) ≡ x ∷ [] = rw ne in
          rw ne (ap (λ t. t ++ x ∷ []) rest)
          ∙ sym (last ∙ ap (λ t. adjust p l (backwards m) ++ t) stays)
    ]

adjust-Above : (p : ℕ) (l : Level) (m : Map Level) → Above p m → adjust p l m ≡ m
unfolding adjust
adjust-Above p l [] a = refl
adjust-Above p l (x ∷ m) a = ground (arith, adjust-Above p l m a.1)

pub put-adjust :
    (p : ℕ) (l l' : Level) (m : Map Level)
    → find p m ≡ some l
    → IsAscending m
    → put p l' m ≡ adjust p l' m
unfolding find put adjust
put-adjust p l l' [] h a = cc
put-adjust p l l' (x ∷ m) h a = ground (arith, put-adjust p l l' m, adjust-Above p l' m)
