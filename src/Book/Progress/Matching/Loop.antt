-- ===== src/Book/Progress/Matching/Loop.antt =====
-- The loop of `match` on a well-formed book.
use quanta_trader.Common.{
  ℕ, zero, suc, ◌+◌, ◌<◌, ◌≤◌, ◌≡◌, ◌⊎◌, refl, subst, ◌∙◌, ap, inl, inr, arith, true, false, ◌==◌,
  ◌&&◌, not, Bool-cases, Option-cases, none, some, List, [], ◌∷◌, first, last, is_empty, u64_mod,
  Outcome, Returns, Returns->>=, Returns-mono,
}
use quanta_trader.Common.Maps.{Map, find}
use quanta_trader.Order.{Order, OrderType, OrderSide, sell, buy}
use quanta_trader.Level
use quanta_trader.Level.{Level, linked}
use quanta_trader.Book.State.{PriceLevelOrderBook, LevelsName, OrderWithLevelIterator}
use quanta_trader.Book.Remove.{levels_for}
use quanta_trader.Book.Match.{
  settle_front, match_front, match_loop, matching_level, execute_against, opposite, best_of,
  best_opposite, crosses,
}
use quanta_trader.Book.Sound.{open_of}
use quanta_trader.Book.Progress.{
  activity, type_weight, IsWellFormed, IsProgress, IsProgress-refl, IsProgress-trans, HasRoom,
  IsProgress-HasRoom,
}
use quanta_trader.Book.Progress.Reduction.{IsSameOrder}
use quanta_trader.Book.Progress.Matching.Contract.{Settles}
use quanta_trader.Book.Progress.Matching.Front.{IsRound, against-IsTrade, settle_front-Returns}

pub first-linked :
    (is : List ℕ) → is_empty is ≡ false → (i : ℕ) × (first is ≡ some i) × (linked i is ≡ true)
unfolding linked
first-linked [] h = cc
first-linked (i ∷ is) h = (i, refl, ground arith)

-- The iterators to the first and to the last level refer to a level.
pub find-first :
    (m : Map Level) {e : ℕ × Level} → first m ≡ some e → (l : Level) × (find e.0 m ≡ some l)
unfolding find
find-first [] h = cc
find-first (x ∷ m) h = (x.1, ground arith)

pub find-last :
    (m : Map Level) (e : ℕ × Level) → last m ≡ some e → (l : Level) × (find e.0 m ≡ some l)
unfolding find
find-last [] e h = cc
find-last (x ∷ []) e h = (x.1, ground arith)
find-last (x ∷ y ∷ m) e h =
    let (l, found) = find-last (y ∷ m) e h in
    elim (Bool-cases (e.0 == x.0)) [ inl same ↦ (x.1, rw same) | inr ne ↦ (l, ground arith) ]

pub light_opposite :
    (t : OrderType) (s s' : OrderSide) → levels_for t s ≡ opposite s' → type_weight t ≡ 1
light_opposite t s s' h = ground arith

pub HasRoom-word : (q : ℕ) (b : PriceLevelOrderBook) → HasRoom q b → q < u64_mod
HasRoom-word q b r = omega (arith, r.room [] tt)

pub stored_word :
    (b : PriceLevelOrderBook) (i : ℕ) (e : OrderWithLevelIterator)
    → IsWellFormed b
    → find i b.orders ≡ some e
    → e.order.open_quantity < u64_mod
unfolding linked
stored_word b i e w h =
    let o : open_of (find i b.orders) ≡ e.order.open_quantity = ap open_of h in
    omega (arith, w.sound.bounded (i ∷ []) (refl, tt))

module _ {bound : ℕ} {activate : PriceLevelOrderBook → Outcome PriceLevelOrderBook}
    (nested : Settles bound activate) where
  abbrev Round : Order → PriceLevelOrderBook → Order × PriceLevelOrderBook → Type 0
  Round o b t = IsRound o b t.0 t.1

  pub match_front-Returns :
      (k : LevelsName) (p : ℕ) (o : Order) (b : PriceLevelOrderBook) (level : Level)
      → IsWellFormed b
      → activity b ≤ bound
      → HasRoom o.open_quantity b
      → k ≡ opposite o.side
      → find p (b.levels k) ≡ some level
      → Returns (match_front activate (record { levels = k; price = p }) o b) (Round o b)
  unfolding match_front Level.front
  match_front-Returns k p o b level w small room right found =
      let s = w.sound.stocked k p level found in
      let (i, head, link) = first-linked level.orders s.nonempty in
      let (e, stored, x, y, _) = w.sound.member k p level i found link in
      let light =
        light_opposite e.order.type e.order.side o.side
          ((w.sound.filed i e stored).right_levels ∙ x ∙ right) in
      let it : e.level_it ≡ record { levels = k; price = p } =
        λ t. record { levels = x t; price = y t } in
      let trade =
        against-IsTrade o e.order b (HasRoom-word o.open_quantity b room)
          (stored_word b i e w stored) o.side refl in
      rw (found, s.nonempty, head, stored)
        (subst
          (λ place.
            Returns (settle_front activate place level i e (execute_against o e.order b))
              (Round o b))
          it
          (settle_front-Returns nested b w small i e level stored (rw (x, y) found) light o
            (execute_against o e.order b) trade))

pub best_of-find :
    (s : OrderSide) (m : Map Level) (e : ℕ × Level)
    → best_of s m ≡ some e
    → (l : Level) × (find e.0 m ≡ some l)
best_of-find sell m e h = find-last m e h
best_of-find buy m e h = find-first m h

-- The loop is over, or goes on at a level that is there, for an order with something left open.
abbrev GoesOn : Order → PriceLevelOrderBook → ℕ × Level → Type 0
GoesOn o b (p, l) =
    (matching_level o b ≡ some (record { levels = opposite o.side; price = p }))
    × (find p (b.levels (opposite o.side)) ≡ some l)
    × ((o.open_quantity == 0) ≡ false)

matching_cases :
    (o : Order) (b : PriceLevelOrderBook)
    → (matching_level o b ≡ none) ⊎ ((at : ℕ × Level) × GoesOn o b at)
unfolding matching_level
matching_cases o b = elim (Option-cases (best_of o.side (b.levels (opposite o.side)))) [
  | inl empty ↦ inl (rw (empty, matching_level, best_opposite))
  | inr (x, best) ↦
      let (l, found) = best_of-find o.side (b.levels (opposite o.side)) x best in
      elim (Bool-cases (crosses o.side o.price x.0 && not (o.open_quantity == 0))) [
        | inl goes ↦
            inr ((x.0, l), (rw (best, goes, matching_level, best_opposite), found, ground arith))
        | inr stops ↦ inl (rw (best, stops, matching_level, best_opposite))
      ]
]

-- What `match` leaves: a well-formed book of no more activity and an order of no more open quantity.
pub record IsMatch (o : Order) (b : PriceLevelOrderBook) (o' : Order) (b' : PriceLevelOrderBook)
    : Type 0 where
  pub well_formed : IsWellFormed b'
  pub progress : IsProgress b b'
  pub same_order : IsSameOrder o o'

IsSameOrder_trans : {o p q : Order} → IsSameOrder o p → IsSameOrder p q → IsSameOrder o q
IsSameOrder_trans s t = record {
  same_id = t.same_id ∙ s.same_id;
  same_type = t.same_type ∙ s.same_type;
  same_side = t.same_side ∙ s.same_side;
  same_time_in_force = t.same_time_in_force ∙ s.same_time_in_force;
  same_symbol = t.same_symbol ∙ s.same_symbol;
  same_price = t.same_price ∙ s.same_price;
  same_stop_price = t.same_stop_price ∙ s.same_stop_price;
  no_more = omega (arith, s.no_more, t.no_more);
}

pub IsMatch-refl : (o : Order) (b : PriceLevelOrderBook) → IsWellFormed b → IsMatch o b o b
IsMatch-refl o b w = record {
  well_formed = w;
  progress = IsProgress-refl b;
  same_order = record {
    same_id = refl;
    same_type = refl;
    same_side = refl;
    same_time_in_force = refl;
    same_symbol = refl;
    same_price = refl;
    same_stop_price = refl;
    no_more = omega arith;
  };
}

pub HasRoom-less : {q r : ℕ} {b : PriceLevelOrderBook} → r ≤ q → HasRoom q b → HasRoom r b
HasRoom-less h k = record { room = λ is d. omega (arith, k.room is d) }

-- A loop with nothing left to match, or with fuel for its rounds.
abbrev pub HasFuel : ℕ → Order → PriceLevelOrderBook → Type 0
HasFuel fuel o b = ((o.open_quantity ≡ 0) × (0 < fuel)) ⊎ (activity b + 1 < fuel)

module _ {bound : ℕ} {activate : PriceLevelOrderBook → Outcome PriceLevelOrderBook}
    (nested : Settles bound activate) where
  -- On a well-formed book the loop of `match` returns, keeps the book well-formed, adds no order and
  -- no open quantity, and at its end no level matches the order any more; if there is fuel for its
  -- rounds and for the nested calls, and the order's open quantity fits beside what is open.
  pub match_loop-Returns :
      (fuel : ℕ) (o : Order) (b : PriceLevelOrderBook)
      → IsWellFormed b
      → activity b ≤ bound
      → HasRoom o.open_quantity b
      → HasFuel fuel o b
      → Returns
          (match_loop activate fuel o b)
          (λ t. IsMatch o b t.0 t.1 × (matching_level t.0 t.1 ≡ none))
  unfolding match_loop
  match_loop-Returns zero o b w small room fuel = absurd (omega arith)
  match_loop-Returns (suc n) o b w small room fuel = elim (matching_cases o b) [
    | inl over ↦ rw (over, match_loop) (IsMatch-refl o b w, over)
    | inr ((p, l), (goes, found, some_open)) ↦
        rw (goes, match_loop)
          (Returns->>= (λ t. IsMatch o b t.0 t.1 × (matching_level t.0 t.1 ≡ none))
            (match_front activate (record { levels = opposite o.side; price = p }) o b) _
            (match_front-Returns nested (opposite o.side) p o b l w small room refl found)
            λ (o', b') r.
              Returns-mono (λ t. IsMatch o b t.0 t.1 × (matching_level t.0 t.1 ≡ none))
                (match_loop activate n o' b')
                (match_loop-Returns n o' b' r.well_formed (omega (arith, r.progress.calmer))
                  (HasRoom-less r.same_order.no_more
                    (IsProgress-HasRoom o.open_quantity r.progress room))
                  (ground (arith, r.ends)))
                λ t (m, over). (
                  record {
                    well_formed = m.well_formed;
                    progress = IsProgress-trans r.progress m.progress;
                    same_order = IsSameOrder_trans r.same_order m.same_order;
                  },
                  over,
                ))
  ]
