-- ===== src/Book/Queue/Deleting.antt =====
-- `deleteOrder` on the two queues of a book.
use quanta_trader.Common.{
  ℕ, ◌≡◌, refl, ◌∙◌, ap, arith, true, false, ◌==◌, ==-eq, Bool-cases, inl, inr, some, List, [], ◌∷◌,
  is_empty,
}
use quanta_trader.Common.Maps.{find, put, erase, erase-put}
use quanta_trader.Order.{OrderSide}
use quanta_trader.Level.{Level, linked, unlink}
use quanta_trader.Event.{order_deleted}
use quanta_trader.Book.State.{
  PriceLevelOrderBook, LevelsName, OrderWithLevelIterator, same_levels, notify,
}
use quanta_trader.Book.Match.{opposite}
use quanta_trader.Book.Sound.{order_write_other, same_levels-eq}
use quanta_trader.Book.Progress.{orders_of, shelves_of}
use quanta_trader.Book.Sound.{IsSound}
use quanta_trader.Book.Sound.Crossing.{IsUncrossed}
use quanta_trader.Common.Maps.Ascending.{IsAscending}
use quanta_trader.Book.Progress.Removal
use quanta_trader.Book.Progress.Removal.{left_level, removed}
use quanta_trader.Book.Progress.Writes.{same_levels_refl, set_levels_self}
use quanta_trader.Book.Queue.{queue, ranked, flatten}
use quanta_trader.Book.Queue.Levels.{AllLevels, AllLevels-found, AllLevels-ranked}
use quanta_trader.Book.Queue.Leaving.{
  without, adjust, IsOnly, without-flatten, flatten-adjust, flatten-erase, flatten-absent,
  ranked-erase, ranked-adjust, put-adjust,
}
use quanta_trader.Book.Queue.Quiet.{HasNoStops, HasNoStops-beside}

is_empty-eq : (is : List ℕ) → is_empty is ≡ true → is ≡ []
is_empty-eq [] h = refl
is_empty-eq (i ∷ is) h = cc

module _ (b : PriceLevelOrderBook) (sound : IsSound [] b.symbol_id (orders_of b) (shelves_of b))
    (ascending : (k : LevelsName) → IsAscending (b.levels k))
    (uncrossed : IsUncrossed (shelves_of b)) (i : ℕ) (e : OrderWithLevelIterator)
    (stored : find i b.orders ≡ some e) (level : Level)
    (at_level : find e.level_it.price (b.levels e.level_it.levels) ≡ some level)
    (link : linked i level.orders ≡ true) where
  abbrev k : LevelsName
  k = e.level_it.levels

  abbrev p : ℕ
  p = e.level_it.price

  abbrev after : PriceLevelOrderBook
  after = removed i e level b

  abbrev left : Level
  left = left_level i e level

  -- The level of the order is the only one that links it.
  only : (side : OrderSide) → AllLevels (IsOnly i p level) (ranked side (b.levels k))
  only side = AllLevels-ranked (IsOnly i p level) side (b.levels k) (
      AllLevels-found (IsOnly i p level) (b.levels k) (ascending k) λ q l found. (
        (sound.stocked k q l found).distinct,
        λ same. ground (arith, ==-eq p q same),
        λ ne. elim (Bool-cases (linked i l.orders)) [
          | inr free ↦ free
          | inl here ↦
              let (f, there, x, y, _) = sound.member k q l i found here in absurd (ground arith)
        ],
      ))

  after_other : (j : ℕ) → (j == i) ≡ false → find j after.orders ≡ find j b.orders
  after_other =
      order_write_other
        (Removal.removed-write b sound ascending uncrossed i e stored level at_level link)

  levelled_levels : (Removal.levelled i e level b).levels k ≡ put p left (b.levels k)
  levelled_levels = set_levels_self k (put p left (b.levels k)) (notify (order_deleted e.order) b)

  levels_gone : is_empty (unlink i level.orders) ≡ true → after.levels k ≡ erase p (b.levels k)
  levels_gone gone =
      let old = Removal.levelled i e level b in
      rw gone (
        set_levels_self k (erase p (old.levels k)) old
        ∙ ap (erase p) levelled_levels
        ∙ erase-put p left (b.levels k))

  levels_stay :
      is_empty (unlink i level.orders) ≡ false → after.levels k ≡ adjust p left (b.levels k)
  levels_stay stays =
      rw stays (levelled_levels ∙ put-adjust p level left (b.levels k) at_level (ascending k))

  others_kept : (j : LevelsName) → same_levels j k ≡ false → after.levels j ≡ b.levels j
  others_kept j away = elim (Bool-cases (is_empty (unlink i level.orders))) [
    | inl gone ↦ rw gone (rw away)
    | inr stays ↦ rw stays (rw away)
  ]

  -- The queue of the order's own levels.
  own_queue :
      (side : OrderSide)
      → flatten (orders_of after) (ranked side (after.levels k))
        ≡ without i (flatten (orders_of after) (ranked side (b.levels k)))
  own_queue side = elim (Bool-cases (is_empty (unlink i level.orders))) [
    | inl gone ↦
        ap (λ m. flatten (orders_of after) (ranked side m)) (levels_gone gone)
        ∙ ap (flatten (orders_of after)) (ranked-erase p side (b.levels k))
        ∙ flatten-erase i (orders_of after) p level (is_empty-eq (unlink i level.orders) gone)
            (ranked side (b.levels k)) (only side)
    | inr stays ↦
        ap (λ m. flatten (orders_of after) (ranked side m)) (levels_stay stays)
        ∙ ap (flatten (orders_of after)) (ranked-adjust p left side (b.levels k))
        ∙ flatten-adjust i (orders_of after) p level left refl (ranked side (b.levels k))
            (only side)
  ]

  -- The levels of another map link other orders.
  absent_elsewhere :
      (side : OrderSide) (j : LevelsName)
      → same_levels j k ≡ false
      → AllLevels (λ x. linked i x.1.orders ≡ false) (ranked side (b.levels j))
  absent_elsewhere side j away =
      AllLevels-ranked (λ x. linked i x.1.orders ≡ false) side (b.levels j)
        (AllLevels-found (λ x. linked i x.1.orders ≡ false) (b.levels j) (ascending j)
          λ q l found. elim (Bool-cases (linked i l.orders)) [
            | inr free ↦ free
            | inl here ↦
                let (f, there, x, y, _) = sound.member j q l i found here in
                let same : k ≡ j = ground arith in absurd (ground (arith, same_levels_refl j))
          ])

  -- Each queue loses the order, and nothing else.
  pub queue-removed : (side : OrderSide) → queue side after ≡ without i (queue side b)
  queue-removed side =
      let j = opposite side in
      let same_rest =
        without-flatten i (orders_of b) (orders_of after) after_other (ranked side (b.levels j)) in
      elim (Bool-cases (same_levels j k)) [
        | inl same ↦ let own = own_queue side in (rw (same_levels-eq j k same) own) ∙ same_rest
        | inr away ↦
            ap (λ m. flatten (orders_of after) (ranked side m)) (others_kept j away)
            ∙ flatten-absent i (orders_of after) p level (ranked side (b.levels j))
                (absent_elsewhere side j away)
            ∙ same_rest
      ]

  pub removed_price : after.last_traded_price ≡ b.last_traded_price
  removed_price = elim (Bool-cases (is_empty (unlink i level.orders))) [
    | inl gone ↦ rw gone
    | inr stays ↦ rw stays
  ]

  -- An order of a book without stop orders leaves a book without stop orders.
  pub removed-HasNoStops : HasNoStops b → HasNoStops after
  removed-HasNoStops = HasNoStops-beside b after k p level at_level others_kept
