-- ===== src/Book/Sound/Trade.antt =====
-- An order loses some of its open quantity, and its level as much of its volume.
use quanta_trader.Common.{
  ℕ, ◌+◌, ◌≤◌, ◌≡◌, refl, sym, ◌∙◌, ap, inl, inr, arith, true, false, ◌==◌, Bool-cases, some, List,
  sub64, sub64-eq_of_le, ==-eq,
}
use quanta_trader.Order.{Order}
use quanta_trader.Level.{Level, linked}
use quanta_trader.Book.State.{LevelsName, OrderWithLevelIterator}
use quanta_trader.Book.Insert.{level_side}
use quanta_trader.Book.Sound.{
  Orders, Shelves, IsFiled, InLevel, IsStocked, IsMember, IsSound, IsLevelWrite, IsOrderWrite,
  level_write_cases, order_write_other, order_write_self, same_place, same_place_refl, total,
  open_of, total_changed, total_other, open-le-total,
}
use quanta_trader.Book.Sound.Link.{total_le}

module _ {loose : List ℕ} {s : ℕ} {orders orders' : Orders} {shelves shelves' : Shelves}
    (sound : IsSound loose s orders shelves) (i amount : ℕ) (e : OrderWithLevelIterator)
    (order : Order) (level : Level) (stored : orders i ≡ some e) (tied : linked i loose ≡ false)
    (at_level : shelves e.level_it.levels e.level_it.price ≡ some level)
    (traded : order.open_quantity + amount ≡ e.order.open_quantity)
    (fresh : IsFiled s i (record e { order = order }))
    (order_write : IsOrderWrite i (some (record e { order = order })) orders orders')
    (write : IsLevelWrite e.level_it.levels e.level_it.price
      (some (record level { volume = sub64 level.volume amount }))
      shelves
      shelves') where
  abbrev after : Level
  after = record level { volume = sub64 level.volume amount }

  in_level : linked i level.orders ≡ true
  in_level = let (l, a, b) = sound.placed i e stored tied in ground arith

  -- The amount is in the volume, as `reduceVolume` asserts.
  pub amount-le-volume : amount ≤ level.volume
  amount-le-volume =
      let v = sound.volume e.level_it.levels e.level_it.price level at_level in
      let o : open_of (orders i) ≡ e.order.open_quantity = ap open_of stored in
      omega (arith, open-le-total orders i level.orders in_level)

  before :
      (j : ℕ) (f : OrderWithLevelIterator)
      → orders' j ≡ some f
      → (g : OrderWithLevelIterator) × (orders j ≡ some g) × (g.level_it ≡ f.level_it)
  before j f h = elim (Bool-cases (j == i)) [
    | inl same ↦ (
      e,
      ground (arith, ==-eq j i same),
      ground (arith, ==-eq j i same, order_write_self order_write),
    )
    | inr ne ↦ (f, sym (order_write_other order_write j ne) ∙ h, refl)
  ]

  trade-IsFiled : (j : ℕ) (f : OrderWithLevelIterator) → orders' j ≡ some f → IsFiled s j f
  trade-IsFiled j f h = elim (Bool-cases (j == i)) [
    | inl same ↦ ground (arith, ==-eq j i same, order_write_self order_write)
    | inr ne ↦ sound.filed j f (sym (order_write_other order_write j ne) ∙ h)
  ]

  trade-placed :
      (j : ℕ) (f : OrderWithLevelIterator)
      → orders' j ≡ some f
      → linked j loose ≡ false
      → InLevel j f.level_it shelves'
  trade-placed j f h free =
      let (g, a, b) = before j f h in
      let (l, c, d) = sound.placed j g a free in
      elim (level_write_cases write f.level_it.levels f.level_it.price) [
        | inl (x, y, z) ↦ (after, z, ground arith)
        | inr (_, z) ↦ (l, ground arith, d)
      ]

  trade-IsStocked : (k : LevelsName) (p : ℕ) (l : Level) → shelves' k p ≡ some l → IsStocked s k p l
  trade-IsStocked k p l h = elim (level_write_cases write k p) [
    | inl (x, y, z) ↦
        let old = sound.stocked e.level_it.levels e.level_it.price level at_level in
        let same : after ≡ l = ground arith in
        rw (← same) (record {
          level_price = old.level_price ∙ sym y;
          right_side = old.right_side ∙ ap level_side (sym x);
          level_symbol = old.level_symbol;
          nonempty = old.nonempty;
          distinct = old.distinct;
        })
    | inr (_, z) ↦ sound.stocked k p l (sym z ∙ h)
  ]

  now : (k : LevelsName) (p j : ℕ) → IsMember loose orders k p j → IsMember loose orders' k p j
  now k p j (f, m, n, o, q) = elim (Bool-cases (j == i)) [
    | inl same ↦ (
      record e { order = order },
      ground (arith, ==-eq j i same, order_write_self order_write),
      ground (arith, ==-eq j i same),
      ground (arith, ==-eq j i same),
      q,
    )
    | inr ne ↦ (f, order_write_other order_write j ne ∙ m, n, o, q)
  ]

  trade-IsMember :
      (k : LevelsName) (p : ℕ) (l : Level) (j : ℕ)
      → shelves' k p ≡ some l
      → linked j l.orders ≡ true
      → IsMember loose orders' k p j
  trade-IsMember k p l j h link = elim (level_write_cases write k p) [
    | inl (x, y, z) ↦
        let (f, m, n, o, q) =
          now e.level_it.levels e.level_it.price j
            (sound.member e.level_it.levels e.level_it.price level j at_level (ground arith)) in
        (f, m, n ∙ sym x, o ∙ sym y, q)
    | inr (_, z) ↦ now k p j (sound.member k p l j (sym z ∙ h) link)
  ]

  elsewhere :
      (k : LevelsName) (p : ℕ) (l : Level)
      → shelves k p ≡ some l
      → same_place k p e.level_it.levels e.level_it.price ≡ false
      → linked i l.orders ≡ false
  elsewhere k p l h other = elim (Bool-cases (linked i l.orders)) [
    | inl link ↦
        let (f, m, n, o, q) = sound.member k p l i h link in
        absurd (ground (arith, same_place_refl k p))
    | inr free ↦ free
  ]

  trade-volume :
      (k : LevelsName) (p : ℕ) (l : Level)
      → shelves' k p ≡ some l
      → l.volume ≡ total orders' l.orders
  trade-volume k p l h = elim (level_write_cases write k p) [
    | inl (x, y, z) ↦
        let old = sound.stocked e.level_it.levels e.level_it.price level at_level in
        let v = sound.volume e.level_it.levels e.level_it.price level at_level in
        let same : after ≡ l = ground arith in
        let o : open_of (orders i) ≡ e.order.open_quantity = ap open_of stored in
        let o' : open_of (orders' i) ≡ order.open_quantity =
          ap open_of (order_write_self order_write) in
        let t =
          total_changed i orders orders' (order_write_other order_write) level.orders old.distinct
            in_level in
        rw (← same) (
          omega (
            arith,
            sub64-eq_of_le level.volume amount amount-le-volume,
            sound.bounded level.orders old.distinct,
          ))
    | inr (other, z) ↦
        sound.volume k p l (sym z ∙ h)
        ∙ sym (
            total_other i orders orders' (order_write_other order_write) l.orders
              (elsewhere k p l (sym z ∙ h) other))
  ]

  -- The book after the trade is sound.
  pub trade-IsSound : IsSound loose s orders' shelves'
  trade-IsSound = record {
    filed = trade-IsFiled;
    placed = trade-placed;
    stocked = trade-IsStocked;
    member = trade-IsMember;
    volume = trade-volume;
    bounded = λ is d.
        let o : open_of (orders i) ≡ e.order.open_quantity = ap open_of stored in
        omega (arith, total_le order_write (omega arith) is, sound.bounded is d);
  }
