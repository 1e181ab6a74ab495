-- ===== src/Book/Sound/Unlink.antt =====
-- An order that leaves its level becomes a loose one, and a loose order may be erased.
use quanta_trader.Common.{
  ℕ, ◌≤◌, ◌≡◌, refl, sym, ◌∙◌, ap, inl, inr, arith, true, false, ◌==◌, if◌then◌else◌, Bool-cases,
  Option, none, some, List, [], ◌∷◌, is_empty, sub64, sub64-eq_of_le, ==-eq,
}
use quanta_trader.Order.{Order}
use quanta_trader.Level.{Level, linked, unlink}
use quanta_trader.Book.State.{LevelsName, OrderWithLevelIterator}
use quanta_trader.Book.Insert.{level_side}
use quanta_trader.Book.Sound.{
  Orders, Shelves, InLevel, IsStocked, IsMember, IsSound, IsLevelWrite, IsOrderWrite,
  same_place_refl, level_write_cases, order_write_other, order_write_self, total, open_of,
  linked-unlink_ne, linked-unlink_self, Distinct-unlink, linked_empty, total-unlink, total_other,
}

-- What is left at a level's place when an order has gone: no level, if it was the last one.
abbrev pub without : Order → ℕ → Level → Option Level
without order i level =
    if is_empty (unlink i level.orders)
    then none
    else some (record level {
      volume = sub64 level.volume order.open_quantity;
      orders = unlink i level.orders;
    })

without_orders :
    (order : Order) (i : ℕ) (level left : Level)
    → without order i level ≡ some left
    → (left.orders ≡ unlink i level.orders)
      × (left.volume ≡ sub64 level.volume order.open_quantity)
      × (left.price ≡ level.price)
      × (left.side ≡ level.side)
      × (left.symbol_id ≡ level.symbol_id)
      × (is_empty left.orders ≡ false)
without_orders order i level left h = ground arith

without-linked :
    (order : Order) (i j : ℕ) (level : Level)
    → linked j (unlink i level.orders) ≡ true
    → (left : Level) × (without order i level ≡ some left) × (left.orders ≡ unlink i level.orders)
without-linked order i j level h = elim (Bool-cases (is_empty (unlink i level.orders))) [
  | inl gone ↦ absurd (ground (arith, linked_empty j (unlink i level.orders) gone))
  | inr stays ↦ (
    record level {
      volume = sub64 level.volume order.open_quantity;
      orders = unlink i level.orders;
    },
    rw stays,
    refl,
  )
]

linked_loose :
    (j i : ℕ) (loose : List ℕ)
    → linked j (i ∷ loose) ≡ false
    → ((j == i) ≡ false) × (linked j loose ≡ false)
unfolding linked
linked_loose j i loose h = ground arith

module _ {loose : List ℕ} {s : ℕ} {orders : Orders} {shelves shelves' : Shelves}
    (sound : IsSound loose s orders shelves) (i : ℕ) (e : OrderWithLevelIterator) (level : Level)
    (stored : orders i ≡ some e) (tied : linked i loose ≡ false)
    (at_level : shelves e.level_it.levels e.level_it.price ≡ some level)
    (write : IsLevelWrite e.level_it.levels e.level_it.price
      (without e.order i level)
      shelves
      shelves') where
  in_level : linked i level.orders ≡ true
  in_level = let (l, a, b) = sound.placed i e stored tied in ground arith

  unlink-placed :
      (j : ℕ) (f : OrderWithLevelIterator)
      → orders j ≡ some f
      → linked j (i ∷ loose) ≡ false
      → InLevel j f.level_it shelves'
  unlink-placed j f h free =
      let (ne, free') = linked_loose j i loose free in
      let (l, a, b) = sound.placed j f h free' in
      elim (level_write_cases write f.level_it.levels f.level_it.price) [
        | inl (x, y, z) ↦
            let (left, c, d) =
              without-linked e.order i j level
                (ground (arith, linked-unlink_ne j i level.orders ne)) in
            (left, z ∙ c, ground (arith, linked-unlink_ne j i level.orders ne))
        | inr (_, z) ↦ (l, z ∙ a, b)
      ]

  unlink-IsStocked :
      (k : LevelsName) (p : ℕ) (l : Level) → shelves' k p ≡ some l → IsStocked s k p l
  unlink-IsStocked k p l h = elim (level_write_cases write k p) [
    | inl (x, y, z) ↦
        let (a, b, c, d, f, g) = without_orders e.order i level l (sym z ∙ h) in
        let old = sound.stocked e.level_it.levels e.level_it.price level at_level in
        record {
          level_price = c ∙ old.level_price ∙ sym y;
          right_side = d ∙ old.right_side ∙ ap level_side (sym x);
          level_symbol = f ∙ old.level_symbol;
          nonempty = g;
          distinct = rw a (Distinct-unlink i level.orders old.distinct);
        }
    | inr (_, z) ↦ sound.stocked k p l (sym z ∙ h)
  ]

  unlink-IsMember :
      (k : LevelsName) (p : ℕ) (l : Level) (j : ℕ)
      → shelves' k p ≡ some l
      → linked j l.orders ≡ true
      → IsMember (i ∷ loose) orders k p j
  unfolding linked
  unlink-IsMember k p l j h link = elim (level_write_cases write k p) [
    | inl (x, y, z) ↦
        let (a, _, _, _, _, _) = without_orders e.order i level l (sym z ∙ h) in
        let old = sound.stocked e.level_it.levels e.level_it.price level at_level in
        elim (Bool-cases (j == i)) [
          | inl same ↦
              absurd
                (ground (arith, linked-unlink_self i level.orders old.distinct, ==-eq j i same))
          | inr ne ↦
              let (f, m, n, o, q) =
                sound.member e.level_it.levels e.level_it.price level j at_level
                  (ground (arith, linked-unlink_ne j i level.orders ne)) in
              (f, m, n ∙ sym x, o ∙ sym y, ground arith)
        ]
    | inr (other, z) ↦
        let (f, m, n, o, q) = sound.member k p l j (sym z ∙ h) link in
        elim (Bool-cases (j == i)) [
          | inl same ↦ absurd (ground (arith, ==-eq j i same, same_place_refl k p))
          | inr ne ↦ (f, m, n, o, ground arith)
        ]
  ]

  unlink-volume :
      (k : LevelsName) (p : ℕ) (l : Level)
      → shelves' k p ≡ some l
      → l.volume ≡ total orders l.orders
  unlink-volume k p l h = elim (level_write_cases write k p) [
    | inl (x, y, z) ↦
        let (a, b, _, _, _, _) = without_orders e.order i level l (sym z ∙ h) in
        let old = sound.stocked e.level_it.levels e.level_it.price level at_level in
        let t = total-unlink orders i level.orders in_level in
        let v = sound.volume e.level_it.levels e.level_it.price level at_level in
        let o : open_of (orders i) ≡ e.order.open_quantity = ap open_of stored in
        b
        ∙ rw a (
            omega (
              arith,
              sub64-eq_of_le level.volume e.order.open_quantity,
              sound.bounded level.orders old.distinct,
            ))
    | inr (_, z) ↦ sound.volume k p l (sym z ∙ h)
  ]

  -- Unlinking an order of the book, and dropping its level if it was the last there, leaves a sound
  -- book with that order loose.
  pub unlink-IsSound : IsSound (i ∷ loose) s orders shelves'
  unlink-IsSound = record {
    filed = sound.filed;
    placed = unlink-placed;
    stocked = unlink-IsStocked;
    member = unlink-IsMember;
    volume = unlink-volume;
    bounded = sound.bounded;
  }

-- Erasing a loose order leaves a sound book.
module _ {loose : List ℕ} {s : ℕ} {orders orders' : Orders} {shelves : Shelves} (i : ℕ)
    (sound : IsSound (i ∷ loose) s orders shelves) (tied : linked i loose ≡ false)
    (write : IsOrderWrite i none orders orders') where
  kept :
      (j : ℕ) (f : OrderWithLevelIterator)
      → orders' j ≡ some f
      → ((j == i) ≡ false) × (orders j ≡ some f)
  kept j f h = elim (Bool-cases (j == i)) [
    | inl same ↦ absurd (ground (arith, ==-eq j i same, order_write_self write))
    | inr ne ↦ (ne, sym (order_write_other write j ne) ∙ h)
  ]

  erased_total : (is : List ℕ) → linked i is ≡ false → total orders' is ≡ total orders is
  erased_total = total_other i orders orders' (order_write_other write)

  erased_unlinked :
      (k : LevelsName) (p : ℕ) (l : Level) → shelves k p ≡ some l → linked i l.orders ≡ false
  unfolding linked
  erased_unlinked k p l h = elim (Bool-cases (linked i l.orders)) [
    | inl link ↦ let (f, m, n, o, q) = sound.member k p l i h link in absurd (ground arith)
    | inr free ↦ free
  ]

  erased_bound : (is : List ℕ) → total orders' is ≤ total orders is
  erased_bound [] = omega arith
  erased_bound (j ∷ is) = elim (Bool-cases (j == i)) [
    | inl same ↦ ground (arith, erased_bound is, ==-eq j i same, order_write_self write)
    | inr ne ↦ ground (arith, erased_bound is, order_write_other write j ne)
  ]

  pub erase-IsSound : IsSound loose s orders' shelves
  unfolding linked
  erase-IsSound = record {
    filed = λ j f h. sound.filed j f (kept j f h).1;
    placed = λ j f h free. sound.placed j f (kept j f h).1 (ground (arith, kept j f h));
    stocked = sound.stocked;
    member = λ k p l j h link.
        let (f, m, n, o, q) = sound.member k p l j h link in
        (f, order_write_other write j (ground arith) ∙ m, n, o, ground arith);
    volume =
        λ k p l h. sound.volume k p l h ∙ sym (erased_total l.orders (erased_unlinked k p l h));
    bounded = λ is d. omega (arith, erased_bound is, sound.bounded is d);
  }
