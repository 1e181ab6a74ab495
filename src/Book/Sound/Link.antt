-- ===== src/Book/Sound/Link.antt =====
-- A new order is stored as a loose one, a loose order may be rewritten, and it is linked to a level.
use quanta_trader.Common.{
  ℕ, ◌<◌, ◌≤◌, ◌≡◌, ◌⊎◌, refl, sym, ◌∙◌, ap, inl, inr, arith, true, false, ◌==◌, Bool-cases, Option,
  none, some, List, [], ◌∷◌, ◌++◌, add64, add64-eq_of_lt, u64_mod, ==-eq,
}
use quanta_trader.Order.{Order}
use quanta_trader.Level.{Level, linked, new_level}
use quanta_trader.Book.State.{LevelsName, OrderWithLevelIterator}
use quanta_trader.Book.Insert.{level_side}
use quanta_trader.Book.Sound.{
  Orders, Shelves, IsFiled, InLevel, IsStocked, IsMember, IsSound, IsLevelWrite, IsOrderWrite,
  level_write_cases, order_write_other, order_write_self, Distinct, total, open_of, linked-add,
  Distinct-add, is_empty-add, total-add, total_other, same_place_refl,
}

-- The bound on open quantities is kept by a write that makes none larger.
pub total_le :
    {i : ℕ} {value : Option OrderWithLevelIterator} {orders orders' : Orders}
    → IsOrderWrite i value orders orders'
    → open_of value ≤ open_of (orders i)
    → (is : List ℕ) → total orders' is ≤ total orders is
total_le w h [] = omega arith
total_le {i} w h (j ∷ is) = elim (Bool-cases (j == i)) [
  | inl same ↦ ground (arith, total_le w h is, ==-eq j i same, order_write_self w)
  | inr ne ↦ ground (arith, total_le w h is, order_write_other w j ne)
]

-- An id that no order has may be called loose.
pub loosen-IsSound :
    {loose : List ℕ} {s : ℕ} {orders : Orders} {shelves : Shelves} (i : ℕ)
    → IsSound loose s orders shelves
    → orders i ≡ none
    → IsSound (i ∷ loose) s orders shelves
unfolding linked
loosen-IsSound i sound absent = record {
  filed = sound.filed;
  placed = λ j f h free. sound.placed j f h (ground arith);
  stocked = sound.stocked;
  member = λ k p l j h link.
      let (f, m, n, o, q) = sound.member k p l j h link in
      elim (Bool-cases (j == i)) [
        | inl same ↦ absurd (ground (arith, ==-eq j i same))
        | inr ne ↦ (f, m, n, o, ground arith)
      ];
  volume = sound.volume;
  bounded = sound.bounded;
}

-- No level links a loose order.
loose_unlinked :
    {loose : List ℕ} {s : ℕ} {orders : Orders} {shelves : Shelves} (i : ℕ)
    → IsSound (i ∷ loose) s orders shelves
    → (k : LevelsName) (p : ℕ) (l : Level) → shelves k p ≡ some l
    → linked i l.orders ≡ false
unfolding linked
loose_unlinked i sound k p l h = elim (Bool-cases (linked i l.orders)) [
  | inl link ↦ let (f, m, n, o, q) = sound.member k p l i h link in absurd (ground arith)
  | inr free ↦ free
]

-- A loose order may be written anew.
module _ {loose : List ℕ} {s : ℕ} {orders orders' : Orders} {shelves : Shelves} (i : ℕ)
    (e : OrderWithLevelIterator) (sound : IsSound (i ∷ loose) s orders shelves)
    (write : IsOrderWrite i (some e) orders orders') where
  rewrite-IsFiled :
      IsFiled s i e → (j : ℕ) (f : OrderWithLevelIterator) → orders' j ≡ some f → IsFiled s j f
  rewrite-IsFiled fresh j f h = elim (Bool-cases (j == i)) [
    | inl same ↦ ground (arith, ==-eq j i same, order_write_self write)
    | inr ne ↦ sound.filed j f (sym (order_write_other write j ne) ∙ h)
  ]

  pub rewrite-IsSound :
      IsFiled s i e
      → ((is : List ℕ) → Distinct is → total orders' is < u64_mod)
      → IsSound (i ∷ loose) s orders' shelves
  unfolding linked
  rewrite-IsSound fresh bound = record {
    filed = rewrite-IsFiled fresh;
    placed =
        λ j f h free. sound.placed j f (sym (order_write_other write j (ground arith)) ∙ h) free;
    stocked = sound.stocked;
    member = λ k p l j h link.
        let (f, m, n, o, q) = sound.member k p l j h link in
        (f, order_write_other write j (ground arith) ∙ m, n, o, q);
    volume = λ k p l h.
        sound.volume k p l h
        ∙ sym (
            total_other i orders orders' (order_write_other write) l.orders
              (loose_unlinked i sound k p l h));
    bounded = bound;
  }

-- A level with one order more at its end.
abbrev pub with_order : Order → ℕ → Level → Level
with_order order i level = record level {
  volume = add64 level.volume order.open_quantity;
  orders = level.orders ++ i ∷ [];
}

-- The level to which an order is linked: one that is there, or a new one.
abbrev pub IsTarget : ℕ → LevelsName → ℕ → Shelves → Level → Type 0
IsTarget s k p shelves level =
    (shelves k p ≡ some level) ⊎ ((shelves k p ≡ none) × (level ≡ new_level p (level_side k) s))

module _ {loose : List ℕ} {s : ℕ} {orders : Orders} {shelves shelves' : Shelves} (i : ℕ)
    (e : OrderWithLevelIterator) (level : Level) (sound : IsSound (i ∷ loose) s orders shelves)
    (stored : orders i ≡ some e) (tied : linked i loose ≡ false)
    (target : IsTarget s e.level_it.levels e.level_it.price shelves level)
    (write : IsLevelWrite e.level_it.levels e.level_it.price
      (some (with_order e.order i level))
      shelves
      shelves') where
  abbrev IsOld : Level → Type 0
  IsOld l =
      (l.price ≡ e.level_it.price)
      × (l.side ≡ level_side e.level_it.levels)
      × (l.symbol_id ≡ s)
      × Distinct l.orders
      × (l.volume ≡ total orders l.orders)
      × (linked i l.orders ≡ false)

  target-IsOld : IsTarget s e.level_it.levels e.level_it.price shelves level → IsOld level
  unfolding new_level linked
  target-IsOld (inl h) =
      let old = sound.stocked e.level_it.levels e.level_it.price level h in
      (
        old.level_price,
        old.right_side,
        old.level_symbol,
        old.distinct,
        sound.volume e.level_it.levels e.level_it.price level h,
        loose_unlinked i sound e.level_it.levels e.level_it.price level h,
      )
  target-IsOld (inr (_, h)) = rw h (refl, refl, refl, tt, refl, refl)

  target_linked :
      (j : ℕ) (l : Level)
      → IsTarget s e.level_it.levels e.level_it.price shelves level
      → shelves e.level_it.levels e.level_it.price ≡ some l
      → level ≡ l
  target_linked j l (inl h) a = ground arith
  target_linked j l (inr (h, _)) a = absurd (ground arith)

  target-IsMember :
      (j : ℕ)
      → IsTarget s e.level_it.levels e.level_it.price shelves level
      → linked j level.orders ≡ true
      → IsMember (i ∷ loose) orders e.level_it.levels e.level_it.price j
  unfolding new_level linked
  target-IsMember j (inl h) link = sound.member e.level_it.levels e.level_it.price level j h link
  target-IsMember j (inr (_, h)) link = absurd (ground arith)

  link-placed :
      (j : ℕ) (f : OrderWithLevelIterator)
      → orders j ≡ some f
      → linked j loose ≡ false
      → InLevel j f.level_it shelves'
  unfolding linked
  link-placed j f h free = elim (Bool-cases (j == i)) [
    | inl same ↦ (
      with_order e.order i level,
      ground (
        arith,
        ==-eq j i same,
        write.level_write e.level_it.levels e.level_it.price,
        same_place_refl e.level_it.levels e.level_it.price,
      ),
      ground (arith, linked-add j i level.orders),
    )
    | inr ne ↦
        let (l, a, b) = sound.placed j f h (ground arith) in
        elim (level_write_cases write f.level_it.levels f.level_it.price) [
          | inl (x, y, z) ↦ (
            with_order e.order i level,
            z,
            ground (arith, linked-add j i level.orders, target_linked j l target (ground arith)),
          )
          | inr (_, z) ↦ (l, z ∙ a, b)
        ]
  ]

  link-IsStocked : (k : LevelsName) (p : ℕ) (l : Level) → shelves' k p ≡ some l → IsStocked s k p l
  link-IsStocked k p l h = elim (level_write_cases write k p) [
    | inl (x, y, z) ↦
        let (a, b, c, d, _, free) = target-IsOld target in
        let same : with_order e.order i level ≡ l = ground arith in
        rw (← same) (record {
          level_price = a ∙ sym y;
          right_side = b ∙ ap level_side (sym x);
          level_symbol = c;
          nonempty = is_empty-add i level.orders;
          distinct = Distinct-add i level.orders d free;
        })
    | inr (_, z) ↦ sound.stocked k p l (sym z ∙ h)
  ]

  link-IsMember :
      (k : LevelsName) (p : ℕ) (l : Level) (j : ℕ)
      → shelves' k p ≡ some l
      → linked j l.orders ≡ true
      → IsMember loose orders k p j
  unfolding linked
  link-IsMember k p l j h link = elim (level_write_cases write k p) [
    | inl (x, y, z) ↦ elim (Bool-cases (j == i)) [
      | inl same ↦ (e, ground (arith, ==-eq j i same), sym x, sym y, ground (arith, ==-eq j i same))
      | inr ne ↦
          let (f, m, n, o, q) =
            target-IsMember j target (ground (arith, linked-add j i level.orders)) in
          (f, m, n ∙ sym x, o ∙ sym y, ground arith)
    ]
    | inr (_, z) ↦
        let (f, m, n, o, q) = sound.member k p l j (sym z ∙ h) link in (f, m, n, o, ground arith)
  ]

  link-volume :
      (k : LevelsName) (p : ℕ) (l : Level)
      → shelves' k p ≡ some l
      → l.volume ≡ total orders l.orders
  link-volume k p l h = elim (level_write_cases write k p) [
    | inl (x, y, z) ↦
        let (_, _, _, d, v, free) = target-IsOld target in
        let same : with_order e.order i level ≡ l = ground arith in
        let t = total-add orders i level.orders in
        let o : open_of (orders i) ≡ e.order.open_quantity = ap open_of stored in
        let bound = sound.bounded (level.orders ++ i ∷ []) (Distinct-add i level.orders d free) in
        rw (← same) (omega (arith, add64-eq_of_lt level.volume e.order.open_quantity))
    | inr (_, z) ↦ sound.volume k p l (sym z ∙ h)
  ]

  -- Linking a loose order to the level of its iterator, which may be a new one, leaves a sound book.
  pub link-IsSound : IsSound loose s orders shelves'
  link-IsSound = record {
    filed = sound.filed;
    placed = link-placed;
    stocked = link-IsStocked;
    member = link-IsMember;
    volume = link-volume;
    bounded = sound.bounded;
  }
