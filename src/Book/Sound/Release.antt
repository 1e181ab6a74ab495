-- ===== src/Book/Sound/Release.antt =====
-- All orders of one of the maps are taken out of their levels at once.
use quanta_trader.Common.{
  ℕ, ◌≡◌, refl, sym, ◌∙◌, inl, inr, arith, true, false, ◌==◌, Bool-cases, if◌then◌else◌, none, some,
  List, [], ◌∷◌, ◌++◌, ==-eq,
}
use quanta_trader.Common.Maps.{Map, find}
use quanta_trader.Common.Maps.Ascending.{IsAscending, Above-find}
use quanta_trader.Level.{Level, linked}
use quanta_trader.Book.State.{LevelsName, OrderWithLevelIterator, same_levels}
use quanta_trader.Book.Sound.{
  Orders, Shelves, InLevel, IsMember, IsSound, same_levels-eq, Distinct, linked-append,
  Distinct-append,
}

-- The ids that the levels of a map link, level by level.
unfoldable pub all_ids : Map Level → List ℕ
all_ids [] = []
all_ids (e ∷ m) = e.1.orders ++ all_ids m

pub linked-all_ids :
    (i p : ℕ) (l : Level) (m : Map Level)
    → find p m ≡ some l
    → linked i l.orders ≡ true
    → linked i (all_ids m) ≡ true
unfolding find all_ids
linked-all_ids i p l [] h k = cc
linked-all_ids i p l (e ∷ m) h k =
    ground (arith, linked-append i e.1.orders (all_ids m), linked-all_ids i p l m)

-- The level of a map that links an id.
abbrev Home : ℕ → Map Level → Type 0
Home i m = (p : ℕ) × (l : Level) × (find p m ≡ some l) × (linked i l.orders ≡ true)

find_below :
    (p : ℕ) (e : ℕ × Level) (m : Map Level) {l : Level}
    → IsAscending (e ∷ m)
    → find p m ≡ some l
    → find p (e ∷ m) ≡ some l
unfolding find
find_below p e m a h = elim (Bool-cases (p == e.0)) [
  | inl same ↦ absurd (ground (arith, ==-eq p e.0 same, Above-find e.0 m a.0))
  | inr ne ↦ ground arith
]

home : (i : ℕ) (m : Map Level) → IsAscending m → linked i (all_ids m) ≡ true → Home i m
unfolding all_ids linked find
home i [] a h = cc
home i (e ∷ m) a h = elim (Bool-cases (linked i e.1.orders)) [
  | inl here ↦ (e.0, e.1, ground arith, here)
  | inr later ↦
      let (p, l, f, g) = home i m a.1 (ground (arith, linked-append i e.1.orders (all_ids m))) in
      (p, l, find_below p e m a f, g)
]

module _ {s : ℕ} {orders : Orders} {shelves : Shelves} (sound : IsSound [] s orders shelves)
    (k : LevelsName) where
  Distinct-ids :
      (m : Map Level)
      → IsAscending m
      → ((p : ℕ) (l : Level) → find p m ≡ some l → shelves k p ≡ some l)
      → Distinct (all_ids m)
  unfolding all_ids find
  Distinct-ids [] a h = tt
  Distinct-ids (e ∷ m) a h =
      Distinct-append e.1.orders (all_ids m)
        (sound.stocked k e.0 e.1 (h e.0 e.1 (ground arith))).distinct
        (Distinct-ids m a.1 (λ p l f. h p l (find_below p e m a f)))
        (λ i here. elim (Bool-cases (linked i (all_ids m))) [
          | inr free ↦ free
          | inl twice ↦
              let (p, l, f, g) = home i m a.1 twice in
              let (u, c₁, _, c₂, _) = sound.member k e.0 e.1 i (h e.0 e.1 (ground arith)) here in
              let (v, d₁, _, d₂, _) = sound.member k p l i (h p l (find_below p e m a f)) g in
              absurd (ground (arith, Above-find e.0 m a.0))
        ])

  module _ {shelves' : Shelves} (m : Map Level) (a : IsAscending m)
      (holds : (p : ℕ) → shelves k p ≡ find p m)
      (emptied : (j : LevelsName) (p : ℕ)
        → shelves' j p ≡ (if same_levels j k then none else shelves j p)) where
    pub released-Distinct : Distinct (all_ids m)
    released-Distinct = Distinct-ids m a (λ p l f. holds p ∙ f)

    -- A released order's iterator still names the map.
    pub released-levels :
        (i : ℕ)
        → linked i (all_ids m) ≡ true
        → (e : OrderWithLevelIterator) × (orders i ≡ some e) × (e.level_it.levels ≡ k)
    released-levels i h =
        let (p, l, f, g) = home i m a h in
        let (e, x, y, _, _) = sound.member k p l i (holds p ∙ f) g in (e, x, y)

    release-placed :
        (i : ℕ) (e : OrderWithLevelIterator)
        → orders i ≡ some e
        → linked i (all_ids m) ≡ false
        → InLevel i e.level_it shelves'
    unfolding linked
    release-placed i e h free =
        let (l, x, y) = sound.placed i e h refl in
        elim (Bool-cases (same_levels e.level_it.levels k)) [
          | inl same ↦
              let f : find e.level_it.price m ≡ some l =
                sym (holds e.level_it.price) ∙ rw (← same_levels-eq e.level_it.levels k same) x in
              absurd (ground (arith, linked-all_ids i e.level_it.price l m f y))
          | inr other ↦ (l, ground (arith, emptied e.level_it.levels e.level_it.price), y)
        ]

    remains :
        (j : LevelsName) (p : ℕ) (l : Level)
        → shelves' j p ≡ some l
        → (same_levels j k ≡ false) × (shelves j p ≡ some l)
    remains j p l h = ground (arith, emptied j p)

    release-IsMember :
        (j : LevelsName) (p : ℕ) (l : Level) (i : ℕ)
        → shelves' j p ≡ some l
        → linked i l.orders ≡ true
        → IsMember (all_ids m) orders j p i
    release-IsMember j p l i h g =
        let (other, old) = remains j p l h in
        let (e, x, y, z, _) = sound.member j p l i old g in
        elim (Bool-cases (linked i (all_ids m))) [
          | inr free ↦ (e, x, y, z, free)
          | inl gone ↦ let (f, u, v) = released-levels i gone in absurd (ground arith)
        ]

    -- The book with an empty map, and all orders of the old one loose, is sound.
    pub release-IsSound : IsSound (all_ids m) s orders shelves'
    release-IsSound = record {
      filed = sound.filed;
      placed = release-placed;
      stocked = λ j p l h. sound.stocked j p l (remains j p l h).1;
      member = release-IsMember;
      volume = λ j p l h. sound.volume j p l (remains j p l h).1;
      bounded = sound.bounded;
    }
