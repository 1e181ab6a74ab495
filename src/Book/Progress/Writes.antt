-- ===== src/Book/Progress/Writes.antt =====
-- Writes to the maps of a book, as writes at one place or id.
use quanta_trader.Common.{
  ℕ, ◌≡◌, arith, inl, inr, true, ◌==◌, if◌then◌else◌, Bool-cases, Option-cases, ==-eq, Option, none,
  some,
}
use quanta_trader.Common.Maps.{
  Map, find, put, erase, emplace, emplace_old, find-put, find-erase, find-emplace_new,
}
use quanta_trader.Common.Maps.Ascending.{IsAscending}
use quanta_trader.Level.{Level}
use quanta_trader.Book.State.{
  PriceLevelOrderBook, LevelsName, OrderWithLevelIterator, same_levels, set_levels, put_level,
}
use quanta_trader.Book.Sound.{Shelves, IsLevelWrite, IsOrderWrite, same_levels-eq}
use quanta_trader.Book.Progress.{shelves_of}

-- A new map under one name, which differs from the old one at one key.
set_levels-write :
    (k : LevelsName) (p : ℕ) (value : Option Level) (m : Map Level) (b : PriceLevelOrderBook)
    → ((q : ℕ) → find q m ≡ (if q == p then value else find q (b.levels k)))
    → IsLevelWrite k p value (shelves_of b) (shelves_of (set_levels k m b))
set_levels-write k p value m b h = record {
  level_write = λ j q. elim (Bool-cases (same_levels j k)) [
    | inl same ↦ ground (arith, h q, same_levels-eq j k same)
    | inr other ↦ ground arith
  ];
}

pub same_levels_refl : (k : LevelsName) → same_levels k k ≡ true
same_levels_refl k = ground arith

-- The map that a write put under a name.
pub set_levels_self :
    (k : LevelsName) (m : Map Level) (b : PriceLevelOrderBook) → (set_levels k m b).levels k ≡ m
set_levels_self k m b = rw same_levels_refl

pub put_level-write :
    (k : LevelsName) (p : ℕ) (level : Level) (b : PriceLevelOrderBook)
    → IsLevelWrite k p
        (some level)
        (shelves_of b)
        (shelves_of (put_level (record { levels = k; price = p }) level b))
put_level-write k p level b =
    set_levels-write k p (some level) (put p level (b.levels k)) b
      (λ q. find-put q p level (b.levels k))

pub erase_levels-write :
    (k : LevelsName) (p : ℕ) (b : PriceLevelOrderBook)
    → IsLevelWrite k p none (shelves_of b) (shelves_of (set_levels k (erase p (b.levels k)) b))
erase_levels-write k p b =
    set_levels-write k p none (erase p (b.levels k)) b (λ q. find-erase q p (b.levels k))

pub emplace_found :
    (p q : ℕ) (level base : Level) (m : Map Level)
    → find p (emplace p level m) ≡ some base
    → find q (emplace p level m) ≡ (if q == p then some base else find q m)
emplace_found p q level base m h = elim (Option-cases (find p m)) [
  | inl new ↦ ground (arith, find-emplace_new q p level m new, find-emplace_new p p level m new)
  | inr (old, found) ↦
      let e = emplace_old p level old m found in
      elim (Bool-cases (q == p)) [ inl same ↦ ground (arith, ==-eq q p same) | inr ne ↦ rw (ne, e) ]
]

-- `emplace` leaves some level at the place, which is then the one found there.
pub emplace_levels-write :
    (k : LevelsName) (p : ℕ) (level base : Level) (b : PriceLevelOrderBook)
    → find p (emplace p level (b.levels k)) ≡ some base
    → IsLevelWrite k p
        (some base)
        (shelves_of b)
        (shelves_of (set_levels k (emplace p level (b.levels k)) b))
emplace_levels-write k p level base b h =
    set_levels-write k p (some base) (emplace p level (b.levels k)) b
      (λ q. emplace_found p q level base (b.levels k) h)

-- Of two writes at a place the second one stays.
pub IsLevelWrite-twice :
    {k : LevelsName} {p : ℕ} {v w : Option Level} {x y z : Shelves}
    → IsLevelWrite k p v x y
    → IsLevelWrite k p w y z
    → IsLevelWrite k p w x z
IsLevelWrite-twice s t = record {
  level_write = λ j q. ground (arith, s.level_write j q, t.level_write j q);
}

pub put-write :
    (i : ℕ) (e : OrderWithLevelIterator) (m : Map OrderWithLevelIterator)
    → IsOrderWrite i (some e) (λ j. find j m) (λ j. find j (put i e m))
put-write i e m = record { order_write = λ j. find-put j i e m }

pub erase-write :
    (i : ℕ) (m : Map OrderWithLevelIterator)
    → IsOrderWrite i none (λ j. find j m) (λ j. find j (erase i m))
erase-write i m = record { order_write = λ j. find-erase j i m }

pub emplace-write :
    (i : ℕ) (e : OrderWithLevelIterator) (m : Map OrderWithLevelIterator)
    → find i m ≡ none
    → IsOrderWrite i (some e) (λ j. find j m) (λ j. find j (emplace i e m))
emplace-write i e m h = record { order_write = λ j. find-emplace_new j i e m h }

-- The order of the keys, for a new map under one name.
pub set_levels-IsAscending :
    (k : LevelsName) (m : Map Level) (b : PriceLevelOrderBook)
    → IsAscending m
    → ((j : LevelsName) → IsAscending (b.levels j))
    → (j : LevelsName) → IsAscending ((set_levels k m b).levels j)
set_levels-IsAscending k m b h a j = elim (Bool-cases (same_levels j k)) [
  | inl same ↦ rw same h
  | inr other ↦ rw other (a j)
]

-- Two maps that differ at one key, under one name of a book.
pub swap_levels-write :
    (k : LevelsName) (p : ℕ) (value : Option Level) (m m' : Map Level) (b : PriceLevelOrderBook)
    → ((q : ℕ) → find q m' ≡ (if q == p then value else find q m))
    → IsLevelWrite k p value (shelves_of (set_levels k m b)) (shelves_of (set_levels k m' b))
swap_levels-write k p value m m' b h = record {
  level_write = λ j q. elim (Bool-cases (same_levels j k)) [
    | inl same ↦ ground (arith, h q)
    | inr other ↦ ground arith
  ];
}
