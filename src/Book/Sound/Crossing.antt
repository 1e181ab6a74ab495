-- ===== src/Book/Sound/Crossing.antt =====
-- The best prices of the two sides do not meet: nothing that rests in the book could be traded.
use quanta_trader.Common.{ℕ, ◌<◌, ◌≡◌, arith, Option, some}
use quanta_trader.Level.{Level}
use quanta_trader.Book.State.{
  LevelsName, sell_levels, buy_levels, stop_sell_levels, stop_buy_levels, trailing_stop_sell_levels,
  trailing_stop_buy_levels,
}
use quanta_trader.Book.Sound.{Shelves, IsLevelWrite}

-- Every price at which there are buy orders lies below every price at which there are sell orders.
pub record IsUncrossed (shelves : Shelves) : Type 0 where
  pub apart :
      (p q : ℕ) (l m : Level)
      → shelves sell_levels p ≡ some l
      → shelves buy_levels q ≡ some m
      → q < p

-- Limit orders of the other side rest at worse prices only.
abbrev pub IsApart : LevelsName → ℕ → Shelves → Type 0
IsApart sell_levels p shelves = (q : ℕ) (m : Level) → shelves buy_levels q ≡ some m → q < p
IsApart buy_levels q shelves = (p : ℕ) (l : Level) → shelves sell_levels p ≡ some l → q < p
IsApart stop_sell_levels p shelves = Unit
IsApart stop_buy_levels p shelves = Unit
IsApart trailing_stop_sell_levels p shelves = Unit
IsApart trailing_stop_buy_levels p shelves = Unit

-- A place that had a level stays as far from the other side.
IsApart-old :
    (k : LevelsName) (p : ℕ) (level : Level) {shelves : Shelves}
    → IsUncrossed shelves
    → shelves k p ≡ some level
    → IsApart k p shelves
IsApart-old sell_levels p level u h = λ q m. u.apart p q level m h
IsApart-old buy_levels p level u h = λ q m g. u.apart q p m level g h
IsApart-old stop_sell_levels p level u h = tt
IsApart-old stop_buy_levels p level u h = tt
IsApart-old trailing_stop_sell_levels p level u h = tt
IsApart-old trailing_stop_buy_levels p level u h = tt

module _ {shelves shelves' : Shelves} (u : IsUncrossed shelves) where
  pub IsUncrossed-write_apart :
      (k : LevelsName) (p : ℕ) {value : Option Level}
      → IsLevelWrite k p value shelves shelves'
      → IsApart k p shelves
      → IsUncrossed shelves'
  IsUncrossed-write_apart sell_levels p w a = record {
    apart = λ x y l m h g.
        ground
          (arith, w.level_write sell_levels x, w.level_write buy_levels y, u.apart x y l m, a y m);
  }
  IsUncrossed-write_apart buy_levels p w a = record {
    apart = λ x y l m h g.
        ground
          (arith, w.level_write sell_levels x, w.level_write buy_levels y, u.apart x y l m, a x l);
  }
  IsUncrossed-write_apart stop_sell_levels p w a = record {
    apart = λ x y l m h g.
        ground (arith, w.level_write sell_levels x, w.level_write buy_levels y, u.apart x y l m);
  }
  IsUncrossed-write_apart stop_buy_levels p w a = record {
    apart = λ x y l m h g.
        ground (arith, w.level_write sell_levels x, w.level_write buy_levels y, u.apart x y l m);
  }
  IsUncrossed-write_apart trailing_stop_sell_levels p w a = record {
    apart = λ x y l m h g.
        ground (arith, w.level_write sell_levels x, w.level_write buy_levels y, u.apart x y l m);
  }
  IsUncrossed-write_apart trailing_stop_buy_levels p w a = record {
    apart = λ x y l m h g.
        ground (arith, w.level_write sell_levels x, w.level_write buy_levels y, u.apart x y l m);
  }

  -- A write at a place that has a level opens no new price.
  pub IsUncrossed-write :
      (k : LevelsName) (p : ℕ) (level : Level) {value : Option Level}
      → IsLevelWrite k p value shelves shelves'
      → shelves k p ≡ some level
      → IsUncrossed shelves'
  IsUncrossed-write k p level w h = IsUncrossed-write_apart k p w (IsApart-old k p level u h)
