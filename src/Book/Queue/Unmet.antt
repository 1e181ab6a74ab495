-- ===== src/Book/Queue/Unmet.antt =====
-- A queue whose levels a call leaves alone keeps its open quantities: they add up to the volumes.
use quanta_trader.Common.{ℕ, ◌≤◌, ◌≡◌, refl, sym, ◌∙◌, ap, arith, List, [], ◌∷◌}
use quanta_trader.Common.Maps.{Map, find}
use quanta_trader.Order.{OrderSide}
use quanta_trader.Level.{Level}
use quanta_trader.Book.State.{PriceLevelOrderBook}
use quanta_trader.Book.Match.{opposite}
use quanta_trader.Book.Sound.{open_of, total}
use quanta_trader.Book.Progress.{orders_of, IsWellFormed, shrinks_total}
use quanta_trader.Book.Queue.{queue, ranked, flatten, entries}
use quanta_trader.Book.Queue.Levels.{AllLevels, AllLevels-found, AllLevels-ranked}

module _ (b b' : PriceLevelOrderBook)
    (shrinks : (i : ℕ) → open_of (find i b'.orders) ≤ open_of (find i b.orders)) where
  entries-kept :
      (p : ℕ) (is : List ℕ)
      → total (orders_of b') is ≡ total (orders_of b) is
      → entries (orders_of b') p is ≡ entries (orders_of b) p is
  entries-kept p [] h = refl
  entries-kept p (i ∷ is) h =
      let le = shrinks_total b b' shrinks is in
      let e : open_of (find i b'.orders) ≡ open_of (find i b.orders) = omega (arith, shrinks i) in
      rw (e, entries-kept p is (omega (arith, shrinks i)))

  -- The orders of the level have as much left open as before.
  abbrev IsKept : ℕ × Level → Type 0
  IsKept x = total (orders_of b') x.1.orders ≡ total (orders_of b) x.1.orders

  flatten-kept :
      (m : Map Level) → AllLevels IsKept m → flatten (orders_of b') m ≡ flatten (orders_of b) m
  flatten-kept [] h = refl
  flatten-kept (x ∷ m) (e, h) = rw (entries-kept x.0 x.1.orders e, flatten-kept m h)

  pub queue_kept :
      (side : OrderSide)
      → IsWellFormed b
      → IsWellFormed b'
      → b'.levels (opposite side) ≡ b.levels (opposite side)
      → queue side b' ≡ queue side b
  queue_kept side w w' same =
      let k = opposite side in
      let kept = AllLevels-found IsKept (b.levels k) (w.ascending k) λ q l found.
        sym (w'.sound.volume k q l (ap (find q) same ∙ found)) ∙ w.sound.volume k q l found in
      ap (λ m. flatten (orders_of b') (ranked side m)) same
      ∙ flatten-kept (ranked side (b.levels k)) (AllLevels-ranked IsKept side (b.levels k) kept)
