-- ===== src/Book/Queue/Levels.antt =====
-- What holds of all levels of a map, in the order of a queue too.
use quanta_trader.Common.{ℕ, ◌≡◌, arith, some, [], ◌∷◌, ◌++◌}
use quanta_trader.Common.Maps.{Map, find}
use quanta_trader.Common.Maps.Ascending.{IsAscending}
use quanta_trader.Common.Maps.Extremes.{Above-lt}
use quanta_trader.Order.{OrderSide, sell, buy}
use quanta_trader.Level.{Level}
use quanta_trader.Book.Queue.{ranked, backwards}

module _ (P : ℕ × Level → Type 0) where
  abbrev pub AllLevels : Map Level → Type 0
  AllLevels [] = Unit
  AllLevels (x ∷ m) = P x × AllLevels m

  -- What holds of each level that is found.
  pub AllLevels-found :
      (m : Map Level)
      → IsAscending m
      → ((q : ℕ) (l : Level) → find q m ≡ some l → P (q, l))
      → AllLevels m
  unfolding find
  AllLevels-found [] a all = tt
  AllLevels-found (x ∷ m) (above, a) all = (
    all x.0 x.1 (ground arith),
    AllLevels-found m a (λ q l h. all q l (ground (arith, Above-lt x.0 q l m above))),
  )

  AllLevels-add : (m : Map Level) (x : ℕ × Level) → AllLevels m → P x → AllLevels (m ++ x ∷ [])
  AllLevels-add [] x h e = (e, tt)
  AllLevels-add (y ∷ m) x (g, h) e = (g, AllLevels-add m x h e)

  pub AllLevels-ranked :
      (side : OrderSide) (m : Map Level) → AllLevels m → AllLevels (ranked side m)
  AllLevels-ranked buy m h = h
  AllLevels-ranked sell [] h = tt
  AllLevels-ranked sell (x ∷ m) (e, h) = AllLevels-add (backwards m) x (AllLevels-ranked sell m h) e
