-- ===== src/Book/Progress/Fresh.antt =====
-- A new order book.
use quanta_trader.Common.{ℕ, ◌<◌, ◌≡◌, refl, arith, none, List, [], ◌∷◌, u64_mod}
use quanta_trader.Common.Maps.{find, sum_by}
use quanta_trader.Event.{EventHandler}
use quanta_trader.Book.State.{new_book}
use quanta_trader.Book.Sound.{total}
use quanta_trader.Book.Progress.{activity, IsWellFormed, HasRoom}

total-none : (is : List ℕ) → total (λ i. none) is ≡ 0
total-none [] = refl
total-none (i ∷ is) = omega (arith, total-none is)

-- The constructor's book is well-formed, has no activity, and has room for an order of any 64-bit
-- quantity.
pub new_book-IsWellFormed :
    (s : ℕ) (handler : EventHandler)
    → IsWellFormed (new_book s handler)
      × (activity (new_book s handler) ≡ 0)
      × ((q : ℕ) → q < u64_mod → HasRoom q (new_book s handler))
unfolding new_book activity find sum_by
new_book-IsWellFormed s handler = (
  record {
    sound = record {
      filed = λ i e h. cc;
      placed = λ i e h l. cc;
      stocked = λ k p l h. cc;
      member = λ k p l i h m. cc;
      volume = λ k p l h. cc;
      bounded = λ is d. omega (arith, total-none is);
    };
    ascending = λ k. tt;
    uncrossed = record { apart = λ p q l m h. cc };
    live = λ i e h. cc;
  },
  refl,
  λ q h. record { room = λ is d. omega (arith, total-none is) },
)
