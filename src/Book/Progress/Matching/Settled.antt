-- ===== src/Book/Progress/Matching/Settled.antt =====
-- The end of a round of `match`, of `cancelOrder` and of `executeOrder`: an order with nothing left
-- open is deleted.
use quanta_trader.Common.{
  ℕ, ◌<◌, ◌≤◌, ◌≡◌, ◌⊎◌, sym, subst, inl, inr, arith, true, false, ◌==◌, ==-eq, Bool-cases, none,
  some, Outcome, done, Returns, Returns-mono, if◌then◌else◌,
}
use quanta_trader.Common.Maps.{find}
use quanta_trader.Order.{Order}
use quanta_trader.Level.{Level}
use quanta_trader.Book.State.{PriceLevelOrderBook, OrderWithLevelIterator}
use quanta_trader.Book.Remove.{delete_order}
use quanta_trader.Book.Sound.{order_write_self}
use quanta_trader.Book.Progress.{activity, IsLive, IsWellFormed, IsProgress, IsProgress-trans}
use quanta_trader.Book.Progress.Reduction
use quanta_trader.Book.Progress.Reduction.{IsReduction}
use quanta_trader.Book.Progress.Matching.Contract.{Settles, weight_pos, delete_order-Returns}

-- The order `r'` is gone with its last open quantity, and the book has then lost some activity.
pub record IsSettled (b : PriceLevelOrderBook) (i : ℕ) (r' : Order) (b' : PriceLevelOrderBook)
    : Type 0 where
  pub well_formed : IsWellFormed b'
  pub progress : IsProgress b b'
  pub ends : ((r'.open_quantity == 0) ≡ false) ⊎ (activity b' < activity b)
  pub gone : (r'.open_quantity == 0) ≡ true → find i b'.orders ≡ none

module _ {bound : ℕ} {activate : PriceLevelOrderBook → Outcome PriceLevelOrderBook}
    (nested : Settles bound activate) (b : PriceLevelOrderBook) (w : IsWellFormed b)
    (small : activity b ≤ bound) (i : ℕ) (e : OrderWithLevelIterator) (level : Level)
    (stored : find i b.orders ≡ some e)
    (at_level : find e.level_it.price (b.levels e.level_it.levels) ≡ some level) (r' : Order)
    (amount : ℕ) (b' : PriceLevelOrderBook) (reduction : IsReduction e.order b r' amount b') where
  abbrev settled : PriceLevelOrderBook
  settled = Reduction.settled b w i e level stored at_level r' amount b' reduction

  abbrev entry' : OrderWithLevelIterator
  entry' = record e { order = r' }

  write_self : find i settled.orders ≡ some entry'
  write_self =
      order_write_self
        (Reduction.settled-IsOrderWrite b w i e level stored at_level r' amount b' reduction)

  same-activity : activity settled ≡ activity b
  same-activity = Reduction.settled-activity b w i e level stored at_level r' amount b' reduction

  others-IsLive :
      (j : ℕ) (f : OrderWithLevelIterator)
      → find j settled.orders ≡ some f
      → (j == i) ≡ false
      → IsLive f
  others-IsLive = Reduction.settled-IsLive b w i e level stored at_level r' amount b' reduction

  settled-IsProgress : IsProgress b settled
  settled-IsProgress =
      Reduction.settled-IsProgress b w i e level stored at_level r' amount b' reduction

  deleted-Returns :
      (name : ℕ) → name ≡ i → Returns (delete_order activate name settled) (IsSettled b i r')
  deleted-Returns name named =
      Returns-mono (IsSettled b i r') (delete_order activate name settled)
        (delete_order-Returns nested settled
          (Reduction.settled-IsSound b w i e level stored at_level r' amount b' reduction)
          (Reduction.settled-IsAscending b w i e level stored at_level r' amount b' reduction)
          (Reduction.settled-IsUncrossed b w i e level stored at_level r' amount b' reduction) name
          entry' (subst (λ x. find x settled.orders ≡ some entry') (sym named) write_self)
          (λ j f h ne. others-IsLive j f h (subst (λ x. (j == x) ≡ false) named ne))
          (omega (arith, same-activity)))
        λ b₄ (w', p', gone, calm, room). record {
          well_formed = w';
          progress = IsProgress-trans settled-IsProgress p';
          ends = inr (omega (arith, same-activity, weight_pos r'.type));
          gone = λ h. subst (λ x. find x b₄.orders ≡ none) named gone;
        }

  kept-IsWellFormed : (r'.open_quantity == 0) ≡ false → IsWellFormed settled
  kept-IsWellFormed some_open = record {
    sound = Reduction.settled-IsSound b w i e level stored at_level r' amount b' reduction;
    ascending = Reduction.settled-IsAscending b w i e level stored at_level r' amount b' reduction;
    uncrossed = Reduction.settled-IsUncrossed b w i e level stored at_level r' amount b' reduction;
    live = λ j f h. elim (Bool-cases (j == i)) [
      | inl same ↦ ground (arith, ==-eq j i same, write_self)
      | inr ne ↦ others-IsLive j f h ne
    ];
  }

  -- The order is deleted if nothing of it is left open.
  pub settled-Returns :
      (name : ℕ)
      → name ≡ i
      → Returns
          (if r'.open_quantity == 0 then delete_order activate name settled else done settled)
          (IsSettled b i r')
  settled-Returns name named = elim (Bool-cases (r'.open_quantity == 0)) [
    | inl zero_open ↦ rw zero_open (deleted-Returns name named)
    | inr some_open ↦ rw some_open (record {
      well_formed = kept-IsWellFormed some_open;
      progress = settled-IsProgress;
      ends = inl some_open;
      gone = λ h. ground arith;
    })
  ]
