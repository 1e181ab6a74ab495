-- ===== src/Book/Operations/Room.antt =====
-- How much room an accepted order leaves for the orders after it.
use quanta_trader.Common.{
  ℕ, ◌+◌, ◌≤◌, ◌≡◌, sym, subst, arith, false, ◌==◌, ==-eq, Bool-cases, inl, inr, List, [], ◌∷◌,
}
use quanta_trader.Level.{linked}
use quanta_trader.Book.State.{PriceLevelOrderBook}
use quanta_trader.Book.Sound.{Distinct, total, open_of}
use quanta_trader.Book.Progress.{orders_of, HasRoom}
use quanta_trader.Book.Operations.Accepted.{IsAccepted}

module _ {i q : ℕ} {b b' : PriceLevelOrderBook} (a : IsAccepted i q b b') where
  total_others :
      (is : List ℕ) → linked i is ≡ false → total (orders_of b') is ≤ total (orders_of b) is
  unfolding linked
  total_others [] h = omega arith
  total_others (x ∷ is) h = ground (arith, total_others is, a.others_shrink x)

  total_accepted :
      (is : List ℕ) → Distinct is → total (orders_of b') is ≤ total (orders_of b) is + q
  total_accepted [] d = omega arith
  total_accepted (x ∷ is) d = elim (Bool-cases (x == i)) [
    | inl same ↦
        let e = ==-eq x i same in
        omega (
          arith,
          total_others is (subst (λ y. linked y is ≡ false) e d.0),
          subst (λ y. open_of (orders_of b' y) ≤ q) (sym e) a.no_more,
        )
    | inr other ↦ omega (arith, total_accepted is d.1, a.others_shrink x other)
  ]

  -- An order that was accepted takes up no more room than its quantity.
  pub IsAccepted-HasRoom : (r : ℕ) → HasRoom (q + r) b → HasRoom r b'
  IsAccepted-HasRoom r h = record { room = λ is d. omega (arith, total_accepted is d, h.room is d) }
