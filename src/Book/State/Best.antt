-- ===== src/Book/State/Best.antt =====
-- `getBestBuy` and `getBestSell`.
use quanta_trader.Common.{
  is_empty, true, ℕ, ◌≤◌, ◌≡◌, ◌⊎◌, inl, inr, Option-cases, some, first, last, u64_max,
}
use quanta_trader.Common.Maps.{Map, find}
use quanta_trader.Common.Maps.Ascending.{IsAscending}
use quanta_trader.Common.Maps.Extremes.{
  find-first, find-last, first-le, le-last, first-is_empty, last-is_empty,
}
use quanta_trader.Level.{Level}
use quanta_trader.Book.State.{
  PriceLevelOrderBook, buy_levels, sell_levels, get_best_buy, get_best_sell,
}

-- The price is that of a level, and no level has a better one; or there is no level, and it is `no_level`.
abbrev pub IsBest : (ℕ → ℕ → Type 0) → ℕ → Map Level → ℕ → Type 0
IsBest NoWorse no_level m p =
    ((is_empty m ≡ true) × (p ≡ no_level))
    ⊎ ((l : Level) × (find p m ≡ some l)
        × ((q : ℕ) (l' : Level) → find q m ≡ some l' → NoWorse p q))

-- While the maps of the levels are in ascending order, `getBestBuy` is the greatest price of a buy
-- level, or 0 if there is none, and `getBestSell` is the least price of a sell level, or the largest
-- `uint64_t` if there is none.
pub IsBest-prices :
    (b : PriceLevelOrderBook)
    → IsAscending (b.levels buy_levels)
    → IsAscending (b.levels sell_levels)
    → IsBest (λ p q. q ≤ p) 0 (b.levels buy_levels) (get_best_buy b)
      × IsBest (λ p q. p ≤ q) u64_max (b.levels sell_levels) (get_best_sell b)
unfolding get_best_buy get_best_sell
IsBest-prices b sorted sorted' =
    let m = b.levels buy_levels in
    let m' = b.levels sell_levels in
    (
      elim (Option-cases (last m)) [
        | inl empty ↦ inl (last-is_empty m empty, rw (empty, get_best_buy))
        | inr (e, best) ↦ inr (
          e.1,
          rw (best, get_best_buy) (find-last m e best sorted),
          rw (best, get_best_buy) (λ q l h. le-last m e q l sorted best h),
        )
      ],
      elim (Option-cases (first m')) [
        | inl empty ↦ inl (first-is_empty m' empty, rw (empty, get_best_sell))
        | inr (e, best) ↦ inr (
          e.1,
          rw (best, get_best_sell) (find-first m' e best),
          rw (best, get_best_sell) (λ q l h. first-le m' e q l sorted' best h),
        )
      ],
    )
