-- ===== src/Book/Progress/Activation/Rounds.antt =====
-- The loops of `activateStopOrders` on a well-formed book, and the induction that ties them.
use quanta_trader.Common.{
  ℕ, zero, suc, ◌+◌, ◌-◌, ◌<◌, ◌≤◌, ◌≡◌, ◌⊎◌, refl, ◌∙◌, inl, inr, arith, Bool, true, false,
  Bool-cases, Option-cases, some, Outcome, done, Returns, Returns->>=, Returns-mono, ◌>>=◌,
}
use quanta_trader.Common.Maps.{Map, find}
use quanta_trader.Order.{OrderSide, sell, buy}
use quanta_trader.Level.{Level}
use quanta_trader.Book.State.{PriceLevelOrderBook, LevelsName, levels_value}
use quanta_trader.Book.Prices.{triggered, market_price}
use quanta_trader.Book.Stops.{
  stop_levels, trailing_stop_levels, next_stop_level, update_trailing_stop_orders, activate_front,
  activate_levels, activate_side, activate_round, activate_loop, activate_stop_orders,
}
use quanta_trader.Book.Progress.{
  activity, IsWellFormed, IsProgress, IsProgress-refl, IsProgress-trans, IsGood,
}
use quanta_trader.Book.Progress.Matching.{Settles, find-first, find-last}
use quanta_trader.Book.Progress.Trailing.{update_trailing_stop_orders-Returns}
use quanta_trader.Book.Progress.Activation.Trigger.{activate_front-Returns}

-- A loop that ends with a flag: the flag is only new when the activity has fallen.
pub record IsCalmed (flag : Bool) (b : PriceLevelOrderBook) (t : Bool × PriceLevelOrderBook)
    : Type 0 where
  pub well_formed : IsWellFormed t.1
  pub progress : IsProgress b t.1
  pub falls : (t.0 ≡ flag) ⊎ (activity t.1 < activity b)

IsCalmed-trans :
    {flag : Bool} {b : PriceLevelOrderBook} {t u : Bool × PriceLevelOrderBook}
    → IsCalmed flag b t
    → IsCalmed t.0 t.1 u
    → IsCalmed flag b u
IsCalmed-trans {flag} {b} {t} {u} c d = record {
  well_formed = d.well_formed;
  progress = IsProgress-trans c.progress d.progress;
  falls = elim c.falls [
    | inr less ↦ inr (omega (arith, d.progress.calmer))
    | inl same ↦ elim d.falls [
      | inr less ↦ inr (omega (arith, c.progress.calmer))
      | inl kept ↦ inl (kept ∙ same)
    ]
  ];
}

next_stop_level-find :
    (s : OrderSide) (m : Map Level) (e : ℕ × Level)
    → next_stop_level s m ≡ some e
    → (l : Level) × (find e.0 m ≡ some l)
next_stop_level-find sell m e h = find-last m e h
next_stop_level-find buy m e h = find-first m h

stop_levels_heavy : (s : OrderSide) → 2 ≤ levels_value (stop_levels s)
stop_levels_heavy s = ground arith

trailing_stop_levels_heavy : (s : OrderSide) → 2 ≤ levels_value (trailing_stop_levels s)
trailing_stop_levels_heavy s = ground arith

module _ {bound : ℕ} {activate : PriceLevelOrderBook → Outcome PriceLevelOrderBook}
    (nested : Settles bound activate) (fuel : ℕ) where
  module _ (side : OrderSide) (k : LevelsName) (price : ℕ) (stops : 2 ≤ levels_value k) where
    activate_levels-Returns :
        (rounds : ℕ) (flag : Bool) (b : PriceLevelOrderBook)
        → IsWellFormed b
        → activity b ≤ bound
        → activity b + 1 < fuel
        → activity b < rounds
        → Returns (activate_levels activate rounds fuel side k price flag b) (IsCalmed flag b)
    unfolding activate_levels
    activate_levels-Returns zero flag b w small enough turns = absurd (omega arith)
    activate_levels-Returns (suc n) flag b w small enough turns =
        let still : IsCalmed flag b (flag, b) = record {
          well_formed = w;
          progress = IsProgress-refl b;
          falls = inl refl;
        } in
        elim (Option-cases (next_stop_level side (b.levels k))) [
          | inl over ↦ rw (over, activate_levels) still
          | inr (x, next) ↦ elim (Bool-cases (triggered side price x.0)) [
            | inr waits ↦ rw (next, activate_levels) (rw waits still)
            | inl goes ↦
                let (l, found) = next_stop_level-find side (b.levels k) x next in
                rw (next, activate_levels)
                  (rw goes (
                    Returns->>= (IsCalmed flag b)
                      (activate_front activate fuel (record { levels = k; price = x.0 }) b) _
                      (activate_front-Returns nested fuel k x.0 l b w small enough stops found)
                      λ b' (w', p, less).
                        Returns-mono (IsCalmed flag b)
                          (activate_levels activate n fuel side k price true b')
                          (activate_levels-Returns n true b' w' (omega arith) (omega arith)
                            (omega arith))
                          (λ t c. record {
                            well_formed = c.well_formed;
                            progress = IsProgress-trans p c.progress;
                            falls = inr (omega (arith, c.progress.calmer));
                          })))
          ]
        ]

  module _ (b : PriceLevelOrderBook) (w : IsWellFormed b) (small : activity b ≤ bound)
      (enough : activity b + 1 < fuel) where
    -- `activateBuyStopOrders` and `activateSellStopOrders` return.
    activate_side-Returns :
        (side : OrderSide) → Returns (activate_side activate fuel side b) (IsCalmed false b)
    unfolding activate_side
    activate_side-Returns side =
        Returns->>= (IsCalmed false b)
          (activate_levels activate fuel fuel side (stop_levels side) (market_price side b) false b)
          _
          (activate_levels-Returns side (stop_levels side) (market_price side b)
            (stop_levels_heavy side) fuel false b w small enough (omega arith))
          λ t c.
            Returns-mono (IsCalmed false b)
              (activate_levels activate fuel fuel side (trailing_stop_levels side)
                (market_price side t.1) t.0 t.1)
              (activate_levels-Returns side (trailing_stop_levels side) (market_price side t.1)
                (trailing_stop_levels_heavy side) fuel t.0 t.1 c.well_formed
                (omega (arith, c.progress.calmer)) (omega (arith, c.progress.calmer))
                (omega (arith, c.progress.calmer)))
              (λ u d. IsCalmed-trans c d)

  -- The second half of a round: the stop orders of the sellers.
  second_half-Returns :
      (b b₂ : PriceLevelOrderBook)
      → activity b ≤ bound
      → activity b + 1 < fuel
      → IsWellFormed b₂
      → IsProgress b b₂
      → Returns
          (activate_side activate fuel sell b₂ >>= λ t.
            update_trailing_stop_orders buy t.1 >>= λ b₄. done (t.0, b₄))
          (IsCalmed false b)
  second_half-Returns b b₂ small enough w₂ p₂ =
      Returns->>= (IsCalmed false b) (activate_side activate fuel sell b₂) _
        (activate_side-Returns b₂ w₂ (omega (arith, p₂.calmer)) (omega (arith, p₂.calmer)) sell)
        λ t₃ c₃.
          Returns->>= (IsCalmed false b) (update_trailing_stop_orders buy t₃.1) _
            (update_trailing_stop_orders-Returns buy t₃.1 c₃.well_formed)
            λ b₄ (w₄, p₄). record {
              well_formed = w₄;
              progress = IsProgress-trans p₂ (IsProgress-trans c₃.progress p₄);
              falls = elim c₃.falls [
                | inl same ↦ inl same
                | inr less ↦ inr (omega (arith, p₂.calmer, p₄.calmer))
              ];
            }

  module _ (b : PriceLevelOrderBook) (w : IsWellFormed b) (small : activity b ≤ bound)
      (enough : activity b + 1 < fuel) where
    -- A round returns, and calls for another one only when the activity has fallen.
    activate_round-Returns : Returns (activate_round activate fuel b) (IsCalmed false b)
    unfolding activate_round
    activate_round-Returns =
        Returns->>= (IsCalmed false b) (activate_side activate fuel buy b) _
          (activate_side-Returns b w small enough buy)
          λ t₁ c₁.
            Returns->>= (IsCalmed false b) (update_trailing_stop_orders sell t₁.1) _
              (update_trailing_stop_orders-Returns sell t₁.1 c₁.well_formed)
              λ b₂ (w₂, p₂).
                second_half-Returns b b₂ small enough w₂ (IsProgress-trans c₁.progress p₂)

  activate_loop-Returns :
      (rounds : ℕ) (b : PriceLevelOrderBook)
      → IsWellFormed b
      → activity b ≤ bound
      → activity b + 1 < fuel
      → activity b < rounds
      → IsGood b (activate_loop activate rounds fuel b)
  unfolding activate_loop
  activate_loop-Returns zero b w small enough turns = absurd (omega arith)
  activate_loop-Returns (suc n) b w small enough turns =
      Returns->>= (λ b'. IsWellFormed b' × IsProgress b b') (activate_round activate fuel b) _
        (activate_round-Returns b w small enough)
        λ (cont, b') c. elim (Bool-cases cont) [
          | inr ends ↦ rw ends (c.well_formed, c.progress)
          | inl goes ↦ rw goes (
              Returns-mono (λ b₂. IsWellFormed b₂ × IsProgress b b₂)
                (activate_loop activate n fuel b')
                (activate_loop-Returns n b' c.well_formed (omega (arith, c.progress.calmer))
                  (omega (arith, c.progress.calmer)) (ground (arith, c.falls)))
                (λ b₂ (w₂, p₂). (w₂, IsProgress-trans c.progress p₂)))
        ]

-- The induction on the fuel: a nested call has less activity left than the call it stands in.
pub activate_stop_orders-Settles : (n m : ℕ) → m + 2 ≤ n → Settles m (activate_stop_orders n)
unfolding activate_stop_orders
activate_stop_orders-Settles zero m h = absurd (omega arith)
activate_stop_orders-Settles (suc zero) m h = absurd (omega arith)
activate_stop_orders-Settles (suc (suc n)) m h = record {
  settles = λ b w less.
      activate_loop-Returns {bound = m - 1}
        (activate_stop_orders-Settles (suc n) (m - 1) (omega arith)) (suc n) (suc (suc n)) b w
        (omega arith) (omega arith) (omega arith);
}
