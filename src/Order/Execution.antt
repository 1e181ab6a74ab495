-- ===== src/Order/Execution.antt =====
-- What an execution does to an order's quantities and to its last executed price.
use quanta_trader.Common.{ℕ, ◌+◌, ◌≤◌, ◌<◌, ◌≡◌, ◌↔◌, arith, u32_mod, u64_mod}
use quanta_trader.Order.{Order, execute}

-- Executing at most the open quantity moves that much from the open to the executed quantity, so
-- that their sum stays, as long as the sum fits in 64 bits; it is recorded as the last executed
-- quantity.
pub execute_conserves :
    (price q : ℕ) (o : Order)
    → q ≤ o.open_quantity
    → o.open_quantity + o.executed_quantity < u64_mod
    → ((execute price q o).open_quantity + q ≡ o.open_quantity)
      × ((execute price q o).open_quantity + (execute price q o).executed_quantity
          ≡ o.open_quantity + o.executed_quantity)
      × ((execute price q o).last_executed_quantity ≡ q)
unfolding execute
execute_conserves price q o h w = (omega arith, omega arith, omega arith)

-- An execution records the price that it is given exactly when the price fits in 32 bits.
pub execute_price_iff :
    (price q : ℕ) (o : Order)
    → ((execute price q o).last_executed_price ≡ price) ↔ (price < u32_mod)
unfolding execute
execute_price_iff price q o = (λ h. omega arith, λ h. omega arith)
