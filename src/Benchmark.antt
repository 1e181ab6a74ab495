-- ===== src/Benchmark.antt =====
-- The benchmark: benchmark/benchmark_engine.cpp and benchmark/generate_orders.cpp. The random number
-- generator with its distributions and the clock are arguments; time is not measured.
pub mod Generated
pub mod Run
use quanta_trader.Common.{
  ℕ, zero, suc, ◌+◌, ◌*◌, ◌%◌, Bool, true, false, leb, ◌==◌, if◌then◌else◌, List, [], ◌∷◌, ◌++◌,
  u32_mod, u64_mod, add64, Outcome, done, fault, out_of_fuel, ◌>>=◌,
}
use quanta_trader.Order.{Order, OrderSide, sell, buy, gtc, limit_sell_order, limit_buy_order}
use quanta_trader.Engine.{
  Call, returned, thrown, faulted, unfinished, Engine, new_engine, add_symbol,
}
use quanta_trader.Engine.Session.{and_then, submit_all}

-- The side of the order with number i, and what its price is above.
unfoldable pub side_of : ℕ → OrderSide
side_of i = if i % 2 == 0 then buy else sell

abbrev pub base_price : OrderSide → ℕ
base_price sell = 105
base_price buy = 100

abbrev pub order_of : OrderSide → ℕ → ℕ → ℕ → ℕ → ℕ → Order
order_of sell id symbol_id price quantity now = limit_sell_order id symbol_id price quantity gtc now
order_of buy id symbol_id price quantity now = limit_buy_order id symbol_id price quantity gtc now

-- The loop of the benchmark that adds the symbols, from number i on.
unfoldable pub add_symbols : ℕ → ℕ → ℕ → Engine → Call Engine
add_symbols zero num_symbols i e = unfinished
add_symbols (suc fuel) num_symbols i e =
    if leb i num_symbols
    then and_then (add_symbols fuel num_symbols ((i + 1) % u32_mod)) (add_symbol i "BNCH" e)
    else returned e

abbrev pub with_orders : Outcome (List Order) → (List Order → Call Engine) → Call Engine
with_orders (done orders) rest = rest orders
with_orders (fault f) rest = faulted f
with_orders out_of_fuel rest = unfinished

-- `draw lo hi g` is what a uniform distribution on lo to hi makes of the generator g, with the
-- generator after; `now i` is the time at which the order with number i is created.
module _ {G : Type 0} (draw : ℕ → ℕ → G → ℕ × G) (now : ℕ → ℕ) where
  -- A round of the loop of `generateOrders`. The symbol id is a `uint64_t` that the factories take as
  -- a `uint32_t`.
  unfoldable pub generate_order : ℕ → ℕ → G → Order × G
  generate_order num_symbols i g =
      let side = side_of i in
      let (price, g1) = draw 1 10 g in
      let (hundreds, g2) = draw 1 10 g1 in
      let (symbol_id, g3) = draw 1 num_symbols g2 in
      (
        order_of side i (symbol_id % u32_mod) (add64 price (base_price side))
            ((hundreds * 100) % u64_mod) (now i),
        g3,
      )

  -- The orders that the loop of `generateOrders` makes from number i on. The counter is a `uint32_t`.
  unfoldable pub generate_loop : ℕ → ℕ → ℕ → ℕ → G → Outcome (List Order)
  generate_loop zero num_orders num_symbols i g = out_of_fuel
  generate_loop (suc fuel) num_orders num_symbols i g =
      let (order, g') = generate_order num_symbols i g in
      let rest = generate_loop fuel num_orders num_symbols ((i + 1) % u32_mod) g' in
      if leb i num_orders then (do orders ← rest; done (order ∷ orders)) else done []

  -- `generateOrders`
  unfoldable pub generate_orders : ℕ → ℕ → ℕ → G → List Order → Outcome (List Order)
  generate_orders fuel num_orders num_symbols seed orders = do
    pushed ← generate_loop fuel num_orders num_symbols 1 seed
    done (orders ++ pushed)

  -- `Benchmark`, with one iteration: the orders are generated, the symbols added to a new engine and
  -- the orders sent. `generateOrders` takes its numbers as `uint32_t`.
  unfoldable pub benchmark : ℕ → ℕ → ℕ → G → Call Engine
  benchmark fuel num_symbols num_orders seed =
      with_orders (generate_orders fuel (num_orders % u32_mod) (num_symbols % u32_mod) seed [])
        λ orders. and_then (submit_all fuel orders) (add_symbols fuel num_symbols 1 (new_engine []))
