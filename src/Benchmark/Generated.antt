-- ===== src/Benchmark/Generated.antt =====
-- The orders that the benchmark generates.
use quanta_trader.Common.{
  ℕ, zero, suc, ◌+◌, ◌%◌, ◌<◌, ◌≤◌, ◌≡◌, refl, subst, arith, leb, leb→le, Bool-cases, inl, inr,
  List, [], ◌∷◌, length, u32_mod, Returns, Returns->>=,
}
use quanta_trader.Order.{
  Order, OrderSide, OrderType, sell, buy, gtc, limit_sell_order, limit_buy_order, new_order,
}
use quanta_trader.Benchmark.{
  side_of, base_price, order_of, generate_order, generate_loop, generate_orders,
}

-- What the standard says of a uniform distribution on lo to hi.
abbrev pub IsUniform : {G : Type 0} → (ℕ → ℕ → G → ℕ × G) → Type 0
IsUniform {G} draw =
    (lo hi : ℕ) (g : G) → lo ≤ hi → (lo ≤ (draw lo hi g).0) × ((draw lo hi g).0 ≤ hi)

-- The order with number i of a run on k symbols.
pub record IsGenerated (k i : ℕ) (o : Order) : Type 0 where
  pub id : o.id ≡ i
  pub limit : o.type ≡ OrderType.limit
  pub side : o.side ≡ side_of i
  pub time_in_force : o.time_in_force ≡ gtc
  pub price_above : base_price o.side < o.price
  pub price_below : o.price ≤ base_price o.side + 10
  pub quantity_above : 100 ≤ o.quantity
  pub quantity_below : o.quantity ≤ 1000
  pub unfilled : o.open_quantity ≡ o.quantity
  pub symbol_above : 1 ≤ o.symbol_id
  pub symbol_below : o.symbol_id ≤ k

-- The orders have the numbers from i on.
abbrev pub AreGenerated : ℕ → ℕ → List Order → Type 0
AreGenerated k i [] = Unit
AreGenerated k i (o ∷ os) = IsGenerated k i o × AreGenerated k (i + 1) os

order_of-IsGenerated :
    (k i : ℕ) (side : OrderSide) (symbol_id price quantity now : ℕ)
    → side ≡ side_of i
    → base_price side < price
    → price ≤ base_price side + 10
    → 100 ≤ quantity
    → quantity ≤ 1000
    → 1 ≤ symbol_id
    → symbol_id ≤ k
    → IsGenerated k i (order_of side i symbol_id price quantity now)
unfolding limit_sell_order limit_buy_order new_order
order_of-IsGenerated k i sell symbol_id price quantity now s pl ph ql qh sl sh = record {
  id = refl;
  limit = refl;
  side = s;
  time_in_force = refl;
  price_above = pl;
  price_below = ph;
  quantity_above = ql;
  quantity_below = qh;
  unfilled = refl;
  symbol_above = sl;
  symbol_below = sh;
}
order_of-IsGenerated k i buy symbol_id price quantity now s pl ph ql qh sl sh = record {
  id = refl;
  limit = refl;
  side = s;
  time_in_force = refl;
  price_above = pl;
  price_below = ph;
  quantity_above = ql;
  quantity_below = qh;
  unfilled = refl;
  symbol_above = sl;
  symbol_below = sh;
}

base_price-small : (side : OrderSide) → base_price side ≤ 105
base_price-small sell = omega arith
base_price-small buy = omega arith

module _ {G : Type 0} (draw : ℕ → ℕ → G → ℕ × G) (now : ℕ → ℕ) (uniform : IsUniform draw) (k : ℕ)
    (some_symbol : 1 ≤ k) (fits : k < u32_mod) where
  generate_order-IsGenerated : (i : ℕ) (g : G) → IsGenerated k i (generate_order draw now k i g).0
  unfolding generate_order
  generate_order-IsGenerated i g =
      let (price, g1) = draw 1 10 g in
      let (hundreds, g2) = draw 1 10 g1 in
      let p = uniform 1 10 g (omega arith) in
      let q = uniform 1 10 g1 (omega arith) in
      let s = uniform 1 k g2 some_symbol in
      let small = base_price-small (side_of i) in
      order_of-IsGenerated k i (side_of i) _ _ _ (now i) refl (omega (arith, p, small))
        (omega (arith, p, small)) (omega (arith, q)) (omega (arith, q)) (omega (arith, s))
        (omega (arith, s))

  generate_loop-Returns :
      (n fuel i : ℕ) (g : G)
      → n + 1 < u32_mod
      → i ≤ n + 1
      → n + 2 ≤ fuel + i
      → Returns
          (generate_loop draw now fuel n k i g)
          (λ os. AreGenerated k i os × (length os + i ≡ n + 1))
  unfolding generate_loop
  generate_loop-Returns n zero i g small le enough = omega (arith, le, enough)
  generate_loop-Returns n (suc fuel) i g small le enough =
      let (order, g') = generate_order draw now k i g in
      elim (Bool-cases (leb i n)) [
        | inl more ↦
            let le' = leb→le i n more in
            let rest =
              generate_loop-Returns n fuel ((i + 1) % u32_mod) g' small (omega (arith, le'))
                (omega (arith, le', enough)) in
            let next : (i + 1) % u32_mod ≡ i + 1 = omega (arith, le') in
            rw (more, generate_loop)
              (Returns->>= _ (generate_loop draw now fuel n k ((i + 1) % u32_mod) g') _ rest
                λ os (good, count). (
                  (generate_order-IsGenerated i g, subst (λ j. AreGenerated k j os) next good),
                  omega (arith, count, next),
                ))
        | inr last ↦ rw (last, generate_loop) (tt, ground arith)
      ]

  -- With fuel of two more than the number of orders, `generateOrders` ends, if the number of orders is
  -- below the largest `uint32_t` and there is a symbol, and the numbers are drawn from where they are
  -- to be. It makes as many orders as it is asked for, with the ids from 1 on: limit orders of a
  -- quantity of 100 to 1000 on one of the symbols, that sell at 106 to 115 under an odd id and buy
  -- at 101 to 110 under an even one.
  pub generate_orders_total :
      (n fuel : ℕ) (seed : G)
      → n + 1 < u32_mod
      → n + 2 ≤ fuel
      → Returns
          (generate_orders draw now fuel n k seed [])
          (λ os. (length os ≡ n) × AreGenerated k 1 os)
  unfolding generate_orders
  generate_orders_total n fuel seed small enough =
      Returns->>= _ (generate_loop draw now fuel n k 1 seed) _
        (generate_loop-Returns n fuel 1 seed small (omega arith) (omega (arith, enough)))
        λ os (good, count). (omega (arith, count), good)
