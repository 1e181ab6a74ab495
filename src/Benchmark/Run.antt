-- ===== src/Benchmark/Run.antt =====
-- The benchmark runs to its end.
use quanta_trader.Common.{
  ℕ, zero, suc, String, ◌+◌, ◌*◌, ◌%◌, ◌<◌, ◌≤◌, ◌≡◌, refl, sym, subst, ap, ◌∙◌, arith, true, leb,
  leb→le, ◌==◌, ==-eq, Bool-cases, inl, inr, none, some, List, [], ◌∷◌, length, u32_mod, u64_mod,
  Outcome, done, fault, out_of_fuel, Returns,
}
use quanta_trader.Common.Maps.{find, find-put, contains, contains-put}
use quanta_trader.Order.{Order}
use quanta_trader.Event.{EventHandler}
use quanta_trader.Book.State.{PriceLevelOrderBook, new_book}
use quanta_trader.Book.Operations.Session.{open_total, fuel_for, IsNewTo, AreAbsent-new_book}
use quanta_trader.Book.Progress.Fresh.{new_book-IsWellFormed}
use quanta_trader.Engine.{Call, Engine, new_engine, add_symbol, add_order_book}
use quanta_trader.Engine.Books.{IsRunning}
use quanta_trader.Engine.Session.{
  submit_all, Answers, Answers-and_then, AreUnique, AreKnown, IsOpenTo, IsServing, submit_all_total,
}
use quanta_trader.Benchmark.{generate_orders, add_symbols, with_orders, benchmark}
use quanta_trader.Benchmark.Generated.{IsUniform, AreGenerated, generate_orders_total}

-- What the orders ask of the engine.
AreGenerated-IsNewTo : (k i j : ℕ) (os : List Order) → j < i → AreGenerated k i os → IsNewTo j os
AreGenerated-IsNewTo k i j [] less good = tt
AreGenerated-IsNewTo k i j (o ∷ os) less (here, good) =
    (ground (arith, here.id, less), AreGenerated-IsNewTo k (i + 1) j os (omega (arith, less)) good)

AreGenerated-AreUnique : (k i : ℕ) (os : List Order) → AreGenerated k i os → AreUnique os
AreGenerated-AreUnique k i [] good = tt
AreGenerated-AreUnique k i (o ∷ os) (here, good) = (
  AreGenerated-IsNewTo k (i + 1) o.id os (omega (arith, here.id)) good,
  AreGenerated-AreUnique k (i + 1) os good,
)

AreGenerated-open_total :
    (k i : ℕ) (os : List Order) → AreGenerated k i os → open_total os ≤ 1000 * length os
AreGenerated-open_total k i [] good = omega arith
AreGenerated-open_total k i (o ∷ os) (here, good) =
    omega (arith, here.unfilled, here.quantity_below, AreGenerated-open_total k (i + 1) os good)

fuel_for-length : (os : List Order) → fuel_for os ≡ 2 * length os + 5
fuel_for-length [] = refl
fuel_for-length (o ∷ os) = omega (arith, fuel_for-length os)

-- The engine has books for the symbols below i and for no others, and all of them are new.
record IsStocked (i : ℕ) (e : Engine) : Type 0 where
  fresh :
      (s : ℕ) (b : PriceLevelOrderBook)
      → find s e.orderbook_handler.symbol_to_order_book ≡ some b
      → (handler : EventHandler) × (b ≡ new_book s handler)
  below : (s : ℕ) → 1 ≤ s → s < i → contains s e.orderbook_handler.symbol_to_order_book ≡ true
  above : (s : ℕ) → i ≤ s → find s e.orderbook_handler.symbol_to_order_book ≡ none

new_engine-IsStocked : IsStocked 1 (new_engine [])
unfolding new_engine find
new_engine-IsStocked = record {
  fresh = λ s b found. cc;
  below = λ s low high. absurd (omega (arith, low, high));
  above = λ s low. refl;
}

add_symbol-IsStocked :
    (i : ℕ) (name : String) (e : Engine)
    → IsStocked i e
    → Answers (IsStocked (i + 1)) (add_symbol i name e)
unfolding add_symbol add_order_book
add_symbol-IsStocked i name e stocked =
    let h = e.orderbook_handler in
    let m = h.symbol_to_order_book in
    let c = new_book i h.event_handler in
    rw (stocked.above i (omega arith), add_order_book)
      (record {
        fresh = λ s b found. elim (Bool-cases (s == i)) [
          | inl same ↦
              let b-is : c ≡ b = ground (arith, find-put s i c m) in
              (
                h.event_handler,
                sym b-is ∙ ap (λ j. new_book j h.event_handler) (sym (==-eq s i same)),
              )
          | inr other ↦ stocked.fresh s b (ground (arith, find-put s i c m))
        ];
        below = λ s low high. ground (arith, contains-put s i c m, stocked.below s low);
        above = λ s low. ground (arith, find-put s i c m, stocked.above s (omega (arith, low)));
      })

add_symbols-IsStocked :
    (k fuel i : ℕ) (e : Engine)
    → k + 1 < u32_mod
    → i ≤ k + 1
    → k + 2 ≤ fuel + i
    → IsStocked i e
    → Answers (IsStocked (k + 1)) (add_symbols fuel k i e)
unfolding add_symbols
add_symbols-IsStocked k zero i e small le enough stocked = omega (arith, le, enough)
add_symbols-IsStocked k (suc fuel) i e small le enough stocked = elim (Bool-cases (leb i k)) [
  | inl more ↦
      let le' = leb→le i k more in
      let next : (i + 1) % u32_mod ≡ i + 1 = omega (arith, le') in
      rw (more, add_symbols)
        (Answers-and_then (IsStocked (k + 1)) (add_symbols fuel k ((i + 1) % u32_mod))
          (add_symbol i "BNCH" e) (add_symbol-IsStocked i "BNCH" e stocked)
          λ e' stocked'.
            add_symbols-IsStocked k fuel ((i + 1) % u32_mod) e' small (omega (arith, le'))
              (omega (arith, le', enough)) (subst (λ j. IsStocked j e') (sym next) stocked'))
  | inr last ↦
      let end : i ≡ k + 1 = ground arith in
      rw (last, add_symbols) (subst (λ j. IsStocked j e) end stocked)
]

new_book-IsOpenTo :
    (fuel : ℕ) (os : List Order) (s : ℕ) (handler : EventHandler)
    → open_total os < u64_mod
    → fuel_for os ≤ fuel
    → IsOpenTo fuel os s (new_book s handler)
unfolding new_book
new_book-IsOpenTo fuel os s handler fits enough =
    let (w, calm, room) = new_book-IsWellFormed s handler in
    record {
      well_formed = w;
      symbol = refl;
      room = room (open_total os) fits;
      absent = AreAbsent-new_book s handler os;
      enough = omega (arith, calm, enough);
    }

AreGenerated-AreKnown :
    (k i : ℕ) (e : Engine) (os : List Order)
    → IsStocked (k + 1) e
    → AreGenerated k i os
    → AreKnown os e.orderbook_handler.symbol_to_order_book
AreGenerated-AreKnown k i e [] stocked good = tt
AreGenerated-AreKnown k i e (o ∷ os) stocked (here, good) = (
  stocked.below o.symbol_id here.symbol_above (omega (arith, here.symbol_below)),
  AreGenerated-AreKnown k (i + 1) e os stocked good,
)

-- The generated orders and the new books suit each other.
IsStocked-IsServing :
    (k fuel : ℕ) (e : Engine) (os : List Order)
    → IsStocked (k + 1) e
    → AreGenerated k 1 os
    → open_total os < u64_mod
    → fuel_for os ≤ fuel
    → IsServing fuel os e
IsStocked-IsServing k fuel e os stocked good fits enough = record {
  books = λ s b found.
      let (handler, same) = stocked.fresh s b found in
      subst (IsOpenTo fuel os s) (sym same) (new_book-IsOpenTo fuel os s handler fits enough);
  known = AreGenerated-AreKnown k 1 e os stocked good;
}

with_orders-Answers :
    {P : List Order → Type 0} (Q : Engine → Type 0) (m : Outcome (List Order))
    (rest : List Order → Call Engine)
    → Returns m P
    → ((os : List Order) → P os → Answers Q (rest os))
    → Answers Q (with_orders m rest)
with_orders-Answers Q (done os) rest r k = k os r
with_orders-Answers Q (fault f) rest r k = absurd r
with_orders-Answers Q out_of_fuel rest r k = absurd r

-- The benchmark ends without an exception, and leaves well-formed books: if there is a symbol, the
-- numbers of symbols and of orders are below the largest `uint32_t`, and the numbers are drawn from
-- where they are to be. Fuel of the number of symbols, two for each order and five is enough.
pub benchmark_total :
    {G : Type 0} (draw : ℕ → ℕ → G → ℕ × G) (now : ℕ → ℕ)
    → IsUniform draw
    → (k n fuel : ℕ) (seed : G) → 1 ≤ k
    → k + 1 < u32_mod
    → n + 1 < u32_mod
    → k + 2 * n + 5 ≤ fuel
    → Answers IsRunning (benchmark draw now fuel k n seed)
unfolding benchmark
benchmark_total draw now uniform k n fuel seed some_symbol symbols orders enough =
    let e : k % u32_mod ≡ k = omega (arith, symbols) in
    let e' : n % u32_mod ≡ n = omega (arith, orders) in
    rw (e, e', benchmark)
      (with_orders-Answers IsRunning (generate_orders draw now fuel n k seed []) _
        (generate_orders_total draw now uniform k some_symbol (omega (arith, symbols)) n fuel seed
          orders (omega (arith, enough)))
        λ os (count, good).
          Answers-and_then IsRunning (submit_all fuel os) (add_symbols fuel k 1 (new_engine []))
            (add_symbols-IsStocked k fuel 1 (new_engine []) symbols (omega arith)
              (omega (arith, enough)) new_engine-IsStocked)
            λ e stocked. submit_all_total fuel os e (AreGenerated-AreUnique k 1 os good) (
              IsStocked-IsServing k fuel e os stocked good
                (omega (arith, AreGenerated-open_total k 1 os good, count, orders))
                (omega (arith, fuel_for-length os, count, enough))))
