-- ===== src/Scenarios/Runs.antt =====
-- The theorems on the benchmark, and on an engine that is sent orders, at concrete inputs.
use quanta_trader.Common.{ℕ, ◌+◌, ◌%◌, ◌≡◌, arith, if◌then◌else◌, ◌==◌, [], length, Returns}
use quanta_trader.Engine.Books.{IsRunning}
use quanta_trader.Engine.Session.{Answers}
use quanta_trader.Benchmark.{generate_orders, benchmark}
use quanta_trader.Benchmark.Generated.{IsUniform, AreGenerated, generate_orders_total}
use quanta_trader.Benchmark.Run.{benchmark_total}

-- A generator that draws the least and the greatest number in turn.
abbrev alternate : ℕ → ℕ → ℕ → ℕ × ℕ
alternate lo hi g = if g % 2 == 0 then (lo, g + 1) else (hi, g + 1)

alternate-IsUniform : IsUniform alternate
alternate-IsUniform lo hi g le = ground (arith, le)

generate_orders_total_example :
    Returns
      (generate_orders alternate (λ i. 0) 10 3 2 0 [])
      (λ os. (length os ≡ 3) × AreGenerated 2 1 os)
generate_orders_total_example =
    generate_orders_total alternate (λ i. 0) alternate-IsUniform 2 (omega arith) (omega arith) 3 10
      0 (omega arith) (omega arith)

benchmark_total_example : Answers IsRunning (benchmark alternate (λ i. 0) 20 2 3 0)
benchmark_total_example =
    benchmark_total alternate (λ i. 0) alternate-IsUniform 2 3 20 0 (omega arith) (omega arith)
      (omega arith) (omega arith)
