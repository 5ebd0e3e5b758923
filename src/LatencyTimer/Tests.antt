-- ===== src/LatencyTimer/Tests.antt =====
-- Three samples, with thousandths in place of `double`.
use hft_order_book_simulator.Common.{ℕ, ◌+◌, ◌-◌, ◌*◌, ◌/◌, ◌≡◌, refl, arith, some, [], ◌∷◌}
use hft_order_book_simulator.Common.Int.{pos, pos_part, ◌≤ℤ◌}
use hft_order_book_simulator.LatencyTimer.{
  LatencyTimer, Double, Stats, compute, record_ns, record_since, reset, count,
}
use hft_order_book_simulator.LatencyTimer.Percentiles.{Describes, compute_lem, percentiles_rise}

-- A number of thousandths; what is not needed for the ranks is not exact.
instance abbrev thousandths : Double ℕ
thousandths = record {
  nought = 0;
  of_nanos = λ n. pos_part n * 1000;
  of_size = λ n. n * 1000;
  plus = λ a b. a + b;
  minus = λ a b. a - b;
  times = λ a b. a * b / 1000;
  quotient = λ a b. a * 1000 / b;
  sqrt = λ a. a;
  ceil = λ a. (a + 999) / 1000 * 1000;
  to_size = λ a. a / 1000;
  p50 = 500;
  p90 = 900;
  p99 = 990;
  p999 = 999;
}

abbrev timer : LatencyTimer
timer = record { samples = pos 30 ∷ pos 10 ∷ pos 20 ∷ [] }

recorded :
    record_ns (pos 20) (record_since (pos 90) (pos 100) (record_ns (pos 30) (reset timer))) ≡ timer
unfolding record_ns record_since reset
recorded = refl

three : count timer ≡ 3
unfolding count
three = refl

compute_lem_example : (s : Stats ℕ) × (compute timer ≡ some s) × Describes timer.samples s
compute_lem_example = compute_lem timer (λ e. cc) (omega arith)

answer : Stats ℕ
answer = record {
  min_ns = pos 10;
  max_ns = pos 30;
  mean_ns = 20000;
  stddev_ns = 33333;
  p50_ns = pos 20;
  p90_ns = pos 30;
  p99_ns = pos 30;
  p999_ns = pos 30;
  samples = 3;
}

answered : compute timer ≡ some answer
unfolding compute answer
answered = refl

percentiles_rise_example : (pos 20 ≤ℤ pos 30) × (pos 30 ≤ℤ pos 30) × (pos 30 ≤ℤ pos 30)
unfolding answer
percentiles_rise_example =
    percentiles_rise timer answer (λ e. cc) (omega arith)
      (record {
        at_least_one = omega arith;
        p50_p90 = omega arith;
        p90_p99 = omega arith;
        p99_p999 = omega arith;
        fits = omega arith;
      })
      answered
