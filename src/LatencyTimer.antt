-- ===== src/LatencyTimer.antt =====
-- latency_timer.hpp, `class LatencyTimer`: the samples and the statistics over them. The arithmetic of `double` is a
-- parameter, and so are the readings of the clock; the label is only printed and is left out.

pub mod Sorting
pub mod Percentiles
mod Tests
use hft_order_book_simulator.Common.{
  ℕ, zero, suc, ◌-◌, Option, none, some, List, [], ◌∷◌, ◌++◌, if◌then◌else◌, length, min, get_elem?,
}
use hft_order_book_simulator.Common.Int.{ℤ, pos, leb_ℤ, ◌-ℤ◌}
use hft_order_book_simulator.Common.Words.{sub64}

infixl 10 ◌>>=◌
abbrev pub ◌>>=◌ {ℓ κ} : {A : Type ℓ} {B : Type κ} → Option A → (A → Option B) → Option B
none >>= f = none
some x >>= f = f x

-- What `compute` does with a `double`; `to_size` and the others of the kind are the casts.
pub record Double {ℓ} (W : Type ℓ) : Type ℓ where
  pub nought : W
  pub of_nanos : ℤ → W
  pub of_size : ℕ → W
  pub plus : W → W → W
  pub minus : W → W → W
  pub times : W → W → W
  pub quotient : W → W → W
  pub sqrt : W → W
  pub ceil : W → W
  pub to_size : W → ℕ
  pub p50 : W
  pub p90 : W
  pub p99 : W
  pub p999 : W

abbrev pub Nanos : Type 0
Nanos = ℤ

pub record LatencyTimer : Type 0 where
  pub samples : List Nanos

abbrev pub construct : LatencyTimer
construct = record { samples = [] }

unfoldable pub record_ns : Nanos → LatencyTimer → LatencyTimer
record_ns ns t = record { samples = t.samples ++ ns ∷ [] }

-- `t0` is what `start` returned, `t1` what the clock says now, both in nanoseconds.
unfoldable pub record_since : ℤ → ℤ → LatencyTimer → LatencyTimer
unfolding record_ns ◌-ℤ◌
record_since t0 t1 t = record_ns (t1 -ℤ t0) t

unfoldable pub reset : LatencyTimer → LatencyTimer
reset t = record { samples = [] }

unfoldable pub count : LatencyTimer → ℕ
count t = length t.samples

-- `std::sort` on integers.
unfoldable pub insert : Nanos → List Nanos → List Nanos
insert x [] = x ∷ []
insert x (y ∷ ys) = let rest = insert x ys in if leb_ℤ x y then x ∷ y ∷ ys else y ∷ rest

unfoldable pub sort : List Nanos → List Nanos
unfolding insert
sort [] = []
sort (x ∷ xs) = insert x (sort xs)

abbrev pub last : Nanos → List Nanos → Nanos
last x [] = x
last x (y ∷ ys) = last y ys

module _ {ℓ} {W : Type ℓ} ⦃d : Double W⦄ where
  -- `std::accumulate(begin, end, 0.0)`, from `sum` on.
  unfoldable accumulate : W → List Nanos → W
  accumulate sum [] = sum
  accumulate sum (v ∷ vs) = accumulate (d.plus sum (d.of_nanos v)) vs

  -- The loop of the standard deviation.
  unfoldable add_squares : W → W → List Nanos → W
  add_squares mean sq_sum [] = sq_sum
  add_squares mean sq_sum (v ∷ vs) =
      let diff = d.minus (d.of_nanos v) mean in
      add_squares mean (d.plus sq_sum (d.times diff diff)) vs

  -- `ceil(p * samples)` as a number.
  abbrev pub rank : ℕ → W → ℕ
  rank samples p = d.to_size (d.ceil (d.times p (d.of_size samples)))

  unfoldable pub pct : List Nanos → W → Option Nanos
  unfolding sub64
  pct sorted p = get_elem? sorted (min (sub64 (rank (length sorted) p) 1) (sub64 (length sorted) 1))

pub record Stats {ℓ} (W : Type ℓ) : Type ℓ where
  pub min_ns : Nanos
  pub max_ns : Nanos
  pub mean_ns : W
  pub stddev_ns : W
  pub p50_ns : Nanos
  pub p90_ns : Nanos
  pub p99_ns : Nanos
  pub p999_ns : Nanos
  pub samples : ℕ

module _ {ℓ} {W : Type ℓ} ⦃d : Double W⦄ where
  abbrev no_stats : Stats W
  no_stats = record {
    min_ns = pos 0;
    max_ns = pos 0;
    mean_ns = d.nought;
    stddev_ns = d.nought;
    p50_ns = pos 0;
    p90_ns = pos 0;
    p99_ns = pos 0;
    p999_ns = pos 0;
    samples = 0;
  }

  unfoldable pub mean : List Nanos → W
  unfolding accumulate
  mean sorted = d.quotient (accumulate d.nought sorted) (d.of_size (length sorted))

  unfoldable pub stddev : List Nanos → W
  unfolding mean add_squares
  stddev sorted =
      d.sqrt (d.quotient (add_squares (mean sorted) d.nought sorted) (d.of_size (length sorted)))

  -- The statistics of sorted samples; `none` would be an access out of range.
  unfoldable pub stats_of : List Nanos → Option (Stats W)
  unfolding mean stddev pct
  stats_of [] = some no_stats
  stats_of (x ∷ xs) = do
    p50 ← pct (x ∷ xs) d.p50
    p90 ← pct (x ∷ xs) d.p90
    p99 ← pct (x ∷ xs) d.p99
    p999 ← pct (x ∷ xs) d.p999
    some (record {
      min_ns = x;
      max_ns = last x xs;
      mean_ns = mean (x ∷ xs);
      stddev_ns = stddev (x ∷ xs);
      p50_ns = p50;
      p90_ns = p90;
      p99_ns = p99;
      p999_ns = p999;
      samples = length (x ∷ xs);
    })

  unfoldable pub compute : LatencyTimer → Option (Stats W)
  unfolding sort stats_of
  compute t = stats_of (sort t.samples)
