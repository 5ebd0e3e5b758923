-- ===== src/LatencyTimer/Percentiles.antt =====
-- What `compute` answers, whatever the arithmetic of `double`, and what it needs of the ranks for the percentiles to be
-- in order.
use hft_order_book_simulator.Common.{
  get_elem?, ℕ, suc, ◌^◌, ◌≤◌, ◌<◌, ◌≡◌, ◌≢◌, refl, sym, ap, ◌∙◌, subst, arith, some, List, [], ◌∷◌,
  length, min, inl, inr,
}
use hft_order_book_simulator.Common.Int.{◌≤ℤ◌}
use hft_order_book_simulator.Common.Words.{sub64}
use hft_order_book_simulator.LatencyTimer.{
  LatencyTimer, Nanos, Double, Stats, compute, stats_of, pct, rank, sort, last, mean, stddev,
}
use hft_order_book_simulator.LatencyTimer.Sorting.{
  IsSample, Ascending, sort-Ascending, sort-IsSample, length-sort, last-IsSample, below_last,
  get_elem-IsSample, get_elem-monotone,
}

sort-filled : (xs : List Nanos) → xs ≢ [] → sort xs ≢ []
sort-filled [] filled e = filled refl
sort-filled (x ∷ xs) filled e =
    let n : suc (length xs) ≡ 0 = sym (length-sort (x ∷ xs)) ∙ ap length e in
    absurd (omega (arith, n))

-- What the percentiles need of the arithmetic of `double`, for `n` samples: the ranks are at least 1, in order, and
-- numbers of 64 bits.
pub record RanksRise {ℓ} {W : Type ℓ} (d : Double W) (n : ℕ) : Type 0 where
  pub at_least_one : 1 ≤ rank ⦃d = d⦄ n d.p50
  pub p50_p90 : rank ⦃d = d⦄ n d.p50 ≤ rank ⦃d = d⦄ n d.p90
  pub p90_p99 : rank ⦃d = d⦄ n d.p90 ≤ rank ⦃d = d⦄ n d.p99
  pub p99_p999 : rank ⦃d = d⦄ n d.p99 ≤ rank ⦃d = d⦄ n d.p999
  pub fits : rank ⦃d = d⦄ n d.p999 < 2 ^ 64

module _ {ℓ} {W : Type ℓ} ⦃d : Double W⦄ where
  index : ℕ → W → ℕ
  index n p = min (sub64 (rank n p) 1) (sub64 n 1)

  -- A percentile of samples, with the index it is found at.
  record Found (xs : List Nanos) (p : W) : Type ℓ where
    value : Nanos
    found : pct xs p ≡ some value
    at : get_elem? xs (index (length xs) p) ≡ some value
    sample : IsSample value xs

  found_in : (x : Nanos) (xs : List Nanos) (p : W) → length (x ∷ xs) < 2 ^ 64 → Found (x ∷ xs) p
  unfolding pct index sub64
  found_in x xs p small =
      let (v, e, s) = get_elem-IsSample (x ∷ xs) (index (length (x ∷ xs)) p) (omega arith) in
      record { value = v; found = e; at = e; sample = s }

  -- What the statistics say of the samples.
  pub record Describes (xs : List Nanos) (s : Stats W) : Type ℓ where
    pub counted : s.samples ≡ length xs
    pub least : (y : Nanos) → IsSample y xs → s.min_ns ≤ℤ y
    pub greatest : (y : Nanos) → IsSample y xs → y ≤ℤ s.max_ns
    pub min_sample : IsSample s.min_ns xs
    pub max_sample : IsSample s.max_ns xs
    pub p50_sample : IsSample s.p50_ns xs
    pub p90_sample : IsSample s.p90_ns xs
    pub p99_sample : IsSample s.p99_ns xs
    pub p999_sample : IsSample s.p999_ns xs

  abbrev stats : (x : Nanos) (xs : List Nanos) → Nanos → Nanos → Nanos → Nanos → Stats W
  stats x xs p50 p90 p99 p999 = record {
    min_ns = x;
    max_ns = last x xs;
    mean_ns = mean (x ∷ xs);
    stddev_ns = stddev (x ∷ xs);
    p50_ns = p50;
    p90_ns = p90;
    p99_ns = p99;
    p999_ns = p999;
    samples = length (x ∷ xs);
  }

  module _ (x : Nanos) (xs : List Nanos) (small : length (x ∷ xs) < 2 ^ 64) where
    abbrev at : (p : W) → Found (x ∷ xs) p
    at p = found_in x xs p small

    stats_of-some :
        stats_of (x ∷ xs)
        ≡ some (stats x xs (at d.p50).value (at d.p90).value (at d.p99).value (at d.p999).value)
    unfolding stats_of
    stats_of-some =
        rw ((at d.p50).found, (at d.p90).found, (at d.p99).found, (at d.p999).found) refl

    sorted-Describes :
        Ascending (x ∷ xs)
        → Describes
            (x ∷ xs)
            (stats x xs (at d.p50).value (at d.p90).value (at d.p99).value (at d.p999).value)
    sorted-Describes a = record {
      counted = refl;
      least = λ y i. elim i [ inl e ↦ subst (λ w. x ≤ℤ w) (sym e) (omega arith) | inr j ↦ a.0 y j ];
      greatest = λ y i. below_last x xs y a i;
      min_sample = inl refl;
      max_sample = last-IsSample x xs;
      p50_sample = (at d.p50).sample;
      p90_sample = (at d.p90).sample;
      p99_sample = (at d.p99).sample;
      p999_sample = (at d.p999).sample;
    }

  describe :
      (ys : List Nanos)
      → ys ≢ []
      → length ys < 2 ^ 64
      → Ascending ys
      → (s : Stats W) × (stats_of ys ≡ some s) × Describes ys s
  describe [] filled small a = absurd (filled refl)
  describe (x ∷ xs) filled small a = (
    stats x xs (at x xs small d.p50).value (at x xs small d.p90).value (at x xs small d.p99).value
        (at x xs small d.p999).value,
    stats_of-some x xs small,
    sorted-Describes x xs small a,
  )

  unsorted : (xs : List Nanos) (s : Stats W) → Describes (sort xs) s → Describes xs s
  unsorted xs s r = record {
    counted = r.counted ∙ length-sort xs;
    least = λ y i. r.least y ((sort-IsSample y xs).1 i);
    greatest = λ y i. r.greatest y ((sort-IsSample y xs).1 i);
    min_sample = (sort-IsSample s.min_ns xs).0 r.min_sample;
    max_sample = (sort-IsSample s.max_ns xs).0 r.max_sample;
    p50_sample = (sort-IsSample s.p50_ns xs).0 r.p50_sample;
    p90_sample = (sort-IsSample s.p90_ns xs).0 r.p90_sample;
    p99_sample = (sort-IsSample s.p99_ns xs).0 r.p99_sample;
    p999_sample = (sort-IsSample s.p999_ns xs).0 r.p999_sample;
  }

  -- `compute` on a timer with samples, fewer than 2^64, makes no access out of range, whatever the arithmetic of
  -- `double` gives: it answers with the number of the samples, the least and the greatest of them, and percentiles that
  -- are samples.
  pub compute_lem :
      (t : LatencyTimer)
      → t.samples ≢ []
      → length t.samples < 2 ^ 64
      → (s : Stats W) × (compute t ≡ some s) × Describes t.samples s
  unfolding compute
  compute_lem t filled small =
      let ys = sort t.samples in
      let (s, e, r) =
        describe ys (sort-filled t.samples filled) (omega (arith, length-sort t.samples))
          (sort-Ascending t.samples) in
      (s, e, unsorted t.samples s r)

  index-monotone :
      (n : ℕ) (p p' : W)
      → 1 ≤ rank n p
      → rank n p ≤ rank n p'
      → rank n p' < 2 ^ 64
      → index n p ≤ index n p'
  unfolding index sub64
  index-monotone n p p' one le fits = omega arith

  abbrev InOrder : Stats W → Type 0
  InOrder s = (s.p50_ns ≤ℤ s.p90_ns) × (s.p90_ns ≤ℤ s.p99_ns) × (s.p99_ns ≤ℤ s.p999_ns)

  sorted-InOrder :
      (ys : List Nanos) (s : Stats W)
      → length ys < 2 ^ 64
      → Ascending ys
      → ys ≢ []
      → RanksRise d (length ys)
      → stats_of ys ≡ some s
      → InOrder s
  sorted-InOrder [] s small a filled r e = absurd (filled refl)
  sorted-InOrder (x ∷ xs) s small a filled r e =
      subst InOrder (injective (sym (stats_of-some x xs small) ∙ e)) (
        rises d.p50 d.p90 r.at_least_one r.p50_p90 (omega (arith, r.p90_p99, r.p99_p999, r.fits)),
        rises d.p90 d.p99 (omega (arith, r.at_least_one, r.p50_p90)) r.p90_p99
            (omega (arith, r.p99_p999, r.fits)),
        rises d.p99 d.p999 (omega (arith, r.at_least_one, r.p50_p90, r.p90_p99)) r.p99_p999 r.fits,
      )
    where
      injective : {s s' : Stats W} → some s ≡ some s' → s ≡ s'
      injective e = cc

      rises :
          (p p' : W)
          → 1 ≤ rank (length (x ∷ xs)) p
          → rank (length (x ∷ xs)) p ≤ rank (length (x ∷ xs)) p'
          → rank (length (x ∷ xs)) p' < 2 ^ 64
          → (at x xs small p).value ≤ℤ (at x xs small p').value
      rises p p' one le fits =
          get_elem-monotone (x ∷ xs) (index (length (x ∷ xs)) p) (index (length (x ∷ xs)) p')
            (at x xs small p).value (at x xs small p').value a
            (index-monotone (length (x ∷ xs)) p p' one le fits) (at x xs small p).at
            (at x xs small p').at

  -- The percentiles that `compute` answers for samples, fewer than 2^64, are in order, when the ranks are.
  pub percentiles_rise :
      (t : LatencyTimer) (s : Stats W)
      → t.samples ≢ []
      → length t.samples < 2 ^ 64
      → RanksRise d (length t.samples)
      → compute t ≡ some s
      → (s.p50_ns ≤ℤ s.p90_ns) × (s.p90_ns ≤ℤ s.p99_ns) × (s.p99_ns ≤ℤ s.p999_ns)
  unfolding compute
  percentiles_rise t s filled small r e =
      sorted-InOrder (sort t.samples) s (omega (arith, length-sort t.samples))
        (sort-Ascending t.samples) (sort-filled t.samples filled)
        (subst (RanksRise d) (sym (length-sort t.samples)) r) e
