-- ===== src/Common/Pigeonhole.antt =====
-- A list of different numbers below a bound is no longer than the bound.
use Prim.Native.Nat.{ℕ, zero, suc, ◌≤◌, ◌<◌}
use mathlib.Core.Path.{sym, ap, subst}
use mathlib.Core.Logic.{inl, inr}
use mathlib.Core.List.{List, [], ◌∷◌, ◌++◌}
use native.Mathlib.Omega.{arith}
use hft_order_book_simulator.Common.Tests.{◌==◌, Bool-cases, ==_iff}
use hft_order_book_simulator.Common.Lists.{
  length, length-append, has, ◌∈◌, ◌∉◌, has-append, Distinct, Distinct-split, split_at_mem,
}

lower :
    (n a : ℕ) (xs ys : List ℕ)
    → n ∉ xs
    → n ∉ ys
    → ((a : ℕ) → a ∈ xs ++ n ∷ ys → a < suc n)
    → a ∈ xs ++ ys
    → a < n
lower n a xs ys h k below i = elim (Bool-cases (a == n)) [
  | inl e ↦
      let same : n ∈ xs ++ ys = subst (λ z. z ∈ xs ++ ys) ((==_iff a n).0 e) i in
      absurd (ground (arith, same, has-append n xs ys))
  | inr e ↦ ground (arith, below a, e, i, has-append a xs (n ∷ ys), has-append a xs ys)
]

pub length-bounded :
    (n : ℕ) (xs : List ℕ) → Distinct xs → ((a : ℕ) → a ∈ xs → a < n) → length xs ≤ n
length-bounded zero [] d below = omega arith
length-bounded zero (x ∷ xs) d below = absurd (omega (arith, below x (ground arith)))
length-bounded (suc n) xs d below = elim (Bool-cases (has n xs)) [
  | inl i ↦
      let (ys, zs, e) = split_at_mem n xs i in
      let (out₁, out₂, _, _, rest) = Distinct-split ys n zs (subst Distinct e d) in
      let ih =
        length-bounded n (ys ++ zs) rest
          (λ a. lower n a ys zs out₁ out₂ (λ b j. below b (subst (λ ws. b ∈ ws) (sym e) j))) in
      omega (arith, ih, ap length e, length-append ys zs, length-append ys (n ∷ zs))
  | inr o ↦
      let ih = length-bounded n xs d (λ a i. ground (arith, below a i, o, ==_iff a n)) in
      omega (arith, ih)
]
