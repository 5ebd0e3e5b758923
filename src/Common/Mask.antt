-- ===== src/Common/Mask.antt =====
-- `x & (2 ^ k - 1)` is the remainder of `x` by `2 ^ k`.
use Prim.Native.Nat.{digits, bit_and, bit_and-bitwise}
use native.Mathlib.Nat.{
  zero-mod, pow-suc, one-le-pow, mod-lt, div-add-mod', mod-eq_of_lt, mul-add-mod_self_right,
}
use hft_order_book_simulator.Common.{
  ℕ, zero, suc, ◌+◌, ◌-◌, ◌*◌, ◌/◌, ◌%◌, ◌^◌, ◌≤◌, ◌<◌, ◌≡◌, sym, ap, ◌∙◌, min, arith,
}

-- The remainder by `2 * p` from that of the half by `p`.
mod-double : (a p : ℕ) → 0 < p → (a / 2 % p) * 2 + a % 2 ≡ a % (2 * p)
mod-double a p h =
    let r = a / 2 % p in
    let q = a / 2 / p in
    let low : r < p = mod-lt (a / 2) h in
    let half : q * p + r ≡ a / 2 = div-add-mod' (a / 2) p in
    let whole : q * (2 * p) + (r * 2 + a % 2) ≡ a = omega (arith, half) in
    sym (
      ap (λ x. x % (2 * p)) (sym whole)
      ∙ mul-add-mod_self_right q (2 * p) (r * 2 + a % 2)
      ∙ mod-eq_of_lt (omega (arith, low)))

-- By the recursion on binary digits that the operation stands for, with enough fuel.
digits-mask : (n a k : ℕ) → a ≤ n → digits (λ b. zero) min n a (2 ^ k - 1) ≡ a % 2 ^ k
digits-mask zero zero k h = sym (zero-mod (2 ^ k))
digits-mask zero (suc a) k h = absurd (omega arith)
digits-mask (suc n) zero k h = sym (zero-mod (2 ^ k))
digits-mask (suc n) (suc a) zero h = omega (arith, digits-mask n (suc a / 2) 0 (omega arith))
digits-mask (suc n) (suc a) (suc k) h =
    let p = 2 ^ k in
    let pos : 0 < p = one-le-pow k 2 (omega arith) in
    let half : (2 ^ suc k - 1) / 2 ≡ p - 1 = omega (arith, pow-suc 2 k, pos) in
    let odd : (2 ^ suc k - 1) % 2 ≡ 1 = omega (arith, pow-suc 2 k, pos) in
    let twice : 2 * p ≡ 2 ^ suc k = omega (arith, pow-suc 2 k) in
    rw (half, odd, digits-mask n (suc a / 2) k (omega arith), ← twice)
      (omega (arith, mod-double (suc a) p pos))

pub bit_and-mask : (a k : ℕ) → bit_and a (2 ^ k - 1) ≡ a % 2 ^ k
bit_and-mask a k = bit_and-bitwise a (2 ^ k - 1) ∙ digits-mask a a k (omega arith)
