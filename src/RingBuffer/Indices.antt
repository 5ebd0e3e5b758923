-- ===== src/RingBuffer/Indices.antt =====
-- Counting round the ring: positions modulo the capacity.
use native.Mathlib.Nat.{mod-eq_of_lt, mod-lt, div-add-mod', suc-mod, mul-le-mul_right}
use native.Mathlib.Decide.{dec_lt}
use hft_order_book_simulator.Common.{
  ℕ, suc, ◌+◌, ◌*◌, ◌/◌, ◌%◌, ◌^◌, ◌≤◌, ◌<◌, ◌≡◌, ◌≢◌, sym, ap, ◌∙◌, arith,
}
use hft_order_book_simulator.Common.Mask.{bit_and-mask}
use hft_order_book_simulator.RingBuffer.{next_index}

-- The `static_assert`s on the capacity, and the range of `size_t`.
pub record IsCapacity (c : ℕ) : Type 0 where
  pub bits : ℕ
  pub power : c ≡ 2 ^ bits
  pub two : 2 ≤ c
  pub small : c ≤ 2 ^ 63

-- Masking is the remainder.
next_index-mod : {c : ℕ} (v : IsCapacity c) (i : ℕ) → i < c → next_index c i ≡ (i + 1) % c
unfolding next_index
next_index-mod {c} v i h =
    let e : (i + 1) % 2 ^ 64 ≡ i + 1 = mod-eq_of_lt (omega (arith, v.small)) in
    rw (e, v.power) (bit_and-mask (i + 1) v.bits)

-- The next index of the position `n`.
pub next_index-pos : {c : ℕ} (v : IsCapacity c) (n : ℕ) → next_index c (n % c) ≡ suc n % c
next_index-pos {c} v n =
    next_index-mod v (n % c) (mod-lt n (omega (arith, v.two)))
    ∙ ap (λ x. x % c) (omega arith)
    ∙ sym (suc-mod n c)

-- Two positions less than a lap apart share an index only if they are one.
pub mod-injective : (c a b : ℕ) → 0 < c → a ≤ b → b < a + c → a % c ≡ b % c → a ≡ b
mod-injective c a b pos le lt e =
    let qa = a / c in
    let qb = b / c in
    let ea : qa * c + a % c ≡ a = div-add-mod' a c in
    let eb : qb * c + b % c ≡ b = div-add-mod' b c in
    elim (dec_lt qa qb) [
      | yes less ↦ absurd (omega (arith, ea, eb, e, mul-le-mul_right c less))
      | no ge ↦ let ge' : qb ≤ qa = omega arith in omega (arith, ea, eb, e, mul-le-mul_right c ge')
    ]

-- A position taken later, but less than a lap later, has another index.
pub mod-ne : (c a b : ℕ) → 0 < c → a < b → b < a + c → (b % c) ≢ (a % c)
mod-ne c a b pos lt near e =
    let same = mod-injective c a b pos (omega arith) near (sym e) in omega (arith, same)
