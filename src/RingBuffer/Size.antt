-- ===== src/RingBuffer/Size.antt =====
-- What `size_approx`, `empty` and `full` say of the ring, between any two steps of the two threads.
use Prim.Native.Nat.{bit_and}
use native.Mathlib.Nat.{mod-eq_of_lt, mod-lt, add-mod_right, mod-add-mod}
use native.Mathlib.Decide.{dec_lt}
use hft_order_book_simulator.Common.{
  ℕ, suc, ◌+◌, ◌-◌, ◌%◌, ◌^◌, ◌≤◌, ◌<◌, ◌≡◌, refl, sym, ap, ◌∙◌, arith, subst, ==_iff, true, ◌↔◌,
}
use hft_order_book_simulator.Common.Mask.{bit_and-mask}
use hft_order_book_simulator.RingBuffer.{
  construct, size_approx, empty, full, usable_capacity, next_index,
}
use hft_order_book_simulator.RingBuffer.Indices.{IsCapacity, next_index-pos, mod-injective}
use hft_order_book_simulator.RingBuffer.Threads.{System, Reach, init}
use hft_order_book_simulator.RingBuffer.Fifo.{Shared, Reach-Inv}

-- The distance round the ring from the index of `a` to that of `a + d`.
distance : (c a d h t : ℕ) → d < c → t ≡ a % c → h ≡ (a + d) % c → (h + c - t) % c ≡ d
distance c a d h t lt et eh =
    let small : a % c < c = mod-lt a (omega arith) in
    let sum : (t + d) % c ≡ h = ap (λ (n : ℕ). (n + d) % c) et ∙ mod-add-mod a c d ∙ sym eh in
    elim (dec_lt (t + d) c) [
      | yes below ↦
          let e : t + d ≡ h = sym (mod-eq_of_lt below) ∙ sum in
          ap (λ (n : ℕ). n % c) (omega arith) ∙ add-mod_right d c ∙ mod-eq_of_lt lt
      | no above ↦
          let k = t + d - c in
          let near : k < c = omega arith in
          let e : k ≡ h =
            sym (mod-eq_of_lt near)
            ∙ sym (add-mod_right k c)
            ∙ ap (λ (n : ℕ). n % c) (omega arith)
            ∙ sum in
          ap (λ (n : ℕ). n % c) (omega arith) ∙ mod-eq_of_lt lt
    ]

-- The unsigned difference wraps, the sum with the capacity wraps back.
size-wrap :
    (h t c : ℕ)
    → h < c
    → t < c
    → c ≤ 2 ^ 63
    → ((h + 2 ^ 64 - t % 2 ^ 64) % 2 ^ 64 + c) % 2 ^ 64 ≡ h + c - t
size-wrap h t c lh lt small = omega arith

module _ {ℓ} {T : Type ℓ} {c : ℕ} (v : IsCapacity c) where
  size_approx-Shared : (s : System T) → Shared c s → size_approx s.ring ≡ s.sent - s.received
  unfolding size_approx
  size_approx-Shared s I =
      let h = s.sent % c in
      let t = s.received % c in
      let eq : s.received + (s.sent - s.received) ≡ s.sent = omega (arith, I.behind) in
      let lh : h < c = mod-lt s.sent (omega (arith, v.two)) in
      let lt : t < c = mod-lt s.received (omega (arith, v.two)) in
      let d =
        distance c s.received (s.sent - s.received) h t (omega (arith, I.room, I.behind, v.two))
          refl (ap (λ (n : ℕ). n % c) (sym eq)) in
      let w = size-wrap h t c lh lt v.small in
      let m = bit_and-mask (h + c - t) v.bits in
      rw (I.head, I.tail, I.capacity)
        (ap (λ (n : ℕ). bit_and n (c - 1)) w
          ∙ ap (λ (n : ℕ). bit_and (h + c - t) (n - 1)) v.power
          ∙ m
          ∙ ap (λ (n : ℕ). (h + c - t) % n) (sym v.power)
          ∙ d)

  empty-Shared : (s : System T) → Shared c s → (empty s.ring ≡ true) ↔ (s.sent ≡ s.received)
  unfolding empty
  empty-Shared s I = (
    λ e. sym (
        mod-injective c s.received s.sent (omega (arith, v.two)) I.behind I.room
          (sym I.tail ∙ sym ((==_iff s.ring.head s.ring.tail).0 e) ∙ I.head)),
    λ e. (==_iff s.ring.head s.ring.tail).1 (I.head ∙ ap (λ (n : ℕ). n % c) e ∙ sym I.tail),
  )

  pub full-Shared :
      (s : System T) → Shared c s → (full s.ring ≡ true) ↔ (s.sent - s.received ≡ c - 1)
  unfolding full
  full-Shared s I =
      let next : next_index s.ring.capacity s.ring.head ≡ suc s.sent % c =
        ap (λ (n : ℕ). next_index n s.ring.head) I.capacity
        ∙ ap (next_index c) I.head
        ∙ next_index-pos v s.sent in
      let test = ==_iff (next_index s.ring.capacity s.ring.head) s.ring.tail in
      (
        λ e.
            let same : s.received % c ≡ suc s.sent % c = sym I.tail ∙ sym (test.0 e) ∙ next in
            elim (dec_lt (suc s.sent) (s.received + c)) [
              | yes near ↦ absurd (
                  omega (
                    arith,
                    mod-injective c s.received (suc s.sent) (omega (arith, v.two))
                        (omega (arith, I.behind)) near same,
                    I.behind,
                  ))
              | no lap ↦ omega (arith, lap, I.room)
            ],
        λ e.
            let lap : suc s.sent ≡ s.received + c = omega (arith, e, I.behind, I.room, v.two) in
            test.1 (next ∙ ap (λ (n : ℕ). n % c) lap ∙ add-mod_right s.received c ∙ sym I.tail),
      )

  -- For a valid capacity, between any two steps of the two threads, `size_approx` is the number of items that were accepted and not
  -- yet delivered, `empty` holds exactly when there is none, and `full` exactly when there are `capacity()` of them.
  pub sizes :
      (raw : ℕ → T) {s : System T}
      → Reach (init (construct c raw)) s
      → (size_approx s.ring ≡ s.sent - s.received)
        × ((empty s.ring ≡ true) ↔ (s.sent ≡ s.received))
        × ((full s.ring ≡ true) ↔ (s.sent - s.received ≡ usable_capacity s.ring))
  unfolding usable_capacity
  sizes raw {s} r =
      let I = (Reach-Inv v raw r).shared in
      (
        size_approx-Shared s I,
        empty-Shared s I,
        subst (λ (n : ℕ). (full s.ring ≡ true) ↔ (s.sent - s.received ≡ n - 1)) (sym I.capacity)
            (full-Shared s I),
      )
