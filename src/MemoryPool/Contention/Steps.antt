-- ===== src/MemoryPool/Contention/Steps.antt =====
-- Taking a slot out of the list keeps the invariant, and so does every step of the pool's threads.
use hft_order_book_simulator.Common.{
  ℕ, ◌≡◌, refl, sym, ap, ◌∙◌, subst, arith, Option, some, List, [], ◌∷◌, ◌==◌, ==_iff, ◌∈◌, has,
  Bool-cases, inl, inr,
}
use hft_order_book_simulator.Common.Words.{add64, sub64}
use hft_order_book_simulator.MemoryPool.{update}
use hft_order_book_simulator.MemoryPool.FreeList.{Chain}
use hft_order_book_simulator.MemoryPool.Contention.{
  Allocator, Freer, Place, System, Step, after_pop, load_head, none_left, load_next, pop, pop_again,
  count, build, give, link, push, push_again, uncount,
}
use hft_order_book_simulator.MemoryPool.Contention.Invariant.{Inv, own, other, mem-ne, Keeps-place}
use hft_order_book_simulator.MemoryPool.Contention.Moves.{
  relied, kept, moved, freed, loaded-Relies, build-Inv, give-Inv, link-Inv, push-Inv,
}

module _ {ℓ} {T : Type ℓ} (s : System T) (xs : List ℕ) (v : Inv s xs) where
  -- The compare-exchange takes the head that it has read, so what it stores is the link of that slot.
  taken_first :
      (i : ℕ) (n : Option ℕ) (ys : List ℕ)
      → s.pool.next i ≡ n
      → Inv s (i ∷ ys)
      → Inv (after_pop s i n) ys
  taken_first i n ys e w = record {
    chain = subst (λ h. Chain s.pool.next h ys) e w.chain.1;
    distinct = w.distinct.1;
    listed = λ j mem.
        other s.place i j Place.taken (mem-ne ys i j w.distinct.0 mem)
        ∙ w.listed j (ground (arith, mem));
    all = all';
    relies = own s.place i Place.taken;
    keeps = λ t.
        Keeps-place t (s.freer t) s.pool.next s.place i Place.taken (λ f. absurd (cc (f, was)))
          (w.keeps t);
  }
    where
      was : s.place i ≡ Place.free
      was = w.listed i (ground arith)

      all' : (j : ℕ) → update s.place i Place.taken j ≡ Place.free → j ∈ ys
      all' j f = elim (Bool-cases (i == j)) [
        | inl same ↦ absurd (
            cc (
              f,
              ap (update s.place i Place.taken) ((==_iff i j).0 same),
              own s.place i Place.taken,
            ))
        | inr differ ↦
            let mem : j ∈ i ∷ ys = w.all j (sym (other s.place i j Place.taken differ) ∙ f) in
            ground (arith, differ, mem)
      ]

  pop-Inv :
      (i : ℕ) (n : Option ℕ)
      → s.allocator ≡ Allocator.read i n
      → s.pool.free_head ≡ some i
      → (ys : List ℕ) × Inv (after_pop s i n) ys
  pop-Inv i n e same = split xs refl
    where
      mine : (i ∈ xs) × (s.pool.next i ≡ n)
      mine = relied s xs v (Allocator.read i n) e

      split : (ys : List ℕ) → ys ≡ xs → (zs : List ℕ) × Inv (after_pop s i n) zs
      split [] f = absurd (cc (ap (has i) f, mine.0))
      split (y ∷ ys) f =
          let w = subst (Inv s) (sym f) v in
          let y-is : y ≡ i = cc (w.chain.0, same) in
          (ys, taken_first i n ys mine.1 (subst (λ z. Inv s (z ∷ ys)) y-is w))

-- The free slots after a step.
pub Step-Inv {ℓ} :
    {T : Type ℓ} (s u : System T) (xs : List ℕ) → Inv s xs → Step s u → (ys : List ℕ) × Inv u ys
unfolding add64 sub64
Step-Inv s u xs v (load_head e) =
    (xs, moved s xs v s.pool.allocated (Allocator.loaded s.pool.free_head) (loaded-Relies s xs v))
Step-Inv s u xs v (none_left e) = (xs, moved s xs v s.pool.allocated Allocator.idle tt)
Step-Inv s u xs v (load_next i e) = (
  xs,
  moved s xs v s.pool.allocated (Allocator.read i (s.pool.next i))
      (relied s xs v (Allocator.loaded (some i)) e, refl),
)
Step-Inv s u xs v (pop i n e same) = pop-Inv s xs v i n e same
Step-Inv s u xs v (pop_again i n e) =
    (xs, moved s xs v s.pool.allocated (Allocator.loaded s.pool.free_head) (loaded-Relies s xs v))
Step-Inv s u xs v (count i e) = (
  xs,
  moved s xs v (add64 s.pool.allocated 1) (Allocator.counted i)
      (relied s xs v (Allocator.popped i) e),
)
Step-Inv s u xs v (build i value e) = (xs, build-Inv s xs v i value e)
Step-Inv s u xs v (give t i e mine) = (xs, give-Inv s xs v t i e mine)
Step-Inv s u xs v (link t i head e) = (xs, link-Inv s xs v t i head e)
Step-Inv s u xs v (push t i head e same) = (i ∷ xs, push-Inv s xs v t i head e same)
Step-Inv s u xs v (push_again t i head e) = (
  xs,
  freed s xs v s.pool.allocated t (Freer.loaded i s.pool.free_head)
      (kept s xs v t (Freer.linked i head) e).0,
)
Step-Inv s u xs v (uncount t e) = (xs, freed s xs v (sub64 s.pool.allocated 1) t Freer.idle tt)
