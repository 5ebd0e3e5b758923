-- ===== src/MemoryPool/Contention/Moves.antt =====
-- The moves of the pool's threads, but for the one that takes a slot out of the list, keep the invariant.
use hft_order_book_simulator.Common.{
  ℕ, ◌≡◌, ◌≢◌, refl, sym, ap, ◌∙◌, subst, arith, Option, none, some, List, [], ◌∷◌, ◌==◌, ==_iff,
  ◌∈◌, ◌∉◌, has, Bool-cases, inl, inr,
}
use hft_order_book_simulator.MemoryPool.{update}
use hft_order_book_simulator.MemoryPool.FreeList.{Chain, Chain-update}
use hft_order_book_simulator.MemoryPool.Contention.{
  Allocator, Freer, Place, System, after_build, after_give, after_link, after_push,
}
use hft_order_book_simulator.MemoryPool.Contention.Invariant.{
  Relies, Keeps, Inv, own, other, apart, Relies-place, Keeps-place, Relies-next, Relies-listed,
  Keeps-next, Keeps-freer,
}

-- A slot that moves between two places other than the free list leaves the list as it is.
listed-place :
    (place : ℕ → Place) (xs : List ℕ) (i : ℕ) (p : Place)
    → place i ≢ Place.free
    → ((j : ℕ) → j ∈ xs → place j ≡ Place.free)
    → (j : ℕ) → j ∈ xs
    → update place i p j ≡ Place.free
listed-place place xs i p out listed j mem =
    other place i j p (apart place i j refl (listed j mem) out) ∙ listed j mem

all-place :
    (place : ℕ → Place) (xs : List ℕ) (i : ℕ) (p : Place)
    → p ≢ Place.free
    → ((j : ℕ) → place j ≡ Place.free → j ∈ xs)
    → (j : ℕ) → update place i p j ≡ Place.free
    → j ∈ xs
all-place place xs i p out all j e = elim (Bool-cases (i == j)) [
  | inl same ↦ absurd (out (sym (own place i p) ∙ ap (update place i p) ((==_iff i j).0 same) ∙ e))
  | inr differ ↦ all j (sym (other place i j p differ) ∙ e)
]

module _ {ℓ} {T : Type ℓ} (s : System T) (xs : List ℕ) (v : Inv s xs) where
  pub relied : (a : Allocator) → s.allocator ≡ a → Relies a s.pool.next s.place xs
  relied a e = subst (λ b. Relies b s.pool.next s.place xs) e v.relies

  pub kept : (t : ℕ) (f : Freer) → s.freer t ≡ f → Keeps t f s.pool.next s.place
  kept t f e = subst (λ g. Keeps t g s.pool.next s.place) e (v.keeps t)

  -- The allocating thread goes on, and nothing else changes but the count.
  pub moved :
      (n : ℕ) (a : Allocator)
      → Relies a s.pool.next s.place xs
      → Inv (record s { pool = record s.pool { allocated = n }; allocator = a }) xs
  moved n a r = record {
    chain = v.chain;
    distinct = v.distinct;
    listed = v.listed;
    all = v.all;
    relies = r;
    keeps = v.keeps;
  }

  -- Likewise for a freeing thread.
  pub freed :
      (n t : ℕ) (f : Freer)
      → Keeps t f s.pool.next s.place
      → Inv (record s { pool = record s.pool { allocated = n }; freer = update s.freer t f }) xs
  freed n t f k = record {
    chain = v.chain;
    distinct = v.distinct;
    listed = v.listed;
    all = v.all;
    relies = v.relies;
    keeps = Keeps-freer s.freer t f s.pool.next s.place k λ u ne. v.keeps u;
  }

  -- What the allocating thread has just loaded is in the list.
  pub loaded-Relies : Relies (Allocator.loaded s.pool.free_head) s.pool.next s.place xs
  loaded-Relies = loaded s.pool.free_head xs v.chain
    where
      loaded :
          (head : Option ℕ) (ys : List ℕ)
          → Chain s.pool.next head ys
          → Relies (Allocator.loaded head) s.pool.next s.place ys
      loaded none ys c = tt
      loaded (some i) [] c = absurd (cc c)
      loaded (some i) (y ∷ ys) c = ground (arith, c.0)

  pub build-Inv :
      (i : ℕ) (value : T) → s.allocator ≡ Allocator.counted i → Inv (after_build s i value) xs
  build-Inv i value e =
      let mine = relied (Allocator.counted i) e in
      record {
        chain = v.chain;
        distinct = v.distinct;
        listed = listed-place s.place xs i Place.held (λ f. absurd (cc (f, mine))) v.listed;
        all = all-place s.place xs i Place.held (λ f. absurd (cc f)) v.all;
        relies = tt;
        keeps = λ t.
            Keeps-place t (s.freer t) s.pool.next s.place i Place.held (λ f. absurd (cc (f, mine)))
              (v.keeps t);
      }

  pub give-Inv :
      (t i : ℕ) → s.freer t ≡ Freer.idle → s.place i ≡ Place.held → Inv (after_give s t i) xs
  give-Inv t i e mine = record {
    chain = v.chain;
    distinct = v.distinct;
    listed = listed-place s.place xs i (Place.freeing t) (λ f. absurd (cc (f, mine))) v.listed;
    all = all-place s.place xs i (Place.freeing t) (λ f. absurd (cc f)) v.all;
    relies =
        Relies-place s.allocator s.pool.next s.place xs i (Place.freeing t)
          (λ f. absurd (cc (f, mine))) v.relies;
    keeps =
        Keeps-freer s.freer t (Freer.loaded i s.pool.free_head) s.pool.next
          (update s.place i (Place.freeing t)) (own s.place i (Place.freeing t))
          λ u ne.
            Keeps-place u (s.freer u) s.pool.next s.place i (Place.freeing t)
              (λ f. absurd (cc (f, mine))) (v.keeps u);
  }

  -- A slot that a thread is freeing is not in the list.
  unlisted : (t i : ℕ) → s.place i ≡ Place.freeing t → i ∉ xs
  unlisted t i mine = elim (Bool-cases (has i xs)) [
    | inl mem ↦ absurd (cc (v.listed i mem, mine))
    | inr out ↦ out
  ]

  pub link-Inv :
      (t i : ℕ) (head : Option ℕ) → s.freer t ≡ Freer.loaded i head → Inv (after_link s t i head) xs
  link-Inv t i head e =
      let mine : s.place i ≡ Place.freeing t = kept t (Freer.loaded i head) e in
      let out = unlisted t i mine in
      record {
        chain = Chain-update s.pool.next s.pool.free_head xs i head out v.chain;
        distinct = v.distinct;
        listed = v.listed;
        all = v.all;
        relies = Relies-next s.allocator s.pool.next s.place xs i head out v.relies;
        keeps =
            Keeps-freer s.freer t (Freer.linked i head) (update s.pool.next i head) s.place
              (mine, own s.pool.next i head)
              λ u ne.
                Keeps-next u (s.freer u) s.pool.next s.place i head (λ f. ne (cc (f, mine)))
                  (v.keeps u);
      }

  pub push-Inv :
      (t i : ℕ) (head : Option ℕ)
      → s.freer t ≡ Freer.linked i head
      → s.pool.free_head ≡ head
      → Inv (after_push s t i) (i ∷ xs)
  push-Inv t i head e same =
      let mine = kept t (Freer.linked i head) e in
      let place' = update s.place i Place.free in
      record {
        chain = (refl, subst (λ h. Chain s.pool.next h xs) (same ∙ sym mine.1) v.chain);
        distinct = (unlisted t i mine.0, v.distinct);
        listed = listed';
        all = all';
        relies = Relies-listed s.allocator s.pool.next place' xs i (
            Relies-place s.allocator s.pool.next s.place xs i Place.free
              (λ f. absurd (cc (f, mine.0))) v.relies);
        keeps = Keeps-freer s.freer t Freer.pushed s.pool.next place' tt λ u ne.
            Keeps-place u (s.freer u) s.pool.next s.place i Place.free (λ f. ne (cc (f, mine.0)))
              (v.keeps u);
      }
    where
      listed' : (j : ℕ) → j ∈ i ∷ xs → update s.place i Place.free j ≡ Place.free
      listed' j mem = elim (Bool-cases (i == j)) [
        | inl e ↦ ground (arith, e)
        | inr e ↦ other s.place i j Place.free e ∙ v.listed j (ground (arith, e, mem))
      ]

      all' : (j : ℕ) → update s.place i Place.free j ≡ Place.free → j ∈ i ∷ xs
      all' j f = elim (Bool-cases (i == j)) [
        | inl e ↦ ground (arith, e)
        | inr e ↦ ground (arith, v.all j (sym (other s.place i j Place.free e) ∙ f))
      ]
