-- ===== src/MemoryPool/Contention/Invariant.antt =====
-- What holds of a pool between any two steps of its threads.
use hft_order_book_simulator.Common.{
  ℕ, ◌≡◌, ◌≢◌, refl, sym, ap, ◌∙◌, subst, arith, Option, none, some, List, ◌∷◌, ◌==◌, ==_iff, ◌∈◌,
  ◌∉◌, Distinct, false, Bool-cases, inl, inr,
}
use hft_order_book_simulator.MemoryPool.{update}
use hft_order_book_simulator.MemoryPool.FreeList.{Chain}
use hft_order_book_simulator.MemoryPool.Contention.{Allocator, Freer, Place, System}

-- What the allocating thread relies on: a slot that it has loaded stays in the free list, since no other thread takes
-- one out.
abbrev pub Relies : Allocator → (ℕ → Option ℕ) → (ℕ → Place) → List ℕ → Type 0
Relies Allocator.idle next place xs = Unit {0}
Relies (Allocator.loaded none) next place xs = Unit {0}
Relies (Allocator.loaded (some i)) next place xs = i ∈ xs
Relies (Allocator.read i n) next place xs = (i ∈ xs) × (next i ≡ n)
Relies (Allocator.popped i) next place xs = place i ≡ Place.taken
Relies (Allocator.counted i) next place xs = place i ≡ Place.taken

-- What the freeing thread `t` relies on.
abbrev pub Keeps : ℕ → Freer → (ℕ → Option ℕ) → (ℕ → Place) → Type 0
Keeps t Freer.idle next place = Unit {0}
Keeps t (Freer.loaded i head) next place = place i ≡ Place.freeing t
Keeps t (Freer.linked i head) next place = (place i ≡ Place.freeing t) × (next i ≡ head)
Keeps t Freer.pushed next place = Unit {0}

-- The links lead from the head through the slots `xs`, which are the free ones.
pub record Inv {ℓ} {T : Type ℓ} (s : System T) (xs : List ℕ) : Type 0 where
  pub chain : Chain s.pool.next s.pool.free_head xs
  pub distinct : Distinct xs
  pub listed : (i : ℕ) → i ∈ xs → s.place i ≡ Place.free
  pub all : (i : ℕ) → s.place i ≡ Place.free → i ∈ xs
  pub relies : Relies s.allocator s.pool.next s.place xs
  pub keeps : (t : ℕ) → Keeps t (s.freer t) s.pool.next s.place

pub own : {A : Type 0} (f : ℕ → A) (i : ℕ) (v : A) → update f i v i ≡ v
own f i v = ground arith

pub other : {A : Type 0} (f : ℕ → A) (i j : ℕ) (v : A) → (i == j) ≡ false → update f i v j ≡ f j
other f i j v e = rw e refl

pub mem-ne : (xs : List ℕ) (i j : ℕ) → i ∉ xs → j ∈ xs → (i == j) ≡ false
mem-ne xs i j out mem = elim (Bool-cases (i == j)) [
  | inl e ↦ absurd (cc (out, mem, (==_iff i j).0 e))
  | inr e ↦ e
]

-- Slots at different places are different.
pub apart :
    (place : ℕ → Place) (i j : ℕ) {p q : Place}
    → place i ≡ p
    → place j ≡ q
    → p ≢ q
    → (i == j) ≡ false
apart place i j hi hj ne = elim (Bool-cases (i == j)) [
  | inl e ↦ absurd (ne (sym hi ∙ ap place ((==_iff i j).0 e) ∙ hj))
  | inr e ↦ e
]

-- What the threads rely on does not hang on a slot `i` that leaves a place where none of them needs it.
pub Relies-place :
    (a : Allocator) (next : ℕ → Option ℕ) (place : ℕ → Place) (xs : List ℕ) (i : ℕ) (p : Place)
    → place i ≢ Place.taken
    → Relies a next place xs
    → Relies a next (update place i p) xs
Relies-place Allocator.idle next place xs i p out r = r
Relies-place (Allocator.loaded none) next place xs i p out r = r
Relies-place (Allocator.loaded (some j)) next place xs i p out r = r
Relies-place (Allocator.read j n) next place xs i p out r = r
Relies-place (Allocator.popped j) next place xs i p out r =
    other place i j p (apart place i j refl r out) ∙ r
Relies-place (Allocator.counted j) next place xs i p out r =
    other place i j p (apart place i j refl r out) ∙ r

pub Keeps-place :
    (t : ℕ) (f : Freer) (next : ℕ → Option ℕ) (place : ℕ → Place) (i : ℕ) (p : Place)
    → place i ≢ Place.freeing t
    → Keeps t f next place
    → Keeps t f next (update place i p)
Keeps-place t Freer.idle next place i p out k = k
Keeps-place t (Freer.loaded j head) next place i p out k =
    other place i j p (apart place i j refl k out) ∙ k
Keeps-place t (Freer.linked j head) next place i p out k =
    (other place i j p (apart place i j refl k.0 out) ∙ k.0, k.1)
Keeps-place t Freer.pushed next place i p out k = k

-- Nor does it hang on the link of a slot that is not listed, or on a slot that joins the list.
pub Relies-next :
    (a : Allocator) (next : ℕ → Option ℕ) (place : ℕ → Place) (xs : List ℕ) (i : ℕ) (v : Option ℕ)
    → i ∉ xs
    → Relies a next place xs
    → Relies a (update next i v) place xs
Relies-next Allocator.idle next place xs i v out r = r
Relies-next (Allocator.loaded none) next place xs i v out r = r
Relies-next (Allocator.loaded (some j)) next place xs i v out r = r
Relies-next (Allocator.read j n) next place xs i v out r =
    (r.0, other next i j v (mem-ne xs i j out r.0) ∙ r.1)
Relies-next (Allocator.popped j) next place xs i v out r = r
Relies-next (Allocator.counted j) next place xs i v out r = r

pub Relies-listed :
    (a : Allocator) (next : ℕ → Option ℕ) (place : ℕ → Place) (xs : List ℕ) (i : ℕ)
    → Relies a next place xs
    → Relies a next place (i ∷ xs)
Relies-listed Allocator.idle next place xs i r = r
Relies-listed (Allocator.loaded none) next place xs i r = r
Relies-listed (Allocator.loaded (some j)) next place xs i r = ground arith
Relies-listed (Allocator.read j n) next place xs i r = (ground arith, r.1)
Relies-listed (Allocator.popped j) next place xs i r = r
Relies-listed (Allocator.counted j) next place xs i r = r

pub Keeps-next :
    (t : ℕ) (f : Freer) (next : ℕ → Option ℕ) (place : ℕ → Place) (i : ℕ) (v : Option ℕ)
    → place i ≢ Place.freeing t
    → Keeps t f next place
    → Keeps t f (update next i v) place
Keeps-next t Freer.idle next place i v out k = k
Keeps-next t (Freer.loaded j head) next place i v out k = k
Keeps-next t (Freer.linked j head) next place i v out k =
    (k.0, other next i j v (apart place i j refl k.0 out) ∙ k.1)
Keeps-next t Freer.pushed next place i v out k = k

-- One freeing thread moves; the others keep what they rely on.
pub Keeps-freer :
    (freer : ℕ → Freer) (t : ℕ) (f : Freer) (next : ℕ → Option ℕ) (place : ℕ → Place)
    → Keeps t f next place
    → ((u : ℕ) → t ≢ u → Keeps u (freer u) next place)
    → (u : ℕ) → Keeps u (update freer t f u) next place
Keeps-freer freer t f next place mine rest u = elim (Bool-cases (t == u)) [
  | inl e ↦
      let e' : t ≡ u = (==_iff t u).0 e in
      subst (λ v. Keeps v (update freer t f v) next place) e' (rw (own freer t f) mine)
  | inr e ↦ rw (other freer t u f e) (rest u λ e'. absurd (cc (e, (==_iff t u).1 e')))
]
