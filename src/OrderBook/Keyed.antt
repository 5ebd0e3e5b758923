-- ===== src/OrderBook/Keyed.antt =====
-- The map of the orders and the pool: every entry of the map is an order in a slot of its own that is not free, under
-- its own id.
use hft_order_book_simulator.Common.{
  ℕ, suc, ◌≤◌, ◌<◌, ◌≡◌, refl, sym, ap, ◌∙◌, arith, false, Option, none, some, List, [], ◌∷◌, ◌==◌,
  ◌∉◌, Distinct, length, ==_iff, Bool-cases, inl, inr, if◌then◌else◌,
}
use hft_order_book_simulator.Types.{Order, OrderId, Ptr}
use hft_order_book_simulator.MemoryPool.{MemoryPool}
use hft_order_book_simulator.MemoryPool.FreeList.{IsFree, deallocate-IsFree}
use hft_order_book_simulator.Containers.{lookup, drop_key}
use hft_order_book_simulator.OrderBook.{OrderBook, heap}
use hft_order_book_simulator.OrderBook.Matching.{forget}

abbrev pub IdMap : Type 0
IdMap = List (OrderId × Ptr)

abbrev pub ids : IdMap → List ℕ
ids [] = []
ids ((i, p) ∷ m) = i ∷ ids m

-- The order at `p` is in the map.
abbrev pub Entered : OrderBook → Ptr → Type 0
Entered b p = lookup (heap b p).id b.order_map ≡ some p

pub record Keyed (b : OrderBook) (free : List Ptr) : Type 0 where
  pub free_list : IsFree b.pool free
  pub distinct : Distinct (ids b.order_map)
  pub own_id : (i : OrderId) (p : Ptr) → lookup i b.order_map ≡ some p → (heap b p).id ≡ i
  pub apart : (i : OrderId) (p : Ptr) → lookup i b.order_map ≡ some p → p ∉ free
  pub in_range : (i : OrderId) (p : Ptr) → lookup i b.order_map ≡ some p → p < b.pool.capacity
  pub old : (i : OrderId) (p : Ptr) → lookup i b.order_map ≡ some p → i ≤ b.id_counter
  pub used : b.pool.allocated ≡ length b.order_map

-- What `Keyed` speaks of.
abbrev pub Keys : Type 0
Keys = (Ptr → OrderId) × IdMap × (ℕ → Option ℕ) × Option ℕ × ℕ × ℕ × OrderId

abbrev pub keys : OrderBook → Keys
keys b = (
  λ a. (heap b a).id,
  b.order_map,
  b.pool.next,
  b.pool.free_head,
  b.pool.allocated,
  b.pool.capacity,
  b.id_counter,
)

abbrev pub SameKeys : OrderBook → OrderBook → Type 0
SameKeys b b' = keys b' ≡ keys b

-- The free list is about the links, the head and the counters.
pub IsFree-frame :
    {p q : MemoryPool Order} {free : List Ptr}
    → q.next ≡ p.next
    → q.free_head ≡ p.free_head
    → q.allocated ≡ p.allocated
    → q.capacity ≡ p.capacity
    → IsFree p free
    → IsFree q free
IsFree-frame {p} {q} {free} en eh ea ec v = record {
  chain = rw (en, eh) v.chain;
  distinct = v.distinct;
  in_range = rw ec v.in_range;
  counted = omega (arith, v.counted);
  small = omega (arith, v.small);
}

pub Keyed-frame :
    (b b' : OrderBook) {free : List Ptr} → SameKeys b b' → Keyed b free → Keyed b' free
Keyed-frame b b' {free} x v =
    let same_map : b'.order_map ≡ b.order_map = ap (λ (k : Keys). k.1) x in
    let same_capacity : b'.pool.capacity ≡ b.pool.capacity = ap (λ (k : Keys). k.5) x in
    let same_counter : b'.id_counter ≡ b.id_counter = ap (λ (k : Keys). k.6) x in
    let same_allocated : b'.pool.allocated ≡ b.pool.allocated = ap (λ (k : Keys). k.4) x in
    let back = λ (i : OrderId) (p : Ptr) (h : lookup i b'.order_map ≡ some p).
      ap (lookup i) (sym same_map) ∙ h in
    record {
      free_list =
          IsFree-frame (ap (λ (k : Keys). k.2) x) (ap (λ (k : Keys). k.3) x) same_allocated
            same_capacity v.free_list;
      distinct = rw same_map v.distinct;
      own_id = λ i p h. ap (λ (k : Keys). k.0 p) x ∙ v.own_id i p (back i p h);
      apart = λ i p h. v.apart i p (back i p h);
      in_range = λ i p h. omega (arith, v.in_range i p (back i p h), same_capacity);
      old = λ i p h. omega (arith, v.old i p (back i p h), same_counter);
      used = same_allocated ∙ v.used ∙ ap length (sym same_map);
    }

pub Entered-frame : (b b' : OrderBook) (a : Ptr) → SameKeys b b' → Entered b a → Entered b' a
Entered-frame b b' a x e = ap (λ (k : Keys). lookup (k.0 a) k.1) x ∙ e

lookup-absent : (i : OrderId) (m : IdMap) → i ∉ ids m → lookup i m ≡ none
unfolding lookup
lookup-absent i [] out = refl
lookup-absent i ((j, p) ∷ m) out = ground (arith, lookup-absent i m)

pub lookup-drop_key :
    (i j : OrderId) (m : IdMap)
    → Distinct (ids m)
    → lookup j (drop_key i m) ≡ (if i == j then none else lookup j m)
unfolding lookup drop_key
lookup-drop_key i j [] d = ground arith
lookup-drop_key i j ((k, p) ∷ m) d = ground (arith, lookup-drop_key i j m d.1, lookup-absent j m)

has-drop_key : (i j : OrderId) (m : IdMap) → j ∉ ids m → j ∉ ids (drop_key i m)
unfolding drop_key
has-drop_key i j [] out = refl
has-drop_key i j ((k, p) ∷ m) out = ground (arith, has-drop_key i j m)

Distinct-drop_key : (i : OrderId) (m : IdMap) → Distinct (ids m) → Distinct (ids (drop_key i m))
unfolding drop_key
Distinct-drop_key i [] d = tt
Distinct-drop_key i ((k, p) ∷ m) d = elim (Bool-cases (k == i)) [
  | inl e ↦ rw e d.1
  | inr e ↦ rw e (has-drop_key i k m d.0, Distinct-drop_key i m d.1)
]

length-drop_key :
    (i : OrderId) (m : IdMap) (p : Ptr)
    → lookup i m ≡ some p
    → length m ≡ suc (length (drop_key i m))
unfolding lookup drop_key
length-drop_key i [] p h = cc
length-drop_key i ((k, q) ∷ m) p h = ground (arith, length-drop_key i m p)

-- Orders of the map have different ids.
id_apart :
    (b : OrderBook) (p a : Ptr)
    → Entered b p
    → Entered b a
    → (p == a) ≡ false
    → ((heap b p).id == (heap b a).id) ≡ false
id_apart b p a ep ea ne = elim (Bool-cases ((heap b p).id == (heap b a).id)) [
  | inl e ↦
      let same : some p ≡ some a =
        sym ep ∙ ap (λ (i : ℕ). lookup i b.order_map) ((==_iff _ _).0 e) ∙ ea in
      absurd (ground (arith, same, ne))
  | inr e ↦ e
]

-- What is found after an erasure was there before, under another key.
lookup-drop_key-some :
    (i j : OrderId) (m : IdMap) (q : Ptr)
    → Distinct (ids m)
    → lookup j (drop_key i m) ≡ some q
    → ((i == j) ≡ false) × (lookup j m ≡ some q)
lookup-drop_key-some i j m q d h = ground (arith, lookup-drop_key i j m d, h)

-- What `forget` makes of the map.
pub forget-Keyed :
    {b : OrderBook} {free : List Ptr} (p : Ptr)
    → Keyed b free
    → Entered b p
    → Keyed (forget p b) (p ∷ free)
unfolding forget
forget-Keyed {b} {free} p v e =
    let i₀ = (heap b p).id in
    let size = length-drop_key i₀ b.order_map p e in
    let old = λ (i : ℕ) (q : Ptr) (h : lookup i (drop_key i₀ b.order_map) ≡ some q).
      lookup-drop_key-some i₀ i b.order_map q v.distinct h in
    record {
      free_list =
          deallocate-IsFree b.pool p free v.free_list (v.apart i₀ p e) (v.in_range i₀ p e)
            (omega (arith, v.used, size));
      distinct = Distinct-drop_key i₀ b.order_map v.distinct;
      own_id = λ i q h. v.own_id i q (old i q h).1;
      apart = λ i q h. elim (Bool-cases (q == p)) [
        | inl same ↦
            let id : i₀ ≡ i =
              ap (λ (x : ℕ). (heap b x).id) (sym ((==_iff q p).0 same))
              ∙ v.own_id i q (old i q h).1 in
            absurd (ground (arith, id, (old i q h).0))
        | inr other ↦ rw other (v.apart i q (old i q h).1)
      ];
      in_range = λ i q h. v.in_range i q (old i q h).1;
      old = λ i q h. v.old i q (old i q h).1;
      used = omega (arith, v.used, size, v.free_list.counted, v.free_list.small);
    }

-- Other orders stay in the map, and those of the map were in it.
pub forget-Entered :
    {b : OrderBook} {free : List Ptr} (p a : Ptr)
    → Keyed b free
    → Entered b p
    → Entered b a
    → (p == a) ≡ false
    → Entered (forget p b) a
unfolding forget
forget-Entered {b} p a v ep ea ne =
    lookup-drop_key (heap b p).id (heap b a).id b.order_map v.distinct
    ∙ rw (id_apart b p a ep ea ne) ea

pub forget-lookup :
    {b : OrderBook} {free : List Ptr} (p : Ptr) (i : OrderId) (q : Ptr)
    → Keyed b free
    → lookup i (forget p b).order_map ≡ some q
    → (lookup i b.order_map ≡ some q) × ((q == p) ≡ false)
unfolding forget
forget-lookup {b} p i q v h =
    let (other, was) = lookup-drop_key-some (heap b p).id i b.order_map q v.distinct h in
    (was, not_own q other (v.own_id i q was))
  where
    not_own : (r : Ptr) → ((heap b p).id == i) ≡ false → (heap b r).id ≡ i → (r == p) ≡ false
    not_own r other e = elim (Bool-cases (r == p)) [
      | inl same ↦
          let id : (heap b p).id ≡ i =
            ap (λ (x : ℕ). (heap b x).id) (sym ((==_iff r p).0 same)) ∙ e in
          absurd (ground (arith, id, other))
      | inr apart ↦ apart
    ]
