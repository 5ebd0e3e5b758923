-- ===== src/OrderBook/Releases.antt =====
-- The matching loops and the map of the orders: what a trail retires leaves the map and goes back to the pool.
use hft_order_book_simulator.Common.{
  ◌≡◌, refl, sym, ap, ◌∙◌, arith, some, List, [], ◌∷◌, ◌∉◌, Distinct, All,
}
use hft_order_book_simulator.Types.{OrderId, Ptr, Side, filled}
use hft_order_book_simulator.Containers.{lookup}
use hft_order_book_simulator.OrderBook.{OrderBook, heap, execute_trade}
use hft_order_book_simulator.OrderBook.Matching.{
  retire, forget, set_status, remove_from_front, erase_front_if_empty,
}
use hft_order_book_simulator.OrderBook.Keyed.{
  Keys, SameKeys, Keyed, Entered, Keyed-frame, Entered-frame, forget-Keyed, forget-Entered,
  forget-lookup,
}
use hft_order_book_simulator.OrderBook.Untouched.{
  execute_trade-SameKeys, set_status-SameKeys, remove_from_front-SameKeys, erase_front-SameKeys,
}
use hft_order_book_simulator.OrderBook.Trail.{Trail, over, fills_part, fills_whole, erases}

-- From `b` to `b'` the orders at `rs` have left the map, and nothing else has.
pub record Releases (rs : List Ptr) (b b' : OrderBook) : Type 0 where
  pub free : List Ptr
  pub keyed : Keyed b' free
  pub same_id : (a : Ptr) → (heap b' a).id ≡ (heap b a).id
  pub stay : (a : Ptr) → Entered b a → a ∉ rs → Entered b' a
  pub was :
      (i : OrderId) (a : Ptr)
      → lookup i b'.order_map ≡ some a
      → (lookup i b.order_map ≡ some a) × (a ∉ rs)
  pub id_counter : b'.id_counter ≡ b.id_counter

nothing-Releases : {b : OrderBook} {free : List Ptr} → Keyed b free → Releases [] b b
nothing-Releases {b} {free} v = record {
  free = free;
  keyed = v;
  same_id = λ a. refl;
  stay = λ a e out. e;
  was = λ i a e. (e, refl);
  id_counter = refl;
}

-- Steps that do not touch the map, first.
Releases-after :
    {rs : List Ptr} {b b₁ b' : OrderBook} → SameKeys b b₁ → Releases rs b₁ b' → Releases rs b b'
Releases-after {rs} {b} {b₁} {b'} x r = record {
  free = r.free;
  keyed = r.keyed;
  same_id = λ a. r.same_id a ∙ ap (λ (k : Keys). k.0 a) x;
  stay = λ a e out. r.stay a (Entered-frame b b₁ a x e) out;
  was = λ i a e. ((ap (λ (k : Keys). lookup i k.1) (sym x) ∙ (r.was i a e).0), (r.was i a e).1);
  id_counter = r.id_counter ∙ ap (λ (k : Keys). k.6) x;
}

-- One order is forgotten.
forget-Releases :
    {rs : List Ptr} {b b' : OrderBook} {free : List Ptr} (p : Ptr)
    → Keyed b free
    → Entered b p
    → Releases rs (forget p b) b'
    → ((a : Ptr) → (heap (forget p b) a).id ≡ (heap b a).id)
    → (forget p b).id_counter ≡ b.id_counter
    → Releases (p ∷ rs) b b'
forget-Releases {rs} {b} {b'} p v e r same counter = record {
  free = r.free;
  keyed = r.keyed;
  same_id = λ a. r.same_id a ∙ same a;
  stay = λ a ea out. r.stay a (forget-Entered p a v e ea (ground arith)) (ground arith);
  was = λ i a h.
      let (now, out) = r.was i a h in
      let (then', ne) = forget-lookup p i a v now in (then', rw ne out);
  id_counter = r.id_counter ∙ counter;
}

forget-kept :
    (p : Ptr) (b : OrderBook)
    → ((a : Ptr) → (heap (forget p b) a).id ≡ (heap b a).id)
      × ((forget p b).id_counter ≡ b.id_counter)
unfolding forget
forget-kept p b = (λ a. refl, refl)

retire-SameKeys :
    (s : Side) (p : Ptr) (b : OrderBook)
    → SameKeys b (set_status p filled (remove_from_front s p b))
retire-SameKeys s p b =
    set_status-SameKeys p filled (remove_from_front s p b) ∙ remove_from_front-SameKeys s p b

All-Entered-frame :
    (b b' : OrderBook) (rs : List Ptr)
    → SameKeys b b'
    → All (λ a. Entered b a) rs
    → All (λ a. Entered b' a) rs
All-Entered-frame b b' [] x e = tt
All-Entered-frame b b' (a ∷ rs) x e = (Entered-frame b b' a x e.0, All-Entered-frame b b' rs x e.1)

All-Entered-forget :
    {b : OrderBook} {free : List Ptr} (p : Ptr) (rs : List Ptr)
    → Keyed b free
    → Entered b p
    → p ∉ rs
    → All (λ a. Entered b a) rs
    → All (λ a. Entered (forget p b) a) rs
All-Entered-forget p [] v ep out e = tt
All-Entered-forget p (a ∷ rs) v ep out e =
    (forget-Entered p a v ep e.0 (ground arith), All-Entered-forget p rs v ep (ground arith) e.1)

pub Trail-Releases :
    {s : Side} {t : Ptr} {b' : OrderBook} {b : OrderBook} {rs free : List Ptr}
    → Trail s t b' rs b
    → Keyed b free
    → All (λ a. Entered b a) rs
    → Distinct rs
    → Releases rs b b'
unfolding retire
Trail-Releases over v e d = nothing-Releases v
Trail-Releases {t = t} {b = b} {rs} (fills_part p px qty n z x) v e d =
    let b₁ = execute_trade p t px qty b in
    let same = execute_trade-SameKeys p t px qty b in
    Releases-after same
      (Trail-Releases x (Keyed-frame b b₁ same v) (All-Entered-frame b b₁ rs same e) d)
Trail-Releases {s} {t} {b = b} {rs} (fills_whole {rs = rs'} p px qty n z x) v e d =
    let b₁ = execute_trade p t px qty b in
    let b₂ = set_status p filled (remove_from_front s p b₁) in
    let same : SameKeys b b₂ = retire-SameKeys s p b₁ ∙ execute_trade-SameKeys p t px qty b in
    let v₂ = Keyed-frame b b₂ same v in
    let e₂ = Entered-frame b b₂ p same e.0 in
    let later =
      Trail-Releases x (forget-Keyed p v₂ e₂)
        (All-Entered-forget p rs' v₂ e₂ d.0 (All-Entered-frame b b₂ rs' same e.1)) d.1 in
    Releases-after same (forget-Releases p v₂ e₂ later (forget-kept p b₂).0 (forget-kept p b₂).1)
Trail-Releases {s} {b = b} {rs} (erases x) v e d =
    let b₁ = erase_front_if_empty s b in
    let same = erase_front-SameKeys s b in
    Releases-after same
      (Trail-Releases x (Keyed-frame b b₁ same v) (All-Entered-frame b b₁ rs same e) d)
