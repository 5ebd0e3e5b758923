-- ===== src/PriceLevel/Queue.antt =====
-- A price level as a queue of pointers, and `push_back` on it.
use hft_order_book_simulator.Common.{
  ◌+◌, ◌%◌, ◌^◌, ◌≡◌, ◌∙◌, refl, sym, subst, Option, none, some, List, [], ◌∷◌, ◌++◌, arith, ◌==◌,
  head_or, last_or, ◌∈◌, ◌∉◌, Distinct, false, length, length-append, last_or-append, Distinct-snoc,
}
use hft_order_book_simulator.Types.{Ptr}
use hft_order_book_simulator.PriceLevel.{Heap, PriceLevel, set_next, modify, push_back, link_after}
use hft_order_book_simulator.PriceLevel.Links.{
  Links, Links-frame, Links-join, Links-set_next, last-mem,
}

-- The level `l` over the memory `h` holds exactly the orders at `ps`, oldest first.
pub record IsQueue (h : Heap) (l : PriceLevel) (ps : List Ptr) : Type 0 where
  pub head : l.head ≡ head_or ps none
  pub tail : l.tail ≡ last_or none ps
  pub links : Links h none ps none
  pub distinct : Distinct ps
  pub count : l.order_count ≡ length ps % 2 ^ 64

-- Nothing but links differs between the two memories.
abbrev pub SamePayload : Heap → Heap → Type 0
SamePayload h g = (a : Ptr) → g a ≡ record (h a) { prev = (g a).prev; next = (g a).next }

pub last : Ptr → List Ptr → Ptr
last x [] = x
last x (y ∷ ys) = last y ys

pub last_or-last : (x : Ptr) (xs : List Ptr) → last_or (some x) xs ≡ some (last x xs)
unfolding last
last_or-last x [] = refl
last_or-last x (y ∷ ys) = last_or-last y ys

head_or-snoc : (ps : List Ptr) (o : Ptr) → head_or ps (some o) ≡ head_or (ps ++ o ∷ []) none
head_or-snoc [] o = refl
head_or-snoc (p ∷ ps) o = refl

push_back-head :
    (h : Heap) (l : PriceLevel) (ps : List Ptr) (o : Ptr)
    → IsQueue h l ps
    → (push_back h l o).1.head ≡ head_or (ps ++ o ∷ []) none
unfolding push_back link_after
push_back-head h l [] o q = simp (q.tail, link_after)
push_back-head h l (x ∷ xs) o q = simp (q.tail, last_or-last x xs, link_after) q.head

push_back-tail : (h : Heap) (l : PriceLevel) (o : Ptr) → (push_back h l o).1.tail ≡ some o
unfolding push_back
push_back-tail h l o = refl

push_back-count :
    (h : Heap) (l : PriceLevel) (o : Ptr)
    → (push_back h l o).1.order_count ≡ (l.order_count + 1) % 2 ^ 64
unfolding push_back link_after
push_back-count h l o = ground arith

pub ne_of_not_mem : (a b : Ptr) (ps : List Ptr) → a ∉ ps → b ∈ ps → (a == b) ≡ false
ne_of_not_mem a b [] out i = cc
ne_of_not_mem a b (p ∷ ps) out i = ground (arith, ne_of_not_mem a b ps)

-- The heap that `push_back` leaves, by the old tail.
abbrev pushed : Option Ptr → Heap → Ptr → Heap
pushed none h o = modify h o (λ r. record r { prev = none; next = none })
pushed (some t) h o =
    set_next (modify h o (λ r. record r { prev = some t; next = none })) t (some o)

push_back-pushed :
    (h : Heap) (l : PriceLevel) (o : Ptr) (t : Option Ptr)
    → l.tail ≡ t
    → (push_back h l o).0 ≡ pushed t h o
unfolding push_back link_after
push_back-pushed h l o none e = simp (e, link_after)
push_back-pushed h l o (some t) e = simp (e, link_after)

pushed-node :
    (h : Heap) (o t : Ptr) → (o == t) ≡ false → Links (pushed (some t) h o) (some t) (o ∷ []) none
pushed-node h o t apart = ground arith

pushed-Links :
    (h : Heap) (ps : List Ptr) (o : Ptr)
    → Links h none ps none
    → Distinct ps
    → o ∉ ps
    → Links (pushed (last_or none ps) h o) none (ps ++ o ∷ []) none
pushed-Links h [] o s d out = ground arith
pushed-Links h (x ∷ xs) o s d out =
    let t = last x xs in
    let e = last_or-last x xs in
    let cleared : Heap = modify h o (λ r. record r { prev = some t; next = none }) in
    let apart : (o == t) ≡ false = ne_of_not_mem o t (x ∷ xs) out (last-mem x xs t e) in
    subst (λ v. Links (pushed v h o) none ((x ∷ xs) ++ o ∷ []) none) (sym e)
      (Links-join (pushed (some t) h o) none (x ∷ xs) (o ∷ []) none
        (Links-set_next cleared none (x ∷ xs) none t (some o)
          (Links-frame h cleared none (x ∷ xs) none (λ a i. ground arith) s) d e)
        (subst (λ v. Links (pushed (some t) h o) v (o ∷ []) none) (sym e)
          (pushed-node h o t apart)))

-- `push_back` appends an order that is not in the queue of the level to its end.
pub push_back-IsQueue :
    (h : Heap) (l : PriceLevel) (ps : List Ptr) (o : Ptr)
    → IsQueue h l ps
    → o ∉ ps
    → IsQueue (push_back h l o).0 (push_back h l o).1 (ps ++ o ∷ [])
push_back-IsQueue h l ps o q out = record {
  head = push_back-head h l ps o q;
  tail = rw (last_or-append none ps (o ∷ [])) (push_back-tail h l o);
  links =
      subst (λ g. Links g none (ps ++ o ∷ []) none)
        (sym (push_back-pushed h l o (last_or none ps) q.tail))
        (pushed-Links h ps o q.links q.distinct out);
  distinct = Distinct-snoc ps o out q.distinct;
  count = omega (arith, push_back-count h l o, q.count, length-append ps (o ∷ []));
}

ne_sym : (a b : Ptr) → (a == b) ≡ false → (b == a) ≡ false
ne_sym a b e = ground arith

pushed-outside :
    (t : Ptr) (h : Heap) (o a : Ptr)
    → (t == a) ≡ false
    → (o == a) ≡ false
    → pushed (some t) h o a ≡ h a
pushed-outside t h o a et eo = rw (et, eo) refl

-- Nothing but the order and those of the level is touched.
pub push_back-outside :
    (h : Heap) (l : PriceLevel) (ps : List Ptr) (o : Ptr)
    → IsQueue h l ps
    → (a : Ptr) → a ∉ ps
    → (o == a) ≡ false
    → (push_back h l o).0 a ≡ h a
push_back-outside h l [] o q a out ne = rw (push_back-pushed h l o none q.tail, ne) refl
push_back-outside h l (x ∷ xs) o q a out ne =
    let t = last x xs in
    let e = last_or-last x xs in
    let apart = ne_sym a t (ne_of_not_mem a t (x ∷ xs) out (last-mem x xs t e)) in
    rw (push_back-pushed h l o (some t) (q.tail ∙ e)) (pushed-outside t h o a apart ne)
