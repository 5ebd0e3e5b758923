-- ===== src/PriceLevel/Removal.antt =====
-- `PriceLevel::remove` takes one order out of the queue, wherever it stands.
use mathlib.Core.List.{append-nil}
use hft_order_book_simulator.Common.{
  ◌+◌, ◌-◌, ◌%◌, ◌^◌, ◌≡◌, refl, sym, subst, Option, none, some, List, [], ◌∷◌, ◌++◌, arith, ◌==◌,
  head_or, last_or, ◌∈◌, ◌∉◌, ap, ◌∙◌, Distinct, false, length-append, last_or-append,
  Distinct-split, Distinct-apart, has-append,
}
use hft_order_book_simulator.Common.Words.{sub32}
use hft_order_book_simulator.Types.{Ptr, remaining}
use hft_order_book_simulator.PriceLevel.{
  Heap, PriceLevel, set_next, set_prev, modify, remove, unlink_before, unlink_after,
}
use hft_order_book_simulator.PriceLevel.Links.{
  Links, SameLinks, Links-frame, Links-split, Links-join, Links-set_next, Links-set_prev, last-mem,
}
use hft_order_book_simulator.PriceLevel.Queue.{
  SamePayload, IsQueue, ne_of_not_mem, last, last_or-last,
}

abbrev relink_next : Option Ptr → Option Ptr → Heap → Heap
relink_next none v h = h
relink_next (some p) v h = set_next h p v

abbrev relink_prev : Option Ptr → Option Ptr → Heap → Heap
relink_prev none v h = h
relink_prev (some n) v h = set_prev h n v

abbrev clear : Ptr → Heap → Heap
clear o h = modify h o (λ r. record r { prev = none; next = none })

-- The heap that `remove` leaves, by the neighbours of the order.
abbrev removed : Option Ptr → Option Ptr → Heap → Ptr → Heap
removed b n h o = clear o (relink_prev n b (relink_next b n h))

-- Not the pointer `o`.
abbrev IsOther : Ptr → Option Ptr → Type 0
IsOther o none = Unit {0}
IsOther o (some p) = (p == o) ≡ false

remove-removed :
    (h : Heap) (l : PriceLevel) (o : Ptr) (b n : Option Ptr)
    → (h o).prev ≡ b
    → (h o).next ≡ n
    → IsOther o b
    → IsOther o n
    → (remove h l o).0 ≡ removed b n h o
unfolding remove unlink_before unlink_after
remove-removed h l o none none eb en ob on = simp (eb, en, unlink_before, unlink_after)
remove-removed h l o none (some n) eb en ob on = simp (eb, en, unlink_before, unlink_after)
remove-removed h l o (some b) none eb en ob on = simp (eb, en, ob, unlink_before, unlink_after)
remove-removed h l o (some b) (some n) eb en ob on = simp (eb, en, ob, unlink_before, unlink_after)

abbrev keep_if : Option Ptr → Option Ptr → Option Ptr → Option Ptr
keep_if none v old = v
keep_if (some p) v old = old

-- What the level itself becomes.
remove-level :
    (h : Heap) (l : PriceLevel) (o : Ptr) (b n : Option Ptr)
    → (h o).prev ≡ b
    → (h o).next ≡ n
    → IsOther o b
    → ((remove h l o).1.head ≡ keep_if b n l.head)
      × ((remove h l o).1.tail ≡ keep_if n b l.tail)
      × ((remove h l o).1.order_count ≡ (l.order_count + 2 ^ 64 - 1) % 2 ^ 64)
unfolding remove unlink_before unlink_after
remove-level h l o none none eb en ob = ground arith
remove-level h l o none (some n) eb en ob = ground arith
remove-level h l o (some b) none eb en ob = ground arith
remove-level h l o (some b) (some n) eb en ob = ground arith

IsOther-last_or : (o : Ptr) (xs : List Ptr) → o ∉ xs → IsOther o (last_or none xs)
IsOther-last_or o [] out = tt
IsOther-last_or o (x ∷ xs) out = subst (IsOther o) (sym (last_or-last x xs)) (
    ground (
      arith,
      ne_of_not_mem o (last x xs) (x ∷ xs) out (last-mem x xs (last x xs) (last_or-last x xs)),
    ))

IsOther-head_or : (o : Ptr) (ys : List Ptr) → o ∉ ys → IsOther o (head_or ys none)
IsOther-head_or o [] out = tt
IsOther-head_or o (y ∷ ys) out = ground arith

-- The nodes before the removed one.
removed-before :
    (h : Heap) (xs ys : List Ptr) (o : Ptr)
    → Links h none xs (some o)
    → Distinct xs
    → o ∉ xs
    → ((a : Ptr) → a ∈ xs → a ∉ ys)
    → Links (removed (last_or none xs) (head_or ys none) h o) none xs (head_or ys none)
removed-before h [] ys o s d out apart = tt
removed-before h (x ∷ xs) [] o s d out apart =
    let t = last x xs in
    let e = last_or-last x xs in
    subst (λ v. Links (removed v none h o) none (x ∷ xs) none) (sym e)
      (Links-frame (set_next h t none) (clear o (set_next h t none)) none (x ∷ xs) none
        (λ a i. ground arith) (Links-set_next h none (x ∷ xs) (some o) t none s d e))
removed-before h (x ∷ xs) (y ∷ ys) o s d out apart =
    let t = last x xs in
    let e = last_or-last x xs in
    subst (λ v. Links (removed v (some y) h o) none (x ∷ xs) (some y)) (sym e)
      (Links-frame (set_next h t (some y)) (removed (some t) (some y) h o) none (x ∷ xs) (some y)
        (λ a i. ground (arith, apart a i))
        (Links-set_next h none (x ∷ xs) (some o) t (some y) s d e))

SameLinks-set_next :
    (h : Heap) (t : Ptr) (v : Option Ptr) (ps : List Ptr) → t ∉ ps → SameLinks ps h (set_next h t v)
SameLinks-set_next h t v ps out a j = let e = ne_of_not_mem t a ps out j in (rw e, rw e)

-- The nodes behind the removed one.
removed-after :
    (h : Heap) (xs ys : List Ptr) (o : Ptr)
    → Links h (some o) ys none
    → Distinct ys
    → o ∉ ys
    → ((a : Ptr) → a ∈ xs → a ∉ ys)
    → Links (removed (last_or none xs) (head_or ys none) h o) (last_or none xs) ys none
removed-after h xs [] o s d out apart = tt
removed-after h [] (y ∷ ys) o s d out apart =
    Links-frame (set_prev h y none) (clear o (set_prev h y none)) none (y ∷ ys) none
      (λ a i. ground arith) (Links-set_prev h (some o) y ys none none s d)
removed-after h (x ∷ xs) (y ∷ ys) o s d out apart =
    let t = last x xs in
    let e = last_or-last x xs in
    let i = last-mem x xs t e in
    let g : Heap = set_next h t (some y) in
    subst (λ v. Links (removed v (some y) h o) v (y ∷ ys) none) (sym e)
      (Links-frame (set_prev g y (some t)) (removed (some t) (some y) h o) (some t) (y ∷ ys) none
        (λ a j. ground arith)
        (Links-set_prev g (some o) y ys none (some t)
          (Links-frame h g (some o) (y ∷ ys) none
            (SameLinks-set_next h t (some y) (y ∷ ys) (apart t i)) s)
          d))

keep_if-head :
    (xs ys : List Ptr) (o : Ptr)
    → keep_if (last_or none xs) (head_or ys none) (head_or (xs ++ o ∷ ys) none)
      ≡ head_or (xs ++ ys) none
keep_if-head [] [] o = refl
keep_if-head [] (y ∷ ys) o = refl
keep_if-head (x ∷ xs) ys o = rw (last_or-last x xs)

keep_if-tail :
    (xs ys : List Ptr) (o : Ptr)
    → keep_if (head_or ys none) (last_or none xs) (last_or none (xs ++ o ∷ ys))
      ≡ last_or none (xs ++ ys)
keep_if-tail xs [] o = rw append-nil
keep_if-tail xs (y ∷ ys) o =
    rw (last_or-append none xs (o ∷ y ∷ ys), last_or-append none xs (y ∷ ys))

-- On a level that holds a queue with the given order in it, `remove` takes exactly that order out and keeps the
-- others linked, counted and in their order.
pub remove-IsQueue :
    (h : Heap) (l : PriceLevel) (xs ys : List Ptr) (o : Ptr)
    → IsQueue h l (xs ++ o ∷ ys)
    → IsQueue (remove h l o).0 (remove h l o).1 (xs ++ ys)
remove-IsQueue h l xs ys o q =
    let (nx, ny, dx, dy, d) = Distinct-split xs o ys q.distinct in
    let (sx, sy) = Links-split h none xs (o ∷ ys) none q.links in
    let b = last_or none xs in
    let n = head_or ys none in
    let ob = IsOther-last_or o xs nx in
    let on = IsOther-head_or o ys ny in
    let apart : (a : Ptr) → a ∈ xs → a ∉ ys = λ a i. Distinct-apart xs ys a d i in
    let lvl = remove-level h l o b n sy.0 sy.1 ob in
    record {
      head = lvl.0 ∙ ap (keep_if b n) q.head ∙ keep_if-head xs ys o;
      tail = lvl.1 ∙ ap (keep_if n b) q.tail ∙ keep_if-tail xs ys o;
      links =
          subst (λ g. Links g none (xs ++ ys) none) (sym (remove-removed h l o b n sy.0 sy.1 ob on))
            (Links-join (removed b n h o) none xs ys none (removed-before h xs ys o sx dx nx apart)
              (removed-after h xs ys o sy.2 dy ny apart));
      distinct = d;
      count = omega (arith, lvl.2, q.count, length-append xs (o ∷ ys), length-append xs ys);
    }

removed-payload : (b n : Option Ptr) (h : Heap) (o : Ptr) → SamePayload h (removed b n h o)
removed-payload none none h o a = ground arith
removed-payload none (some n) h o a = ground arith
removed-payload (some b) none h o a = ground arith
removed-payload (some b) (some n) h o a = ground arith

removed-outside :
    (b n : Option Ptr) (h : Heap) (o a : Ptr)
    → IsOther a b
    → IsOther a n
    → (o == a) ≡ false
    → removed b n h o a ≡ h a
removed-outside none none h o a eb en eo = rw eo
removed-outside none (some n) h o a eb en eo = rw (eo, en)
removed-outside (some b) none h o a eb en eo = rw (eo, eb)
removed-outside (some b) (some n) h o a eb en eo = rw (eo, en, eb)

remove-total :
    (h : Heap) (l : PriceLevel) (o : Ptr) (b n : Option Ptr)
    → (h o).prev ≡ b
    → (h o).next ≡ n
    → IsOther o b
    → IsOther o n
    → ((remove h l o).1.total_qty ≡ sub32 l.total_qty (remaining (h o)))
      × ((remove h l o).1.price ≡ l.price)
unfolding remove unlink_before unlink_after
remove-total h l o none none eb en ob on = ground arith
remove-total h l o none (some n) eb en ob on = ground arith
remove-total h l o (some b) none eb en ob on = ground arith
remove-total h l o (some b) (some n) eb en ob on = ground arith

-- What `remove` leaves alone outside the links of the orders at `ps`.
pub record Removes (h : Heap) (l : PriceLevel) (o : Ptr) (ps : List Ptr) : Type 0 where
  pub payload : SamePayload h (remove h l o).0
  pub outside : (a : Ptr) → a ∉ ps → (remove h l o).0 a ≡ h a

-- On a level that holds a queue with the given order in it, `remove` changes nothing of any order but its links, and
-- nothing at all of an order that is not in the level.
pub remove-Removes :
    (h : Heap) (l : PriceLevel) (xs ys : List Ptr) (o : Ptr)
    → IsQueue h l (xs ++ o ∷ ys)
    → Removes h l o (xs ++ o ∷ ys)
remove-Removes h l xs ys o q =
    let (nx, ny, dx, dy, d) = Distinct-split xs o ys q.distinct in
    let (sx, sy) = Links-split h none xs (o ∷ ys) none q.links in
    let b = last_or none xs in
    let n = head_or ys none in
    let e =
      remove-removed h l o b n sy.0 sy.1 (IsOther-last_or o xs nx) (IsOther-head_or o ys ny) in
    record {
      payload = subst (SamePayload h) (sym e) (removed-payload b n h o);
      outside = λ a out.
          ap (λ g. g a) e
          ∙ removed-outside b n h o a
              (IsOther-last_or a xs (ground (arith, has-append a xs (o ∷ ys))))
              (IsOther-head_or a ys (ground (arith, has-append a xs (o ∷ ys))))
              (ground (arith, has-append a xs (o ∷ ys)));
    }

-- The total falls by what remains of the order.
pub total-remove :
    (h : Heap) (l : PriceLevel) (xs ys : List Ptr) (o : Ptr)
    → IsQueue h l (xs ++ o ∷ ys)
    → ((remove h l o).1.total_qty ≡ sub32 l.total_qty (remaining (h o)))
      × ((remove h l o).1.price ≡ l.price)
total-remove h l xs ys o q =
    let (nx, ny, dx, dy, d) = Distinct-split xs o ys q.distinct in
    let (sx, sy) = Links-split h none xs (o ∷ ys) none q.links in
    remove-total h l o (last_or none xs) (head_or ys none) sy.0 sy.1 (IsOther-last_or o xs nx)
      (IsOther-head_or o ys ny)
