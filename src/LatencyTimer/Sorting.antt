-- ===== src/LatencyTimer/Sorting.antt =====
-- What the sorting of the samples gives: the same samples, in ascending order.
use hft_order_book_simulator.Common.{
  get_elem?, ℕ, zero, suc, ◌≤◌, ◌<◌, ◌≡◌, refl, sym, ap, ◌∙◌, subst, arith, true, false, some, List,
  [], ◌∷◌, length, Bool-cases, inl, inr, ◌⊎◌, ◌↔◌,
}
use hft_order_book_simulator.Common.Int.{leb_ℤ, ◌≤ℤ◌}
use hft_order_book_simulator.LatencyTimer.{Nanos, insert, sort, last}

-- One of the samples.
abbrev pub IsSample : Nanos → List Nanos → Type 0
IsSample x [] = ⊥
IsSample x (y ∷ ys) = (x ≡ y) ⊎ IsSample x ys

abbrev pub Ascending : List Nanos → Type 0
Ascending [] = Unit {0}
Ascending (x ∷ xs) = ((y : Nanos) → IsSample y xs → x ≤ℤ y) × Ascending xs

insert_front : (x z : Nanos) (zs : List Nanos) → leb_ℤ x z ≡ true → insert x (z ∷ zs) ≡ x ∷ z ∷ zs
unfolding insert
insert_front x z zs e = rw (insert, e) refl

insert_behind :
    (x z : Nanos) (zs : List Nanos) → leb_ℤ x z ≡ false → insert x (z ∷ zs) ≡ z ∷ insert x zs
unfolding insert
insert_behind x z zs e = rw (insert, e) refl

insert-IsSample :
    (y x : Nanos) (xs : List Nanos) → IsSample y (insert x xs) ↔ ((y ≡ x) ⊎ IsSample y xs)
unfolding insert
insert-IsSample y x [] = ((λ h. h), (λ h. h))
insert-IsSample y x (z ∷ zs) = elim (Bool-cases (leb_ℤ x z)) [
  | inl e ↦ rw (insert_front x z zs e) ((λ h. h), (λ h. h))
  | inr e ↦ rw (insert_behind x z zs e) (there (insert-IsSample y x zs))
]
  where
    there :
        IsSample y (insert x zs) ↔ ((y ≡ x) ⊎ IsSample y zs)
        → IsSample y (z ∷ insert x zs) ↔ ((y ≡ x) ⊎ IsSample y (z ∷ zs))
    there (f, g) = (
      (λ h. elim h [
        | inl e ↦ inr (inl e)
        | inr i ↦ elim (f i) [ inl e ↦ inl e | inr j ↦ inr (inr j) ]
      ]),
      (λ h. elim h [
        | inl e ↦ inr (g (inl e))
        | inr i ↦ elim i [ inl e ↦ inl e | inr j ↦ inr (g (inr j)) ]
      ]),
    )

le_trans : (x y z : Nanos) → x ≤ℤ y → y ≤ℤ z → x ≤ℤ z
le_trans x y z h k = omega arith

insert-Ascending : (x : Nanos) (xs : List Nanos) → Ascending xs → Ascending (insert x xs)
unfolding insert
insert-Ascending x [] a = ((λ y h. absurd h), tt)
insert-Ascending x (z ∷ zs) a = elim (Bool-cases (leb_ℤ x z)) [
  | inl e ↦
      let le : x ≤ℤ z = ground arith in
      rw (insert_front x z zs e) (
        (λ y h. elim h [
          | inl same ↦ subst (λ w. x ≤ℤ w) (sym same) le
          | inr i ↦ le_trans x z y le (a.0 y i)
        ]),
        a,
      )
  | inr e ↦
      let le : z ≤ℤ x = ground arith in
      rw (insert_behind x z zs e) (
        (λ y h. elim ((insert-IsSample y x zs).0 h) [
          | inl same ↦ subst (λ w. z ≤ℤ w) (sym same) le
          | inr i ↦ a.0 y i
        ]),
        insert-Ascending x zs a.1,
      )
]

length-insert : (x : Nanos) (xs : List Nanos) → length (insert x xs) ≡ suc (length xs)
unfolding insert
length-insert x [] = refl
length-insert x (z ∷ zs) = elim (Bool-cases (leb_ℤ x z)) [
  | inl e ↦ ap length (insert_front x z zs e)
  | inr e ↦ ap length (insert_behind x z zs e) ∙ ap suc (length-insert x zs)
]

pub sort-Ascending : (xs : List Nanos) → Ascending (sort xs)
unfolding sort
sort-Ascending [] = tt
sort-Ascending (x ∷ xs) = insert-Ascending x (sort xs) (sort-Ascending xs)

pub sort-IsSample : (y : Nanos) (xs : List Nanos) → IsSample y (sort xs) ↔ IsSample y xs
unfolding sort
sort-IsSample y [] = ((λ h. h), (λ h. h))
sort-IsSample y (x ∷ xs) =
    let (f, g) = insert-IsSample y x (sort xs) in
    let (f', g') = sort-IsSample y xs in
    (
      (λ h. elim (f h) [ inl e ↦ inl e | inr i ↦ inr (f' i) ]),
      (λ h. elim h [ inl e ↦ g (inl e) | inr i ↦ g (inr (g' i)) ]),
    )

pub length-sort : (xs : List Nanos) → length (sort xs) ≡ length xs
unfolding sort
length-sort [] = refl
length-sort (x ∷ xs) = length-insert x (sort xs) ∙ ap suc (length-sort xs)

pub last-IsSample : (x : Nanos) (xs : List Nanos) → IsSample (last x xs) (x ∷ xs)
last-IsSample x [] = inl refl
last-IsSample x (y ∷ ys) = inr (last-IsSample y ys)

-- The last of ascending samples is the greatest.
pub below_last :
    (x : Nanos) (xs : List Nanos) (y : Nanos)
    → Ascending (x ∷ xs)
    → IsSample y (x ∷ xs)
    → y ≤ℤ last x xs
below_last x [] y a (inl e) = subst (λ w. w ≤ℤ x) (sym e) (omega arith)
below_last x [] y a (inr i) = absurd i
below_last x (z ∷ zs) y a (inl e) =
    le_trans y z (last z zs) (subst (λ w. w ≤ℤ z) (sym e) (a.0 z (inl refl)))
      (below_last z zs z a.1 (inl refl))
below_last x (z ∷ zs) y a (inr i) = below_last z zs y a.1 i

-- An access in range.
pub get_elem-IsSample :
    (xs : List Nanos) (i : ℕ)
    → i < length xs
    → (v : Nanos) × (get_elem? xs i ≡ some v) × IsSample v xs
get_elem-IsSample [] i lt = absurd (omega arith)
get_elem-IsSample (x ∷ xs) zero lt = (x, refl, inl refl)
get_elem-IsSample (x ∷ xs) (suc i) lt =
    let (v, e, s) = get_elem-IsSample xs i (omega arith) in (v, e, inr s)

-- A later sample of ascending ones is no less.
pub get_elem-monotone :
    (xs : List Nanos) (i j : ℕ) (v w : Nanos)
    → Ascending xs
    → i ≤ j
    → get_elem? xs i ≡ some v
    → get_elem? xs j ≡ some w
    → v ≤ℤ w
get_elem-monotone [] i j v w a le ei ej = cc
get_elem-monotone (x ∷ xs) zero zero v w a le ei ej =
    let same : v ≡ w = ground (arith, ei, ej) in subst (λ z. v ≤ℤ z) same (omega arith)
get_elem-monotone (x ∷ xs) zero (suc j) v w a le ei ej =
    let same : x ≡ v = ground (arith, ei) in subst (λ z. z ≤ℤ w) same (a.0 w (found xs j w ej))
  where
    found : (xs : List Nanos) (j : ℕ) (w : Nanos) → get_elem? xs j ≡ some w → IsSample w xs
    found [] j w e = cc
    found (x ∷ xs) zero w e = inl (ground (arith, e))
    found (x ∷ xs) (suc j) w e = inr (found xs j w e)
get_elem-monotone (x ∷ xs) (suc i) zero v w a le ei ej = absurd (omega arith)
get_elem-monotone (x ∷ xs) (suc i) (suc j) v w a le ei ej =
    get_elem-monotone xs i j v w a.1 (omega arith) ei ej
