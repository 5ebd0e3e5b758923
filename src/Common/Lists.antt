-- ===== src/Common/Lists.antt =====
-- Lists measured by native numbers, and the predicates on lists that the components share.
use Prim.Native.Nat.{ℕ, zero, suc, ◌+◌}
use mathlib.Core.Path.{◌≡◌, refl, ap}
use mathlib.Core.Logic.{inl, inr}
use mathlib.Core.Bool.{Bool, true, false, ◌||◌}
use mathlib.Core.List.{List, [], ◌∷◌, ◌++◌}
use mathlib.Core.Option.{Option, none, some}
use native.Mathlib.Omega.{arith}
use hft_order_book_simulator.Common.Tests.{◌==◌, Bool-cases}

module _ {ℓ} {A : Type ℓ} where
  abbrev pub length : List A → ℕ
  length [] = 0
  length (x ∷ xs) = suc (length xs)

  pub length-append : (xs ys : List A) → length (xs ++ ys) ≡ length xs + length ys
  length-append [] ys = omega arith
  length-append (x ∷ xs) ys = omega (arith, length-append xs ys)

  abbrev pub take : ℕ → List A → List A
  take zero xs = []
  take (suc n) [] = []
  take (suc n) (x ∷ xs) = x ∷ take n xs

  -- `xs[i]`, where `none` is an access out of range.
  abbrev pub get_elem? : List A → ℕ → Option A
  get_elem? [] i = none
  get_elem? (x ∷ xs) zero = some x
  get_elem? (x ∷ xs) (suc i) = get_elem? xs i

  -- `xs.erase(xs.begin() + i)`
  abbrev pub erase_at : ℕ → List A → List A
  erase_at i [] = []
  erase_at zero (x ∷ xs) = xs
  erase_at (suc i) (x ∷ xs) = x ∷ erase_at i xs

  -- The first of a list, or else a given option.
  abbrev pub head_or : List A → Option A → Option A
  head_or [] d = d
  head_or (x ∷ xs) d = some x

  -- The last of a list, or else a given option.
  abbrev pub last_or : Option A → List A → Option A
  last_or d [] = d
  last_or d (x ∷ xs) = last_or (some x) xs

  pub last_or-append :
      (d : Option A) (xs ys : List A) → last_or d (xs ++ ys) ≡ last_or (last_or d xs) ys
  last_or-append d [] ys = refl
  last_or-append d (x ∷ xs) ys = last_or-append (some x) xs ys

  abbrev pub All {κ} : (A → Type κ) → List A → Type κ
  All P [] = Unit
  All P (x ∷ xs) = P x × All P xs

  pub All-append {κ} : (P : A → Type κ) (xs ys : List A) → All P xs → All P ys → All P (xs ++ ys)
  All-append P [] ys h k = k
  All-append P (x ∷ xs) ys h k = (h.0, All-append P xs ys h.1 k)

-- Membership of a number, as a test.
abbrev pub has : ℕ → List ℕ → Bool
has a [] = false
has a (x ∷ xs) = (a == x) || has a xs

infix 40 ◌∈◌ ◌∉◌
abbrev pub ◌∈◌ : ℕ → List ℕ → Type 0
a ∈ xs = has a xs ≡ true

abbrev pub ◌∉◌ : ℕ → List ℕ → Type 0
a ∉ xs = has a xs ≡ false

-- No number twice.
abbrev pub Distinct : List ℕ → Type 0
Distinct [] = Unit {0}
Distinct (x ∷ xs) = (x ∉ xs) × Distinct xs

pub has-append : (a : ℕ) (xs ys : List ℕ) → has a (xs ++ ys) ≡ (has a xs || has a ys)
has-append a [] ys = refl
has-append a (x ∷ xs) ys = ground (arith, has-append a xs ys)

pub Distinct-snoc : (xs : List ℕ) (a : ℕ) → a ∉ xs → Distinct xs → Distinct (xs ++ a ∷ [])
Distinct-snoc [] a h d = (refl, tt)
Distinct-snoc (x ∷ xs) a h d =
    (ground (arith, has-append x xs (a ∷ [])), Distinct-snoc xs a (ground arith) d.1)

-- A member splits the list.
pub split_at_mem :
    (a : ℕ) (ps : List ℕ) → a ∈ ps → (xs : List ℕ) × (ys : List ℕ) × (ps ≡ xs ++ a ∷ ys)
split_at_mem a [] h = cc
split_at_mem a (p ∷ ps) h = elim (Bool-cases (a == p)) [
  | inl e ↦ ([], ps, ground arith)
  | inr e ↦ let (xs, ys, s) = split_at_mem a ps (ground arith) in (p ∷ xs, ys, ap (◌∷◌ p) s)
]

-- What a list without repetition tells of its parts round a member.
pub Distinct-split :
    (xs : List ℕ) (a : ℕ) (ys : List ℕ)
    → Distinct (xs ++ a ∷ ys)
    → (a ∉ xs) × (a ∉ ys) × Distinct xs × Distinct ys × Distinct (xs ++ ys)
Distinct-split [] a ys d = (refl, d.0, tt, d.1, d.1)
Distinct-split (x ∷ xs) a ys d =
    let ih = Distinct-split xs a ys d.1 in
    ground (arith, ih, has-append x xs (a ∷ ys), has-append x xs ys)

-- The parts of a list without repetition share no member.
pub Distinct-apart : (xs ys : List ℕ) (a : ℕ) → Distinct (xs ++ ys) → a ∈ xs → a ∉ ys
Distinct-apart [] ys a d h = cc
Distinct-apart (x ∷ xs) ys a d h = ground (arith, Distinct-apart xs ys a, has-append x xs ys)

-- The same, part by part.
pub apart_left : (xs ys : List ℕ) (a : ℕ) → Distinct (xs ++ ys) → a ∈ ys → a ∉ xs
apart_left xs ys a d i = elim (Bool-cases (has a xs)) [
  | inl e ↦ cc (Distinct-apart xs ys a d e)
  | inr e ↦ e
]

pub Distinct-right : (xs ys : List ℕ) → Distinct (xs ++ ys) → Distinct ys
Distinct-right [] ys d = d
Distinct-right (x ∷ xs) ys d = Distinct-right xs ys d.1

pub Distinct-left : (xs ys : List ℕ) → Distinct (xs ++ ys) → Distinct xs
Distinct-left [] ys d = tt
Distinct-left (x ∷ xs) ys d = (ground (arith, d, has-append x xs ys), Distinct-left xs ys d.1)

pub Distinct-append :
    (xs ys : List ℕ) → Distinct xs → Distinct ys → ((a : ℕ) → a ∈ xs → a ∉ ys) → Distinct (xs ++ ys)
Distinct-append [] ys d e apart = e
Distinct-append (x ∷ xs) ys d e apart = (
  ground (arith, d, has-append x xs ys, apart x),
  Distinct-append xs ys d.1 e (λ a i. apart a (ground arith)),
)

-- What is outside a list is outside its parts.
pub outside_left : (a : ℕ) (xs ys : List ℕ) → a ∉ xs ++ ys → a ∉ xs
outside_left a xs ys out = ground (arith, has-append a xs ys)

pub outside_right : (a : ℕ) (xs ys : List ℕ) → a ∉ xs ++ ys → a ∉ ys
outside_right a xs ys out = ground (arith, has-append a xs ys)
