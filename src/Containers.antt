-- ===== src/Containers.antt =====
-- What the program uses of std::map and std::unordered_map. A std::map is the list of its entries in the
-- order of its comparator, so that `begin()` is the first one; two keys count as one when neither comes
-- before the other. An unordered_map with integer keys is an association list.
use hft_order_book_simulator.Common.{
  ℕ, Bool, Option, none, some, List, [], ◌∷◌, ◌==◌, if◌then◌else◌,
}

module _ {ℓ κ} {K : Type ℓ} {V : Type κ} (before : K → K → Bool) where
  -- `find`
  unfoldable pub find : K → List (K × V) → Option V
  find k [] = none
  find k ((j, v) ∷ m) = if before j k then find k m else if before k j then none else some v

  -- The value at `k` is changed through an iterator or a reference; without an entry nothing changes.
  unfoldable pub adjust : K → (V → V) → List (K × V) → List (K × V)
  adjust k f [] = []
  adjust k f ((j, v) ∷ m) =
      if before j k then (j, v) ∷ adjust k f m else if before k j then (j, v) ∷ m else (j, f v) ∷ m

  -- `operator[]`: the value at `k`, put there as `d` if there is none.
  unfoldable pub at_or_insert : K → V → List (K × V) → V × List (K × V)
  at_or_insert k d [] = (d, (k, d) ∷ [])
  at_or_insert k d ((j, v) ∷ m) =
      if before j k
      then (let (w, m') = at_or_insert k d m in (w, (j, v) ∷ m'))
      else if before k j
      then (d, (k, d) ∷ (j, v) ∷ m)
      else (v, (j, v) ∷ m)

  -- `erase`
  unfoldable pub erase : K → List (K × V) → List (K × V)
  erase k [] = []
  erase k ((j, v) ∷ m) =
      if before j k then (j, v) ∷ erase k m else if before k j then (j, v) ∷ m else m

module _ {ℓ} {V : Type ℓ} where
  unfoldable pub lookup : ℕ → List (ℕ × V) → Option V
  lookup k [] = none
  lookup k ((j, v) ∷ m) = if j == k then some v else lookup k m

  -- `emplace` leaves an entry that is there already as it is.
  unfoldable pub emplace : ℕ → V → List (ℕ × V) → List (ℕ × V)
  emplace k v [] = (k, v) ∷ []
  emplace k v ((j, w) ∷ m) = if j == k then (j, w) ∷ m else (j, w) ∷ emplace k v m

  unfoldable pub drop_key : ℕ → List (ℕ × V) → List (ℕ × V)
  drop_key k [] = []
  drop_key k ((j, v) ∷ m) = if j == k then m else (j, v) ∷ drop_key k m
