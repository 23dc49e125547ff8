-- ===== src/Generator/Probable/Median.antt =====
-- What `getProbableValue` returns for a point.
use mathlib.Core.List.{Permᴰ}
use native.Mathlib.Decide.{ℕ_discrete}
use eps2probandltf.Common.{
  ℕ, ◌+◌, ◌-◌, ◌/◌, ◌%◌, ◌<◌, ◌≡◌, refl, sym, List, Result, Error, ok, err, length, All, Bool,
  arith, some, get_elem?, get_elem?_in, Perm-length,
}
use eps2probandltf.Machine.{Machine}
use eps2probandltf.Machine.Laws.{IsStrictWeak, IsAscending, Sorts, CountsExactly}
use eps2probandltf.DataTypes.{BlobContainer, BlobValue}
use eps2probandltf.Generator.Symbol.Nearby.{IsKnown}
use eps2probandltf.Generator.Probable.{median, get_probable_value}
use eps2probandltf.Generator.Probable.Relevant.{chosen, relevant-chosen}

-- `v` is the median of `xs`: the middle value in ascending order or, of an even number of values, what
-- `middle` makes of the two in the middle, the upper one first.
pub data IsMedian {A : Type 0} (lt : A → A → Bool) (middle : A → A → A) (xs : List A) (v : A)
    : Type 0 where
  odd_count :
      (ys : List A)
      → Permᴰ xs ys
      → IsAscending lt ys
      → length ys % 2 ≡ 1
      → get_elem? ys (length ys / 2) ≡ some v
      → IsMedian lt middle xs v
  even_count :
      (ys : List A) (a b : A)
      → Permᴰ xs ys
      → IsAscending lt ys
      → length ys % 2 ≡ 0
      → get_elem? ys (length ys / 2) ≡ some a
      → get_elem? ys (length ys / 2 - 1) ≡ some b
      → middle a b ≡ v
      → IsMedian lt middle xs v

module _ {A : Type 0} {lt : A → A → Bool} {middle : A → A → A} where
  median_in :
      (xs ys : List A)
      → Permᴰ xs ys
      → IsAscending lt ys
      → 0 < length ys
      → (v : A) × (median middle ys ≡ ok v) × IsMedian lt middle xs v
  unfolding median
  median_in xs ys p s h =
      let (a, e) = get_elem?_in ys (length ys / 2) (omega arith) in
      let (b, f) = get_elem?_in ys (length ys / 2 - 1) (omega arith) in
      elim (ℕ_discrete (length ys % 2) 0) [
        | yes even ↦ (middle a b, ground (arith, e, f, even), even_count ys a b p s even e f refl)
        | no odd ↦ (a, ground (arith, e, odd), odd_count ys p s (omega arith) e)
      ]

module _ ⦃m : Machine⦄ {A : Type 0} {lt : A → A → Bool} {middle : A → A → A} {P : A → Type 0}
    (sorts : Sorts m) (weak : IsStrictWeak P lt) (exact : CountsExactly m) where
  -- For a selected symbol of the table, and members whose symbols and values can all be read:
  -- `getProbableValue` returns the median of the values of the members whose symbols are near the
  -- selected one; if there is none, it throws a runtime error.
  pub get_probable_value_lem :
      (selected : ℕ)
      → IsKnown selected
      → (sym : ℕ → Result BlobValue) (dat : ℕ → Result A)
      → (symbols : BlobContainer) (values : List A) → All P (chosen selected symbols values)
      → length symbols ≡ length values
      → ((k : ℕ) (x : BlobValue) → get_elem? symbols k ≡ some x → sym k ≡ ok x)
      → ((k : ℕ) (x : A) → get_elem? values k ≡ some x → dat k ≡ ok x)
      → let found = chosen selected symbols values in
        let result = get_probable_value middle lt selected sym dat (length symbols) in
        (0 < length found → (v : A) × (result ≡ ok v) × IsMedian lt middle found v)
        × (length found ≡ 0 → result ≡ err Error.runtime_error)
  unfolding get_probable_value
  get_probable_value_lem selected known sym dat symbols values good e hs hv =
      let found = chosen selected symbols values in
      let zero_add = λ (k : ℕ). let z : 0 + k ≡ k = omega arith in z in
      let reads =
        relevant-chosen exact selected 0 known sym dat symbols values e
          (λ k x p. rw (zero_add k) (hs k x p)) (λ k x p. rw (zero_add k) (hv k x p)) in
      let (perm, ascends) = sorts A P lt weak found good in
      (
        λ h.
            let (v, f, med) =
              median_in {middle = middle} found (m.sort A lt found) perm ascends
                (omega (arith, Perm-length perm)) in
            (v, ground (arith, reads, h, f), med),
        λ h. ground (arith, reads, h),
      )
