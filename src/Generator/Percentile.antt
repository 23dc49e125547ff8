-- ===== src/Generator/Percentile.antt =====
-- generator/percentile/BasicPercentileGenerator.h and .t.h, and
-- generator/algorithms/probabilityAboveTreshold.h.
pub mod Cache
pub mod Order
pub mod Few
pub mod Again
use eps2probandltf.Common.{
  ℕ, zero, suc, ◌+◌, ◌-◌, ◌/◌, ◌%◌, ◌^◌, List, [], ◌∷◌, Result, ok, err, ◌>>=◌, at, length, Bool,
  true, false, if◌then◌else◌, front_size, collect, map,
}
use eps2probandltf.Machine.{Machine, Arith}
use eps2probandltf.DataTypes.{BlobContainer, BlobCollection, BlobValue}
use eps2probandltf.Container.{sort, thrown_sort, column}

-- `std::count_if`.
unfoldable pub count_if {ℓ} : {A : Type ℓ} → (A → Bool) → List A → ℕ
count_if p [] = 0
count_if p (x ∷ xs) = if p x then suc (count_if p xs) else count_if p xs

-- The object: its own copy of the data, and the sorted data once it has been asked for.
pub record BasicPercentileGenerator (A : Type 0) : Type 0 where
  pub base_data : List (List A)
  pub sorted_data : List (List A)

-- A `const` method that may fill the cache returns its value and the object.
module _ ⦃m : Machine⦄ {A : Type 0} where
  -- The constructor.
  unfoldable pub percentile_generator : List (List A) → BasicPercentileGenerator A
  percentile_generator base_data = record { base_data = base_data; sorted_data = [] }

  module _ (less : A → A → Bool) where
    -- The object after `sortedData_ = baseData_` and a sort that ended with the given result.
    unfoldable pub after_sort :
        BasicPercentileGenerator A
        → Result (List (List A))
        → Result (List (List A)) × BasicPercentileGenerator A
    unfolding thrown_sort
    after_sort g (ok sorted) = (ok sorted, record g { sorted_data = sorted })
    after_sort g (err e) = (err e, record g { sorted_data = thrown_sort less g.base_data })

    -- `getSortedData_`. The copy that a sort leaves when it throws stays in the object.
    unfoldable pub get_sorted_data :
        BasicPercentileGenerator A → Result (List (List A)) × BasicPercentileGenerator A
    unfolding sort after_sort
    get_sorted_data g = elim g.sorted_data [
      | [] ↦ after_sort g (sort less g.base_data)
      | row ∷ rows ↦ (ok g.sorted_data, g)
    ]

    -- `at(i)` of the sorted data, with the object; the callers of the percentiles have the object in a
    -- local variable, which an exception destroys.
    abbrev pub at_sorted :
        Result (List (List A)) × BasicPercentileGenerator A
        → ℕ
        → Result (List A × BasicPercentileGenerator A)
    at_sorted (ok sorted, g) i = do row ← at sorted i; ok (row, g)
    at_sorted (err e, g) i = err e

    -- `getSortedData_().at(i)`.
    unfoldable pub get_index :
        BasicPercentileGenerator A → ℕ → Result (List A × BasicPercentileGenerator A)
    unfolding get_sorted_data
    get_index g i = at_sorted (get_sorted_data g) i

    -- The number of members times a `double` literal, as a `size_type`.
    unfoldable pub scaled_size : BasicPercentileGenerator A → (digits places : ℕ) → ℕ
    scaled_size g digits places =
        m.to_size
          (m.double.mul (m.double.of_nat (length g.base_data)) (m.double.decimal digits places))

    -- `get10Percentile` to `get90Percentile`. `size_type` has 64 bits, so that `0 - 1` wraps.
    unfoldable pub get10_percentile :
        BasicPercentileGenerator A → Result (List A × BasicPercentileGenerator A)
    unfolding get_index scaled_size
    get10_percentile g = get_index g ((scaled_size g 1 1 + 2 ^ 64 - 1) % 2 ^ 64)

    unfoldable pub get25_percentile :
        BasicPercentileGenerator A → Result (List A × BasicPercentileGenerator A)
    unfolding get_index scaled_size
    get25_percentile g = get_index g (scaled_size g 25 2)

    unfoldable pub get50_percentile :
        BasicPercentileGenerator A → Result (List A × BasicPercentileGenerator A)
    unfolding get_index
    get50_percentile g = get_index g (length g.base_data / 2)

    unfoldable pub get75_percentile :
        BasicPercentileGenerator A → Result (List A × BasicPercentileGenerator A)
    unfolding get_index scaled_size
    get75_percentile g = get_index g (scaled_size g 75 2)

    unfoldable pub get90_percentile :
        BasicPercentileGenerator A → Result (List A × BasicPercentileGenerator A)
    unfolding get_index scaled_size
    get90_percentile g = get_index g (scaled_size g 9 1)

module _ ⦃m : Machine⦄ where
  -- `chanceOfValueAbove`, in percent; `std::greater` is `<` with its arguments exchanged.
  unfoldable pub chance_of_value_above : BlobContainer → BlobValue → m.Double
  unfolding count_if
  chance_of_value_above values value =
      m.double.mul
        (m.double.div (m.double.of_nat (count_if (λ x. m.float.lt value x) values))
          (m.double.of_nat (length values)))
        (m.double.of_nat 100)

  -- The loop of `probabilityOfValueAbove` fills `tmpStore`, which then replaces the output.
  unfoldable pub probability_of_value_above :
      BasicPercentileGenerator BlobValue → BlobValue → Result BlobContainer
  unfolding chance_of_value_above
  probability_of_value_above g val = do
    points ← front_size g.base_data
    collect
        (λ i. column i g.base_data >>= λ values. ok (m.narrow (chance_of_value_above values val)))
        points 0
