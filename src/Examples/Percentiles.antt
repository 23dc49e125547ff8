-- ===== src/Examples/Percentiles.antt =====
-- Percentiles of ten members.
use eps2probandltf.Common.{List, [], ◌∷◌, ◌≡◌, refl, ok, err, Error, length, arith, inl}
use eps2probandltf.Common.Int.{ℤ, pos}
use eps2probandltf.Machine.Milli.{
  fixed, milli, milli-IsOrdered, fixed-Sorts, field-IsNumber, fixed-ScalesSize,
}
use eps2probandltf.Machine.Laws.{KeepsMembers, lt-IsStrictWeak}
use eps2probandltf.Generator.Percentile.{
  BasicPercentileGenerator, get10_percentile, get25_percentile, get50_percentile, get75_percentile,
  get90_percentile, get_sorted_data,
}
use eps2probandltf.Generator.Percentile.Again.{get_sorted_data_lem}
use eps2probandltf.Container.{sort, thrown_sort, column, write_column}
use eps2probandltf.Machine.Sorting.{insertion_sort}
use eps2probandltf.Generator.Percentile.Order.{IsStatisticRow, IsBelowRow, percentiles_lem}
use eps2probandltf.Examples.Ensemble.{temperatures}

abbrev fresh : BasicPercentileGenerator ℤ
fresh = record { base_data = temperatures; sorted_data = [] }

-- The second member lacks the second point.
abbrev ragged : List (List ℤ)
ragged = (pos 3000 ∷ pos 1000 ∷ []) ∷ (pos 2000 ∷ []) ∷ []

ragged-sort : sort milli.lt ragged ≡ err Error.out_of_range
unfolding sort insertion_sort column write_column
ragged-sort = refl

fixed-KeepsMembers : KeepsMembers fixed
fixed-KeepsMembers A lt i c = refl

get_sorted_data_lem_example :
    let fresh : BasicPercentileGenerator ℤ = record { base_data = ragged; sorted_data = [] } in
    let left : BasicPercentileGenerator ℤ = record {
      base_data = ragged;
      sorted_data = thrown_sort milli.lt ragged;
    } in
    (get_sorted_data milli.lt fresh ≡ (err Error.out_of_range, left))
    × (length left.sorted_data ≡ 2)
    × (get_sorted_data milli.lt left ≡ (ok left.sorted_data, left))
get_sorted_data_lem_example =
    get_sorted_data_lem fixed-KeepsMembers milli.lt ragged Error.out_of_range ragged-sort

percentiles_lem_example :
    let lt = milli.lt in
    let g = fresh in
    let c = temperatures in
    (after : BasicPercentileGenerator ℤ) × (p10 : List ℤ) × (p25 : List ℤ) × (p50 : List ℤ)
    × (p75 : List ℤ) × (p90 : List ℤ) × (get10_percentile lt g ≡ ok (p10, after))
    × (get25_percentile lt g ≡ ok (p25, after))
    × (get50_percentile lt g ≡ ok (p50, after))
    × (get75_percentile lt g ≡ ok (p75, after))
    × (get90_percentile lt g ≡ ok (p90, after))
    × IsStatisticRow lt 0 2 c p10
    × IsStatisticRow lt 2 2 c p25
    × IsStatisticRow lt 5 2 c p50
    × IsStatisticRow lt 7 2 c p75
    × IsStatisticRow lt 9 2 c p90
    × IsBelowRow lt p10 p25
    × IsBelowRow lt p25 p50
    × IsBelowRow lt p50 p75
    × IsBelowRow lt p75 p90
percentiles_lem_example =
    percentiles_lem fixed-Sorts (lt-IsStrictWeak milli milli-IsOrdered) 2 temperatures (omega arith)
      (field-IsNumber temperatures) fixed-ScalesSize (omega arith) (omega arith) [] (inl refl)
