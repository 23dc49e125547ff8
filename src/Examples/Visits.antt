-- ===== src/Examples/Visits.antt =====
-- Collections that are visited point by point, precipitation between two times, and a percentile of two
-- members.
use eps2probandltf.Common.{
  ◌>>=◌, inl, err, Error, ℕ, ◌+◌, ◌≡◌, ◌<◌, refl, List, [], ◌∷◌, ◌++◌, map, ok, length, get_elem?,
  some, arith,
}
use eps2probandltf.Common.Int.{ℤ, pos}
use eps2probandltf.Machine.Milli.{fixed, milli, fixed-ScalesSize}
use eps2probandltf.Generator.Percentile.{BasicPercentileGenerator, get10_percentile}
use eps2probandltf.Generator.Percentile.Few.{get10_percentile_lem}
use eps2probandltf.DataAccess.{Source}
use eps2probandltf.WeatherData.{WeatherData}
use eps2probandltf.Container.{column, sort}
use eps2probandltf.Container.Columns.{IsRect}
use eps2probandltf.Container.Visit.{transform, agregate, for_each}
use eps2probandltf.Container.Visit.Pointwise.{transform_lem, agregate_lem}
use eps2probandltf.Container.Visit.Each.{for_each_lem}
use eps2probandltf.Forecast.Inputs.{get_precipitation_sum}
use eps2probandltf.Forecast.Shapes.{Zipped, IsIncrease, get_precipitation_sum_lem}

-- Two members with three points each.
abbrev members : List (List ℕ)
members = (1 ∷ 2 ∷ 3 ∷ []) ∷ (4 ∷ 5 ∷ 6 ∷ []) ∷ []

abbrev more : ℕ → ℕ
more n = n + 10

transform_lem_example :
    transform more 0 members ((7 ∷ 8 ∷ 9 ∷ []) ∷ []) ≡ ok (map (map more) members)
transform_lem_example =
    transform_lem more 0 3 members ((7 ∷ 8 ∷ 9 ∷ []) ∷ []) (refl, (refl, tt)) (refl, tt)

agregate_lem_example :
    (values : List ℕ) × (agregate length members (0 ∷ []) ≡ ok ((0 ∷ []) ++ values))
    × (length values ≡ 3)
    × ((i : ℕ)
        → i < 3
        → (xs : List ℕ) × (column i members ≡ ok xs) × (get_elem? values i ≡ some (length xs)))
agregate_lem_example = agregate_lem length 3 members (0 ∷ []) (refl, (refl, tt)) (omega arith)

for_each_lem_example : for_each more members ≡ ok (map (map more) members)
for_each_lem_example = for_each_lem more 3 members (refl, (refl, tt)) (omega arith)

-- One member whose precipitation falls at the second point.
abbrev from : List (List ℤ)
from = (pos 1000 ∷ pos 2000 ∷ []) ∷ []

abbrev to : List (List ℤ)
to = (pos 3000 ∷ pos 1500 ∷ []) ∷ []

abbrev rain : Source ℕ
rain = record {
  get_valid_times = ok (0 ∷ []);
  get_data = λ d t. elim d [ WeatherData.precipitation_in_from ↦ ok from | _ ↦ ok to ];
}

get_precipitation_sum_lem_example :
    (sum : List (List ℤ)) × (get_precipitation_sum rain 0 ≡ ok sum)
    × (length sum ≡ 1)
    × IsRect 2 sum
    × Zipped (Zipped IsIncrease) to from sum
get_precipitation_sum_lem_example =
    get_precipitation_sum_lem rain refl 0 2 from to refl refl (omega arith) refl (refl, tt)
      (refl, tt)

-- Two members.
abbrev two : BasicPercentileGenerator ℤ
two = record { base_data = (pos 1000 ∷ []) ∷ (pos 2000 ∷ []) ∷ []; sorted_data = [] }

get10_percentile_lem_example :
    get10_percentile milli.lt two ≡ (sort milli.lt two.base_data >>= λ d. err Error.out_of_range)
get10_percentile_lem_example =
    get10_percentile_lem milli.lt fixed-ScalesSize two (inl refl) (omega arith)
