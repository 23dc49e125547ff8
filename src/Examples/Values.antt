-- ===== src/Examples/Values.antt =====
-- Probable values of ten members.
use eps2probandltf.Common.{
  ℕ, zero, suc, ◌*◌, ◌<◌, ◌≡◌, List, [], ◌∷◌, ◌++◌, refl, ok, arith, length, map, get_elem?, some,
  subst,
}
use eps2probandltf.Common.Outcomes.{Result-ok-inj, collect}
use eps2probandltf.Common.Int.{ℤ, pos}
use eps2probandltf.Machine.Milli.{
  fixed, milli, fixed-CountsExactly, milli-IsOrdered, fixed-Sorts, field-IsNumber,
}
use eps2probandltf.Machine.Laws.{lt-IsStrictWeak}
use eps2probandltf.Container.{column, index}
use eps2probandltf.Generator.Percentile.{count_if}
use eps2probandltf.Generator.Symbol.Codes.{sun, rain, cloud, contains, nearby}
use eps2probandltf.Generator.Symbol.{symbol_influences_selection, equals}
use eps2probandltf.Common.OrderedMap.{lookup}
use eps2probandltf.Machine.Sorting.{insertion_sort}
use eps2probandltf.Generator.Symbol.Tally.{count}
use eps2probandltf.Generator.Probable.{average, get_probable_value, get_probable_values}
use eps2probandltf.Generator.Probable.Field.{IsSelected, IsMedianAt, get_probable_values_lem}
use eps2probandltf.Examples.Ensemble.{temperatures, row}

abbrev codes : List ℤ
codes = row sun cloud

-- Two members of each symbol.
abbrev symbols : List (List ℤ)
symbols =
    row sun cloud
    ∷ row sun cloud
    ∷ row rain rain
    ∷ row rain rain
    ∷ row rain sun
    ∷ row sun sun
    ∷ row rain sun
    ∷ row rain sun
    ∷ row rain sun
    ∷ row rain sun
    ∷ []

abbrev column_of : ℕ → List ℤ
column_of zero =
    map (λ c. pos (c * 1000))
      (sun ∷ sun ∷ rain ∷ rain ∷ rain ∷ sun ∷ rain ∷ rain ∷ rain ∷ rain ∷ [])
column_of (suc i) =
    map (λ c. pos (c * 1000)) (cloud ∷ cloud ∷ rain ∷ rain ∷ sun ∷ sun ∷ sun ∷ sun ∷ sun ∷ sun ∷ [])

-- Sun at the first point has the members 0, 1 and 5, with 5, 3 and 2 degrees; clouds at the second have
-- the members 0 and 1, with 7 and 8 degrees.
probable :
    get_probable_values average milli.lt codes symbols temperatures []
    ≡ ok (pos 3000 ∷ pos 7500 ∷ [])
unfolding get_probable_values get_probable_value collect index average symbol_influences_selection
    equals nearby contains lookup insertion_sort
probable = refl

sample-IsSelected : IsSelected codes symbols 2
unfolding column contains count_if
sample-IsSelected zero h = (
  pos 1000,
  refl,
  refl,
  λ s e. subst (λ c. 0 < count sun c) (Result-ok-inj {a = column_of 0} {b = s} e) (omega arith),
)
sample-IsSelected (suc zero) h = (
  pos 4000,
  refl,
  refl,
  λ s e. subst (λ c. 0 < count cloud c) (Result-ok-inj {a = column_of 1} {b = s} e) (omega arith),
)
sample-IsSelected (suc (suc i)) h = absurd (omega arith)

get_probable_values_lem_example :
    (found : List ℤ) × (get_probable_values average milli.lt codes symbols temperatures []
      ≡ ok ([] ++ found))
    × (length found ≡ 2)
    × ((i : ℕ)
        → i < 2
        → (v : ℤ) × (get_elem? found i ≡ some v)
          × IsMedianAt codes symbols milli.lt average temperatures i v)
get_probable_values_lem_example =
    get_probable_values_lem milli.lt average fixed-Sorts (lt-IsStrictWeak milli milli-IsOrdered)
      fixed-CountsExactly codes symbols temperatures 2 (omega arith) (omega arith) refl
      (field-IsNumber temperatures) sample-IsSelected (omega arith) []
