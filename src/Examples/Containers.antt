-- ===== src/Examples/Containers.antt =====
-- Columns and their iterators.
use eps2probandltf.Common.{List, ◌≡◌, refl, ok, err, Error, arith}
use eps2probandltf.Common.Int.{ℤ, pos}
use eps2probandltf.Machine.Milli.{fixed, milli, milli-IsOrdered, fixed-Sorts, field-IsNumber}
use eps2probandltf.Machine.Laws.{lt-IsStrictWeak}
use eps2probandltf.Container.{CrossContainer, index, size, begin, end, difference, sort, column}
use eps2probandltf.Container.Iterators.{visit, visit-begin}
use eps2probandltf.Container.Sort.{IsColumnSorted, sort_lem}
use eps2probandltf.Examples.Ensemble.{temperatures}

abbrev second_point : CrossContainer ℤ
second_point = record { collection = temperatures; use_index = pos 1 }

past_the_end : index second_point (pos 10) ≡ err Error.out_of_range
unfolding index
past_the_end = refl

visit-begin_example :
    (visit (size second_point) (begin 7 second_point) (end 7 second_point) ≡ column 1 temperatures)
    × (difference (end 7 second_point) (begin 7 second_point) ≡ pos 10)
visit-begin_example = visit-begin 7 1 temperatures (omega arith)

sort_lem_example :
    (d : List (List ℤ)) × (sort milli.lt temperatures ≡ ok d)
    × IsColumnSorted milli.lt 2 temperatures d
sort_lem_example =
    sort_lem fixed-Sorts (lt-IsStrictWeak milli milli-IsOrdered) 2 temperatures (omega arith)
      (field-IsNumber temperatures)
