-- ===== src/Container/Visit.antt =====
-- container/ccAlgorithm.h: the algorithms that visit a collection one grid point after the other.
pub mod Pointwise
pub mod Each
use eps2probandltf.Common.{
  ℕ, zero, suc, List, [], ◌∷◌, ◌++◌, map, Result, Error, ok, err, ◌>>=◌, at, set, length, replicate,
  collect,
}
use eps2probandltf.Container.{column, write_column}

-- What writing `vs` through the range of point `i` leaves, where each write looks for its place by `at`.
unfoldable pub write_point : {B : Type 0} → ℕ → List (List B) → List B → Result (List (List B))
write_point i rows [] = ok rows
write_point i [] (v ∷ vs) = err Error.out_of_range
write_point i (row ∷ rows) (v ∷ vs) = do
  old ← at row i
  rest ← write_point i rows vs
  ok (set row i v ∷ rest)

-- `out.resize(n, row)`, which keeps the rows that are there.
unfoldable pub resize_rows : {B : Type 0} → ℕ → List B → List (List B) → List (List B)
resize_rows zero row out = []
resize_rows (suc n) row [] = row ∷ resize_rows n row []
resize_rows (suc n) row (old ∷ out) = old ∷ resize_rows n row out

module _ {A : Type 0} (f : A → A) where
  -- The loop of `for_each`, with `n` points to go from point `i`, for an action that replaces a value.
  unfoldable pub for_each_points : (n i : ℕ) → List (List A) → Result (List (List A))
  unfolding column write_column
  for_each_points zero i c = ok c
  for_each_points (suc n) i c = do
    values ← column i c
    for_each_points n (suc i) (write_column i c (map f values))

  -- `for_each`, which reads `container[0]`.
  unfoldable pub for_each : List (List A) → Result (List (List A))
  unfolding for_each_points
  for_each [] = err Error.undefined
  for_each (row ∷ rows) = for_each_points (length row) 0 (row ∷ rows)

module _ {A B : Type 0} (f : A → B) where
  -- The loop of `transform` of one collection. What it has written when it throws is lost.
  unfoldable pub transform_points :
      (n i : ℕ) → List (List A) → List (List B) → Result (List (List B))
  unfolding column write_point
  transform_points zero i input out = ok out
  transform_points (suc n) i input out = do
    values ← column i input
    out' ← write_point i out (map f values)
    transform_points n (suc i) input out'

  -- `transform` of one collection; `fill` is the value of a new element.
  unfoldable pub transform : B → List (List A) → List (List B) → Result (List (List B))
  unfolding transform_points resize_rows
  transform fill [] out = ok []
  transform fill (row ∷ rows) out =
      transform_points (length row) 0 (row ∷ rows)
        (resize_rows (length (row ∷ rows)) (replicate (length row) fill) out)

module _ {A B C : Type 0} (f : A → B → C) where
  -- What `std::transform` makes of two ranges. Only the first one is measured.
  unfoldable pub column_of_two : ℕ → List (List A) → List (List B) → Result (List C)
  column_of_two i [] rows2 = ok []
  column_of_two i (row1 ∷ rows1) [] = err Error.out_of_range
  column_of_two i (row1 ∷ rows1) (row2 ∷ rows2) = do
    x ← at row1 i
    y ← at row2 i
    values ← column_of_two i rows1 rows2
    ok (f x y ∷ values)

  unfoldable pub transform_two_points :
      (n i : ℕ) → List (List A) → List (List B) → List (List C) → Result (List (List C))
  unfolding column_of_two write_point
  transform_two_points zero i input1 input2 out = ok out
  transform_two_points (suc n) i input1 input2 out = do
    values ← column_of_two i input1 input2
    out' ← write_point i out values
    transform_two_points n (suc i) input1 input2 out'

  -- `transform` of two collections.
  unfoldable pub transform_two :
      C → List (List A) → List (List B) → List (List C) → Result (List (List C))
  unfolding transform_two_points resize_rows
  transform_two fill [] input2 out = ok []
  transform_two fill (row ∷ rows) input2 out =
      transform_two_points (length row) 0 (row ∷ rows) input2
        (resize_rows (length (row ∷ rows)) (replicate (length row) fill) out)

-- `agregate`, for a function of the values of a point.
unfoldable pub agregate : {A B : Type 0} → (List A → B) → List (List A) → List B → Result (List B)
unfolding column
agregate f [] out = ok out
agregate f (row ∷ rows) out = do
  values ← collect (λ i. column i (row ∷ rows) >>= λ xs. ok (f xs)) (length row) 0
  ok (out ++ values)
