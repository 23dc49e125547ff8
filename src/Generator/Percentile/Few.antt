-- ===== src/Generator/Percentile/Few.antt =====
-- The 10th percentile of a small ensemble.
use eps2probandltf.Common.{
  ◌>>=◌, ℕ, zero, suc, ◌+◌, ◌-◌, ◌/◌, ◌%◌, ◌^◌, ◌≤◌, ◌<◌, ◌≡◌, ◌∙◌, sym, ap, refl, Bool, List, [],
  ◌∷◌, none, Error, ok, err, length, arith, get_elem?, Result-cases, inl, inr, >>=-eq-ok,
}
use eps2probandltf.Common.Outcomes.{Result-ok-inj}
use eps2probandltf.Machine.{Machine}
use eps2probandltf.Machine.Laws.{ScalesSize}
use eps2probandltf.Container.{sort, sort_points, column, write_column}
use eps2probandltf.Container.Columns.{length-write_column}
use eps2probandltf.Generator.Percentile.{BasicPercentileGenerator, scaled_size, get10_percentile}
use eps2probandltf.Generator.Percentile.Cache.{IsCached, sorted_row, get_index-sorted_row}

get_elem?_past : {A : Type 0} (xs : List A) (i : ℕ) → length xs ≤ i → get_elem? xs i ≡ none
get_elem?_past [] i h = refl
get_elem?_past (x ∷ xs) zero h = absurd (omega arith)
get_elem?_past (x ∷ xs) (suc i) h = get_elem?_past xs i (omega arith)

module _ ⦃m : Machine⦄ {A : Type 0} (less : A → A → Bool) where
  length-sort_points :
      (n i : ℕ) (c d : List (List A)) → sort_points less n i c ≡ ok d → length d ≡ length c
  unfolding sort_points
  length-sort_points zero i c d e = ap length (sym (Result-ok-inj e))
  length-sort_points (suc n) i c d e =
      let (values, f, g) = >>=-eq-ok (column i c) _ d e in
      length-sort_points n (suc i) (write_column i c (m.sort A less values)) d g
      ∙ length-write_column i c (m.sort A less values)

  length-sort : (c d : List (List A)) → sort less c ≡ ok d → length d ≡ length c
  unfolding sort
  length-sort [] d e = ap length (sym (Result-ok-inj e))
  length-sort (row ∷ rows) d e = length-sort_points (length row) 0 (row ∷ rows) d e

  -- With sizes scaled as in double precision: for an object whose cache is empty or right, with fewer than
  -- 10 members, the 10th percentile is never returned: the exception is that of the sort, if it throws, and
  -- otherwise that of an index outside of the members.
  pub get10_percentile_lem :
      ScalesSize m
      → (g : BasicPercentileGenerator A) → IsCached less g
      → length g.base_data < 10
      → get10_percentile less g ≡ (sort less g.base_data >>= λ d. err Error.out_of_range)
  unfolding get10_percentile scaled_size
  get10_percentile_lem scales g h k =
      let n = length g.base_data in
      let last : (n / 10 + 2 ^ 64 - 1) % 2 ^ 64 ≡ 2 ^ 64 - 1 = omega arith in
      let run : get10_percentile less g ≡ sorted_row less g.base_data (2 ^ 64 - 1) =
        rw (scales.tenth n (omega arith), last)
          (get_index-sorted_row less g.base_data g.sorted_data (2 ^ 64 - 1) h) in
      elim (Result-cases (sort less g.base_data)) [
        | inl (d, e) ↦
            let past = get_elem?_past d (2 ^ 64 - 1) (omega (arith, length-sort g.base_data d e)) in
            run ∙ rw (e, past) refl
        | inr (u, e) ↦ run ∙ rw e refl
      ]
