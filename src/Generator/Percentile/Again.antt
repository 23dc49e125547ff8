-- ===== src/Generator/Percentile/Again.antt =====
-- An object of generator/percentile/BasicPercentileGenerator.t.h that is asked again after its sort threw.
use eps2probandltf.Common.{
  ℕ, zero, suc, ◌≡◌, refl, ap, ◌∙◌, Bool, List, [], ◌∷◌, Result, Error, ok, err, length, arith,
}
use eps2probandltf.Machine.{Machine}
use eps2probandltf.Machine.Laws.{KeepsMembers}
use eps2probandltf.Container.{sort, thrown_sort, thrown_points, column, write_column}
use eps2probandltf.Container.Columns.{length-write_column}
use eps2probandltf.Generator.Percentile.{BasicPercentileGenerator, after_sort, get_sorted_data}

module _ ⦃m : Machine⦄ (keeps : KeepsMembers m) {A : Type 0} (less : A → A → Bool) where
  length-thrown_points :
      (n i : ℕ) (c : List (List A)) → length (thrown_points less n i c) ≡ length c
  unfolding thrown_points
  length-thrown_points zero i c = refl
  length-thrown_points (suc n) i c =
      from_column (λ written. length-thrown_points n (suc i) written) (column i c)
    where
      from_column :
          ((written : List (List A))
            → length (thrown_points less n (suc i) written) ≡ length written)
          → (r : Result (List A))
          → length (elim r [
            | ok values ↦ thrown_points less n (suc i) (write_column i c (m.sort A less values))
            | err e ↦ m.sort_thrown A less i c
          ])
            ≡ length c
      from_column rest (ok values) =
          rest (write_column i c (m.sort A less values))
          ∙ length-write_column i c (m.sort A less values)
      from_column rest (err e) = keeps A less i c

  length-thrown_sort : (c : List (List A)) → length (thrown_sort less c) ≡ length c
  unfolding thrown_sort
  length-thrown_sort [] = refl
  length-thrown_sort (row ∷ rows) = length-thrown_points (length row) 0 (row ∷ rows)

  thrown_lem :
      (c : List (List A)) (e : Error)
      → sort less c ≡ err e
      → get_sorted_data less (record { base_data = c; sorted_data = [] })
        ≡ (err e, record { base_data = c; sorted_data = thrown_sort less c })
  unfolding get_sorted_data after_sort
  thrown_lem c e t = ap (λ r. after_sort less (record { base_data = c; sorted_data = [] }) r) t

  kept_lem :
      (c left : List (List A)) (e : Error)
      → sort less c ≡ err e
      → length left ≡ length c
      → let g : BasicPercentileGenerator A = record { base_data = c; sorted_data = left } in
        get_sorted_data less g ≡ (ok left, g)
  unfolding get_sorted_data sort
  kept_lem [] left e t h = absurd (ground (arith, t))
  kept_lem (row ∷ rows) [] e t h = absurd (omega (arith, h))
  kept_lem (row ∷ rows) (r ∷ rs) e t h = refl

  pub get_sorted_data_lem :
      (c : List (List A)) (e : Error)
      → sort less c ≡ err e
      → let fresh : BasicPercentileGenerator A = record { base_data = c; sorted_data = [] } in
        let left : BasicPercentileGenerator A = record {
          base_data = c;
          sorted_data = thrown_sort less c;
        } in
        (get_sorted_data less fresh ≡ (err e, left))
        × (length left.sorted_data ≡ length c)
        × (get_sorted_data less left ≡ (ok left.sorted_data, left))
  get_sorted_data_lem c e t = (
    thrown_lem c e t,
    length-thrown_sort c,
    kept_lem c (thrown_sort less c) e t (length-thrown_sort c),
  )
