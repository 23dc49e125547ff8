-- ===== src/Container/Visit/Each.antt =====
-- `for_each` replaces every value of a rectangular collection once.
use eps2probandltf.Common.{
  ℕ, zero, suc, ◌+◌, ◌<◌, ◌≡◌, refl, ap, sym, ◌∙◌, List, [], ◌∷◌, map, ok, set, get_elem?,
  get_elem?_in, some, length, arith, length-set, length-map,
}
use eps2probandltf.Container.{column, write_column}
use eps2probandltf.Container.Columns.{IsRect}
use eps2probandltf.Container.Visit.{for_each_points, for_each}
use eps2probandltf.Container.Visit.Pointwise.{
  splice, splice_rows, splice_rows_end, splice_rows_start, map-IsRect,
}

module _ {A : Type 0} (f : A → A) where
  splice-set-map :
      (i : ℕ) (row : List A) (x : A)
      → get_elem? row i ≡ some x
      → splice (suc i) (set row i (f x)) (map f (set row i (f x))) ≡ splice i row (map f row)
  splice-set-map i [] x e = absurd (ground (arith, e))
  splice-set-map zero (y ∷ row) x e = ground (arith, e)
  splice-set-map (suc i) (y ∷ row) x e = ap (λ l. y ∷ l) (splice-set-map i row x e)

  -- One point.
  each_step_lem :
      (w i : ℕ) (c : List (List A))
      → IsRect w c
      → i < w
      → (values : List A) × (column i c ≡ ok values)
        × IsRect w (write_column i c (map f values))
        × (splice_rows
              (suc i)
              (write_column i c (map f values))
              (map (map f) (write_column i c (map f values)))
            ≡ splice_rows i c (map (map f) c))
  unfolding column write_column
  each_step_lem w i [] r h = ([], refl, tt, refl)
  each_step_lem w i (row ∷ c) r h =
      let (x, e) = get_elem?_in row i (omega (arith, r.0)) in
      let (values, g, rect, t) = each_step_lem w i c r.1 h in
      (
        x ∷ values,
        rw (e, g) refl,
        (length-set row i (f x) ∙ r.0, rect),
        rw (splice-set-map i row x e, t) refl,
      )

  each_points_lem :
      (w n i : ℕ) (c : List (List A))
      → IsRect w c
      → i + n ≡ w
      → for_each_points f n i c ≡ ok (splice_rows i c (map (map f) c))
  unfolding for_each_points
  each_points_lem w zero i c r k =
      let all : i ≡ w = omega (arith, k) in
      rw all (
        ap ok (
          sym (
            splice_rows_end w c (map (map f) c) r (map-IsRect f w c r)
              (sym (length-map (map f) c)))))
  each_points_lem w (suc n) i c r k =
      let (values, g, rect, t) = each_step_lem w i c r (omega (arith, k)) in
      rw g (
        each_points_lem w n (suc i) (write_column i c (map f values)) rect (omega (arith, k))
        ∙ ap ok t)

  -- For a collection with at least one member whose members have the same number of points: `for_each`
  -- with an action that replaces a value replaces every value of the collection once.
  pub for_each_lem :
      (w : ℕ) (c : List (List A)) → IsRect w c → 0 < length c → for_each f c ≡ ok (map (map f) c)
  unfolding for_each
  for_each_lem w [] r h = absurd (omega (arith, h))
  for_each_lem w (row ∷ rows) r h =
      let c = row ∷ rows in
      ap (λ k. for_each_points f k 0 c) r.0
      ∙ each_points_lem w w 0 c r (omega arith)
      ∙ ap ok (splice_rows_start c (map (map f) c) (sym (length-map (map f) c)))
