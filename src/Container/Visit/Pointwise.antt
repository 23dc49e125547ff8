-- ===== src/Container/Visit/Pointwise.antt =====
-- Visiting a rectangular collection point by point changes it as visiting it row by row does.
use eps2probandltf.Common.{
  ℕ, zero, suc, ◌+◌, ◌<◌, ◌≡◌, refl, ap, sym, ◌∙◌, List, [], ◌∷◌, ◌++◌, map, Result, ok, ◌>>=◌, set,
  get_elem?, get_elem?_in, some, length, replicate, arith, length-set, length-map, length-replicate,
}
use eps2probandltf.Container.{column}
use eps2probandltf.Common.Outcomes.{collect_in, collect_at, Result-ok-inj}
use eps2probandltf.Container.Columns.{IsRect, column_in}
use eps2probandltf.Container.Visit.{write_point, resize_rows, transform_points, transform, agregate}

module _ {B : Type 0} where
  -- The first `i` values of one row, and the rest of another.
  abbrev pub splice : ℕ → List B → List B → List B
  splice zero old new = new
  splice (suc i) [] new = []
  splice (suc i) (x ∷ old) [] = []
  splice (suc i) (x ∷ old) (y ∷ new) = x ∷ splice i old new

  splice-set :
      (i : ℕ) (old new : List B) (v : B)
      → length old ≡ length new
      → get_elem? new i ≡ some v
      → splice (suc i) (set old i v) new ≡ splice i old new
  splice-set i [] [] v h e = absurd (ground (arith, e))
  splice-set i [] (y ∷ new) v h e = absurd (omega (arith, h))
  splice-set i (x ∷ old) [] v h e = absurd (omega (arith, h))
  splice-set zero (x ∷ old) (y ∷ new) v h e = ground (arith, e)
  splice-set (suc i) (x ∷ old) (y ∷ new) v h e =
      ap (λ l. x ∷ l) (splice-set i old new v (omega (arith, h)) e)

  splice_end : (old new : List B) → length old ≡ length new → splice (length old) old new ≡ old
  splice_end [] [] h = refl
  splice_end [] (y ∷ new) h = absurd (omega (arith, h))
  splice_end (x ∷ old) [] h = absurd (omega (arith, h))
  splice_end (x ∷ old) (y ∷ new) h = ap (λ l. x ∷ l) (splice_end old new (omega (arith, h)))

  -- The same for each row.
  abbrev pub splice_rows : ℕ → List (List B) → List (List B) → List (List B)
  splice_rows i [] new = []
  splice_rows i (row ∷ old) [] = []
  splice_rows i (row ∷ old) (row' ∷ new) = splice i row row' ∷ splice_rows i old new

  pub splice_rows_end :
      (w : ℕ) (old new : List (List B))
      → IsRect w old
      → IsRect w new
      → length old ≡ length new
      → splice_rows w old new ≡ old
  splice_rows_end w [] new r s h = refl
  splice_rows_end w (row ∷ old) [] r s h = absurd (omega (arith, h))
  splice_rows_end w (row ∷ old) (row' ∷ new) r s h =
      let first : splice w row row' ≡ row =
        ap (λ k. splice k row row') (sym r.0) ∙ splice_end row row' (r.0 ∙ sym s.0) in
      rw (first, splice_rows_end w old new r.1 s.1 (omega (arith, h))) refl

  pub splice_rows_start :
      (old new : List (List B)) → length old ≡ length new → splice_rows 0 old new ≡ new
  splice_rows_start [] [] h = refl
  splice_rows_start [] (row' ∷ new) h = absurd (omega (arith, h))
  splice_rows_start (row ∷ old) [] h = absurd (omega (arith, h))
  splice_rows_start (row ∷ old) (row' ∷ new) h =
      ap (λ l. row' ∷ l) (splice_rows_start old new (omega (arith, h)))

module _ {A B : Type 0} (f : A → B) where
  get_elem?-map :
      (row : List A) (i : ℕ) (x : A)
      → get_elem? row i ≡ some x
      → get_elem? (map f row) i ≡ some (f x)
  get_elem?-map [] i x e = absurd (ground (arith, e))
  get_elem?-map (y ∷ row) zero x e = ground (arith, e)
  get_elem?-map (y ∷ row) (suc i) x e = get_elem?-map row i x e

  pub map-IsRect : (w : ℕ) (rows : List (List A)) → IsRect w rows → IsRect w (map (map f) rows)
  map-IsRect w [] r = tt
  map-IsRect w (row ∷ rows) r = (length-map f row ∙ r.0, map-IsRect w rows r.1)

  -- One point: what is read, what is written, and what is left to do.
  step_lem :
      (w i : ℕ) (input : List (List A)) (out : List (List B))
      → IsRect w input
      → IsRect w out
      → length out ≡ length input
      → i < w
      → (values : List A) × (out' : List (List B)) × (column i input ≡ ok values)
        × (write_point i out (map f values) ≡ ok out')
        × IsRect w out'
        × (length out' ≡ length input)
        × (splice_rows (suc i) out' (map (map f) input) ≡ splice_rows i out (map (map f) input))
  unfolding column write_point
  step_lem w i [] [] r s h k = ([], [], refl, refl, tt, refl, refl)
  step_lem w i [] (o ∷ out) r s h k = absurd (omega (arith, h))
  step_lem w i (row ∷ input) [] r s h k = absurd (omega (arith, h))
  step_lem w i (row ∷ input) (o ∷ out) r s h k =
      let (x, e) = get_elem?_in row i (omega (arith, r.0)) in
      let (old, g) = get_elem?_in o i (omega (arith, s.0)) in
      let (values, out', p, q, rect, l, t) = step_lem w i input out r.1 s.1 (omega (arith, h)) k in
      let same : length o ≡ length (map f row) = s.0 ∙ sym r.0 ∙ sym (length-map f row) in
      let first = splice-set i o (map f row) (f x) same (get_elem?-map row i x e) in
      (
        x ∷ values,
        set o i (f x) ∷ out',
        rw (e, p) refl,
        rw (g, q) refl,
        (length-set o i (f x) ∙ s.0, rect),
        ap suc l,
        rw (first, t) refl,
      )

  points_lem :
      (w n i : ℕ) (input : List (List A)) (out : List (List B))
      → IsRect w input
      → IsRect w out
      → length out ≡ length input
      → i + n ≡ w
      → transform_points f n i input out ≡ ok (splice_rows i out (map (map f) input))
  unfolding transform_points
  points_lem w zero i input out r s h k =
      let all : i ≡ w = omega (arith, k) in
      rw all (
        ap ok (
          sym (
            splice_rows_end w out (map (map f) input) s (map-IsRect w input r)
              (h ∙ sym (length-map (map f) input)))))
  points_lem w (suc n) i input out r s h k =
      let (values, out', p, q, rect, l, t) = step_lem w i input out r s h (omega (arith, k)) in
      rw (p, q) (points_lem w n (suc i) input out' r rect l (omega (arith, k)) ∙ ap ok t)

module _ {B : Type 0} where
  resize_rows_lem :
      (w n : ℕ) (fill : B) (out : List (List B))
      → IsRect w out
      → (length (resize_rows n (replicate w fill) out) ≡ n)
        × IsRect w (resize_rows n (replicate w fill) out)
  unfolding resize_rows
  resize_rows_lem w zero fill out r = (refl, tt)
  resize_rows_lem w (suc n) fill [] r =
      let (l, s) = resize_rows_lem w n fill [] tt in (ap suc l, (length-replicate w fill, s))
  resize_rows_lem w (suc n) fill (row ∷ out) r =
      let (l, s) = resize_rows_lem w n fill out r.1 in (ap suc l, (r.0, s))

-- For a collection whose members have the same number of points, and an output whose rows, if it has any,
-- have that number too: transforming the collection point by point gives each value transformed, whatever
-- the output held before.
pub transform_lem :
    {A B : Type 0} (f : A → B) (fill : B) (w : ℕ) (input : List (List A)) (out : List (List B))
    → IsRect w input
    → IsRect w out
    → transform f fill input out ≡ ok (map (map f) input)
unfolding transform
transform_lem f fill w [] out r s = refl
transform_lem f fill w (row ∷ rows) out r s =
    let input = row ∷ rows in
    let (l, rect) = resize_rows_lem w (length input) fill out s in
    let start = resize_rows (length input) (replicate w fill) out in
    ap (λ k. transform_points f k 0 input (resize_rows (length input) (replicate k fill) out)) r.0
    ∙ points_lem f w w 0 input start r rect l (omega arith)
    ∙ ap ok (splice_rows_start start (map (map f) input) (l ∙ sym (length-map (map f) input)))

-- For a collection with at least one member whose members have the same number of points: `agregate`
-- appends one value for each point, which is the function's value on what the members have there.
pub agregate_lem :
    {A B : Type 0} (f : List A → B) (w : ℕ) (input : List (List A)) (out : List B)
    → IsRect w input
    → 0 < length input
    → (values : List B) × (agregate f input out ≡ ok (out ++ values))
      × (length values ≡ w)
      × ((i : ℕ)
          → i < w
          → (xs : List A) × (column i input ≡ ok xs) × (get_elem? values i ≡ some (f xs)))
unfolding agregate
agregate_lem f w [] out r h = absurd (omega (arith, h))
agregate_lem {A = A} {B = B} f w (row ∷ rows) out r h =
    let input = row ∷ rows in
    let visit : ℕ → Result B = λ i. column i input >>= λ xs. ok (f xs) in
    let (values, e, l, a) =
      collect_in (λ x. Unit {0}) visit (length row) 0
        (λ k p q.
          let (xs, g, u) = column_in w k input r (omega (arith, r.0, q)) in
          (f xs, rw g refl, tt)) in
    (
      values,
      rw e refl,
      l ∙ r.0,
      λ i k.
          let (xs, g, u) = column_in w i input r k in
          let (x, p, q) = collect_at visit (length row) 0 values e i (omega (arith, r.0, k)) in
          let z : 0 + i ≡ i = omega arith in
          let here : column (0 + i) input ≡ ok xs = ap (λ k. column k input) z ∙ g in
          let same : ok (f xs) ≡ ok x = sym (ap (λ c. c >>= λ ys. ok (f ys)) here) ∙ q in
          (xs, g, p ∙ ap some (sym (Result-ok-inj same))),
    )
