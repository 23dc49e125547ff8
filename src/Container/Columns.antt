-- ===== src/Container/Columns.antt =====
-- Reading and writing the points of a rectangular collection.
use eps2probandltf.Common.{
  front_size, ℕ, zero, suc, ◌<◌, ◌≡◌, ◌≢◌, refl, ap, List, [], ◌∷◌, ok, length, All, some,
  get_elem?, arith, length-set, get_elem?-set_self, get_elem?-set_ne, get_elem?_in, get_elem?-lt,
  subst, sym, All-get_elem?, inl, inr, Option-cases, Result-cases,
}
use eps2probandltf.Common.Outcomes.{Result-ok-inj}
use eps2probandltf.Common.Int.{pos}
use eps2probandltf.Container.{column, write_column, index}

module _ {A : Type 0} where
  -- Every member has `w` points.
  abbrev pub IsRect : ℕ → List (List A) → Type 0
  IsRect w c = All (λ row. length row ≡ w) c

  pub column_in :
      (w i : ℕ) (c : List (List A))
      → IsRect w c
      → i < w
      → (xs : List A) × (column i c ≡ ok xs) × (length xs ≡ length c)
  unfolding column
  column_in w i [] r h = ([], refl, refl)
  column_in w i (row ∷ rows) r h =
      let (x, e) = get_elem?_in row i (omega (arith, r.0)) in
      let (xs, f, g) = column_in w i rows r.1 h in (x ∷ xs, ground (arith, e, f), omega (arith, g))

  -- A column that is read in full was read row by row.
  column-cons :
      (i : ℕ) (row : List A) (rows : List (List A)) (xs : List A)
      → column i (row ∷ rows) ≡ ok xs
      → (x : A) × (ys : List A) × (get_elem? row i ≡ some x)
        × (column i rows ≡ ok ys)
        × (xs ≡ x ∷ ys)
  unfolding column
  column-cons i row rows xs e = elim (Option-cases (get_elem? row i)) [
    | inl f ↦ absurd (ground (arith, f))
    | inr (x, f) ↦ elim (Result-cases (column i rows)) [
      | inl (ys, g) ↦ (x, ys, f, g, ground (arith, f, g))
      | inr (u, g) ↦ absurd (ground (arith, f, g))
    ]
  ]

  pub column-write_column_self :
      (i : ℕ) (c : List (List A)) (xs vs : List A)
      → column i c ≡ ok xs
      → length vs ≡ length c
      → column i (write_column i c vs) ≡ ok vs
  unfolding column write_column
  column-write_column_self i [] xs [] e h = refl
  column-write_column_self i [] xs (v ∷ vs) e h = absurd (omega arith)
  column-write_column_self i (row ∷ rows) xs [] e h = absurd (omega arith)
  column-write_column_self i (row ∷ rows) xs (v ∷ vs) e h =
      let (x, ys, f, g, p) = column-cons i row rows xs e in
      ground (
        arith,
        get_elem?-set_self row i v (get_elem?-lt row i x f),
        column-write_column_self i rows ys vs g,
      )

  pub column-write_column_ne :
      (i j : ℕ) (c : List (List A)) (vs : List A)
      → i ≢ j
      → column j (write_column i c vs) ≡ column j c
  unfolding column write_column
  column-write_column_ne i j [] vs h = refl
  column-write_column_ne i j (row ∷ rows) [] h = refl
  column-write_column_ne i j (row ∷ rows) (v ∷ vs) h =
      rw (get_elem?-set_ne row i j v h, column-write_column_ne i j rows vs h)

  pub write_column-IsRect :
      (w i : ℕ) (c : List (List A)) (vs : List A) → IsRect w c → IsRect w (write_column i c vs)
  unfolding write_column
  write_column-IsRect w i [] vs r = tt
  write_column-IsRect w i (row ∷ rows) [] r = r
  write_column-IsRect w i (row ∷ rows) (v ∷ vs) r =
      (rw (length-set row i v) r.0, write_column-IsRect w i rows vs r.1)

  pub length-write_column :
      (i : ℕ) (c : List (List A)) (vs : List A) → length (write_column i c vs) ≡ length c
  unfolding write_column
  length-write_column i [] vs = refl
  length-write_column i (row ∷ rows) [] = refl
  length-write_column i (row ∷ rows) (v ∷ vs) = ap suc (length-write_column i rows vs)

  -- A row and a column cross in one value.
  pub column-get_elem? :
      (i k : ℕ) (c : List (List A)) (xs row : List A)
      → column i c ≡ ok xs
      → get_elem? c k ≡ some row
      → get_elem? row i ≡ get_elem? xs k
  unfolding column
  column-get_elem? i k [] xs row e f = absurd (ground arith)
  column-get_elem? i zero (r ∷ rows) xs row e f =
      let (x, ys, g, h, p) = column-cons i r rows xs e in ground (arith, g, p)
  column-get_elem? i (suc k) (r ∷ rows) xs row e f =
      let (x, ys, g, h, p) = column-cons i r rows xs e in
      rw p (column-get_elem? i k rows ys row h f)

  pub column-All {κ} :
      (P : A → Type κ) (i : ℕ) (c : List (List A)) (xs : List A)
      → All (All P) c
      → column i c ≡ ok xs
      → All P xs
  unfolding column
  column-All P i [] xs a e = subst (All P) (Result-ok-inj e) tt
  column-All P i (row ∷ rows) xs a e =
      let (x, ys, f, g, p) = column-cons i row rows xs e in
      subst (All P) (sym p) (All-get_elem? P row i x a.0 f, column-All P i rows ys a.1 g)

  -- `operator[]` inside the bounds.
  pub index_in :
      (w i j : ℕ) (c : List (List A))
      → IsRect w c
      → i < w
      → j < length c
      → (x : A) × (index (record { collection = c; use_index = pos i }) (pos j) ≡ ok x)
  unfolding index
  index_in w i j c r h k =
      let (row, e) = get_elem?_in c j k in
      let len : length row ≡ w = All-get_elem? (λ r. length r ≡ w) c j row r e in
      let (x, f) = get_elem?_in row i (omega arith) in (x, rw (e, f))

  -- What a column holds is what `operator[]` reads.
  pub column-index :
      (i k : ℕ) (c : List (List A)) (xs : List A) (x : A)
      → column i c ≡ ok xs
      → get_elem? xs k ≡ some x
      → index (record { collection = c; use_index = pos i }) (pos k) ≡ ok x
  unfolding index column
  column-index i k [] xs x e f =
      let none_left : xs ≡ [] = sym (Result-ok-inj e) in absurd (ground (arith, none_left))
  column-index i zero (row ∷ rows) xs x e f =
      let (y, ys, g, h, p) = column-cons i row rows xs e in ground (arith, g, p)
  column-index i (suc k) (row ∷ rows) xs x e f =
      let (y, ys, g, h, p) = column-cons i row rows xs e in
      let later : get_elem? ys k ≡ some x = ground (arith, p) in column-index i k rows ys x h later

  pub front_size-IsRect :
      (w : ℕ) (c : List (List A)) → IsRect w c → 0 < length c → front_size c ≡ ok w
  front_size-IsRect w [] r h = absurd (omega arith)
  front_size-IsRect w (row ∷ rows) r h = ap ok r.0
