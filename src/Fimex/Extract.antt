-- ===== src/Fimex/Extract.antt =====
-- data_access/fimex/FimexSource.cpp: the values of a slice as one row for each member, and their scale.
use eps2probandltf.Common.{
  ℕ, zero, suc, ◌+◌, ◌*◌, ◌≤◌, ◌<◌, ◌≡◌, refl, ap, sym, ◌∙◌, Bool, not, ◌&&◌, ◌||◌, List, [], ◌∷◌,
  ◌++◌, map, Option, Result, Error, ok, err, ◌>>=◌, length, if◌then◌else◌, leb, leb→le, Bool-cases,
  arith, length-append, inl, inr, ◌⊎◌,
}
use eps2probandltf.Common.Int.{ℤ, pos, negsuc}
use eps2probandltf.Common.OrderedMap.{or_default}
use eps2probandltf.Machine.{Machine}
use eps2probandltf.DataTypes.{BlobValue, BlobCollection}
use eps2probandltf.Container.Columns.{IsRect}

module _ {A : Type 0} where
  -- `assign(start, stop)` and the values after `stop`.
  unfoldable pub split_row : ℕ → List A → Result (List A × List A)
  split_row zero raw = ok ([], raw)
  split_row (suc n) [] = err Error.undefined
  split_row (suc n) (x ∷ raw) = do parts ← split_row n raw; ok (x ∷ parts.0, parts.1)

  -- The loop of `extractData`.
  unfoldable pub extract_rows : (members : ℕ) → (grid_size : ℤ) → List A → Result (List (List A))
  unfolding split_row
  extract_rows zero grid_size raw = ok []
  extract_rows (suc n) (negsuc k) raw = err Error.undefined
  extract_rows (suc n) (pos grid_size) raw = do
    parts ← split_row grid_size raw
    rows ← extract_rows n (pos grid_size) parts.1
    ok (parts.0 ∷ rows)

  -- `extractData`. A negative number of members is a huge one as a `std::size_t`.
  unfoldable pub extract_data : List A → (grid_size ensemble_count : ℤ) → Result (List (List A))
  unfolding extract_rows
  extract_data raw grid_size (pos members) = extract_rows members grid_size raw
  extract_data raw grid_size (negsuc n) = err Error.undefined

  -- The rows one after the other.
  unfoldable pub flat : List (List A) → List A
  flat [] = []
  flat (row ∷ rows) = row ++ flat rows

  append_assoc : (xs ys zs : List A) → (xs ++ ys) ++ zs ≡ xs ++ (ys ++ zs)
  append_assoc [] ys zs = refl
  append_assoc (x ∷ xs) ys zs = ap (λ l. x ∷ l) (append_assoc xs ys zs)

  split_row_in :
      (n : ℕ) (raw : List A)
      → n ≤ length raw
      → (row rest : List A) × (split_row n raw ≡ ok (row, rest))
        × (length row ≡ n)
        × (raw ≡ row ++ rest)
  unfolding split_row
  split_row_in zero raw h = ([], raw, refl, refl, refl)
  split_row_in (suc n) [] h = absurd (omega arith)
  split_row_in (suc n) (x ∷ raw) h =
      let (row, rest, e, f, g) = split_row_in n raw (omega arith) in
      (x ∷ row, rest, rw e refl, ap suc f, ap (λ l. x ∷ l) g)

  split_row_past : (n : ℕ) (raw : List A) → length raw < n → split_row n raw ≡ err Error.undefined
  unfolding split_row
  split_row_past zero raw h = absurd (omega arith)
  split_row_past (suc n) [] h = refl
  split_row_past (suc n) (x ∷ raw) h = rw (split_row_past n raw (omega arith)) refl

  -- For a number of members and a size of the grid from zero on: if the slice has a value for each point
  -- of each member, the result has one row for each member and one value for each point, and the rows one
  -- after the other are the beginning of the slice. A slice that is shorter is read past its end.
  pub extract_data_lem :
      (grid_size members : ℕ) (raw : List A)
      → ((members * grid_size ≤ length raw)
          × ((rows : List (List A)) × (rest : List A) × (extract_data raw
                  (pos grid_size)
                  (pos members)
                ≡ ok rows)
              × (length rows ≡ members)
              × IsRect grid_size rows
              × (raw ≡ flat rows ++ rest)))
        ⊎ ((length raw < members * grid_size)
            × (extract_data raw (pos grid_size) (pos members) ≡ err Error.undefined))
  unfolding extract_data extract_rows flat
  extract_data_lem g n raw = elim (Bool-cases (leb (n * g) (length raw))) [
    | inl f ↦ let h = leb→le (n * g) (length raw) f in inl (h, inside n raw h)
    | inr f ↦ let h : length raw < n * g = ground (arith, f) in inr (h, outside n raw h)
  ]
    where
      inside :
          (n : ℕ) (raw : List A)
          → n * g ≤ length raw
          → (rows : List (List A)) × (rest : List A) × (extract_rows n (pos g) raw ≡ ok rows)
            × (length rows ≡ n)
            × IsRect g rows
            × (raw ≡ flat rows ++ rest)
      inside zero raw h = ([], raw, refl, refl, tt, refl)
      inside (suc n) raw h =
          let (row, rest, e, f, p) = split_row_in g raw (omega arith) in
          let size : length raw ≡ g + length rest =
            ap length p ∙ length-append row rest ∙ ap (λ k. k + length rest) f in
          let (rows, last, q, r, s, t) = inside n rest (omega arith) in
          (
            row ∷ rows,
            last,
            rw (e, q) refl,
            ap suc r,
            (f, s),
            p ∙ ap (λ l. row ++ l) t ∙ sym (append_assoc row (flat rows) last),
          )

      outside :
          (n : ℕ) (raw : List A)
          → length raw < n * g
          → extract_rows n (pos g) raw ≡ err Error.undefined
      outside zero raw h = absurd (omega arith)
      outside (suc n) raw h = elim (Bool-cases (leb g (length raw))) [
        | inr f ↦ rw (split_row_past g raw (ground (arith, f))) refl
        | inl f ↦
            let (row, rest, e, len, p) = split_row_in g raw (leb→le g (length raw) f) in
            let size : length raw ≡ g + length rest =
              ap length p ∙ length-append row rest ∙ ap (λ k. k + length rest) len in
            rw (e, outside n rest (omega arith)) refl
      ]

module _ ⦃m : Machine⦄ where
  -- `==` of two values.
  abbrev pub equals : m.Double → m.Double → Bool
  equals x y = m.double.le x y && m.double.le y x

  -- `val = (val * scale) + offset`.
  unfoldable pub rescaled : (scale offset : m.Double) → BlobValue → BlobValue
  rescaled scale offset val = m.narrow (m.double.add (m.double.mul (m.widen val) scale) offset)

  -- `scaleData_`, for the attributes `add_offset` and `scale_factor` that the variable has.
  unfoldable pub scale_data :
      (add_offset scale_factor : Option m.Double) → BlobCollection → BlobCollection
  unfolding rescaled
  scale_data add_offset scale_factor blobs =
      let offset = or_default (m.double.of_nat 0) add_offset in
      let scale = or_default (m.double.of_nat 1) scale_factor in
      if not (equals offset (m.double.of_nat 0)) || not (equals scale (m.double.of_nat 1))
      then map (map (rescaled scale offset)) blobs
      else blobs
