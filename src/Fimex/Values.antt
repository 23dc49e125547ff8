-- ===== src/Fimex/Values.antt =====
-- The fields that a `FimexSource` gives: the time that they are of, and their values.
use eps2probandltf.Common.{
  ℕ, zero, suc, ◌+◌, ◌*◌, ◌^◌, ◌≤◌, ◌<◌, ◌≡◌, ◌⊎◌, inl, inr, refl, ap, sym, ◌∙◌, Bool, true, false,
  not, ◌||◌, List, [], ◌∷◌, ◌++◌, map, Option, some, Result, Error, ok, err, length, get_elem?, All,
  arith, if◌then◌else◌, Bool-cases, length-map, length-append, subst,
}
use eps2probandltf.Common.Int.{pos, int_of_size_lem}
use eps2probandltf.Common.OrderedMap.{or_default}
use eps2probandltf.Machine.{Machine}
use eps2probandltf.DataTypes.{BlobValue, BlobCollection}
use eps2probandltf.Container.Columns.{IsRect}
use eps2probandltf.Fimex.Specification.{FimexDataSpecification}
use eps2probandltf.Fimex.Extract.{
  extract_data, flat, extract_data_lem, rescaled, scale_data, equals,
}
use eps2probandltf.Fimex.Source.{FimexSource, TimeLibrary, time_index, get_raw_data, make_data}

-- Where the search for a time ends: at the first time that is the same, or past them all.
pub data Search {Time : Type 0} (same : Time → Time → Bool) (wanted : Time) (times : List Time)
    : Result ℕ → Type 0 where
  hit :
      (i : ℕ) (t : Time)
      → get_elem? times i ≡ some t
      → same t wanted ≡ true
      → ((k : ℕ) (u : Time) → k < i → get_elem? times k ≡ some u → same u wanted ≡ false)
      → Search same wanted times (ok i)
  miss : All (λ t. same t wanted ≡ false) times → Search same wanted times (err Error.out_of_range)

module _ {Time : Type 0} (same : Time → Time → Bool) (wanted : Time) where
  -- The search from any index on.
  search_from :
      (times : List Time) (n : ℕ)
      → ((i : ℕ) × (t : Time) × (get_elem? times i ≡ some t)
          × (same t wanted ≡ true)
          × ((k : ℕ) (u : Time) → k < i → get_elem? times k ≡ some u → same u wanted ≡ false)
          × (time_index same wanted times n ≡ ok (n + i)))
        ⊎ (All (λ t. same t wanted ≡ false) times
            × (time_index same wanted times n ≡ err Error.out_of_range))
  unfolding time_index
  search_from [] n = inr (tt, refl)
  search_from (t ∷ times) n = elim (Bool-cases (same t wanted)) [
    | inl f ↦
        let zero_more : n ≡ n + 0 = omega arith in
        inl (0, t, refl, f, λ k u h. absurd (omega (arith, h)), rw f (ap ok zero_more))
    | inr f ↦ elim (search_from times (suc n)) [
      | inl (i, u, e, g, h, r) ↦
          let one_more : suc n + i ≡ n + suc i = omega arith in
          inl (suc i, u, e, g, before i f h, rw f (r ∙ ap ok one_more))
      | inr (a, r) ↦ inr ((f, a), rw f r)
    ]
  ]
    where
      before :
          (i : ℕ)
          → same t wanted ≡ false
          → ((k : ℕ) (u : Time) → k < i → get_elem? times k ≡ some u → same u wanted ≡ false)
          → (k : ℕ) (u : Time) → k < suc i
          → get_elem? (t ∷ times) k ≡ some u
          → same u wanted ≡ false
      before i f h zero u k e = ground (arith, f)
      before i f h (suc j) u k e = h j u (omega arith) e

-- The search for the wanted time always ends: with the index of the first time of the file that is the same,
-- or, if there is none, with the exception of `at` at the end of the list.
pub time_index_lem :
    {Time : Type 0} (same : Time → Time → Bool) (wanted : Time) (times : List Time)
    → Search same wanted times (time_index same wanted times 0)
time_index_lem same wanted times = elim (search_from same wanted times 0) [
  | inl (i, t, e, g, h, r) ↦
      let at_zero : 0 + i ≡ i = omega arith in
      subst (Search same wanted times) (sym (r ∙ ap ok at_zero)) (Search.hit i t e g h)
  | inr (a, r) ↦ subst (Search same wanted times) (sym r) (Search.miss a)
]

module _ {A B : Type 0} (f : A → B) where
  map-append : (xs ys : List A) → map f (xs ++ ys) ≡ map f xs ++ map f ys
  map-append [] ys = refl
  map-append (x ∷ xs) ys = ap (λ l. f x ∷ l) (map-append xs ys)

  flat-map : (rows : List (List A)) → flat (map (map f) rows) ≡ map f (flat rows)
  unfolding flat
  flat-map [] = refl
  flat-map (row ∷ rows) =
      ap (λ l. map f row ++ l) (flat-map rows) ∙ sym (map-append row (flat rows))

  map-IsRect : (w : ℕ) (rows : List (List A)) → IsRect w rows → IsRect w (map (map f) rows)
  map-IsRect w [] r = tt
  map-IsRect w (row ∷ rows) r = (length-map f row ∙ r.0, map-IsRect w rows r.1)

module _ {A : Type 0} where
  length-flat :
      (w : ℕ) (rows : List (List A)) → IsRect w rows → length (flat rows) ≡ length rows * w
  unfolding flat
  length-flat w [] r = omega arith
  length-flat w (row ∷ rows) r =
      omega (arith, length-append row (flat rows), r.0, length-flat w rows r.1)

  append-empty : (xs ys : List A) → length ys ≡ 0 → xs ++ ys ≡ xs
  append-empty [] [] h = refl
  append-empty [] (y ∷ ys) h = absurd (omega (arith, h))
  append-empty (x ∷ xs) ys h = ap (λ l. x ∷ l) (append-empty xs ys h)

  map-same : (xs : List A) → map (λ x. x) xs ≡ xs
  map-same [] = refl
  map-same (x ∷ xs) = ap (λ l. x ∷ l) (map-same xs)

module _ {A : Type 0} where
  -- The rows of a slice that has a value for each point of each member.
  extracted :
      (grid_size members : ℕ) (raw : List A)
      → members * grid_size ≤ length raw
      → (rows : List (List A)) × (rest : List A) × (extract_data raw (pos grid_size) (pos members)
          ≡ ok rows)
        × (length rows ≡ members)
        × IsRect grid_size rows
        × (raw ≡ flat rows ++ rest)
  extracted grid_size members raw h = elim (extract_data_lem grid_size members raw) [
    | inl (enough, rows) ↦ rows
    | inr (short, e) ↦ absurd (omega (arith, h, short))
  ]

module _ ⦃m : Machine⦄ where
  -- What `scaleData_` makes of each value.
  abbrev pub scaling : (add_offset scale_factor : Option m.Double) → BlobValue → BlobValue
  scaling add_offset scale_factor x =
      let offset = or_default (m.double.of_nat 0) add_offset in
      let scale = or_default (m.double.of_nat 1) scale_factor in
      if not (equals offset (m.double.of_nat 0)) || not (equals scale (m.double.of_nat 1))
      then rescaled scale offset x
      else x

  either_lem :
      (b : Bool) (f : BlobValue → BlobValue) (w : ℕ) (rows : BlobCollection)
      → IsRect w rows
      → let scaled = if b then map (map f) rows else rows in
        (length scaled ≡ length rows)
        × IsRect w scaled
        × (flat scaled ≡ map (λ x. if b then f x else x) (flat rows))
  either_lem true f w rows r = (length-map (map f) rows, map-IsRect f w rows r, flat-map f rows)
  either_lem false f w rows r = (refl, r, sym (map-same (flat rows)))

  scale_data_lem :
      (add_offset scale_factor : Option m.Double) (w : ℕ) (rows : BlobCollection)
      → IsRect w rows
      → let scaled = scale_data add_offset scale_factor rows in
        (length scaled ≡ length rows)
        × IsRect w scaled
        × (flat scaled ≡ map (scaling add_offset scale_factor) (flat rows))
  unfolding scale_data
  scale_data_lem add_offset scale_factor w rows r =
      let offset = or_default (m.double.of_nat 0) add_offset in
      let scale = or_default (m.double.of_nat 1) scale_factor in
      either_lem (not (equals offset (m.double.of_nat 0)) || not (equals scale (m.double.of_nat 1)))
        (rescaled scale offset) w rows r

  module _ {Time Attribute : Type 0} (lib : TimeLibrary Time m.Double) where
    made_lem :
        (s : FimexSource Time m.Float m.Double Attribute)
        (spec : FimexDataSpecification m.Float Attribute) (grid members : ℕ) (t : Time)
        (times : List Time) (raw : List m.Float) (rows : BlobCollection)
        → grid < 2 ^ 31
        → members < 2 ^ 31
        → get_raw_data lib s spec t times ≡ ok raw
        → extract_data raw (pos grid) (pos members) ≡ ok rows
        → make_data lib s (grid, members, spec) t times
          ≡ ok (
              scale_data
                (s.reader.double_attribute spec.cf_name "add_offset")
                (s.reader.double_attribute spec.cf_name "scale_factor")
                rows)
    unfolding make_data
    made_lem s spec grid members t times raw rows g k e f =
        rw (e, int_of_size_lem grid g, int_of_size_lem members k, f) refl

    pub make_data_lem :
        (s : FimexSource Time m.Float m.Double Attribute)
        (spec : FimexDataSpecification m.Float Attribute) (grid members : ℕ) (t : Time)
        (times : List Time) (raw : List m.Float)
        → grid < 2 ^ 31
        → members < 2 ^ 31
        → get_raw_data lib s spec t times ≡ ok raw
        → length raw ≡ members * grid
        → (rows : BlobCollection) × (make_data lib s (grid, members, spec) t times ≡ ok rows)
          × (length rows ≡ members)
          × IsRect grid rows
          × (flat rows
              ≡ map
                  (scaling
                    (s.reader.double_attribute spec.cf_name "add_offset")
                    (s.reader.double_attribute spec.cf_name "scale_factor"))
                  raw)
    make_data_lem s spec grid members t times raw g k e l =
        let (rows, rest, f, count, rect, whole) = extracted grid members raw (omega (arith, l)) in
        let size = length-flat grid rows rect ∙ ap (λ c. c * grid) count in
        let nothing : length rest ≡ 0 =
          omega (arith, ap length whole, length-append (flat rows) rest, size, l) in
        let exact : flat rows ≡ raw = sym (whole ∙ append-empty (flat rows) rest nothing) in
        let offset = s.reader.double_attribute spec.cf_name "add_offset" in
        let scale = s.reader.double_attribute spec.cf_name "scale_factor" in
        let (count', rect', values) = scale_data_lem offset scale grid rows rect in
        (
          scale_data offset scale rows,
          made_lem s spec grid members t times raw rows g k e f,
          count' ∙ count,
          rect',
          values ∙ ap (map (scaling offset scale)) exact,
        )
