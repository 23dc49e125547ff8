-- ===== src/Generator/Probable/Field.antt =====
-- `getProbableValues` over a whole field.
use eps2probandltf.Common.{
  ℕ, ◌+◌, ◌<◌, ◌≡◌, sym, ◌∙◌, subst, List, ◌++◌, ok, length, All, arith, some, get_elem?, Bool,
}
use eps2probandltf.Common.Outcomes.{collect_in, collect_at, Result-ok-inj}
use eps2probandltf.Machine.{Machine}
use eps2probandltf.Machine.Laws.{IsStrictWeak, Sorts, CountsExactly}
use eps2probandltf.DataTypes.{BlobContainer, BlobCollection, BlobValue}
use eps2probandltf.Common.Int.{pos}
use eps2probandltf.Container.{index, column}
use eps2probandltf.Container.Columns.{
  IsRect, column_in, column-All, column-index, front_size-IsRect,
}
use eps2probandltf.Generator.Symbol.Nearby.{IsKnown}
use eps2probandltf.Generator.Symbol.Tally.{count}
use eps2probandltf.Generator.Probable.{probable_point, get_probable_values}
use eps2probandltf.Generator.Probable.Relevant.{chosen, All-chosen, chosen-pos}
use eps2probandltf.Generator.Probable.Median.{IsMedian, get_probable_value_lem}

module _ ⦃m : Machine⦄ (selected : BlobContainer) (all_symbols : BlobCollection) where
  -- The selected symbol of each point is a code of the table, and a member's symbol there.
  abbrev pub IsSelected : ℕ → Type 0
  IsSelected w =
      (i : ℕ)
      → i < w
      → (s : BlobValue) × (get_elem? selected i ≡ some s)
        × IsKnown (m.to_code s)
        × ((symbols : BlobContainer)
            → column i all_symbols ≡ ok symbols
            → 0 < count (m.to_code s) symbols)

  module _ {A : Type 0} (lt : A → A → Bool) (middle : A → A → A) (data_in : List (List A)) where
    -- `v` is the median at point `i`.
    abbrev pub IsMedianAt : ℕ → A → Type 0
    IsMedianAt i v =
        (s : BlobValue) × (symbols : BlobContainer) × (values : List A) × (get_elem? selected i
          ≡ some s)
        × (column i all_symbols ≡ ok symbols)
        × (column i data_in ≡ ok values)
        × IsMedian lt middle (chosen (m.to_code s) symbols values) v

module _ ⦃m : Machine⦄ {A : Type 0} (lt : A → A → Bool) (middle : A → A → A) {P : A → Type 0}
    (sorts : Sorts m) (weak : IsStrictWeak P lt) (exact : CountsExactly m)
    (selected : BlobContainer) (all_symbols : BlobCollection) (data_in : List (List A)) (w : ℕ)
    (rect : IsRect w all_symbols) (rect' : IsRect w data_in)
    (members : length all_symbols ≡ length data_in) (good : All (All P) data_in)
    (selects : IsSelected selected all_symbols w) where
  probable_point_in :
      (i : ℕ)
      → i < w
      → (v : A) × (probable_point middle lt selected all_symbols data_in i ≡ ok v)
        × IsMedianAt selected all_symbols lt middle data_in i v
  unfolding probable_point
  probable_point_in i h =
      let (s, e, known, occurs) = selects i h in
      let (symbols, f, l) = column_in w i all_symbols rect h in
      let (values, g, l') = column_in w i data_in rect' h in
      let same : length symbols ≡ length values = omega arith in
      let (found, _) =
        get_probable_value_lem {middle = middle} sorts weak exact (m.to_code s) known
          (λ j. index (record { collection = all_symbols; use_index = pos i }) (pos j))
          (λ j. index (record { collection = data_in; use_index = pos i }) (pos j)) symbols values
          (All-chosen P (m.to_code s) symbols values (column-All P i data_in values good g)) same
          (λ k x p. column-index i k all_symbols symbols x f p)
          (λ k x p. column-index i k data_in values x g p) in
      let (v, run, med) =
        found (chosen-pos (m.to_code s) symbols values known same (occurs symbols f)) in
      (v, ground (arith, e, run), (s, symbols, values, e, f, g, med))

  -- With a `std::sort` that sorts and a comparison that is a strict weak ordering of its domain, and
  -- a `float` that holds numbers up to 2^24 exactly: for rectangular fields of `w` points with at
  -- least one member and the same members, values in the domain of the comparison, and at each point
  -- a selected symbol of the table that some member has: `getProbableValues` returns, and appends for
  -- each point, in order, the median of the values of the members whose symbols are near the selected
  -- one.
  pub get_probable_values_lem :
      0 < length all_symbols
      → (data_out : List A)
      → (found : List A) × (get_probable_values middle lt selected all_symbols data_in data_out
          ≡ ok (data_out ++ found))
        × (length found ≡ w)
        × ((i : ℕ)
            → i < w
            → (v : A) × (get_elem? found i ≡ some v)
              × IsMedianAt selected all_symbols lt middle data_in i v)
  unfolding get_probable_values
  get_probable_values_lem h data_out =
      let point = probable_point middle lt selected all_symbols data_in in
      let (found, run, l, _) =
        collect_in (λ _. Unit {0}) point w 0
          λ k p q. let (v, e, _) = probable_point_in k (omega arith) in (v, e, tt) in
      (
        found,
        rw (front_size-IsRect w all_symbols rect h, run),
        l,
        λ i k.
            let (v, e, med) = probable_point_in i k in
            let (x, f, g) = collect_at point w 0 found run i k in
            let z : 0 + i ≡ i = omega arith in
            (
              v,
              subst (λ u. get_elem? found i ≡ some u) (Result-ok-inj (sym (rw z at g) ∙ e)) f,
              med,
            ),
      )
