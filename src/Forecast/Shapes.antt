-- ===== src/Forecast/Shapes.antt =====
-- The fields that are computed from two fields of the input: precipitation between two times, and the
-- mean cloud cover.
use eps2probandltf.Common.{
  ℕ, ◌≡◌, ◌<◌, ◌⊎◌, inl, inr, refl, true, false, List, [], ◌∷◌, Bool, if◌then◌else◌, Error, ok,
  length, arith,
}
use eps2probandltf.Machine.{Machine}
use eps2probandltf.DataTypes.{BlobValue, BlobContainer, BlobCollection}
use eps2probandltf.DataAccess.{Source}
use eps2probandltf.WeatherData.{WeatherData}
use eps2probandltf.Container.Columns.{IsRect}
use eps2probandltf.Forecast.Inputs.{
  combine_row, combine, precipitation_between, get_data, get_precipitation_sum,
}

-- `R` holds of the elements of three lists of one length, place by place.
abbrev pub Zipped : {A B C : Type 0} → (A → B → C → Type 0) → List A → List B → List C → Type 0
Zipped R [] [] [] = Unit {0}
Zipped R (x ∷ xs) (y ∷ ys) (z ∷ zs) = R x y z × Zipped R xs ys zs
Zipped R xs ys zs = ⊥

module _ ⦃m : Machine⦄ (R : BlobValue → BlobValue → BlobValue → Type 0)
    (f : BlobValue → BlobValue → BlobValue) (holds : (x y : BlobValue) → R x y (f x y))
    (missing : Error) where
  combine_row_lem :
      (xs ys : BlobContainer)
      → length xs ≡ length ys
      → (zs : BlobContainer) × (combine_row missing f xs ys ≡ ok zs)
        × (length zs ≡ length xs)
        × Zipped R xs ys zs
  unfolding combine_row
  combine_row_lem [] [] h = ([], refl, refl, tt)
  combine_row_lem [] (y ∷ ys) h = absurd (omega (arith, h))
  combine_row_lem (x ∷ xs) [] h = absurd (omega (arith, h))
  combine_row_lem (x ∷ xs) (y ∷ ys) h =
      let (zs, e, l, a) = combine_row_lem xs ys (omega (arith, h)) in
      (f x y ∷ zs, rw e refl, omega (arith, l), (holds x y, a))

  combine_lem :
      (w : ℕ) (xs ys : BlobCollection)
      → IsRect w xs
      → IsRect w ys
      → length xs ≡ length ys
      → (zs : BlobCollection) × (combine missing f xs ys ≡ ok zs)
        × (length zs ≡ length xs)
        × IsRect w zs
        × Zipped (Zipped R) xs ys zs
  unfolding combine
  combine_lem w [] [] r s h = ([], refl, refl, tt, tt)
  combine_lem w [] (y ∷ ys) r s h = absurd (omega (arith, h))
  combine_lem w (x ∷ xs) [] r s h = absurd (omega (arith, h))
  combine_lem w (x ∷ xs) (y ∷ ys) r s h =
      let (z, e, l, a) = combine_row_lem x y (omega (arith, r.0, s.0)) in
      let (zs, g, k, rect, b) = combine_lem w xs ys r.1 s.1 (omega (arith, h)) in
      (z ∷ zs, rw (e, g) refl, omega (arith, k), (omega (arith, l, r.0), rect), (a, b))

-- `v` is `to - from`, or zero where that is below zero; and `v` is not below zero.
abbrev pub IsIncrease : ⦃m : Machine⦄ → (to from v : BlobValue) → Type 0
IsIncrease ⦃m = m⦄ to from v =
    (m.float.lt v (m.float.of_nat 0) ≡ false)
    × (((m.float.lt (m.float.sub to from) (m.float.of_nat 0) ≡ true) × (v ≡ m.float.of_nat 0))
        ⊎ ((m.float.lt (m.float.sub to from) (m.float.of_nat 0) ≡ false)
            × (v ≡ m.float.sub to from)))

precipitation_between_lem :
    ⦃m : Machine⦄
    → m.float.lt (m.float.of_nat 0) (m.float.of_nat 0) ≡ false
    → (to from : BlobValue) → IsIncrease to from (precipitation_between to from)
unfolding precipitation_between
precipitation_between_lem ⦃m = m⦄ z to from =
    choice (m.float.lt (m.float.sub to from) (m.float.of_nat 0)) refl
  where
    choice :
        (b : Bool)
        → m.float.lt (m.float.sub to from) (m.float.of_nat 0) ≡ b
        → IsIncrease to from (if b then m.float.of_nat 0 else m.float.sub to from)
    choice true e = (z, inl (e, refl))
    choice false e = (e, inr (e, refl))

module _ ⦃m : Machine⦄ {Time : Type 0} (source : Source Time) where
  read_lem :
      (d : WeatherData) (t : Time) (c : BlobCollection)
      → source.get_data d t ≡ ok c
      → 0 < length c
      → get_data source d t ≡ ok c
  unfolding get_data
  read_lem d t [] e h = absurd (omega (arith, h))
  read_lem d t (row ∷ rows) e h = rw e refl

  -- For numbers of which zero is not below itself: if the source gives the precipitation from the start of
  -- the forecast to both ends of a period, with at least one member and the same shape, then
  -- `getPrecipitationSum_` returns a field of that shape. For each member at each point its value is the
  -- precipitation to the end of the period less that to its beginning, or zero where the difference is
  -- below zero, so that no value is below zero.
  pub get_precipitation_sum_lem :
      m.float.lt (m.float.of_nat 0) (m.float.of_nat 0) ≡ false
      → (t : Time) (w : ℕ) (from to : BlobCollection)
      → source.get_data WeatherData.precipitation_in_from t ≡ ok from
      → source.get_data WeatherData.precipitation_in_to t ≡ ok to
      → 0 < length to
      → length from ≡ length to
      → IsRect w from
      → IsRect w to
      → (sum : BlobCollection) × (get_precipitation_sum source t ≡ ok sum)
        × (length sum ≡ length to)
        × IsRect w sum
        × Zipped (Zipped IsIncrease) to from sum
  unfolding get_precipitation_sum
  get_precipitation_sum_lem z t w from to e f n same r s =
      let (sum, g, l, rect, increases) =
        combine_lem IsIncrease precipitation_between (precipitation_between_lem z)
          Error.out_of_range w to from s r (omega (arith, same)) in
      (
        sum,
        rw
            (
              read_lem WeatherData.precipitation_in_from t from e (omega (arith, n, same)),
              read_lem WeatherData.precipitation_in_to t to f n,
            )
            g,
        l,
        rect,
        increases,
      )
