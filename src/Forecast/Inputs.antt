-- ===== src/Forecast/Inputs.antt =====
-- The input of one forecast time: `getData_`, `getPrecipitationSum_` and `getCloudAverage_`.
use eps2probandltf.Common.{[], ◌∷◌, Result, Error, ok, err, ◌>>=◌, if◌then◌else◌}
use eps2probandltf.Machine.{Machine}
use eps2probandltf.DataTypes.{BlobContainer, BlobCollection, BlobValue}
use eps2probandltf.DataAccess.{Source}
use eps2probandltf.WeatherData.{WeatherData}

module _ ⦃m : Machine⦄ where
  -- The loops of `getPrecipitationSum_` and `getCloudAverage_`: each value of the first field becomes
  -- `f` of itself and the value of the second field there. A value that the second field lacks is the
  -- error `missing`.
  unfoldable pub combine_row :
      Error
      → (BlobValue → BlobValue → BlobValue)
      → BlobContainer
      → BlobContainer
      → Result BlobContainer
  combine_row missing f [] ys = ok []
  combine_row missing f (x ∷ xs) [] = err missing
  combine_row missing f (x ∷ xs) (y ∷ ys) = do zs ← combine_row missing f xs ys; ok (f x y ∷ zs)

  unfoldable pub combine :
      Error
      → (BlobValue → BlobValue → BlobValue)
      → BlobCollection
      → BlobCollection
      → Result BlobCollection
  unfolding combine_row
  combine missing f [] ys = ok []
  combine missing f (x ∷ xs) [] = do
    z ← combine_row missing f x []
    zs ← combine missing f xs []
    ok (z ∷ zs)
  combine missing f (x ∷ xs) (y ∷ ys) = do
    z ← combine_row missing f x y
    zs ← combine missing f xs ys
    ok (z ∷ zs)

  -- The new value of `getPrecipitationSum_`. How often it was clearly below zero is counted, but not
  -- used.
  unfoldable pub precipitation_between : (to from : BlobValue) → BlobValue
  precipitation_between to from =
      let new_val = m.float.sub to from in
      if m.float.lt new_val (m.float.of_nat 0) then m.float.of_nat 0 else new_val

  unfoldable pub cloud_between : (next now : BlobValue) → BlobValue
  cloud_between next now = m.float.div (m.float.add next now) (m.float.of_nat 2)

  module _ {Time : Type 0} (source : Source Time) where
    -- `getData_`.
    unfoldable pub get_data : WeatherData → Time → Result BlobCollection
    get_data d valid_time = do
      ret ← source.get_data d valid_time
      elim ret [ [] ↦ err Error.runtime_error | row ∷ rows ↦ ok (row ∷ rows) ]

    -- `getPrecipitationSum_`, whose reads use `at`.
    unfoldable pub get_precipitation_sum : Time → Result BlobCollection
    unfolding get_data combine precipitation_between
    get_precipitation_sum valid_time = do
      precipitation_a ← get_data WeatherData.precipitation_in_from valid_time
      precipitation ← get_data WeatherData.precipitation_in_to valid_time
      combine Error.out_of_range precipitation_between precipitation precipitation_a

    -- `getCloudAverage_`, whose reads use `[]`.
    unfoldable pub get_cloud_average : (valid_time next_valid_time : Time) → Result BlobCollection
    unfolding get_data combine cloud_between
    get_cloud_average valid_time next_valid_time = do
      cloud_cover_a ← get_data WeatherData.cloud_cover valid_time
      cloud_cover ← get_data WeatherData.cloud_cover next_valid_time
      combine Error.undefined cloud_between cloud_cover cloud_cover_a
