-- ===== src/Generator/Temperature.antt =====
-- generator/temperature, generator/precipitation and generator/simple: the generators that choose a
-- probable value for each point, and how sure a temperature is.
pub mod Deviation
use eps2probandltf.Common.{
  ℕ, zero, suc, ◌+◌, ◌%◌, ◌^◌, List, [], ◌∷◌, ◌++◌, Result, ok, ◌>>=◌, read, length, if◌then◌else◌,
  front_size, collect,
}
use eps2probandltf.Machine.{Machine}
use eps2probandltf.DataTypes.{BlobContainer, BlobCollection, BlobValue}
use eps2probandltf.Container.{column}
use eps2probandltf.Generator.Percentile.{BasicPercentileGenerator, percentile_generator}
use eps2probandltf.Generator.Probable.{average, get_probable_values}

module _ ⦃m : Machine⦄ where
  -- `TemperatureProbabilityGenerator`. The references that it keeps are not read after construction.
  pub record TemperatureProbabilityGenerator : Type 0 where
    pub percentiles : BasicPercentileGenerator BlobValue
    pub temperature : BlobContainer

  -- The constructor.
  unfoldable pub temperature_generator :
      BlobContainer → BlobCollection → BlobCollection → Result TemperatureProbabilityGenerator
  temperature_generator selected_symbols all_symbols temperature_base = do
    values ← get_probable_values average m.float.lt selected_symbols all_symbols temperature_base []
    ok (record { percentiles = percentile_generator temperature_base; temperature = values })

  -- `PrecipitationProbabilityGenerator` and its constructor.
  pub record PrecipitationProbabilityGenerator : Type 0 where
    pub percentiles : BasicPercentileGenerator BlobValue
    pub precip : BlobContainer

  unfoldable pub precipitation_generator :
      BlobContainer → BlobCollection → BlobCollection → Result PrecipitationProbabilityGenerator
  precipitation_generator selected_symbols all_symbols precipitation_base = do
    values ←
        get_probable_values average m.float.lt selected_symbols all_symbols precipitation_base []
    ok (record { percentiles = percentile_generator precipitation_base; precip = values })

  -- The constructor of `SimpleProbabilityGenerator` and what `getSelected` returns.
  unfoldable pub simple_generator :
      BlobContainer → BlobCollection → BlobCollection → Result BlobContainer
  simple_generator selected_symbols all_symbols base_data =
      get_probable_values average m.float.lt selected_symbols all_symbols base_data []

  -- The loop of `getTemperatureDeviationProbability(acceptableDeviation, ...)`; `nearCount` is unsigned.
  unfoldable pub count_near : BlobValue → BlobValue → BlobContainer → (near : ℕ) → ℕ
  count_near acceptable selected [] near = near
  count_near acceptable selected (x ∷ values) near =
      let deviation = m.float.fabs (m.float.sub x selected) in
      count_near acceptable selected values
        (if m.float.le deviation acceptable then (near + 1) % 2 ^ 32 else near)

  unfoldable pub deviation_probability : BlobValue → BlobContainer → BlobValue → BlobValue
  unfolding count_near
  deviation_probability acceptable values selected =
      let near = m.float.of_nat (count_near acceptable selected values 0) in
      m.narrow (
        m.double.mul (m.widen (m.float.div near (m.float.of_nat (length values))))
          (m.double.of_nat 100))

  -- One round of `getTemperatureDeviationProbability` for a field.
  unfoldable pub deviation_point : BlobValue → BlobCollection → BlobContainer → ℕ → Result BlobValue
  unfolding deviation_probability
  deviation_point deviation base_data selected_data i = do
    selected ← read selected_data i
    values ← column i base_data
    ok (deviation_probability deviation values selected)

  -- `getTemperatureDeviationProbability`, which appends to its output.
  unfoldable pub get_temperature_deviation_probability :
      BlobValue → BlobCollection → BlobContainer → BlobContainer → Result BlobContainer
  unfolding deviation_point
  get_temperature_deviation_probability deviation base_data selected_data out = do
    points ← front_size base_data
    found ← collect (deviation_point deviation base_data selected_data) points 0
    ok (out ++ found)

  -- `getTemperatureProbability1p5` and `getTemperatureProbability2p5`.
  unfoldable pub get_temperature_probability1p5 :
      TemperatureProbabilityGenerator → BlobContainer → Result BlobContainer
  unfolding get_temperature_deviation_probability
  get_temperature_probability1p5 t out =
      get_temperature_deviation_probability (m.float.decimal 15 1) t.percentiles.base_data
        t.temperature out

  unfoldable pub get_temperature_probability2p5 :
      TemperatureProbabilityGenerator → BlobContainer → Result BlobContainer
  unfolding get_temperature_deviation_probability
  get_temperature_probability2p5 t out =
      get_temperature_deviation_probability (m.float.decimal 25 1) t.percentiles.base_data
        t.temperature out
