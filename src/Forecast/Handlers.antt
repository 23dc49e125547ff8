-- ===== src/Forecast/Handlers.antt =====
-- The handlers of one forecast time, from `generateSymbols_` to `generateSimple_`. They fill `toSave_`.
use eps2probandltf.Common.{
  List, [], ◌∷◌, ◌++◌, map, none, some, Error, ok, err, Bool, length, if◌then◌else◌, ◌==◌,
}
use eps2probandltf.Common.Steps.{Step, ◌>>=◌, return, lift, reads, modify}
use eps2probandltf.Common.OrderedMap.{assign, lookup, or_default}
use eps2probandltf.Machine.{Machine}
use eps2probandltf.DataTypes.{BlobContainer, BlobCollection, BlobValue}
use eps2probandltf.DataAccess.{Source}
use eps2probandltf.WeatherData.{WeatherData, weather_key}
use eps2probandltf.Configuration.{GeneratorControl}
use eps2probandltf.Generator.Symbol.{SymbolLibrary, get_symbol_certainty}
use eps2probandltf.Generator.Percentile.{
  BasicPercentileGenerator, get10_percentile, get25_percentile, get50_percentile, get75_percentile,
  get90_percentile,
}
use eps2probandltf.Generator.Temperature.{simple_generator}
use eps2probandltf.Generator.Wind.{Wind, force}
use eps2probandltf.Forecast.Inputs.{get_data, get_precipitation_sum, get_cloud_average}

module _ ⦃m : Machine⦄ where
  -- What a `ProbabilityGenerator` changes: `selectedYrSymbol_` and `toSave_`.
  pub record Products : Type 0 where
    pub selected_yr_symbol : BlobContainer
    pub to_save : List (WeatherData × BlobContainer)

  -- The constructor.
  abbrev pub new_generator : Products
  new_generator = record { selected_yr_symbol = []; to_save = [] }

  abbrev pub Handler : Type 0
  Handler = Step Products (Unit {0})

  -- `toSave_[d]`, which makes an empty entry if there is none.
  unfoldable pub entry : WeatherData → Products → BlobContainer
  entry d s = or_default [] (lookup d s.to_save)

  -- `toSave_[d] = values`.
  unfoldable pub put : WeatherData → BlobContainer → Handler
  put d values = modify (λ s. record s { to_save = assign d values s.to_save })

  -- `transferForce(toSave_[d], winds)`.
  unfoldable pub transfer_force : WeatherData → List Wind → Handler
  unfolding entry put force
  transfer_force d winds = do to ← reads (entry d); put d (to ++ map force winds)

  -- The five percentiles in turn, each saved under its name.
  unfoldable pub put_percentiles :
      {A : Type 0} (less : A → A → Bool) (save : WeatherData → List A → Handler)
      → (d10 d25 d50 d75 d90 : WeatherData) → BasicPercentileGenerator A
      → Handler
  unfolding get10_percentile get25_percentile get50_percentile get75_percentile get90_percentile
  put_percentiles less save d10 d25 d50 d75 d90 g = do
    p10 ← lift (get10_percentile less g)
    _ ← save d10 p10.0
    p25 ← lift (get25_percentile less p10.1)
    _ ← save d25 p25.0
    p50 ← lift (get50_percentile less p25.1)
    _ ← save d50 p50.0
    p75 ← lift (get75_percentile less p50.1)
    _ ← save d75 p75.0
    p90 ← lift (get90_percentile less p75.1)
    save d90 p90.0

  -- `std::min` and `std::max`, each value with the value of the other vector at its place.
  unfoldable pub lowered : BlobContainer → BlobContainer → BlobContainer
  lowered [] ts = []
  lowered (x ∷ xs) [] = x ∷ xs
  lowered (x ∷ xs) (t ∷ ts) = (if m.float.lt t x then t else x) ∷ lowered xs ts

  unfoldable pub raised : BlobContainer → BlobContainer → BlobContainer
  raised [] ts = []
  raised (x ∷ xs) [] = x ∷ xs
  raised (x ∷ xs) (t ∷ ts) = (if m.float.lt x t then t else x) ∷ raised xs ts

  -- The second part of `generateTemperatureMin_` and `generateTemperatureMax_`.
  unfoldable pub correct : WeatherData → (BlobContainer → BlobContainer → BlobContainer) → Handler
  unfolding put
  correct d f s = elim (lookup WeatherData.temperature s.to_save) [
    | none ↦ (ok tt, s)
    | some temperature ↦ elim (lookup d s.to_save) [
      | none ↦ (err Error.runtime_error, s)
      | some values ↦
          if length values == length temperature
          then put d (f values temperature) s
          else (err Error.runtime_error, s)
    ]
  ]

  module _ ⦃lib : SymbolLibrary BlobValue⦄ {Time : Type 0} (source : Source Time)
      (conf : GeneratorControl BlobValue) (valid_time next_valid_time : Time) where
    -- `generateSymbols_`; `next_valid_time` is six hours later.
    unfoldable pub generate_symbols : Step Products BlobCollection
    unfolding put get_cloud_average get_precipitation_sum
    generate_symbols = do
      cloud_cover ← lift (get_cloud_average source valid_time next_valid_time)
      precipitation ← lift (get_precipitation_sum source valid_time)
      selected ← reads (λ s. s.selected_yr_symbol)
      certainty ←
          lift (get_symbol_certainty cloud_cover precipitation selected [] conf.precip_fraction)
      _ ← modify (λ s. record s { selected_yr_symbol = certainty.symbol_out })
      _ ← if conf.exclude_simplified_probabilities then return tt else (do
        _ ← put WeatherData.yr_symbol certainty.symbol_out
        put WeatherData.probability_of_yr_symbol certainty.certainty_out)
      return certainty.symbols

    -- `generateSimple_`.
    unfoldable pub generate_simple : WeatherData → BlobCollection → Handler
    unfolding put get_data simple_generator
    generate_simple phenomenon all_symbols =
        if conf.exclude_simplified_probabilities then return tt else (do
          d ← lift (get_data source phenomenon valid_time)
          selected ← reads (λ s. s.selected_yr_symbol)
          values ← lift (simple_generator selected all_symbols d)
          put phenomenon values)
