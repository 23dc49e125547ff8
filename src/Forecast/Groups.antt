-- ===== src/Forecast/Groups.antt =====
-- The handlers of each group of products, from `generateClouds_` to `generateWaves_`.
use eps2probandltf.Common.{List, [], ◌∷◌, Bool, if◌then◌else◌}
use eps2probandltf.Common.Steps.{◌>>=◌, return, lift, reads}
use eps2probandltf.Machine.{Machine}
use eps2probandltf.DataTypes.{BlobCollection, BlobValue}
use eps2probandltf.DataAccess.{Source}
use eps2probandltf.WeatherData.{WeatherData}
use eps2probandltf.Configuration.{GeneratorControl}
use eps2probandltf.Generator.Symbol.{SymbolLibrary}
use eps2probandltf.Generator.Percentile.{
  BasicPercentileGenerator, percentile_generator, probability_of_value_above,
}
use eps2probandltf.Generator.Temperature.{
  temperature_generator, precipitation_generator, simple_generator, get_temperature_probability1p5,
  get_temperature_probability2p5,
}
use eps2probandltf.Generator.Wind.{force, wind_force_less, get_wind, get_wind_probabilities}
use eps2probandltf.Forecast.Inputs.{get_data, get_precipitation_sum}
use eps2probandltf.Forecast.Handlers.{
  Handler, entry, put, put_percentiles, lowered, raised, correct, transfer_force, generate_simple,
}

module _ ⦃m : Machine⦄ ⦃lib : SymbolLibrary BlobValue⦄ {Time : Type 0} (source : Source Time)
    (conf : GeneratorControl BlobValue) (valid_time next_valid_time : Time) where
  -- The code after `if ( ! conf_.excludePercentiles )`, and after the test of
  -- `excludeSimplifiedProbabilities`.
  abbrev unless : Bool → Handler → Handler
  unless excluded h = if excluded then return tt else h

  -- `generateClouds_`.
  unfoldable pub generate_clouds : BlobCollection → Handler
  unfolding get_data simple_generator put put_percentiles percentile_generator generate_simple
  generate_clouds all_symbols = do
    cloud_cover ← lift (get_data source WeatherData.cloud_cover valid_time)
    _ ← unless conf.exclude_simplified_probabilities (do
      selected ← reads (λ s. s.selected_yr_symbol)
      values ← lift (simple_generator selected all_symbols cloud_cover)
      put WeatherData.cloud_cover values)
    _ ← unless conf.exclude_percentiles (
        put_percentiles m.float.lt put WeatherData.cloud_cover10percentile
          WeatherData.cloud_cover25percentile WeatherData.cloud_cover50percentile
          WeatherData.cloud_cover75percentile WeatherData.cloud_cover90percentile
          (percentile_generator cloud_cover))
    _ ←
        generate_simple source conf valid_time next_valid_time WeatherData.low_cloud_cover
          all_symbols
    _ ←
        generate_simple source conf valid_time next_valid_time WeatherData.medium_cloud_cover
          all_symbols
    generate_simple source conf valid_time next_valid_time WeatherData.high_cloud_cover all_symbols

  -- `generateTemperature_`.
  unfoldable pub generate_temperature : BlobCollection → Handler
  unfolding get_data temperature_generator put put_percentiles entry get_temperature_probability1p5
      get_temperature_probability2p5
  generate_temperature all_symbols = do
    temperature ← lift (get_data source WeatherData.temperature valid_time)
    selected ← reads (λ s. s.selected_yr_symbol)
    t ← lift (temperature_generator selected all_symbols temperature)
    _ ← unless conf.exclude_simplified_probabilities (put WeatherData.temperature t.temperature)
    _ ← unless conf.exclude_percentiles (
        put_percentiles m.float.lt put WeatherData.temperature10percentile
          WeatherData.temperature25percentile WeatherData.temperature50percentile
          WeatherData.temperature75percentile WeatherData.temperature90percentile t.percentiles)
    unless conf.exclude_simplified_probabilities (do
      out1 ← reads (entry WeatherData.temperature_probability1)
      probability1 ← lift (get_temperature_probability1p5 t out1)
      _ ← put WeatherData.temperature_probability1 probability1
      out2 ← reads (entry WeatherData.temperature_probability2)
      probability2 ← lift (get_temperature_probability2p5 t out2)
      put WeatherData.temperature_probability2 probability2)

  -- `generateTemperatureMin_` and `generateTemperatureMax_`.
  unfoldable pub generate_temperature_min : BlobCollection → Handler
  unfolding generate_simple correct lowered
  generate_temperature_min all_symbols = do
    _ ←
        generate_simple source conf valid_time next_valid_time WeatherData.temperature_min
          all_symbols
    correct WeatherData.temperature_min lowered

  unfoldable pub generate_temperature_max : BlobCollection → Handler
  unfolding generate_simple correct raised
  generate_temperature_max all_symbols = do
    _ ←
        generate_simple source conf valid_time next_valid_time WeatherData.temperature_max
          all_symbols
    correct WeatherData.temperature_max raised

  -- `generateWind_`.
  unfoldable pub generate_wind : BlobCollection → Handler
  unfolding get_data get_wind get_wind_probabilities wind_force_less force put put_percentiles entry
      transfer_force percentile_generator
  generate_wind all_symbols = do
    wind_u ← lift (get_data source WeatherData.wind_u valid_time)
    wind_v ← lift (get_data source WeatherData.wind_v valid_time)
    wind ← lift (get_wind wind_u wind_v)
    _ ← unless conf.exclude_simplified_probabilities (do
      selected ← reads (λ s. s.selected_yr_symbol)
      saved ← reads (λ s. record {
        wind_u = entry WeatherData.wind_u s;
        wind_v = entry WeatherData.wind_v s;
        wind_probability = entry WeatherData.wind_probability s;
      })
      out ← lift (get_wind_probabilities selected all_symbols wind saved)
      _ ← put WeatherData.wind_u out.wind_u
      _ ← put WeatherData.wind_v out.wind_v
      put WeatherData.wind_probability out.wind_probability)
    unless conf.exclude_percentiles (
        put_percentiles wind_force_less transfer_force WeatherData.wind10percentile
          WeatherData.wind25percentile WeatherData.wind50percentile WeatherData.wind75percentile
          WeatherData.wind90percentile (percentile_generator wind))

  -- `p.probabilityOfValueAbove(toSave_[ d ], val)` for each product and limit in turn.
  abbrev pub limits : List (WeatherData × BlobValue)
  limits =
      (WeatherData.precipitation_above0_1mm, m.float.decimal 1 1)
      ∷ (WeatherData.precipitation_above0_2mm, m.float.decimal 2 1)
      ∷ (WeatherData.precipitation_above0_5mm, m.float.decimal 5 1)
      ∷ (WeatherData.precipitation_above1_0mm, m.float.of_nat 1)
      ∷ (WeatherData.precipitation_above2_0mm, m.float.of_nat 2)
      ∷ (WeatherData.precipitation_above5_0mm, m.float.of_nat 5)
      ∷ []

  unfoldable pub put_above :
      BasicPercentileGenerator BlobValue → List (WeatherData × BlobValue) → Handler
  unfolding put probability_of_value_above
  put_above g [] = return tt
  put_above g ((d, val) ∷ above) = do
    out ← lift (probability_of_value_above g val)
    _ ← put d out
    put_above g above

  -- `generatePrecipitation_`.
  unfoldable pub generate_precipitation : BlobCollection → Handler
  unfolding get_precipitation_sum precipitation_generator put put_percentiles put_above
  generate_precipitation all_symbols = do
    precipitation ← lift (get_precipitation_sum source valid_time)
    selected ← reads (λ s. s.selected_yr_symbol)
    p ← lift (precipitation_generator selected all_symbols precipitation)
    _ ← unless conf.exclude_simplified_probabilities (put WeatherData.precipitation_out p.precip)
    unless conf.exclude_percentiles (do
      _ ←
          put_percentiles m.float.lt put WeatherData.precipitation10percentile
            WeatherData.precipitation25percentile WeatherData.precipitation50percentile
            WeatherData.precipitation75percentile WeatherData.precipitation90percentile
            p.percentiles
      put_above p.percentiles limits)

  -- `generateAirPressure_`, `generateHumidity_` and `generateWaves_`.
  unfoldable pub generate_air_pressure : BlobCollection → Handler
  unfolding generate_simple
  generate_air_pressure =
      generate_simple source conf valid_time next_valid_time WeatherData.air_pressure

  unfoldable pub generate_humidity : BlobCollection → Handler
  unfolding generate_simple
  generate_humidity =
      generate_simple source conf valid_time next_valid_time WeatherData.relative_humidity

  unfoldable pub generate_waves : Handler
  unfolding get_data put put_percentiles percentile_generator
  generate_waves = do
    waves ← lift (get_data source WeatherData.significant_wave_height valid_time)
    unless conf.exclude_percentiles (
        put_percentiles m.float.lt put WeatherData.significant_wave_height10percentile
          WeatherData.significant_wave_height25percentile
          WeatherData.significant_wave_height50percentile
          WeatherData.significant_wave_height75percentile
          WeatherData.significant_wave_height90percentile (percentile_generator waves))
