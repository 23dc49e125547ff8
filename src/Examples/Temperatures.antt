-- ===== src/Examples/Temperatures.antt =====
-- One forecast time with minimum and maximum temperatures.
use eps2probandltf.Common.{
  ℕ, ◌≡◌, ◌*◌, List, [], ◌∷◌, refl, ok, err, Error, true, false, Result, arith,
}
use eps2probandltf.Common.Int.{ℤ, pos, ltb_ℤ}
use eps2probandltf.Machine.Milli.{fixed}
use eps2probandltf.Common.Steps.{◌>>=◌, lift, reads, modify, return}
use eps2probandltf.Common.Outcomes.{collect}
use eps2probandltf.Common.OrderedMap.{lookup, update, assign}
use eps2probandltf.DataTypes.{get_equal_size_blob_collection}
use eps2probandltf.Container.{index, column, write_column}
use eps2probandltf.Machine.Sorting.{insertion_sort}
use eps2probandltf.Generator.Symbol.{
  get_symbol_certainty, get_probability_factor_of, get_probability_factor, has_precipitation,
  symbol_influences_selection, equals, get_symbols, select_symbol, get_probability_of,
}
use eps2probandltf.Generator.Symbol.Codes.{nearby, contains}
use eps2probandltf.Generator.Percentile.{count_if, percentile_generator}
use eps2probandltf.Generator.Probable.{get_probable_values, average}
use eps2probandltf.Generator.Temperature.{
  temperature_generator, simple_generator, get_temperature_probability1p5,
  get_temperature_probability2p5, get_temperature_deviation_probability,
}
use eps2probandltf.Configuration.{should_generate}
use eps2probandltf.WeatherData.{number}
use eps2probandltf.Forecast.Handlers.{put, entry}
use eps2probandltf.DataAccess.{Source}
use eps2probandltf.WeatherData.{WeatherData}
use eps2probandltf.Configuration.{GeneratorControl}
use eps2probandltf.Forecast.Handlers.{new_generator}
use eps2probandltf.Forecast.Work.{generate}
use eps2probandltf.Forecast.Ordered.{IsHeld, above, below}
use eps2probandltf.Forecast.Temperatures.{generate_lem}
use eps2probandltf.Examples.Ensemble.{two_symbols}

-- Two members at one point; the medians of the minimum are above those of the temperature.
abbrev point : ℕ → ℕ → Result (List (List ℤ))
point a b = ok ((pos (a * 1000) ∷ []) ∷ (pos (b * 1000) ∷ []) ∷ [])

abbrev input : WeatherData → ℕ → Result (List (List ℤ))
input WeatherData.cloud_cover t = point 0 0
input WeatherData.precipitation_in_from t = point 0 0
input WeatherData.precipitation_in_to t = point 0 0
input WeatherData.temperature t = point 5 7
input WeatherData.temperature_min t = point 6 8
input WeatherData.temperature_max t = point 4 9
input d t = err Error.data_not_available

abbrev source : Source ℕ
source = record { get_valid_times = ok (0 ∷ 6 ∷ []); get_data = input }

-- The symbols and the temperatures.
abbrev control : GeneratorControl ℤ
control = record {
  number_of_hours_to_generate = pos 12;
  exclude_percentiles = true;
  exclude_simplified_probabilities = false;
  excluded_parameters =
      ("clouds", true)
      ∷ ("humidity", true)
      ∷ ("precipitation", true)
      ∷ ("pressure", true)
      ∷ ("symbols", false)
      ∷ ("temperature", false)
      ∷ ("waves", true)
      ∷ ("wind", true)
      ∷ [];
  precip_fraction = pos 500;
}

irreflexive : (a : ℤ) → ltb_ℤ a a ≡ false
irreflexive a = ground arith

returns : (generate source control 0 6 new_generator).0 ≡ ok true
unfolding generate ◌>>=◌ lift reads modify return get_symbol_certainty
    get_equal_size_blob_collection collect index get_probability_factor_of get_probability_factor
    lookup nearby update has_precipitation get_probable_values symbol_influences_selection equals
    contains get_symbols select_symbol get_probability_of count_if insertion_sort average
    write_column assign should_generate temperature_generator simple_generator
    get_temperature_probability1p5 get_temperature_probability2p5 percentile_generator put entry
    number get_temperature_deviation_probability column
returns = refl

generate_lem_example :
    let made = (generate source control 0 6 new_generator).1 in
    IsHeld WeatherData.temperature_min above made.to_save
    × IsHeld WeatherData.temperature_max below made.to_save
generate_lem_example = generate_lem source control 0 6 irreflexive true returns
