-- ===== src/Examples/Forecasts.antt =====
-- Temperatures' probabilities, the options and one forecast time of a small ensemble.
use Prim.Native.String.{String}
use mathlib.Core.Bool.{Bool, true, false, not, ◌||◌}
use eps2probandltf.Common.{
  ℕ, ◌≡◌, ◌≤◌, List, [], ◌∷◌, ◌++◌, refl, ok, err, Error, arith, All, Result, inl, inr, ◌⊎◌, ◌≢◌,
}
use eps2probandltf.Common.Int.{ℤ, pos}
use eps2probandltf.Common.OrderedMap.{IsRising}
use eps2probandltf.Machine.Milli.{fixed, milli-IsOrdered}
use eps2probandltf.DataAccess.{Source, Sink}
use eps2probandltf.WeatherData.{WeatherData, weather_key}
use eps2probandltf.Configuration.{
  GeneratorControl, default_parameters, configure, should_generate, find,
}
use eps2probandltf.Configuration.Products.{IsProduct, mentions, configure_lem}
use eps2probandltf.Generator.Percentile.{count_if}
use eps2probandltf.Generator.Temperature.{
  TemperatureProbabilityGenerator, get_temperature_probability1p5, get_temperature_probability2p5,
}
use eps2probandltf.Generator.Temperature.Deviation.{
  within, IsDeviation, temperature_probability_lem,
}
use eps2probandltf.Forecast.Work.{generate, work, save_all}
use eps2probandltf.Forecast.Fields.{allowed}
use eps2probandltf.Forecast.Saved.{SymbolsFail, work_lem}
use eps2probandltf.Forecast.Handlers.{new_generator}
use eps2probandltf.Examples.Ensemble.{temperatures, two_symbols, row}

-- The medians of the temperatures.
abbrev chosen : TemperatureProbabilityGenerator
chosen = record {
  percentiles = record { base_data = temperatures; sorted_data = [] };
  temperature = pos 4500 ∷ pos 4500 ∷ [];
}

temperature_probability_lem_example :
    (ps qs : List ℤ) × (get_temperature_probability1p5 chosen [] ≡ ok ([] ++ ps))
    × (get_temperature_probability2p5 chosen [] ≡ ok ([] ++ qs))
    × IsDeviation (pos 1500) temperatures chosen.temperature 2 ps
    × IsDeviation (pos 2500) temperatures chosen.temperature 2 qs
    × ((s : ℤ) (xs : List ℤ)
        → count_if (within (pos 1500) s) xs ≤ count_if (within (pos 2500) s) xs)
temperature_probability_lem_example =
    temperature_probability_lem 2 temperatures (omega arith) (omega arith) (omega arith)
      milli-IsOrdered refl chosen refl refl []

-- Everything but wind is excluded.
configure_lem_example :
    (m : List (String × Bool)) × (configure ("all" ∷ []) ("wind" ∷ []) ≡ ok m)
    × ((what : String)
        → IsProduct default_parameters what
        → (conf : GeneratorControl ℤ) → conf.excluded_parameters ≡ m
        → should_generate conf what
          ≡ ok (mentions what ("wind" ∷ []) || not (mentions what ("all" ∷ []))))
unfolding find
configure_lem_example =
    configure_lem {F = ℤ} ("all" ∷ []) ("wind" ∷ []) (inl refl, tt) (inr (false, refl), tt)

-- Times are hours; the cloud cover is full, and one member is wet at the first point.
abbrev input : WeatherData → ℕ → Result (List (List ℤ))
input WeatherData.temperature t = ok temperatures
input WeatherData.precipitation_in_from t = ok (row 0 0 ∷ row 0 0 ∷ [])
input WeatherData.precipitation_in_to t = ok (row 2 0 ∷ row 0 0 ∷ [])
input WeatherData.cloud_cover t = ok (row 1 1 ∷ row 1 1 ∷ [])
input WeatherData.air_pressure t = ok (row 990 1010 ∷ row 1000 1020 ∷ [])
input d t = err Error.data_not_available

abbrev source : Source ℕ
source = record { get_valid_times = ok (0 ∷ 6 ∷ []); get_data = input }

abbrev sink : Sink ℕ (List (WeatherData × List ℤ))
sink = record { write = λ d t values w. (ok tt, w ++ (d, values) ∷ []) }

-- No percentiles, and only the symbols and the pressure.
abbrev control : GeneratorControl ℤ
control = record {
  number_of_hours_to_generate = pos 12;
  exclude_percentiles = true;
  exclude_simplified_probabilities = false;
  excluded_parameters =
      ("clouds", true)
      ∷ ("humidity", true)
      ∷ ("precipitation", true)
      ∷ ("pressure", false)
      ∷ ("symbols", false)
      ∷ ("temperature", true)
      ∷ ("waves", true)
      ∷ ("wind", true)
      ∷ [];
  precip_fraction = pos 500;
}

work_lem_example :
    let (outcome, made) = generate source control 0 6 new_generator in
    let result = work source control 0 6 sink [] in
    ((SymbolsFail source control 0 6 × (outcome ≡ ok false) × (result ≡ (ok tt, [])))
      ⊎ (((e : Error) × (e ≢ Error.data_not_available) × (outcome ≡ err e) × (result ≡ (err e, [])))
          ⊎ ((outcome ≡ ok true) × (result ≡ save_all source control 0 6 sink made.to_save []))))
    × IsRising made.to_save
    × All (λ f. allowed control f.0 ≡ true) made.to_save
work_lem_example = work_lem source control 0 6 sink []
