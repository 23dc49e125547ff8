-- ===== src/Fimex/Identifiers.antt =====
-- The table `configFileIdentifiers_` of data_access/fimex/ParameterTranslation.cpp.
use Prim.Native.String.{String, ◌++◌}
use eps2probandltf.Common.{List, [], ◌∷◌, Result, Error}
use eps2probandltf.Common.Outcomes.{or_else}
use eps2probandltf.Common.OrderedMap.{lookup}
use eps2probandltf.WeatherData.{WeatherData, weather_key}

-- `configFileIdentifiers_`.
unfoldable pub config_file_identifiers : List (WeatherData × String)
config_file_identifiers =
    (WeatherData.cloud_cover, "cloud_cover")
    ∷ (WeatherData.yr_symbol, "yr_symbol")
    ∷ (WeatherData.probability_of_yr_symbol, "probability_yr_symbol")
    ∷ (WeatherData.temperature, "temperature")
    ∷ (WeatherData.temperature_min, "temperature_min")
    ∷ (WeatherData.temperature_max, "temperature_max")
    ∷ (WeatherData.temperature10percentile, "temperature_10")
    ∷ (WeatherData.temperature25percentile, "temperature_25")
    ∷ (WeatherData.temperature50percentile, "temperature_50")
    ∷ (WeatherData.temperature75percentile, "temperature_75")
    ∷ (WeatherData.temperature90percentile, "temperature_90")
    ∷ (WeatherData.temperature_probability1, "temperature_1_prob")
    ∷ (WeatherData.temperature_probability2, "temperature_2_prob")
    ∷ (WeatherData.wind_u, "x_wind")
    ∷ (WeatherData.wind_v, "y_wind")
    ∷ (WeatherData.wind_probability, "wind_prob")
    ∷ (WeatherData.wind10percentile, "wind_10")
    ∷ (WeatherData.wind25percentile, "wind_25")
    ∷ (WeatherData.wind50percentile, "wind_50")
    ∷ (WeatherData.wind75percentile, "wind_75")
    ∷ (WeatherData.wind90percentile, "wind_90")
    ∷ (WeatherData.precipitation_in_from, "precipitation_from_in")
    ∷ (WeatherData.precipitation_in_to, "precipitation_to_in")
    ∷ (WeatherData.precipitation_out, "precipitation_out")
    ∷ (WeatherData.precipitation10percentile, "precipitation_10")
    ∷ (WeatherData.precipitation25percentile, "precipitation_25")
    ∷ (WeatherData.precipitation50percentile, "precipitation_50")
    ∷ (WeatherData.precipitation75percentile, "precipitation_75")
    ∷ (WeatherData.precipitation90percentile, "precipitation_90")
    ∷ (WeatherData.precipitation_above0_1mm, "precipitation_1")
    ∷ (WeatherData.precipitation_above0_2mm, "precipitation_2")
    ∷ (WeatherData.precipitation_above0_5mm, "precipitation_3")
    ∷ (WeatherData.precipitation_above1_0mm, "precipitation_4")
    ∷ (WeatherData.precipitation_above2_0mm, "precipitation_5")
    ∷ (WeatherData.precipitation_above5_0mm, "precipitation_6")
    ∷ (WeatherData.air_pressure, "air_pressure")
    ∷ (WeatherData.relative_humidity, "relative_humidity")
    ∷ (WeatherData.dew_point_temperature, "dew_point_temperature")
    ∷ (WeatherData.low_cloud_cover, "low_clouds")
    ∷ (WeatherData.medium_cloud_cover, "medium_clouds")
    ∷ (WeatherData.high_cloud_cover, "high_clouds")
    ∷ (WeatherData.cloud_cover10percentile, "cloud_10")
    ∷ (WeatherData.cloud_cover25percentile, "cloud_25")
    ∷ (WeatherData.cloud_cover50percentile, "cloud_50")
    ∷ (WeatherData.cloud_cover75percentile, "cloud_75")
    ∷ (WeatherData.cloud_cover90percentile, "cloud_90")
    ∷ (WeatherData.significant_wave_height, "sea_surface_wave_significant_height")
    ∷ (WeatherData.significant_wave_height10percentile, "significant_wave_height_10")
    ∷ (WeatherData.significant_wave_height25percentile, "significant_wave_height_25")
    ∷ (WeatherData.significant_wave_height50percentile, "significant_wave_height_50")
    ∷ (WeatherData.significant_wave_height75percentile, "significant_wave_height_75")
    ∷ (WeatherData.significant_wave_height90percentile, "significant_wave_height_90")
    ∷ []

-- `getIdentifyingName_`.
unfoldable pub get_identifying_name : WeatherData → Result String
unfolding config_file_identifiers lookup
get_identifying_name d = or_else Error.runtime_error (lookup d config_file_identifiers)

-- The path that `addParameters_` looks for.
abbrev pub parameter_path : String → String
parameter_path identifier = "/eps2probandltf/parameter/" ++ identifier
