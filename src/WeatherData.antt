-- ===== src/WeatherData.antt =====
-- WeatherData.h: what a field holds.
use eps2probandltf.Common.{ℕ, ◌≡◌, refl, arith, List, [], ◌∷◌, get_elem?, some}
use eps2probandltf.Common.OrderedMap.{Key}

-- `WeatherData`.
pub data WeatherData : Type 0 where
  cloud_cover yr_symbol probability_of_yr_symbol temperature temperature_min temperature_max
        temperature10percentile temperature25percentile temperature50percentile
        temperature75percentile temperature90percentile temperature_probability1
        temperature_probability2 wind_u wind_v wind_probability wind10percentile wind25percentile
        wind50percentile wind75percentile wind90percentile precipitation_in_from precipitation_in_to
        precipitation_out precipitation10percentile precipitation25percentile
        precipitation50percentile precipitation75percentile precipitation90percentile
        precipitation_above0_1mm precipitation_above0_2mm precipitation_above0_5mm
        precipitation_above1_0mm precipitation_above2_0mm precipitation_above5_0mm air_pressure
        relative_humidity dew_point_temperature low_cloud_cover medium_cloud_cover high_cloud_cover
        cloud_cover10percentile cloud_cover25percentile cloud_cover50percentile
        cloud_cover75percentile cloud_cover90percentile significant_wave_height
        significant_wave_height10percentile significant_wave_height25percentile
        significant_wave_height50percentile significant_wave_height75percentile
        significant_wave_height90percentile max_weather_data_entries :
      WeatherData

-- The number of a constant in the enumeration, which is the order of a `std::map`.
unfoldable pub number : WeatherData → ℕ
number cloud_cover = 0
number yr_symbol = 1
number probability_of_yr_symbol = 2
number temperature = 3
number temperature_min = 4
number temperature_max = 5
number temperature10percentile = 6
number temperature25percentile = 7
number temperature50percentile = 8
number temperature75percentile = 9
number temperature90percentile = 10
number temperature_probability1 = 11
number temperature_probability2 = 12
number wind_u = 13
number wind_v = 14
number wind_probability = 15
number wind10percentile = 16
number wind25percentile = 17
number wind50percentile = 18
number wind75percentile = 19
number wind90percentile = 20
number precipitation_in_from = 21
number precipitation_in_to = 22
number precipitation_out = 23
number precipitation10percentile = 24
number precipitation25percentile = 25
number precipitation50percentile = 26
number precipitation75percentile = 27
number precipitation90percentile = 28
number precipitation_above0_1mm = 29
number precipitation_above0_2mm = 30
number precipitation_above0_5mm = 31
number precipitation_above1_0mm = 32
number precipitation_above2_0mm = 33
number precipitation_above5_0mm = 34
number air_pressure = 35
number relative_humidity = 36
number dew_point_temperature = 37
number low_cloud_cover = 38
number medium_cloud_cover = 39
number high_cloud_cover = 40
number cloud_cover10percentile = 41
number cloud_cover25percentile = 42
number cloud_cover50percentile = 43
number cloud_cover75percentile = 44
number cloud_cover90percentile = 45
number significant_wave_height = 46
number significant_wave_height10percentile = 47
number significant_wave_height25percentile = 48
number significant_wave_height50percentile = 49
number significant_wave_height75percentile = 50
number significant_wave_height90percentile = 51
number max_weather_data_entries = 52

-- The constants in the order of the enumeration.
abbrev pub all_data : List WeatherData
all_data =
    cloud_cover ∷ yr_symbol ∷ probability_of_yr_symbol ∷ temperature ∷ temperature_min
    ∷ temperature_max ∷ temperature10percentile ∷ temperature25percentile ∷ temperature50percentile
    ∷ temperature75percentile ∷ temperature90percentile ∷ temperature_probability1
    ∷ temperature_probability2 ∷ wind_u ∷ wind_v ∷ wind_probability ∷ wind10percentile
    ∷ wind25percentile ∷ wind50percentile ∷ wind75percentile ∷ wind90percentile
    ∷ precipitation_in_from ∷ precipitation_in_to ∷ precipitation_out ∷ precipitation10percentile
    ∷ precipitation25percentile ∷ precipitation50percentile ∷ precipitation75percentile
    ∷ precipitation90percentile ∷ precipitation_above0_1mm ∷ precipitation_above0_2mm
    ∷ precipitation_above0_5mm ∷ precipitation_above1_0mm ∷ precipitation_above2_0mm
    ∷ precipitation_above5_0mm ∷ air_pressure ∷ relative_humidity ∷ dew_point_temperature
    ∷ low_cloud_cover ∷ medium_cloud_cover ∷ high_cloud_cover ∷ cloud_cover10percentile
    ∷ cloud_cover25percentile ∷ cloud_cover50percentile ∷ cloud_cover75percentile
    ∷ cloud_cover90percentile ∷ significant_wave_height ∷ significant_wave_height10percentile
    ∷ significant_wave_height25percentile ∷ significant_wave_height50percentile
    ∷ significant_wave_height75percentile ∷ significant_wave_height90percentile
    ∷ max_weather_data_entries ∷ []

all_data_at : (d : WeatherData) → get_elem? all_data (number d) ≡ some d
unfolding number
all_data_at cloud_cover = refl
all_data_at yr_symbol = refl
all_data_at probability_of_yr_symbol = refl
all_data_at temperature = refl
all_data_at temperature_min = refl
all_data_at temperature_max = refl
all_data_at temperature10percentile = refl
all_data_at temperature25percentile = refl
all_data_at temperature50percentile = refl
all_data_at temperature75percentile = refl
all_data_at temperature90percentile = refl
all_data_at temperature_probability1 = refl
all_data_at temperature_probability2 = refl
all_data_at wind_u = refl
all_data_at wind_v = refl
all_data_at wind_probability = refl
all_data_at wind10percentile = refl
all_data_at wind25percentile = refl
all_data_at wind50percentile = refl
all_data_at wind75percentile = refl
all_data_at wind90percentile = refl
all_data_at precipitation_in_from = refl
all_data_at precipitation_in_to = refl
all_data_at precipitation_out = refl
all_data_at precipitation10percentile = refl
all_data_at precipitation25percentile = refl
all_data_at precipitation50percentile = refl
all_data_at precipitation75percentile = refl
all_data_at precipitation90percentile = refl
all_data_at precipitation_above0_1mm = refl
all_data_at precipitation_above0_2mm = refl
all_data_at precipitation_above0_5mm = refl
all_data_at precipitation_above1_0mm = refl
all_data_at precipitation_above2_0mm = refl
all_data_at precipitation_above5_0mm = refl
all_data_at air_pressure = refl
all_data_at relative_humidity = refl
all_data_at dew_point_temperature = refl
all_data_at low_cloud_cover = refl
all_data_at medium_cloud_cover = refl
all_data_at high_cloud_cover = refl
all_data_at cloud_cover10percentile = refl
all_data_at cloud_cover25percentile = refl
all_data_at cloud_cover50percentile = refl
all_data_at cloud_cover75percentile = refl
all_data_at cloud_cover90percentile = refl
all_data_at significant_wave_height = refl
all_data_at significant_wave_height10percentile = refl
all_data_at significant_wave_height25percentile = refl
all_data_at significant_wave_height50percentile = refl
all_data_at significant_wave_height75percentile = refl
all_data_at significant_wave_height90percentile = refl
all_data_at max_weather_data_entries = refl

pub number-inj : (a b : WeatherData) → number a ≡ number b → a ≡ b
number-inj a b e = ground (arith, all_data_at a, all_data_at b, e)

instance abbrev pub weather_key : Key WeatherData
weather_key = record { rank = number; rank_inj = number-inj }
