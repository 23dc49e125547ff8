-- ===== src/Examples/Fields.antt =====
-- The fields of the small file, and what is written of it.
use Prim.Native.String.{String}
use eps2probandltf.Common.{
  ℕ, ◌*◌, ◌≤◌, ◌<◌, ◌≡◌, List, [], ◌∷◌, map, none, some, Error, ok, err, refl, length, arith, ◌++◌,
  ◌⊎◌,
}
use eps2probandltf.Common.Int.{ℤ, pos}
use eps2probandltf.Machine.Milli.{fixed}
use eps2probandltf.WeatherData.{WeatherData, number, weather_key}
use eps2probandltf.Container.Columns.{IsRect}
use eps2probandltf.Fimex.Specification.{FimexDataSpecification}
use eps2probandltf.Fimex.Extract.{extract_data, extract_data_lem, flat}
use eps2probandltf.Fimex.Source.{FimexSource, read_times, make_data, get_raw_data, time_index}
use eps2probandltf.Fimex.Cached.{
  Call, times_call, data_call, times_answer, as_source, run, answer, run_lem, get_valid_times_lem,
}
use eps2probandltf.Fimex.Values.{Search, time_index_lem, scaling, make_data_lem}
use eps2probandltf.Examples.Files.{reader, seconds, opened}

-- Two members with two points each, and a value that is left.
abbrev raw : List ℕ
raw = 1 ∷ 2 ∷ 3 ∷ 4 ∷ 5 ∷ []

extract_data_lem_example :
    ((2 * 2 ≤ 5)
      × ((rows : List (List ℕ)) × (rest : List ℕ) × (extract_data raw (pos 2) (pos 2) ≡ ok rows)
          × (length rows ≡ 2)
          × IsRect 2 rows
          × (raw ≡ flat rows ++ rest)))
    ⊎ ((5 < 2 * 2) × (extract_data raw (pos 2) (pos 2) ≡ err Error.undefined))
extract_data_lem_example = extract_data_lem 2 2 raw

time_index_lem_example :
    Search seconds.same_time 43200
      (0 ∷ 21600 ∷ 43200 ∷ [])
      (time_index seconds.same_time 43200 (0 ∷ 21600 ∷ 43200 ∷ []) 0)
time_index_lem_example = time_index_lem seconds.same_time 43200 (0 ∷ 21600 ∷ 43200 ∷ [])

opened-times : read_times seconds opened ≡ ok (0 ∷ 21600 ∷ 43200 ∷ 64800 ∷ [])
unfolding read_times number
opened-times = refl

-- The times, the cloud cover, a parameter without a field, and the times again.
abbrev calls : List (Call ℕ)
calls =
    times_call
    ∷ data_call WeatherData.cloud_cover 21600
    ∷ data_call WeatherData.temperature_probability1 0
    ∷ times_call
    ∷ []

run_lem_example : run seconds calls opened ≡ map (answer (as_source seconds opened)) calls
run_lem_example = run_lem seconds opened _ refl opened-times calls

-- A file without a time axis.
abbrev timeless : FimexSource ℕ ℤ ℤ String
timeless = record opened { reader = record reader { get_time_axis = λ name. "" } }

timeless-times : read_times seconds timeless ≡ err Error.runtime_error
unfolding read_times number
timeless-times = refl

get_valid_times_lem_example :
    run seconds (times_call ∷ times_call ∷ []) timeless
    ≡ times_answer (err Error.runtime_error) ∷ times_answer (ok []) ∷ []
get_valid_times_lem_example =
    get_valid_times_lem seconds timeless Error.runtime_error refl timeless-times

-- The cloud cover of the second time.
abbrev cloud_cover : FimexDataSpecification ℤ String
cloud_cover = record {
  cf_name = "tcc";
  offset_from_working_time = pos 0;
  attributes = [];
  extra_dimension_name = "";
  extra_dimension_value = pos 0;
}

abbrev slice : List ℤ
slice = pos 10000 ∷ pos 20000 ∷ pos 30000 ∷ pos 1000 ∷ []

raw_cloud_cover :
    get_raw_data seconds opened cloud_cover 21600 (0 ∷ 21600 ∷ 43200 ∷ 64800 ∷ []) ≡ ok slice
unfolding get_raw_data
raw_cloud_cover = refl

make_data_lem_example :
    (rows : List (List ℤ)) × (make_data seconds opened
        (2, 2, cloud_cover)
        21600
        (0 ∷ 21600 ∷ 43200 ∷ 64800 ∷ [])
      ≡ ok rows)
    × (length rows ≡ 2)
    × IsRect 2 rows
    × (flat rows ≡ map (scaling none (some (pos 100))) slice)
make_data_lem_example =
    make_data_lem seconds opened cloud_cover 2 2 21600 (0 ∷ 21600 ∷ 43200 ∷ 64800 ∷ []) slice
      (omega arith) (omega arith) raw_cloud_cover refl
