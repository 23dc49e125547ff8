-- ===== src/Examples/Writing.antt =====
-- The writing of fields, the program's options, its loops and its end.
use Prim.Native.String.{String}
use eps2probandltf.Common.{
  ℕ, ◌-◌, ◌^◌, ◌≤◌, ◌<◌, ◌≡◌, true, false, List, [], ◌∷◌, none, some, Error, ok, err, refl,
  replicate, length, ◌⊎◌,
}
use eps2probandltf.Common.Int.{ℤ, pos, negsuc}
use eps2probandltf.Common.Steps.{◌>>=◌, reads, lift, modify, return}
use eps2probandltf.Machine.Milli.{fixed, milli}
use eps2probandltf.WeatherData.{WeatherData, number, weather_key}
use eps2probandltf.DataAccess.{FileType}
use eps2probandltf.Configuration.{default_parameters}
use eps2probandltf.Configuration.Options.{ParsedOptions, ProgramOptions, Start, finish_options}
use eps2probandltf.Fimex.Specification.{FimexDataSpecification, get_parameters_valid_time}
use eps2probandltf.Fimex.Parameters.{get_specification}
use eps2probandltf.Fimex.Cdm.{CdmDimension, CdmLibrary}
use eps2probandltf.Fimex.Generated.{GeneratedDataReader, add}
use eps2probandltf.Fimex.Setup.{wanted_seconds, of_int, Transfer, transfer_new_dimension}
use eps2probandltf.Fimex.TimeSteps.{smaller, transfer_new_dimension_lem}
use eps2probandltf.Generator.Percentile.{count_if}
use eps2probandltf.Fimex.Hours.{default_hours_lem}
use eps2probandltf.Fimex.RoundTrip.{index_in_file, add_lem}
use eps2probandltf.Fimex.Stored.{slot, IsStored}
use eps2probandltf.Examples.Files.{tables, reader, seconds}

-- A `CDM` that is a list of names.
abbrev pub names : CdmLibrary (List String) ℤ String
names = record {
  empty_cdm = [];
  add_global_attribute = λ attribute cdm. ok (attribute ∷ cdm);
  add_attribute = λ name attribute cdm. ok (attribute ∷ cdm);
  add_dimension = λ d cdm. ok (d.name ∷ cdm);
  add_variable = λ name shape cdm. ok (name ∷ cdm);
  add_data_variable = λ name shape values cdm. ok (name ∷ cdm);
  get_dimension = λ cdm name. ok (record { name = name; length = 1; is_unlimited = false });
  get_shape = λ cdm name. ok [];
  grid_mapping = λ projection. projection;
  create_data = λ n. ok (replicate n (pos 0));
  create_missing = λ n. ok (replicate n (negsuc 32766999));
}

-- The output with two time steps before anything is written.
abbrev start : GeneratedDataReader (List String) ℤ ℤ String
start = record {
  source_reader = reader;
  translation = tables;
  parameters = [];
  wanted_number_of_time_steps = some 2;
  projection_variable = "projection_1";
  x_dimension = "x";
  y_dimension = "y";
  fields = [];
  cdm = [];
}

abbrev written : GeneratedDataReader (List String) ℤ ℤ String
written = record start {
  parameters = "tcc" ∷ [];
  fields = ("tcc", none ∷ some (pos 1 ∷ pos 2 ∷ []) ∷ []) ∷ [];
  cdm = "projection_1" ∷ "tcc" ∷ [];
}

written-eq :
    add seconds names WeatherData.cloud_cover 21600 (pos 1 ∷ pos 2 ∷ []) start ≡ (ok tt, written)
unfolding add number ◌>>=◌ reads lift modify return
written-eq = refl

add_lem_example :
    (spec : FimexDataSpecification ℤ String) × (w idx : ℕ) × (get_specification tables
        WeatherData.cloud_cover
      ≡ ok spec)
    × (some 2 ≡ some w)
    × (index_in_file seconds names start (get_parameters_valid_time seconds.add_hours spec 21600)
        ≡ ok idx)
    × (((idx < w) × IsStored seconds names spec idx w (pos 1 ∷ pos 2 ∷ []) start written)
        ⊎ ((w ≤ idx)
            × ((name : String) (i : ℕ)
                → i < w
                → slot seconds names written name i ≡ slot seconds names start name i)))
add_lem_example =
    add_lem seconds names WeatherData.cloud_cover 21600 (pos 1 ∷ pos 2 ∷ []) start written
      written-eq

-- Options without `timesteps`.
abbrev parsed : ParsedOptions ℤ
parsed = record {
  help = false;
  version = false;
  source_file = "in.nc";
  source_type = some FileType.net_cdf;
  source_config = "";
  sink_file = "out.nc";
  timesteps = none;
  exclude_percentiles = false;
  exclude_simplified_probabilities = false;
  parameters_definitions = some "parameters.xml";
  exclude = [];
  include = [];
  precip_fraction = pos 500;
  log_level = "info";
}

abbrev options : ProgramOptions ℤ
options = record {
  source = record {
    file_name = "in.nc";
    config_file_name = "";
    parameter_specification_file = "parameters.xml";
    file_type = FileType.net_cdf;
  };
  sink_file_name = "out.nc";
  control = record {
    number_of_hours_to_generate = pos (2 ^ 31 - 1);
    exclude_percentiles = false;
    exclude_simplified_probabilities = false;
    excluded_parameters = default_parameters;
    precip_fraction = pos 500;
  };
}

parsed-options : finish_options "/etc" parsed ≡ ok (Start.starts options)
unfolding finish_options
parsed-options = refl

abbrev nothing_seen : Transfer (List String)
nothing_seen = record { seen = []; time_steps = none; projection = ""; target = [] }

default_hours_lem_example :
    transfer_new_dimension names
      (pos (2 ^ 31 - 1))
      reader
      (record { name = "time"; length = 4; is_unlimited = true })
      nothing_seen
    ≡ err Error.undefined
default_hours_lem_example =
    default_hours_lem names reader "/etc" parsed options refl parsed-options
      (record { name = "time"; length = 4; is_unlimited = true }) nothing_seen _ refl refl

-- Twelve hours of it: three of the four times.
abbrev limited : Transfer (List String)
limited = record { seen = []; time_steps = some 3; projection = ""; target = "time" ∷ [] }

abbrev time_dimension : CdmDimension
time_dimension = record { name = "time"; length = 4; is_unlimited = true }

limited-eq : transfer_new_dimension names (pos 12) reader time_dimension nothing_seen ≡ ok limited
unfolding transfer_new_dimension
limited-eq = refl

transfer_new_dimension_lem_example :
    (first : ℤ) × (rest : List ℤ) × (wanted : ℤ) × (steps : ℕ) × (reader.get_data "time"
      ≡ ok (first ∷ rest))
    × (wanted_seconds (pos 12) ≡ ok wanted)
    × (some 3 ≡ some steps)
    × (steps
        ≡ smaller (count_if (λ x. milli.le x (milli.add first (of_int wanted))) (first ∷ rest)) 4)
    × (steps ≤ 4)
    × (steps ≤ length (first ∷ rest))
    × (names.add_dimension (record time_dimension { length = steps }) [] ≡ ok ("time" ∷ []))
transfer_new_dimension_lem_example =
    transfer_new_dimension_lem names (pos 12) reader time_dimension nothing_seen limited refl
      limited-eq
