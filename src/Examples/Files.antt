-- ===== src/Examples/Files.antt =====
-- A small parameter file, the file that it describes, and the program on them. Times are seconds.
use Prim.Native.String.{String, ◌++◌}
use text.Mathlib.Text.{◌==◌}
use eps2probandltf.Common.{
  ℕ, ◌+◌, ◌-◌, ◌*◌, ◌/◌, Bool, true, false, List, [], ◌∷◌, none, some, Result, ok, ◌≡◌, refl,
  if◌then◌else◌,
}
use eps2probandltf.Common.Tests.{◌==◌ as same_number}
use eps2probandltf.Common.Int.{ℤ, pos, negsuc, pos_part}
use eps2probandltf.Machine.Milli.{milli, fixed}
use eps2probandltf.Common.OrderedMap.{lookup, assign}
use eps2probandltf.WeatherData.{WeatherData, number, weather_key}
use eps2probandltf.Fimex.Lookup.{specified_for, get_specification_lem}
use eps2probandltf.Fimex.Xml.{XmlNode}
use eps2probandltf.Fimex.Translation.{TranslationLibrary, ParameterTranslation, Document}
use eps2probandltf.Fimex.Parameters.{read_translation, get_specification}
use eps2probandltf.Fimex.Identifiers.{config_file_identifiers}
use eps2probandltf.Fimex.Cdm.{CdmDimension, CdmReader}
use eps2probandltf.Fimex.Source.{TimeLibrary, FimexSource}
use eps2probandltf.Examples.Times.{utc}

-- Attributes are texts; the numbers of the file are 2 and 6.
abbrev pub texts : TranslationLibrary ℤ String
texts = record {
  string_attribute = λ name value. name ++ "=" ++ value;
  typed_attribute = λ name type value. ok (name ++ "=" ++ value);
  cast_float = λ s. if s == "2" then some (pos 2000) else none;
  cast_int = λ s. if s == "6" then some (pos 6) else none;
  unset = pos 0;
}

abbrev element : List (String × String) → XmlNode
element properties = record { is_element = true; name = "parameter"; properties = properties }

abbrev named : String → List (String × String) → XmlNode
named name properties = record { is_element = true; name = name; properties = properties }

-- The cloud cover of a time, and the chance of a temperature, at a limit of 2 and six hours later.
abbrev pub document : Document
document path =
    if path == "/eps2probandltf/parameter/cloud_cover"
    then some (record { node = element (("cfname", "tcc") ∷ []); children = [] } ∷ [])
    else if path == "/eps2probandltf/parameter/temperature_1_prob"
    then some (
        record {
          node = element (("cfname", "chance") ∷ ("time_offset", "6") ∷ []);
          children =
              named "dimension" (("cfname", "limit") ∷ ("value", "2") ∷ [])
              ∷ named "attribute" (("cfname", "unit") ∷ ("value", "percent") ∷ [])
              ∷ [];
        }
        ∷ [])
    else if path == "/eps2probandltf/dimension"
    then some (
        record {
          node = element (("cfname", "limit") ∷ []);
          children = named "value" (("value", "2") ∷ []) ∷ [];
        }
        ∷ [])
    else some []

abbrev pub tables : ParameterTranslation ℤ String
tables = record {
  global_attributes = [];
  direct_transfer_variables = [];
  translations =
      (
        WeatherData.cloud_cover,
        record {
          cf_name = "tcc";
          offset_from_working_time = pos 0;
          attributes = [];
          extra_dimension_name = "";
          extra_dimension_value = pos 0;
        },
      )
      ∷ (
        WeatherData.temperature_probability1,
        record {
          cf_name = "chance";
          offset_from_working_time = pos 6;
          attributes = "unit=percent" ∷ [];
          extra_dimension_name = "limit";
          extra_dimension_value = pos 2000;
        },
      )
      ∷ [];
  extra_dimensions = ("limit", pos 2000 ∷ []) ∷ [];
  dimension_variables = ("limit", []) ∷ [];
  extra_variables = [];
}

pub document-tables : read_translation milli texts document ≡ ok tables
unfolding read_translation number assign
document-tables = refl

get_specification_lem_example :
    get_specification tables WeatherData.temperature_probability1
    ≡ specified_for milli texts document
        (lookup WeatherData.temperature_probability1 config_file_identifiers)
get_specification_lem_example =
    get_specification_lem milli texts document tables document-tables
      WeatherData.temperature_probability1

-- Two points, two members and four times, six hours apart.
abbrev dimension : String → ℕ → Bool → CdmDimension
dimension name length is_unlimited = record {
  name = name;
  length = length;
  is_unlimited = is_unlimited;
}

abbrev dimension_of : String → Result CdmDimension
dimension_of name =
    if name == "x"
    then ok (dimension "x" 2 false)
    else if name == "ensemble_member"
    then ok (dimension "ensemble_member" 2 false)
    else if name == "time"
    then ok (dimension "time" 4 true)
    else ok (dimension name 1 false)

abbrev pub reader : CdmReader ℤ ℤ String
reader = record {
  dimensions = dimension "x" 2 false ∷ dimension "time" 4 true ∷ [];
  variables =
      ("projection_1", [])
      ∷ ("time", "time" ∷ [])
      ∷ ("tcc", "x" ∷ "y" ∷ "ensemble_member" ∷ "time" ∷ [])
      ∷ [];
  has_variable = λ name. name == "tcc";
  get_shape =
      λ name. ok (if name == "time" then "time" ∷ [] else "x" ∷ "y" ∷ "ensemble_member" ∷ []);
  get_dimension = dimension_of;
  get_attributes = λ name. [];
  double_attribute = λ variable name. if name == "scale_factor" then some (pos 100) else none;
  get_time_axis = λ name. if name == "tcc" then "time" else "";
  get_horizontal_x_axis = λ name. "x";
  get_horizontal_y_axis = λ name. "y";
  get_data = λ name. ok (pos 0 ∷ pos 21600000 ∷ pos 43200000 ∷ pos 64800000 ∷ []);
  get_data_slice = λ name i. ok (pos 10000 ∷ pos 20000 ∷ pos 30000 ∷ pos (1000 * i) ∷ []);
}

abbrev pub seconds : TimeLibrary ℕ ℤ
seconds = record {
  clock = utc;
  add_hours = λ t n. elim n [ pos h ↦ t + h * 3600 | negsuc h ↦ t - h * 3600 - 3600 ];
  same_time = λ t u. same_number t u;
  to_seconds = λ d. pos_part d / 1000;
}

abbrev pub opened : FimexSource ℕ ℤ ℤ String
opened = record { reader = reader; valid_times = none; translator = tables }
