-- ===== src/Fimex/Source.antt =====
-- data_access/fimex/FimexSource.h and .cpp: the ensemble of a file, with the times that it has read.
use Prim.Native.String.{String}
use text.Mathlib.Text.{◌==◌}
use eps2probandltf.Common.{
  ℕ, suc, ◌*◌, ◌%◌, ◌^◌, Bool, List, [], ◌∷◌, map, Option, none, some, Result, Error, ok, err,
  ◌>>=◌, if◌then◌else◌,
}
use eps2probandltf.Common.Int.{ℤ, int_of_size}
use eps2probandltf.Common.Steps.{Step, after}
use eps2probandltf.Machine.{Machine}
use eps2probandltf.DataTypes.{BlobCollection}
use eps2probandltf.DataAccess.{FileType}
use eps2probandltf.WeatherData.{WeatherData}
use eps2probandltf.Configuration.Options.{SourceOptions}
use eps2probandltf.LocalTime.{Clock, get_time}
use eps2probandltf.Fimex.Specification.{FimexDataSpecification, get_parameters_valid_time}
use eps2probandltf.Fimex.Translation.{ParameterTranslation}
use eps2probandltf.Fimex.Parameters.{get_specification}
use eps2probandltf.Fimex.Cdm.{CdmReader}
use eps2probandltf.Fimex.Extract.{extract_data, scale_data}

-- What the code calls of local times: their clock, `+` with hours and `==`, and the conversion of a
-- `double` to a `time_t`, for times from the epoch on.
pub record TimeLibrary (Time Double : Type 0) : Type 0 where
  pub clock : Clock Time
  pub add_hours : Time → ℤ → Time
  pub same_time : Time → Time → Bool
  pub to_seconds : Double → ℕ

-- `init_`, for the reader that Fimex makes for a type, a file and a configuration.
unfoldable pub init :
    {Reader : Type 0}
    → (FileType → String → String → Result Reader)
    → String
    → String
    → FileType
    → Result Reader
init create file config_file FileType.wdb = create FileType.wdb file config_file
init create file config_file FileType.felt = create FileType.felt file config_file
init create file config_file FileType.net_cdf = create FileType.net_cdf file ""

-- The members of a `FimexSource`; `valid_times` is `none` as long as it is a null pointer.
pub record FimexSource (Time Float Double Attribute : Type 0) : Type 0 where
  pub reader : CdmReader Float Double Attribute
  pub valid_times : Option (List Time)
  pub translator : ParameterTranslation Float Attribute

-- The loop of `getRawData_` from an index on, which reads the times with `at`.
unfoldable pub time_index :
    {Time : Type 0} → (Time → Time → Bool) → (wanted : Time) → List Time → ℕ → Result ℕ
time_index same_time wanted [] index = err Error.out_of_range
time_index same_time wanted (t ∷ times) index =
    let later = time_index same_time wanted times (suc index) in
    if same_time t wanted then ok index else later

-- The list that a call fills; one that throws leaves it empty.
abbrev pub filled : {Time : Type 0} → Result (List Time) → List Time
filled (ok times) = times
filled (err e) = []

-- `shape[2]` has to be one of two names.
unfoldable pub check_ensemble : String → Result (Unit {0})
check_ensemble name =
    if name == "ensemble_member"
    then ok tt
    else if name == "realization"
    then ok tt
    else err Error.runtime_error

module _ ⦃m : Machine⦄ {Time Attribute : Type 0} (lib : TimeLibrary Time m.Double) where
  -- The constructor; `load` makes the translation of a file.
  unfoldable pub fimex_source :
      (String → Result (ParameterTranslation m.Float Attribute))
      → (FileType → String → String → Result (CdmReader m.Float m.Double Attribute))
      → SourceOptions
      → Result (FimexSource Time m.Float m.Double Attribute)
  unfolding init
  fimex_source load create options = do
    translator ← load options.parameter_specification_file
    reader ← init create options.file_name options.config_file_name options.file_type
    ok (record { reader = reader; valid_times = none; translator = translator })

  -- `getTimeDimension_`.
  unfoldable pub get_time_dimension : FimexSource Time m.Float m.Double Attribute → Result String
  unfolding get_specification
  get_time_dimension s = do
    spec ← get_specification s.translator WeatherData.cloud_cover
    let ret = s.reader.get_time_axis spec.cf_name
    if ret == "" then err Error.runtime_error else ok ret

  -- What `getValidTimes` does after it has made an empty list.
  unfoldable pub read_times : FimexSource Time m.Float m.Double Attribute → Result (List Time)
  unfolding get_time_dimension get_time
  read_times s = do
    name ← get_time_dimension s
    _ ← s.reader.get_shape name
    times ← s.reader.get_data name
    ok (map (λ t. get_time lib.clock (lib.to_seconds t)) times)

  -- `getValidTimes`.
  unfoldable pub get_valid_times : Step (FimexSource Time m.Float m.Double Attribute) (List Time)
  unfolding read_times
  get_valid_times s = elim s.valid_times [
    | some times ↦ (ok times, s)
    | none ↦ (read_times s, record s { valid_times = some (filled (read_times s)) })
  ]

  -- The checks of `getData`: the size of the grid, the number of members and the specification.
  unfoldable pub get_layout :
      FimexSource Time m.Float m.Double Attribute
      → WeatherData
      → Result (ℕ × ℕ × FimexDataSpecification m.Float Attribute)
  unfolding get_specification check_ensemble
  get_layout s d = do
    spec ← get_specification s.translator d
    shape ←
        if s.reader.has_variable spec.cf_name
        then s.reader.get_shape spec.cf_name
        else err Error.data_not_available
    layout shape spec
    where
      layout :
          List String
          → FimexDataSpecification m.Float Attribute
          → Result (ℕ × ℕ × FimexDataSpecification m.Float Attribute)
      layout (x ∷ y ∷ ensemble ∷ shape) spec = do
        _ ← check_ensemble ensemble
        x_dimension ← s.reader.get_dimension x
        y_dimension ← s.reader.get_dimension y
        members ← s.reader.get_dimension ensemble
        ok (x_dimension.length * y_dimension.length % 2 ^ 64, members.length, spec)
      layout shape spec = err Error.runtime_error

  -- `getRawData_`, for the times of the file.
  unfoldable pub get_raw_data :
      FimexSource Time m.Float m.Double Attribute
      → FimexDataSpecification m.Float Attribute
      → Time
      → List Time
      → Result (List m.Float)
  unfolding time_index get_parameters_valid_time
  get_raw_data s spec working_time times = do
    index ←
        time_index lib.same_time (get_parameters_valid_time lib.add_hours spec working_time) times 0
    s.reader.get_data_slice spec.cf_name index

  -- `getData` from the raw data on.
  unfoldable pub make_data :
      FimexSource Time m.Float m.Double Attribute
      → ℕ × ℕ × FimexDataSpecification m.Float Attribute
      → Time
      → List Time
      → Result BlobCollection
  unfolding get_raw_data extract_data scale_data int_of_size
  make_data s found t times = do
    raw ← get_raw_data s found.2 t times
    rows ← extract_data raw (int_of_size found.0) (int_of_size found.1)
    ok (
        scale_data (s.reader.double_attribute found.2.cf_name "add_offset")
          (s.reader.double_attribute found.2.cf_name "scale_factor") rows)

  -- `getData` after its checks.
  unfoldable pub get_found :
      Result (ℕ × ℕ × FimexDataSpecification m.Float Attribute)
      → Time
      → Step (FimexSource Time m.Float m.Double Attribute) BlobCollection
  unfolding get_valid_times make_data
  get_found (err e) t s = (err e, s)
  get_found (ok found) t s =
      after (get_valid_times s) (λ times s'. (make_data s' found t times, s'))

  -- `getData`.
  unfoldable pub get_data :
      WeatherData → Time → Step (FimexSource Time m.Float m.Double Attribute) BlobCollection
  unfolding get_layout get_found
  get_data d t s = get_found (get_layout s d) t s
