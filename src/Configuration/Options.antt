-- ===== src/Configuration/Options.antt =====
-- configuration/ProbabilityGenerationConfiguration.h and .cpp: the options, from the values that
-- boost::program_options gives to what the program is started with.
use Prim.Native.String.{String, ◌++◌}
use text.Mathlib.Text.{◌==◌}
use eps2probandltf.Common.{
  ℕ, ◌-◌, ◌^◌, Bool, true, false, not, List, [], ◌∷◌, Option, Result, Error, ok, err, ◌>>=◌,
  if◌then◌else◌,
}
use eps2probandltf.Common.Int.{ℤ, pos}
use eps2probandltf.Common.Outcomes.{or_else}
use eps2probandltf.Common.OrderedMap.{or_default}
use eps2probandltf.Common.TextMap.{has_text}
use eps2probandltf.DataAccess.{FileType}
use eps2probandltf.Configuration.{Parameters, GeneratorControl, configure}

-- `DataAccessOptions`, as the source has it.
pub record SourceOptions : Type 0 where
  pub file_name : String
  pub config_file_name : String
  pub parameter_specification_file : String
  pub file_type : FileType

-- `ProbabilityGenerationConfiguration`, as far as `main` passes it on to the generation. The sink's file
-- of parameters is the source's.
pub record ProgramOptions (F : Type 0) : Type 0 where
  pub source : SourceOptions
  pub sink_file_name : String
  pub control : GeneratorControl F

-- What the command line and the file set. `source_type` is `none` if neither does, and nothing else
-- writes to that member.
pub record ParsedOptions (F : Type 0) : Type 0 where
  pub help : Bool
  pub version : Bool
  pub source_file : String
  pub source_type : Option FileType
  pub source_config : String
  pub sink_file : String
  pub timesteps : Option ℤ
  pub exclude_percentiles : Bool
  pub exclude_simplified_probabilities : Bool
  pub parameters_definitions : Option String
  pub exclude : List String
  pub include : List String
  pub precip_fraction : F
  pub log_level : String

-- What the constructor ends with: `exit` with a status, or the configuration.
pub data Start (F : Type 0) : Type 0 where
  exits : ℕ → Start F
  starts : ProgramOptions F → Start F

-- Whether the configuration file is read, for its name, the default name, whether it exists and whether
-- it is a directory.
unfoldable pub reads_config_file :
    (configuration_file default_file : String) → (exists is_directory : Bool) → Result Bool
reads_config_file configuration_file default_file exists is_directory =
    if configuration_file == ""
    then ok false
    else if not exists
    then if configuration_file == default_file then ok false else err Error.runtime_error
    else if is_directory
    then err Error.runtime_error
    else ok true

-- `logLevels`.
abbrev log_levels : List String
log_levels = "debug" ∷ "error" ∷ "fatal" ∷ "info" ∷ "off" ∷ "warn" ∷ []

module _ {F : Type 0} (sysconfdir : String) (parsed : ParsedOptions F) where
  -- The file of parameters.
  unfoldable pub parameter_file : String
  parameter_file =
      or_default (sysconfdir ++ "/eps2probandltf.parameters.xml") parsed.parameters_definitions

  -- The default configuration of the source, for a felt file.
  unfoldable pub source_config_file : FileType → String
  source_config_file FileType.felt =
      if parsed.source_config == ""
      then sysconfdir ++ "/felt2nc_eps_yr.xml"
      else parsed.source_config
  source_config_file FileType.wdb = parsed.source_config
  source_config_file FileType.net_cdf = parsed.source_config

  -- The members, for the products that are excluded.
  unfoldable pub with_parameters : FileType → Parameters → ProgramOptions F
  unfolding parameter_file source_config_file
  with_parameters file_type excluded = record {
    source = record {
      file_name = parsed.source_file;
      config_file_name = source_config_file file_type;
      parameter_specification_file = parameter_file;
      file_type = file_type;
    };
    sink_file_name = parsed.sink_file;
    control = record {
      number_of_hours_to_generate = or_default (pos (2 ^ 31 - 1)) parsed.timesteps;
      exclude_percentiles = parsed.exclude_percentiles;
      exclude_simplified_probabilities = parsed.exclude_simplified_probabilities;
      excluded_parameters = excluded;
      precip_fraction = parsed.precip_fraction;
    };
  }

  -- The constructor, from the parsed values on.
  unfoldable pub finish_options : Result (Start F)
  unfolding configure with_parameters has_text
  finish_options =
      let configured = (do
        file_type ← or_else Error.undefined parsed.source_type
        excluded ← configure parsed.exclude parsed.include
        ok (Start.starts (with_parameters file_type excluded))) in
      let unset_type = or_else Error.undefined parsed.source_type >>= λ t. ok (Start.exits 1) in
      if parsed.help
      then ok (Start.exits 0)
      else if parsed.version
      then ok (Start.exits 0)
      else if not (has_text parsed.log_level log_levels)
      then unset_type
      else configured
