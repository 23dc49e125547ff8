-- ===== src/DataAccess.antt =====
-- data_access/Source.h and data_access/Sink.h, the interfaces to the input and the output, and
-- data_access/fimex/FileType.h.
use Prim.Native.String.{String}
use text.Mathlib.Text.{◌==◌}
use eps2probandltf.Common.{List, Result, Error, ok, err, if◌then◌else◌}
use eps2probandltf.Machine.{Machine}
use eps2probandltf.DataTypes.{BlobContainer, BlobCollection}
use eps2probandltf.WeatherData.{WeatherData}

module _ ⦃m : Machine⦄ where
  -- `Source`. Each call of `getData` makes a collection of its own, which the caller may change.
  pub record Source (Time : Type 0) : Type 0 where
    pub get_valid_times : Result (List Time)
    pub get_data : WeatherData → Time → Result BlobCollection

  -- `Sink`, with what has been written as its state.
  pub record Sink (Time Written : Type 0) : Type 0 where
    pub write : WeatherData → Time → BlobContainer → Written → Result (Unit {0}) × Written

-- `FileType`.
pub data FileType : Type 0 where
  wdb felt net_cdf : FileType

-- `operator >>`, for the word that it reads.
unfoldable pub read_file_type : String → Result FileType
read_file_type word =
    if word == "wdb"
    then ok FileType.wdb
    else if word == "felt"
    then ok FileType.felt
    else if word == "netcdf"
    then ok FileType.net_cdf
    else err Error.runtime_error
