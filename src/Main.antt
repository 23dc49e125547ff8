-- ===== src/Main.antt =====
-- main.cpp and data_access/fimex/FimexSink.h and .cpp: the program from its options to the output file.
pub mod Failures
use Prim.Native.String.{String}
use eps2probandltf.Common.{ℕ, Bool, Option, none, some, Result, Error, ok, err, ◌>>=◌}
use eps2probandltf.Common.Int.{ℤ}
use eps2probandltf.Machine.{Machine}
use eps2probandltf.DataTypes.{BlobValue}
use eps2probandltf.DataAccess.{Sink, FileType}
use eps2probandltf.Configuration.Options.{ProgramOptions}
use eps2probandltf.Generator.Symbol.{SymbolLibrary}
use eps2probandltf.Forecast.Work.{control_work}
use eps2probandltf.Fimex.Translation.{ParameterTranslation}
use eps2probandltf.Fimex.Cdm.{CdmReader, CdmLibrary}
use eps2probandltf.Fimex.Source.{TimeLibrary, FimexSource, fimex_source}
use eps2probandltf.Fimex.Cached.{as_source}
use eps2probandltf.Fimex.Generated.{GeneratedDataReader, add}
use eps2probandltf.Fimex.Setup.{generated_data_reader}

-- `FimexSink`: the name of its file and the fields that it has been given.
pub record FimexSink (Cdm Float Double Attribute : Type 0) : Type 0 where
  pub output_file : String
  pub reader : GeneratedDataReader Cdm Float Double Attribute

-- What is outside of the program: the parameter file, the readers and the writer of Fimex, the comparison
-- of local times.
pub record ProgramLibrary (Time Cdm Float Double Attribute Output : Type 0) : Type 0 where
  pub times : TimeLibrary Time Double
  pub cdm : CdmLibrary Cdm Float Attribute
  pub load : String → Result (ParameterTranslation Float Attribute)
  pub create : FileType → String → String → Result (CdmReader Float Double Attribute)
  pub write_file : GeneratedDataReader Cdm Float Double Attribute → String → Result Output
  pub earlier : Time → Time → Bool

-- The two ends of `main`. Every exception of the code is a `std::exception`.
abbrev pub exit_status : {Output : Type 0} → Result Output → Result (ℕ × Option Output)
exit_status (ok file) = ok (0, some file)
exit_status (err Error.undefined) = err Error.undefined
exit_status (err Error.out_of_range) = ok (1, none)
exit_status (err Error.logic_error) = ok (1, none)
exit_status (err Error.runtime_error) = ok (1, none)
exit_status (err Error.data_not_available) = ok (1, none)

module _ ⦃m : Machine⦄ {Time Cdm Attribute Output : Type 0}
    (lib : ProgramLibrary Time Cdm m.Float m.Double Attribute Output) where
  -- The constructor of `FimexSink`.
  unfoldable pub fimex_sink :
      (file_name parameter_specification_file : String)
      → (number_of_hours : ℤ) → FimexSource Time m.Float m.Double Attribute
      → Result (FimexSink Cdm m.Float m.Double Attribute)
  unfolding generated_data_reader
  fimex_sink file_name parameter_specification_file number_of_hours source = do
    translation ← lib.load parameter_specification_file
    reader ← generated_data_reader lib.cdm number_of_hours source.reader translation
    ok (record { output_file = file_name; reader = reader })

  -- `write`.
  unfoldable pub sink_of : Sink Time (GeneratedDataReader Cdm m.Float m.Double Attribute)
  unfolding add
  sink_of = record { write = λ d t values s. add lib.times lib.cdm d t values s }

  -- `flush`.
  unfoldable pub flush : FimexSink Cdm m.Float m.Double Attribute → Result Output
  flush sink = lib.write_file sink.reader sink.output_file

  -- `main` inside its `try`.
  unfoldable pub run_program :
      ⦃symbols : SymbolLibrary BlobValue⦄ → ProgramOptions m.Float → Result Output
  unfolding fimex_source as_source fimex_sink sink_of control_work flush
  run_program options = do
    source ← fimex_source lib.times lib.load lib.create options.source
    sink ←
        fimex_sink options.sink_file_name options.source.parameter_specification_file
          options.control.number_of_hours_to_generate source
    let (worked, reader) =
        control_work lib.earlier lib.times.add_hours (as_source lib.times source) sink_of
          options.control sink.reader
    _ ← worked
    flush (record sink { reader = reader })

  -- `main`, from the configuration on: the exit status, and the file if it is written.
  unfoldable pub main :
      ⦃symbols : SymbolLibrary BlobValue⦄ → ProgramOptions m.Float → Result (ℕ × Option Output)
  unfolding run_program
  main options = exit_status (run_program options)
