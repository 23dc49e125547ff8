-- ===== src/Main/Failures.antt =====
-- How the program ends when the source has no times.
use eps2probandltf.Common.{◌≡◌, ◌≢◌, ◌⊎◌, inl, inr, refl, [], none, Error, ok, err}
use eps2probandltf.Machine.{Machine}
use eps2probandltf.DataTypes.{BlobValue}
use eps2probandltf.Configuration.Options.{ProgramOptions}
use eps2probandltf.Generator.Symbol.{SymbolLibrary}
use eps2probandltf.Forecast.Work.{control_work}
use eps2probandltf.Fimex.Source.{FimexSource, fimex_source, read_times}
use eps2probandltf.Fimex.Cached.{as_source}
use eps2probandltf.Fimex.Generated.{GeneratedDataReader}
use eps2probandltf.Main.{
  ProgramLibrary, FimexSink, fimex_sink, sink_of, exit_status, run_program, main,
}

exit_lem :
    {Output : Type 0} (u : Error)
    → u ≢ Error.undefined
    → exit_status {Output = Output} (err u) ≡ ok (1, none)
exit_lem Error.undefined n = absurd (n refl)
exit_lem Error.out_of_range n = refl
exit_lem Error.logic_error n = refl
exit_lem Error.runtime_error n = refl
exit_lem Error.data_not_available n = refl

module _ ⦃m : Machine⦄ ⦃symbols : SymbolLibrary BlobValue⦄ {Time Cdm Attribute Output : Type 0}
    (lib : ProgramLibrary Time Cdm m.Float m.Double Attribute Output) where
  -- The work of the control on a source whose times are known.
  no_times :
      (options : ProgramOptions m.Float) (source : FimexSource Time m.Float m.Double Attribute)
      (reader : GeneratedDataReader Cdm m.Float m.Double Attribute)
      → ((e : Error)
          → read_times lib.times source ≡ err e
          → control_work lib.earlier lib.times.add_hours
              (as_source lib.times source)
              (sink_of lib)
              options.control
              reader
            ≡ (err e, reader))
        × (read_times lib.times source ≡ ok []
            → control_work lib.earlier lib.times.add_hours
                (as_source lib.times source)
                (sink_of lib)
                options.control
                reader
              ≡ (err Error.runtime_error, reader))
  unfolding control_work as_source
  no_times options source reader = (λ e f. rw f refl, λ f. rw f refl)

  -- If the source and the sink can be opened, but the times of the source cannot be read for an exception,
  -- or there are none, then the program ends with status 1 and writes no file.
  pub main_lem :
      (options : ProgramOptions m.Float) (source : FimexSource Time m.Float m.Double Attribute)
      (sink : FimexSink Cdm m.Float m.Double Attribute)
      → fimex_source lib.times lib.load lib.create options.source ≡ ok source
      → fimex_sink lib options.sink_file_name options.source.parameter_specification_file
          options.control.number_of_hours_to_generate source
        ≡ ok sink
      → ((e : Error) × (e ≢ Error.undefined) × (read_times lib.times source ≡ err e))
        ⊎ (read_times lib.times source ≡ ok [])
      → main lib options ≡ ok (1, none)
  unfolding main run_program
  main_lem options source sink e f (inl (u, n, g)) =
      rw (e, f, (no_times options source sink.reader).0 u g) (exit_lem u n)
  main_lem options source sink e f (inr g) =
      rw (e, f, (no_times options source sink.reader).1 g) refl
