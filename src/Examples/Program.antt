-- ===== src/Examples/Program.antt =====
-- The loops of the program that go on after an exception, its end without times, and a wind direction.
use Prim.Native.String.{String}
use eps2probandltf.Common.{
  ℕ, ◌≡◌, ◌≢◌, inl, List, [], ◌∷◌, none, some, Result, Error, ok, err, refl, arith, ltb, ap, true,
  false, ◌==◌, if◌then◌else◌,
}
use eps2probandltf.Common.Int.{ℤ, pos}
use eps2probandltf.Common.Steps.{◌>>=◌, lift, return}
use eps2probandltf.Machine.Milli.{fixed, milli-IsOrdered}
use eps2probandltf.WeatherData.{WeatherData, number}
use eps2probandltf.DataAccess.{Source, Sink, FileType}
use eps2probandltf.Configuration.{GeneratorControl}
use eps2probandltf.Configuration.Options.{ProgramOptions}
use eps2probandltf.Generator.Wind.{normalised}
use eps2probandltf.Generator.Wind.Direction.{
  KeepsTurns, IsBetween, normalised_lem, degrees, below_zero,
}
use eps2probandltf.Forecast.Work.{save_all, work, work_times}
use eps2probandltf.Forecast.Loops.{all_steps, times_before, save_all_lem, work_times_lem}
use eps2probandltf.Fimex.Source.{FimexSource, fimex_source, read_times}
use eps2probandltf.Main.{ProgramLibrary, FimexSink, fimex_sink, main}
use eps2probandltf.Main.Failures.{main_lem}
use eps2probandltf.Examples.Ensemble.{two_symbols}
use eps2probandltf.Examples.Files.{tables, reader, seconds}
use eps2probandltf.Examples.Writing.{names}

fixed-KeepsTurns : KeepsTurns
fixed-KeepsTurns = record {
  add_le = λ x y e. ground (arith, e);
  sub_le = λ x y e. ground (arith, e);
  add-540 = refl;
  add-180 = refl;
  sub540 = refl;
  sub180 = refl;
  apart = refl;
  wide = refl;
  signs = refl;
}

-- 400 degrees are 40.
normalised_lem_example :
    (y : ℤ) × (normalised (pos 400000) ≡ ok y) × IsBetween (below_zero 180) (degrees 180) y
normalised_lem_example = normalised_lem milli-IsOrdered fixed-KeepsTurns (pos 400000) (refl, refl)

-- A sink that refuses temperatures, and keeps the names of all that it is given.
abbrev refused : WeatherData → Result (Unit {0})
refused d = if number d == 3 then err Error.runtime_error else ok tt

abbrev refusing : Sink ℕ (List WeatherData)
refusing = record { write = λ d t values w. (refused d, d ∷ w) }

refused-ne : (d : WeatherData) → refused d ≢ err Error.undefined
refused-ne d e = ground (arith, e)

-- A source that fails, and waves as the only product.
abbrev failing : Source ℕ
failing = record {
  get_valid_times = ok (0 ∷ 21600 ∷ 43200 ∷ []);
  get_data = λ d t. err Error.runtime_error;
}

abbrev only_waves : GeneratorControl ℤ
only_waves = record {
  number_of_hours_to_generate = pos 12;
  exclude_percentiles = true;
  exclude_simplified_probabilities = false;
  excluded_parameters = ("symbols", true) ∷ ("waves", false) ∷ [];
  precip_fraction = pos 500;
}

abbrev fields : List (WeatherData × List ℤ)
fields = (WeatherData.temperature, pos 1 ∷ []) ∷ (WeatherData.air_pressure, pos 2 ∷ []) ∷ []

save_all_lem_example :
    save_all failing only_waves 0 21600 refusing fields []
    ≡ (ok tt, all_steps (λ f. refusing.write f.0 0 f.1) fields [])
save_all_lem_example =
    save_all_lem refusing failing only_waves 0 21600 (λ d values w. refused-ne d) fields []

-- Each time ends with the exception of its waves.
waves-fail :
    (t next : ℕ) (w : List WeatherData)
    → work failing only_waves t next refusing w ≡ (err Error.runtime_error, w)
unfolding work ◌>>=◌ lift return
waves-fail t next w = refl

work_times_lem_example :
    work_times ltb seconds.add_hours failing refusing only_waves (0 ∷ 21600 ∷ 43200 ∷ []) 43200 []
    ≡ (
      ok tt,
      all_steps
          (λ t. work failing only_waves t (seconds.add_hours t (pos 6)) refusing)
          (times_before ltb 43200 (0 ∷ 21600 ∷ 43200 ∷ []))
          [],
    )
work_times_lem_example =
    work_times_lem refusing ltb seconds.add_hours failing only_waves 43200
      (λ t w e. ground (arith, ap (λ p. p.0) (waves-fail t (seconds.add_hours t (pos 6)) w), e))
      (0 ∷ 21600 ∷ 43200 ∷ []) []

-- The program on the small file, without a time axis.
abbrev library : ProgramLibrary ℕ (List String) ℤ ℤ String String
library = record {
  times = seconds;
  cdm = names;
  load = λ file. ok tables;
  create = λ type file configuration. ok (record reader { get_time_axis = λ name. "" });
  write_file = λ written file. ok file;
  earlier = ltb;
}

abbrev options : ProgramOptions ℤ
options = record {
  source = record {
    file_name = "in.nc";
    config_file_name = "";
    parameter_specification_file = "parameters.xml";
    file_type = FileType.net_cdf;
  };
  sink_file_name = "out.nc";
  control = only_waves;
}

abbrev timeless : FimexSource ℕ ℤ ℤ String
timeless = record {
  reader = record reader { get_time_axis = λ name. "" };
  valid_times = none;
  translator = tables;
}

opened : fimex_source seconds library.load library.create options.source ≡ ok timeless
unfolding fimex_source
opened = refl

abbrev empty_sink : FimexSink (List String) ℤ ℤ String
empty_sink = record {
  output_file = "out.nc";
  reader = record {
    source_reader = timeless.reader;
    translation = tables;
    parameters = [];
    wanted_number_of_time_steps = some 3;
    projection_variable = "projection_1";
    x_dimension = "x";
    y_dimension = "y";
    fields = [];
    cdm = "limit" ∷ "limit" ∷ "time" ∷ "time" ∷ "projection_1" ∷ [];
  };
}

made : fimex_sink library "out.nc" "parameters.xml" (pos 12) timeless ≡ ok empty_sink
unfolding fimex_sink
made = refl

no_axis : read_times seconds timeless ≡ err Error.runtime_error
unfolding read_times number
no_axis = refl

main_lem_example : main library options ≡ ok (1, none)
main_lem_example =
    main_lem library options timeless empty_sink opened made
      (inl (Error.runtime_error, (λ e. ground (arith, e)), no_axis))
