-- ===== src/Forecast/Work.antt =====
-- `ProbabilityGenerator::work` and `saveAll_`, and generator/ProbabilityGeneratorControl.cpp.
use Prim.Native.String.{String}
use eps2probandltf.Common.{
  List, [], ◌∷◌, Option, none, some, Result, Error, ok, err, Bool, true, false, if◌then◌else◌,
}
use eps2probandltf.Common.Int.{ℤ, pos}
use eps2probandltf.Common.Steps.{Step, ◌>>=◌, return, lift}
use eps2probandltf.Machine.{Machine}
use eps2probandltf.DataTypes.{BlobContainer, BlobCollection, BlobValue}
use eps2probandltf.DataAccess.{Source, Sink}
use eps2probandltf.WeatherData.{WeatherData}
use eps2probandltf.Configuration.{GeneratorControl, should_generate}
use eps2probandltf.Generator.Symbol.{SymbolLibrary}
use eps2probandltf.Forecast.Handlers.{Products, Handler, new_generator, generate_symbols}
use eps2probandltf.Forecast.Groups.{
  generate_clouds, generate_temperature, generate_temperature_min, generate_temperature_max,
  generate_wind, generate_precipitation, generate_air_pressure, generate_humidity, generate_waves,
}

module _ ⦃m : Machine⦄ where
  -- `HANDLE_EXCEPTIONS`: missing data is logged, and every other exception passes.
  abbrev pub caught : Result (Unit {0}) × Products → Result (Unit {0}) × Products
  caught (ok u, s) = (ok u, s)
  caught (err Error.data_not_available, s) = (ok tt, s)
  caught (err Error.out_of_range, s) = (err Error.out_of_range, s)
  caught (err Error.logic_error, s) = (err Error.logic_error, s)
  caught (err Error.runtime_error, s) = (err Error.runtime_error, s)
  caught (err Error.undefined, s) = (err Error.undefined, s)

  unfoldable pub handle_exceptions : Handler → Handler
  handle_exceptions f s = caught (f s)

  -- The `try` around `generateSymbols_`: `none` if it threw, and what is undefined stays so.
  abbrev pub tried :
      Result BlobCollection × Products → Result (Option (Option BlobCollection)) × Products
  tried (ok symbols, s) = (ok (some (some symbols)), s)
  tried (err Error.undefined, s) = (err Error.undefined, s)
  tried (err Error.data_not_available, s) = (ok (some none), s)
  tried (err Error.out_of_range, s) = (ok (some none), s)
  tried (err Error.logic_error, s) = (ok (some none), s)
  tried (err Error.runtime_error, s) = (ok (some none), s)

  -- An exception is logged, and the loop goes on, unless the outcome is undefined.
  abbrev pub carry_on :
      {Written : Type 0}
      → Result (Unit {0}) × Written
      → (Written → Result (Unit {0}) × Written)
      → Result (Unit {0}) × Written
  carry_on (ok u, w) next = next w
  carry_on (err Error.undefined, w) next = (err Error.undefined, w)
  carry_on (err Error.out_of_range, w) next = next w
  carry_on (err Error.logic_error, w) next = next w
  carry_on (err Error.runtime_error, w) next = next w
  carry_on (err Error.data_not_available, w) next = next w

  module _ ⦃lib : SymbolLibrary BlobValue⦄ {Time : Type 0} (source : Source Time)
      (conf : GeneratorControl BlobValue) (valid_time next_valid_time : Time) where
    -- `if ( conf_.shouldGenerate(what) )`.
    unfoldable pub when_generated : String → Handler → Handler
    unfolding should_generate
    when_generated what h = do
      wanted ← lift (should_generate conf what)
      if wanted then h else return tt

    -- What `work` does with the symbols.
    unfoldable pub generate_with : BlobCollection → Handler
    unfolding when_generated handle_exceptions generate_clouds generate_temperature
        generate_temperature_min generate_temperature_max generate_wind generate_precipitation
        generate_air_pressure generate_humidity
    generate_with symbols = do
      _ ←
          when_generated "clouds"
            (handle_exceptions (generate_clouds source conf valid_time next_valid_time symbols))
      _ ← when_generated "temperature" (do
        _ ← handle_exceptions (generate_temperature source conf valid_time next_valid_time symbols)
        _ ←
            handle_exceptions
              (generate_temperature_min source conf valid_time next_valid_time symbols)
        handle_exceptions (generate_temperature_max source conf valid_time next_valid_time symbols))
      _ ←
          when_generated "wind"
            (handle_exceptions (generate_wind source conf valid_time next_valid_time symbols))
      _ ← when_generated "precipitation" (
          handle_exceptions (generate_precipitation source conf valid_time next_valid_time symbols))
      _ ←
          when_generated "pressure" (
            handle_exceptions
              (generate_air_pressure source conf valid_time next_valid_time symbols))
      when_generated "humidity"
          (handle_exceptions (generate_humidity source conf valid_time next_valid_time symbols))

    -- The symbols, if they are wanted; `none` inside means that they could not be made.
    unfoldable pub make_symbols : Bool → Step Products (Option (Option BlobCollection))
    unfolding generate_symbols
    make_symbols true s = tried (generate_symbols source conf valid_time next_valid_time s)
    make_symbols false s = (ok none, s)

    -- The rest of `work` up to `saveAll_`; the result tells whether it is reached.
    unfoldable pub generate_rest : Option (Option BlobCollection) → Step Products Bool
    unfolding generate_with when_generated handle_exceptions generate_waves
    generate_rest (some none) = return false
    generate_rest (some (some symbols)) = do
      _ ← generate_with symbols
      _ ←
          when_generated "waves"
            (handle_exceptions (generate_waves source conf valid_time next_valid_time))
      return true
    generate_rest none = do
      _ ←
          when_generated "waves"
            (handle_exceptions (generate_waves source conf valid_time next_valid_time))
      return true

    -- `work` up to `saveAll_`.
    unfoldable pub generate : Step Products Bool
    unfolding should_generate make_symbols generate_rest
    generate = do
      wanted ← lift (should_generate conf "symbols")
      symbols ← make_symbols wanted
      generate_rest symbols

    module _ {Written : Type 0} (sink : Sink Time Written) where
      -- `saveAll_`: an exception of the sink is logged, and the next field is written.
      unfoldable pub save_all :
          List (WeatherData × BlobContainer) → Written → Result (Unit {0}) × Written
      save_all [] w = (ok tt, w)
      save_all ((d, values) ∷ rest) w = carry_on (sink.write d valid_time values w) (save_all rest)

      -- What `work` does after the handlers.
      abbrev pub finish : Result Bool × Products → Written → Result (Unit {0}) × Written
      finish (ok true, s) w = save_all s.to_save w
      finish (ok false, s) w = (ok tt, w)
      finish (err e, s) w = (err e, w)

      -- `work`, for a `ProbabilityGenerator` that has just been made.
      unfoldable pub work : Written → Result (Unit {0}) × Written
      unfolding generate save_all
      work w = finish (generate new_generator) w

  -- `earlier` and `add_hours` are `<` and `+` of local times.
  module _ ⦃lib : SymbolLibrary BlobValue⦄ {Time Written : Type 0} (earlier : Time → Time → Bool)
      (add_hours : Time → ℤ → Time) (source : Source Time) (sink : Sink Time Written)
      (conf : GeneratorControl BlobValue) where
    -- The loop of `ProbabilityGeneratorControl::work`: only what is undefined stops it.
    unfoldable pub work_times : List Time → (last : Time) → Written → Result (Unit {0}) × Written
    unfolding work
    work_times [] last w = (ok tt, w)
    work_times (time ∷ times) last w =
        if earlier time last
        then carry_on (work source conf time (add_hours time (pos 6)) sink w)
            (work_times times last)
        else (ok tt, w)

    -- `ProbabilityGeneratorControl::work`.
    abbrev pub work_from : Result (List Time) → Written → Result (Unit {0}) × Written
    work_from (err e) w = (err e, w)
    work_from (ok []) w = (err Error.runtime_error, w)
    work_from (ok (time ∷ times)) w =
        work_times (time ∷ times) (add_hours time conf.number_of_hours_to_generate) w

    unfoldable pub control_work : Written → Result (Unit {0}) × Written
    unfolding work_times
    control_work w = work_from source.get_valid_times w
