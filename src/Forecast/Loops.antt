-- ===== src/Forecast/Loops.antt =====
-- The two loops that go on after an exception: over the times, and over the fields of a time.
use eps2probandltf.Common.{
  List, [], ◌∷◌, Result, Error, ok, err, Bool, if◌then◌else◌, ◌≡◌, ◌≢◌, refl, ◌∙◌, Bool-cases, inl,
  inr,
}
use eps2probandltf.Common.Int.{ℤ, pos}
use eps2probandltf.Machine.{Machine}
use eps2probandltf.DataTypes.{BlobContainer, BlobValue}
use eps2probandltf.DataAccess.{Source, Sink}
use eps2probandltf.WeatherData.{WeatherData}
use eps2probandltf.Configuration.{GeneratorControl}
use eps2probandltf.Generator.Symbol.{SymbolLibrary}
use eps2probandltf.Forecast.Work.{carry_on, save_all, work, work_times}

-- The times up to the first that is not earlier than the last.
abbrev pub times_before : {Time : Type 0} → (Time → Time → Bool) → Time → List Time → List Time
times_before earlier last [] = []
times_before earlier last (t ∷ times) =
    let rest = times_before earlier last times in if earlier t last then t ∷ rest else []

-- What a sequence of steps leaves, one after the other.
abbrev pub all_steps : {A W : Type 0} → (A → W → Result (Unit {0}) × W) → List A → W → W
all_steps step [] w = w
all_steps step (a ∷ rest) w = all_steps step rest (step a w).1

module _ ⦃m : Machine⦄ {W : Type 0} where
  -- An exception that is defined does not stop a loop.
  carry_on_lem :
      (r : Result (Unit {0}) × W) (next : W → Result (Unit {0}) × W)
      → r.0 ≢ err Error.undefined
      → carry_on r next ≡ next r.1
  carry_on_lem (ok u, w) next h = refl
  carry_on_lem (err Error.undefined, w) next h = absurd (h refl)
  carry_on_lem (err Error.out_of_range, w) next h = refl
  carry_on_lem (err Error.logic_error, w) next h = refl
  carry_on_lem (err Error.runtime_error, w) next h = refl
  carry_on_lem (err Error.data_not_available, w) next h = refl

module _ ⦃m : Machine⦄ ⦃lib : SymbolLibrary BlobValue⦄ {Time Written : Type 0}
    (sink : Sink Time Written) where
  -- If no call of the sink is undefined, then `saveAll_` returns, and each field has been given to the
  -- sink in turn, whichever of the calls threw.
  pub save_all_lem :
      (source : Source Time) (conf : GeneratorControl BlobValue) (t next : Time)
      → ((d : WeatherData) (values : BlobContainer) (w : Written)
          → (sink.write d t values w).0 ≢ err Error.undefined)
      → (fields : List (WeatherData × BlobContainer)) (w : Written)
      → save_all source conf t next sink fields w
        ≡ (ok tt, all_steps (λ f. sink.write f.0 t f.1) fields w)
  unfolding save_all
  save_all_lem source conf t next h [] w = refl
  save_all_lem source conf t next h ((d, values) ∷ rest) w =
      carry_on_lem (sink.write d t values w) _ (h d values w)
      ∙ save_all_lem source conf t next h rest (sink.write d t values w).1

  module _ (earlier : Time → Time → Bool) (add_hours : Time → ℤ → Time) (source : Source Time)
      (conf : GeneratorControl BlobValue) where
    -- If the work of no time is undefined, then the loop over the times returns, and every time before the
    -- first that is not earlier than the last one has been worked on in turn, whichever of them threw.
    pub work_times_lem :
        (last : Time)
        → ((t : Time) (w : Written)
            → (work source conf t (add_hours t (pos 6)) sink w).0 ≢ err Error.undefined)
        → (times : List Time) (w : Written)
        → work_times earlier add_hours source sink conf times last w ≡ (
          ok tt,
          all_steps
              (λ t. work source conf t (add_hours t (pos 6)) sink)
              (times_before earlier last times)
              w,
        )
    unfolding work_times
    work_times_lem last h [] w = refl
    work_times_lem last h (t ∷ times) w = elim (Bool-cases (earlier t last)) [
      | inl f ↦ rw f (
          carry_on_lem (work source conf t (add_hours t (pos 6)) sink w) _ (h t w)
          ∙ work_times_lem last h times (work source conf t (add_hours t (pos 6)) sink w).1)
      | inr f ↦ rw f refl
    ]
