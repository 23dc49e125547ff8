-- ===== src/Forecast/Saved.antt =====
-- What `work` writes.
use Prim.Native.String.{String}
use eps2probandltf.Common.{
  arith, Bool, true, false, ◌≡◌, ◌≢◌, ◌⊎◌, inl, inr, refl, ◌∙◌, ap, ok, err, Error, All, Result,
  Option, some, none,
}
use eps2probandltf.Common.OrderedMap.{
  assign, lookup, IsRising, assign-IsRising, assign-All, lookup-All,
}
use eps2probandltf.Common.Outcomes.{Result-ok-inj}
use eps2probandltf.Common.Steps.{Ends, >>=-inv, lift-inv, return-inv}
use eps2probandltf.Machine.{Machine}
use eps2probandltf.DataTypes.{BlobContainer, BlobCollection, BlobValue}
use eps2probandltf.DataAccess.{Source, Sink}
use eps2probandltf.WeatherData.{WeatherData, weather_key}
use eps2probandltf.Configuration.{GeneratorControl, should_generate}
use eps2probandltf.Generator.Symbol.{SymbolLibrary}
use eps2probandltf.Forecast.Handlers.{Products, Handler, new_generator, generate_symbols}
use eps2probandltf.Forecast.Work.{
  when_generated, generate_with, make_symbols, generate_rest, generate, handle_exceptions, save_all,
  work, finish, tried,
}
use eps2probandltf.Forecast.Swallowed.{generate-Avoids}
use eps2probandltf.Forecast.Keeps.{
  Saved, Keeps, Admits, then-Keeps, return-Keeps, lift-Keeps, if-Keeps, handle_exceptions-Keeps,
  tried-kept,
}
use eps2probandltf.Forecast.Groups.{generate_waves}
use eps2probandltf.Forecast.Fields.{
  allowed, steady, generate_symbols-Keeps, generate_clouds-Keeps, generate_temperature-Keeps,
  generate_temperature_min-Keeps, generate_temperature_max-Keeps, generate_wind-Keeps,
  generate_precipitation-Keeps, generate_air_pressure-Keeps, generate_humidity-Keeps,
  generate_waves-Keeps,
}

module _ ⦃m : Machine⦄ ⦃lib : SymbolLibrary BlobValue⦄ {Time : Type 0} (source : Source Time)
    (conf : GeneratorControl BlobValue) (valid_time next_valid_time : Time) where
  pub when_generated-Keeps :
      (I : Saved → Type 0) (what : String) {h : Handler}
      → Keeps I h
      → Keeps I (when_generated source conf valid_time next_valid_time what h)
  unfolding when_generated
  when_generated-Keeps I what k =
      then-Keeps I (lift-Keeps I _) λ wanted. if-Keeps I (λ e. k) λ e. return-Keeps I tt

  -- The fields are in the order of the enumeration, once each, and none is excluded.
  pub record IsTidy (saved : Saved) : Type 0 where
    pub rising : IsRising saved
    pub admitted : All (λ e. allowed conf e.0 ≡ true) saved

  IsTidy-field : (d : WeatherData) → allowed conf d ≡ true → Admits IsTidy d
  IsTidy-field d a values saved t = record {
    rising = assign-IsRising d values saved t.rising;
    admitted = assign-All (λ k. allowed conf k ≡ true) d values saved a t.admitted;
  }

  IsTidy-again :
      (d : WeatherData) (v values : BlobContainer) (saved : Saved)
      → IsTidy saved
      → lookup d saved ≡ some v
      → IsTidy (assign d values saved)
  IsTidy-again d v values saved t e =
      IsTidy-field d (lookup-All (λ k. allowed conf k ≡ true) d v saved t.admitted e) values saved t

  generate_with-IsTidy :
      (symbols : BlobCollection)
      → Keeps IsTidy (generate_with source conf valid_time next_valid_time symbols)
  unfolding generate_with
  generate_with-IsTidy symbols =
      let I : Saved → Type 0 = IsTidy in
      let own =
        λ (d : WeatherData) (a : allowed conf d ≡ true) (s : steady d ≡ true). IsTidy-field d a in
      then-Keeps I
        (when_generated-Keeps I "clouds" (
          handle_exceptions-Keeps I
            (generate_clouds-Keeps I source conf valid_time next_valid_time own symbols)))
        λ _.
          then-Keeps I
            (when_generated-Keeps I "temperature" (
              then-Keeps I
                (handle_exceptions-Keeps I (
                  generate_temperature-Keeps I source conf valid_time next_valid_time
                    (λ d a s. IsTidy-field d a) symbols))
                λ _.
                  then-Keeps I
                    (handle_exceptions-Keeps I (
                      generate_temperature_min-Keeps I source conf valid_time next_valid_time
                        (λ e. IsTidy-field _ (ground (arith, e))) (IsTidy-again _) symbols))
                    λ _. handle_exceptions-Keeps I (
                      generate_temperature_max-Keeps I source conf valid_time next_valid_time
                        (λ e. IsTidy-field _ (ground (arith, e))) (IsTidy-again _) symbols)))
            λ _.
              then-Keeps I
                (when_generated-Keeps I "wind" (
                  handle_exceptions-Keeps I
                    (generate_wind-Keeps I source conf valid_time next_valid_time own symbols)))
                λ _.
                  then-Keeps I
                    (when_generated-Keeps I "precipitation" (
                      handle_exceptions-Keeps I (
                        generate_precipitation-Keeps I source conf valid_time next_valid_time own
                          symbols)))
                    λ _.
                      then-Keeps I
                        (when_generated-Keeps I "pressure" (
                          handle_exceptions-Keeps I (
                            generate_air_pressure-Keeps I source conf valid_time next_valid_time own
                              symbols)))
                        λ _. when_generated-Keeps I "humidity" (
                          handle_exceptions-Keeps I (
                            generate_humidity-Keeps I source conf valid_time next_valid_time own
                              symbols))

  pub make_symbols-Keeps :
      (I : Saved → Type 0) (wanted : Bool)
      → Keeps I (generate_symbols source conf valid_time next_valid_time)
      → Keeps I (make_symbols source conf valid_time next_valid_time wanted)
  unfolding make_symbols
  make_symbols-Keeps I true k = record { kept = λ s t. tried-kept I _ (k.kept s t) }
  make_symbols-Keeps I false k = record { kept = λ s t. t }

  waves : Keeps IsTidy (
      when_generated source conf valid_time next_valid_time "waves"
        (handle_exceptions (generate_waves source conf valid_time next_valid_time)))
  waves = when_generated-Keeps IsTidy "waves" (
      handle_exceptions-Keeps IsTidy (
        generate_waves-Keeps IsTidy source conf valid_time next_valid_time
          λ d a s. IsTidy-field d a))

  generate_rest-IsTidy :
      (made : Option (Option BlobCollection))
      → Keeps IsTidy (generate_rest source conf valid_time next_valid_time made)
  unfolding generate_rest
  generate_rest-IsTidy (some none) = return-Keeps IsTidy false
  generate_rest-IsTidy (some (some symbols)) =
      then-Keeps IsTidy (generate_with-IsTidy symbols)
        λ _. then-Keeps IsTidy waves λ _. return-Keeps IsTidy true
  generate_rest-IsTidy none = then-Keeps IsTidy waves λ _. return-Keeps IsTidy true

  generate-IsTidy : Keeps IsTidy (generate source conf valid_time next_valid_time)
  unfolding generate
  generate-IsTidy = then-Keeps IsTidy (lift-Keeps IsTidy _) λ wanted.
      then-Keeps IsTidy
        (make_symbols-Keeps IsTidy wanted (
          generate_symbols-Keeps IsTidy source conf valid_time next_valid_time
            λ d a s. IsTidy-field d a))
        λ made. generate_rest-IsTidy made

  -- The rest is not reached only if the symbols could not be made.
  generate_rest-stopped :
      (made : Option (Option BlobCollection)) {s s' : Products}
      → Ends (generate_rest source conf valid_time next_valid_time made) s false s'
      → made ≡ some none
  unfolding generate_rest
  generate_rest-stopped (some none) e = refl
  generate_rest-stopped (some (some symbols)) e =
      let (u, t, f, g) = >>=-inv e in
      let (v, t', h, k) = >>=-inv g in absurd (ground (arith, (return-inv k).0))
  generate_rest-stopped none e =
      let (u, t, f, g) = >>=-inv e in absurd (ground (arith, (return-inv g).0))

  -- The symbols are wanted, and `generateSymbols_` throws.
  abbrev pub SymbolsFail : Type 0
  SymbolsFail =
      (should_generate conf "symbols" ≡ ok true)
      × ((e : Error) × (e ≢ Error.undefined)
          × ((generate_symbols source conf valid_time next_valid_time new_generator).0 ≡ err e))

  tried-thrown :
      (r : Result BlobCollection × Products) (t : Products)
      → tried r ≡ (ok (some none), t)
      → (e : Error) × (e ≢ Error.undefined) × (r.0 ≡ err e)
  tried-thrown (ok symbols, s) t h = absurd (ground (arith, ap (λ p. p.0) h))
  tried-thrown (err Error.undefined, s) t h = absurd (ground (arith, ap (λ p. p.0) h))
  tried-thrown (err Error.data_not_available, s) t h =
      (Error.data_not_available, (λ q. absurd (ground (arith, q))), refl)
  tried-thrown (err Error.out_of_range, s) t h =
      (Error.out_of_range, (λ q. absurd (ground (arith, q))), refl)
  tried-thrown (err Error.logic_error, s) t h =
      (Error.logic_error, (λ q. absurd (ground (arith, q))), refl)
  tried-thrown (err Error.runtime_error, s) t h =
      (Error.runtime_error, (λ q. absurd (ground (arith, q))), refl)

  generate-stopped :
      {s' : Products}
      → Ends (generate source conf valid_time next_valid_time) new_generator false s'
      → SymbolsFail
  unfolding generate make_symbols
  generate-stopped e =
      let (wanted, f, g) = lift-inv e in
      let (made, t, h, k) = >>=-inv g in
      wanted_case wanted made t f h (generate_rest-stopped made k)
    where
      wanted_case :
          (wanted : Bool) (made : Option (Option BlobCollection)) (t : Products)
          → should_generate conf "symbols" ≡ ok wanted
          → Ends (make_symbols source conf valid_time next_valid_time wanted) new_generator made t
          → made ≡ some none
          → SymbolsFail
      wanted_case true made t f h q = (f, tried-thrown _ t (h.ended ∙ ap (λ o. (ok o, t)) q))
      wanted_case false made t f h q =
          absurd (ground (arith, Result-ok-inj (ap (λ p. p.0) h.ended), q))

  module _ {Written : Type 0} (sink : Sink Time Written) where
    pub work_lem :
        (w : Written)
        → let (outcome, made) = generate source conf valid_time next_valid_time new_generator in
          let result = work source conf valid_time next_valid_time sink w in
          ((SymbolsFail × (outcome ≡ ok false) × (result ≡ (ok tt, w)))
            ⊎ (((e : Error) × (e ≢ Error.data_not_available)
                  × (outcome ≡ err e)
                  × (result ≡ (err e, w)))
                ⊎ ((outcome ≡ ok true)
                    × (result
                        ≡ save_all source conf valid_time next_valid_time sink made.to_save w))))
          × IsRising made.to_save
          × All (λ f. allowed conf f.0 ≡ true) made.to_save
    unfolding work
    work_lem w =
        let s : Products = new_generator in
        let tidy = generate-IsTidy.kept s (record { rising = tt; admitted = tt }) in
        (ended (generate source conf valid_time next_valid_time s) refl, tidy.rising, tidy.admitted)
      where
        other :
            (x : Error) (t : Products)
            → generate source conf valid_time next_valid_time new_generator ≡ (err x, t)
            → x ≢ Error.data_not_available
        other x t e q =
            (generate-Avoids source conf valid_time next_valid_time).avoided new_generator
              (ap (λ p. p.0) e ∙ ap err q)

        ended :
            (r : Result Bool × Products)
            → generate source conf valid_time next_valid_time new_generator ≡ r
            → (SymbolsFail
                × (r.0 ≡ ok false)
                × (finish source conf valid_time next_valid_time sink r w ≡ (ok tt, w)))
              ⊎ (((e : Error) × (e ≢ Error.data_not_available)
                    × (r.0 ≡ err e)
                    × (finish source conf valid_time next_valid_time sink r w ≡ (err e, w)))
                  ⊎ ((r.0 ≡ ok true)
                      × (finish source conf valid_time next_valid_time sink r w
                          ≡ save_all source conf valid_time next_valid_time sink r.1.to_save w)))
        ended (ok true, t) e = inr (inr (refl, refl))
        ended (ok false, t) e = inl (generate-stopped (record { ended = e }), refl, refl)
        ended (err x, t) e = inr (inl (x, other x t e, refl, refl))
