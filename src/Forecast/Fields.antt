-- ===== src/Forecast/Fields.antt =====
-- Which fields each handler saves.
use eps2probandltf.Common.{
  Bool, true, false, not, if◌then◌else◌, ◌≡◌, refl, List, [], ◌∷◌, arith, All, some,
}
use eps2probandltf.Machine.{Machine}
use eps2probandltf.DataTypes.{BlobContainer, BlobCollection, BlobValue}
use eps2probandltf.DataAccess.{Source}
use eps2probandltf.WeatherData.{WeatherData, weather_key}
use eps2probandltf.Configuration.{GeneratorControl}
use eps2probandltf.Generator.Symbol.{SymbolLibrary}
use eps2probandltf.Generator.Percentile.{BasicPercentileGenerator, percentile_generator}
use eps2probandltf.Generator.Wind.{wind_force_less}
use eps2probandltf.Generator.Temperature.{
  TemperatureProbabilityGenerator, PrecipitationProbabilityGenerator,
}
use eps2probandltf.Forecast.Handlers.{
  put, generate_symbols, generate_simple, lowered, raised, transfer_force,
}
use eps2probandltf.Forecast.Groups.{
  generate_clouds, generate_temperature, generate_temperature_min, generate_temperature_max,
  generate_wind, put_above, limits, generate_precipitation, generate_air_pressure,
  generate_humidity, generate_waves,
}
use eps2probandltf.Forecast.Keeps.{
  Saved, Keeps, Admits, then-Keeps, return-Keeps, lift-Keeps, reads-Keeps, put-Keeps, if-Keeps,
  transfer_force-Keeps, put_percentiles-Keeps, select-Keeps, correct-Keeps,
}
use eps2probandltf.Common.OrderedMap.{assign, lookup}

-- The fields that `excludePercentiles` switches off; `excludeSimplifiedProbabilities` does the others.
abbrev pub by_percentiles : WeatherData → Bool
by_percentiles WeatherData.temperature10percentile = true
by_percentiles WeatherData.temperature25percentile = true
by_percentiles WeatherData.temperature50percentile = true
by_percentiles WeatherData.temperature75percentile = true
by_percentiles WeatherData.temperature90percentile = true
by_percentiles WeatherData.wind10percentile = true
by_percentiles WeatherData.wind25percentile = true
by_percentiles WeatherData.wind50percentile = true
by_percentiles WeatherData.wind75percentile = true
by_percentiles WeatherData.wind90percentile = true
by_percentiles WeatherData.precipitation10percentile = true
by_percentiles WeatherData.precipitation25percentile = true
by_percentiles WeatherData.precipitation50percentile = true
by_percentiles WeatherData.precipitation75percentile = true
by_percentiles WeatherData.precipitation90percentile = true
by_percentiles WeatherData.precipitation_above0_1mm = true
by_percentiles WeatherData.precipitation_above0_2mm = true
by_percentiles WeatherData.precipitation_above0_5mm = true
by_percentiles WeatherData.precipitation_above1_0mm = true
by_percentiles WeatherData.precipitation_above2_0mm = true
by_percentiles WeatherData.precipitation_above5_0mm = true
by_percentiles WeatherData.cloud_cover10percentile = true
by_percentiles WeatherData.cloud_cover25percentile = true
by_percentiles WeatherData.cloud_cover50percentile = true
by_percentiles WeatherData.cloud_cover75percentile = true
by_percentiles WeatherData.cloud_cover90percentile = true
by_percentiles WeatherData.significant_wave_height10percentile = true
by_percentiles WeatherData.significant_wave_height25percentile = true
by_percentiles WeatherData.significant_wave_height50percentile = true
by_percentiles WeatherData.significant_wave_height75percentile = true
by_percentiles WeatherData.significant_wave_height90percentile = true
by_percentiles d = false

-- Not one of the three temperatures that are kept in order.
abbrev pub steady : WeatherData → Bool
steady WeatherData.temperature = false
steady WeatherData.temperature_min = false
steady WeatherData.temperature_max = false
steady d = true

-- Neither of the two that are corrected by the temperature.
abbrev pub uncorrected : WeatherData → Bool
uncorrected WeatherData.temperature_min = false
uncorrected WeatherData.temperature_max = false
uncorrected d = true

-- The options do not exclude the field.
abbrev pub allowed : {F : Type 0} → GeneratorControl F → WeatherData → Bool
allowed conf d =
    if by_percentiles d
    then not conf.exclude_percentiles
    else not conf.exclude_simplified_probabilities

module _ ⦃m : Machine⦄ ⦃lib : SymbolLibrary BlobValue⦄ {Time : Type 0} (I : Saved → Type 0)
    (source : Source Time) (conf : GeneratorControl BlobValue)
    (valid_time next_valid_time : Time) where
  pub generate_simple-Keeps :
      (d : WeatherData)
      → (conf.exclude_simplified_probabilities ≡ false → Admits I d)
      → (all_symbols : BlobCollection)
      → Keeps I (generate_simple source conf valid_time next_valid_time d all_symbols)
  unfolding generate_simple
  generate_simple-Keeps d a all_symbols =
      if-Keeps I (λ e. return-Keeps I tt)
        λ e. then-Keeps I (lift-Keeps I _) λ d'.
          then-Keeps I (reads-Keeps I _)
            λ selected. then-Keeps I (lift-Keeps I _) λ values. put-Keeps I d (a e) values

  module _ (allow : (d : WeatherData) → allowed conf d ≡ true → steady d ≡ true → Admits I d) where
    -- A field of either kind is admitted if its option is off.
    percentile :
        (d : WeatherData)
        → by_percentiles d ≡ true
        → steady d ≡ true
        → conf.exclude_percentiles ≡ false
        → Admits I d
    percentile d p q e = allow d (ground (arith, p, e)) q

    simplified :
        (d : WeatherData)
        → by_percentiles d ≡ false
        → steady d ≡ true
        → conf.exclude_simplified_probabilities ≡ false
        → Admits I d
    simplified d p q e = allow d (ground (arith, p, e)) q

    pub generate_symbols-Keeps : Keeps I (generate_symbols source conf valid_time next_valid_time)
    unfolding generate_symbols
    generate_symbols-Keeps = then-Keeps I (lift-Keeps I _) λ cover.
        then-Keeps I (lift-Keeps I _) λ rain. then-Keeps I (reads-Keeps I _) λ selected.
          then-Keeps I (lift-Keeps I _) λ certainty. then-Keeps I (select-Keeps I _) λ _.
            then-Keeps I
              (if-Keeps I (λ e. return-Keeps I tt)
                λ e.
                  then-Keeps I (put-Keeps I _ (simplified _ refl refl e) _)
                    λ _. put-Keeps I _ (simplified _ refl refl e) _)
              λ _. return-Keeps I _

    pub generate_clouds-Keeps :
        (all_symbols : BlobCollection)
        → Keeps I (generate_clouds source conf valid_time next_valid_time all_symbols)
    unfolding generate_clouds
    generate_clouds-Keeps all_symbols = then-Keeps I (lift-Keeps I _) λ cover.
        then-Keeps I
          (if-Keeps I (λ e. return-Keeps I tt)
            λ e. then-Keeps I (reads-Keeps I _) λ selected.
              then-Keeps I (lift-Keeps I _)
                λ values. put-Keeps I _ (simplified _ refl refl e) values)
          λ _.
            then-Keeps I
              (if-Keeps I (λ e. return-Keeps I tt)
                λ e.
                  put_percentiles-Keeps I m.float.lt put (put-Keeps I) _ _ _ _ _
                    (percentile _ refl refl e) (percentile _ refl refl e) (percentile _ refl refl e)
                    (percentile _ refl refl e) (percentile _ refl refl e)
                    (percentile_generator cover))
              λ _. then-Keeps I (generate_simple-Keeps _ (simplified _ refl refl) all_symbols) λ _.
                then-Keeps I (generate_simple-Keeps _ (simplified _ refl refl) all_symbols)
                  λ _. generate_simple-Keeps _ (simplified _ refl refl) all_symbols

    pub generate_wind-Keeps :
        (all_symbols : BlobCollection)
        → Keeps I (generate_wind source conf valid_time next_valid_time all_symbols)
    unfolding generate_wind
    generate_wind-Keeps all_symbols = then-Keeps I (lift-Keeps I _) λ u.
        then-Keeps I (lift-Keeps I _) λ v. then-Keeps I (lift-Keeps I _) λ wind.
          then-Keeps I
            (if-Keeps I (λ e. return-Keeps I tt)
              λ e. then-Keeps I (reads-Keeps I _) λ selected.
                then-Keeps I (reads-Keeps I _) λ saved. then-Keeps I (lift-Keeps I _) λ out.
                  then-Keeps I (put-Keeps I _ (simplified _ refl refl e) _) λ _.
                    then-Keeps I (put-Keeps I _ (simplified _ refl refl e) _)
                      λ _. put-Keeps I _ (simplified _ refl refl e) _)
            λ _.
              if-Keeps I (λ e. return-Keeps I tt)
                λ e.
                  put_percentiles-Keeps I wind_force_less transfer_force (transfer_force-Keeps I) _
                    _ _ _ _ (percentile _ refl refl e) (percentile _ refl refl e)
                    (percentile _ refl refl e) (percentile _ refl refl e) (percentile _ refl refl e)
                    (percentile_generator wind)

    put_above-Keeps :
        (g : BasicPercentileGenerator BlobValue) (above : List (WeatherData × BlobValue))
        → All (λ e. Admits I e.0) above
        → Keeps I (put_above source conf valid_time next_valid_time g above)
    unfolding put_above
    put_above-Keeps g [] a = return-Keeps I tt
    put_above-Keeps g ((d, val) ∷ above) a =
        then-Keeps I (lift-Keeps I _)
          λ out. then-Keeps I (put-Keeps I d a.0 out) λ _. put_above-Keeps g above a.1

    pub generate_precipitation-Keeps :
        (all_symbols : BlobCollection)
        → Keeps I (generate_precipitation source conf valid_time next_valid_time all_symbols)
    unfolding generate_precipitation
    generate_precipitation-Keeps all_symbols = then-Keeps I (lift-Keeps I _) λ sum.
        then-Keeps I (reads-Keeps I _) λ selected.
          then-Keeps I (lift-Keeps I _) λ (p : PrecipitationProbabilityGenerator).
            then-Keeps I
              (if-Keeps I (λ e. return-Keeps I tt) λ e. put-Keeps I _ (simplified _ refl refl e) _)
              λ _.
                if-Keeps I (λ e. return-Keeps I tt)
                  λ e.
                    let y = λ (d : WeatherData) (q : by_percentiles d ≡ true) (r : steady d ≡ true).
                      percentile d q r e in
                    then-Keeps I
                      (put_percentiles-Keeps I m.float.lt put (put-Keeps I) _ _ _ _ _
                        (y _ refl refl) (y _ refl refl) (y _ refl refl) (y _ refl refl)
                        (y _ refl refl) p.percentiles)
                      λ _.
                        put_above-Keeps p.percentiles
                          (limits source conf valid_time next_valid_time)
                          (
                            y _ refl refl,
                            (
                              y _ refl refl,
                              (
                                y _ refl refl,
                                (y _ refl refl, (y _ refl refl, (y _ refl refl, tt))),
                              ),
                            ),
                          )

    pub generate_air_pressure-Keeps :
        (all_symbols : BlobCollection)
        → Keeps I (generate_air_pressure source conf valid_time next_valid_time all_symbols)
    unfolding generate_air_pressure
    generate_air_pressure-Keeps = generate_simple-Keeps _ (simplified _ refl refl)

    pub generate_humidity-Keeps :
        (all_symbols : BlobCollection)
        → Keeps I (generate_humidity source conf valid_time next_valid_time all_symbols)
    unfolding generate_humidity
    generate_humidity-Keeps = generate_simple-Keeps _ (simplified _ refl refl)

    pub generate_waves-Keeps : Keeps I (generate_waves source conf valid_time next_valid_time)
    unfolding generate_waves
    generate_waves-Keeps = then-Keeps I (lift-Keeps I _) λ waves.
        if-Keeps I (λ e. return-Keeps I tt)
          λ e.
            put_percentiles-Keeps I m.float.lt put (put-Keeps I) _ _ _ _ _
              (percentile _ refl refl e) (percentile _ refl refl e) (percentile _ refl refl e)
              (percentile _ refl refl e) (percentile _ refl refl e) (percentile_generator waves)

  module _
      (allow : (d : WeatherData) → allowed conf d ≡ true → uncorrected d ≡ true → Admits I d) where
    pub generate_temperature-Keeps :
        (all_symbols : BlobCollection)
        → Keeps I (generate_temperature source conf valid_time next_valid_time all_symbols)
    unfolding generate_temperature
    generate_temperature-Keeps all_symbols = then-Keeps I (lift-Keeps I _) λ temperature.
        then-Keeps I (reads-Keeps I _) λ selected.
          then-Keeps I (lift-Keeps I _) λ (t : TemperatureProbabilityGenerator).
            then-Keeps I
              (if-Keeps I (λ e. return-Keeps I tt) λ e. put-Keeps I _ (one _ refl refl e) _)
              λ _.
                then-Keeps I
                  (if-Keeps I (λ e. return-Keeps I tt)
                    λ e.
                      put_percentiles-Keeps I m.float.lt put (put-Keeps I) _ _ _ _ _
                        (five _ refl refl e) (five _ refl refl e) (five _ refl refl e)
                        (five _ refl refl e) (five _ refl refl e) t.percentiles)
                  λ _.
                    if-Keeps I (λ e. return-Keeps I tt)
                      λ e. then-Keeps I (reads-Keeps I _) λ out1.
                        then-Keeps I (lift-Keeps I _) λ p1.
                          then-Keeps I (put-Keeps I _ (one _ refl refl e) _) λ _.
                            then-Keeps I (reads-Keeps I _) λ out2.
                              then-Keeps I (lift-Keeps I _)
                                λ p2. put-Keeps I _ (one _ refl refl e) _
      where
        one :
            (d : WeatherData)
            → by_percentiles d ≡ false
            → uncorrected d ≡ true
            → conf.exclude_simplified_probabilities ≡ false
            → Admits I d
        one d p q e = allow d (ground (arith, p, e)) q

        five :
            (d : WeatherData)
            → by_percentiles d ≡ true
            → uncorrected d ≡ true
            → conf.exclude_percentiles ≡ false
            → Admits I d
        five d p q e = allow d (ground (arith, p, e)) q

  -- A correction replaces a field that is there.
  pub generate_temperature_min-Keeps :
      (conf.exclude_simplified_probabilities ≡ false → Admits I WeatherData.temperature_min)
      → ((v values : BlobContainer) (saved : Saved)
          → I saved
          → lookup WeatherData.temperature_min saved ≡ some v
          → I (assign WeatherData.temperature_min values saved))
      → (all_symbols : BlobCollection)
      → Keeps I (generate_temperature_min source conf valid_time next_valid_time all_symbols)
  unfolding generate_temperature_min
  generate_temperature_min-Keeps own a all_symbols =
      then-Keeps I (generate_simple-Keeps _ own all_symbols) λ _. correct-Keeps I _ lowered a

  pub generate_temperature_max-Keeps :
      (conf.exclude_simplified_probabilities ≡ false → Admits I WeatherData.temperature_max)
      → ((v values : BlobContainer) (saved : Saved)
          → I saved
          → lookup WeatherData.temperature_max saved ≡ some v
          → I (assign WeatherData.temperature_max values saved))
      → (all_symbols : BlobCollection)
      → Keeps I (generate_temperature_max source conf valid_time next_valid_time all_symbols)
  unfolding generate_temperature_max
  generate_temperature_max-Keeps own a all_symbols =
      then-Keeps I (generate_simple-Keeps _ own all_symbols) λ _. correct-Keeps I _ raised a
