-- ===== src/Forecast/Temperatures.antt =====
-- The temperatures that `work` writes.
use Prim.Native.String.{String}
use eps2probandltf.Common.{
  Bool, true, false, ◌==◌, ◌≡◌, refl, ap, sym, ◌∙◌, ok, err, arith, Result, Option, some, none, inl,
  inr, Bool-cases, if◌then◌else◌,
}
use eps2probandltf.Common.Steps.{Step, return, ◌>>=◌, after}
use eps2probandltf.Common.OrderedMap.{assign, lookup, lookup-assign}
use eps2probandltf.Machine.{Machine}
use eps2probandltf.DataTypes.{BlobContainer, BlobCollection, BlobValue}
use eps2probandltf.DataAccess.{Source}
use eps2probandltf.WeatherData.{WeatherData, weather_key, number, number-inj}
use eps2probandltf.Configuration.{GeneratorControl}
use eps2probandltf.Generator.Symbol.{SymbolLibrary}
use eps2probandltf.Forecast.Handlers.{Products, Handler, new_generator}
use eps2probandltf.Forecast.Groups.{generate_waves}
use eps2probandltf.Forecast.Work.{
  handle_exceptions, when_generated, generate_with, generate_rest, generate,
}
use eps2probandltf.Forecast.Keeps.{
  Saved, Keeps, Admits, then-Keeps, return-Keeps, lift-Keeps, handle_exceptions-Keeps,
}
use eps2probandltf.Forecast.Fields.{
  allowed, steady, uncorrected, generate_symbols-Keeps, generate_clouds-Keeps,
  generate_temperature-Keeps, generate_temperature_min-Keeps, generate_temperature_max-Keeps,
  generate_wind-Keeps, generate_precipitation-Keeps, generate_air_pressure-Keeps,
  generate_humidity-Keeps, generate_waves-Keeps,
}
use eps2probandltf.Forecast.Saved.{when_generated-Keeps, make_symbols-Keeps}
use eps2probandltf.Forecast.Ordered.{
  IsHeld, above, below, min_handler, max_handler, min-IsHeld, max-IsHeld,
}

-- A field with a property is none without it.
other_field :
    (p : WeatherData → Bool) (d k : WeatherData)
    → p d ≡ true
    → p k ≡ false
    → number d == number k ≡ false
other_field p d k e f = elim (Bool-cases (number d == number k)) [
  | inr h ↦ h
  | inl h ↦
      let same : d ≡ k = number-inj d k (ground (arith, h)) in
      absurd (ground (arith, ap p same, e, f))
]

module _ ⦃m : Machine⦄ where
  module _ (I J : Saved → Type 0) where
    -- If the handler starts with the first property and returns, it ends with the second.
    pub record Leads {A : Type 0} (h : Step Products A) : Type 0 where
      pub reached : (s : Products) (a : A) → I s.to_save → (h s).0 ≡ ok a → J (h s).1.to_save

    Keeps-Leads :
        {A : Type 0} {h : Step Products A} → ((n : Saved) → I n → J n) → Keeps J h → Leads h
    Keeps-Leads w k = record { reached = λ s a i e. k.kept s (w s.to_save i) }

  module _ (I J K : Saved → Type 0) where
    after-reached :
        {A B : Type 0} (r : Result A × Products) (f : A → Step Products B) (b : B)
        → ((a : A) → r.0 ≡ ok a → J r.1.to_save)
        → ((a : A) → Leads J K (f a))
        → (after r f).0 ≡ ok b
        → K (after r f).1.to_save
    after-reached (ok a, s) f b i k e = (k a).reached s b (i a refl) e
    after-reached (err x, s) f b i k e = absurd (ground (arith, e))

    then-Leads :
        {A B : Type 0} {h : Step Products A} {f : A → Step Products B}
        → Leads I J h
        → ((a : A) → Leads J K (f a))
        → Leads I K (h >>= f)
    unfolding ◌>>=◌
    then-Leads {h = h} {f = f} i k = record {
      reached = λ s b p e. after-reached (h s) f b (λ a. i.reached s a p) k e;
    }

  -- A field keeps its value when another one is saved.
  lookup_other :
      (k d : WeatherData) (values : BlobContainer) (saved : Saved)
      → number d == number k ≡ false
      → lookup k (assign d values saved) ≡ lookup k saved
  lookup_other k d values saved h = ground (arith, lookup-assign k d values saved, h)

  IsHeld-Admits :
      (k : WeatherData) (apart : BlobValue → BlobValue → Bool) (d : WeatherData)
      → number d == number k ≡ false
      → number d == number WeatherData.temperature ≡ false
      → Admits (IsHeld k apart) d
  IsHeld-Admits k apart d h l values saved held v t e f =
      held v t (sym (lookup_other k d values saved h) ∙ e)
        (sym (lookup_other WeatherData.temperature d values saved l) ∙ f)

  -- The two fields are not there yet; the first is in order; both are.
  abbrev IsFresh : Saved → Type 0
  IsFresh saved =
      (lookup WeatherData.temperature_min saved ≡ none)
      × (lookup WeatherData.temperature_max saved ≡ none)

  abbrev IsHalf : Saved → Type 0
  IsHalf saved =
      IsHeld WeatherData.temperature_min above saved
      × (lookup WeatherData.temperature_max saved ≡ none)

  abbrev pub IsInOrder : Saved → Type 0
  IsInOrder saved =
      IsHeld WeatherData.temperature_min above saved
      × IsHeld WeatherData.temperature_max below saved

  IsFresh-IsInOrder : (saved : Saved) → IsFresh saved → IsInOrder saved
  IsFresh-IsInOrder saved (a, b) =
      (λ v t e f. absurd (ground (arith, a, e)), λ v t e f. absurd (ground (arith, b, e)))

  fresh_field :
      (p : WeatherData → Bool)
      → p WeatherData.temperature_min ≡ false
      → p WeatherData.temperature_max ≡ false
      → (d : WeatherData) → p d ≡ true
      → Admits IsFresh d
  fresh_field p g h d e values saved (a, b) = (
    lookup_other WeatherData.temperature_min d values saved
          (other_field p d WeatherData.temperature_min e g)
        ∙ a,
    lookup_other WeatherData.temperature_max d values saved
          (other_field p d WeatherData.temperature_max e h)
        ∙ b,
  )

  ordered_field : (d : WeatherData) → steady d ≡ true → Admits IsInOrder d
  ordered_field d e values saved (a, b) =
      let t = other_field steady d WeatherData.temperature e refl in
      (
        IsHeld-Admits WeatherData.temperature_min above d
            (other_field steady d WeatherData.temperature_min e refl) t values saved a,
        IsHeld-Admits WeatherData.temperature_max below d
            (other_field steady d WeatherData.temperature_max e refl) t values saved b,
      )

  module _ ⦃lib : SymbolLibrary BlobValue⦄ {Time : Type 0} (source : Source Time)
      (conf : GeneratorControl BlobValue) (valid_time next_valid_time : Time)
      (irreflexive : (a : BlobValue) → m.float.lt a a ≡ false) where
    when-Leads :
        (what : String) {h : Handler}
        → Leads IsFresh IsInOrder h
        → Leads IsFresh IsInOrder (when_generated source conf valid_time next_valid_time what h)
    unfolding when_generated
    when-Leads what {h = h} k =
        then-Leads IsFresh IsFresh IsInOrder
          (Keeps-Leads IsFresh IsFresh (λ n i. i) (lift-Keeps IsFresh _)) λ wanted. chosen wanted
      where
        chosen : (b : Bool) → Leads IsFresh IsInOrder (if b then h else return tt)
        chosen true = k
        chosen false = Keeps-Leads IsFresh IsInOrder IsFresh-IsInOrder (return-Keeps IsInOrder tt)

    min-Leads :
        (symbols : BlobCollection)
        → Leads IsFresh IsHalf
            (min_handler source conf valid_time next_valid_time irreflexive symbols)
    unfolding number
    min-Leads symbols =
        let I : Saved → Type 0 = λ saved. lookup WeatherData.temperature_max saved ≡ none in
        let free : Admits I WeatherData.temperature_min = λ values saved e.
          lookup_other WeatherData.temperature_max WeatherData.temperature_min values saved refl
          ∙ e in
        let kept = handle_exceptions-Keeps I (
          generate_temperature_min-Keeps I source conf valid_time next_valid_time (λ _. free)
            (λ _ values saved e _. free values saved e) symbols) in
        record {
          reached = λ s a i e. (
            min-IsHeld source conf valid_time next_valid_time irreflexive symbols s i.0 e,
            kept.kept s i.1,
          );
        }

    max-Leads :
        (symbols : BlobCollection)
        → Leads IsHalf IsInOrder
            (max_handler source conf valid_time next_valid_time irreflexive symbols)
    unfolding number
    max-Leads symbols =
        let I : Saved → Type 0 = IsHeld WeatherData.temperature_min above in
        let free : Admits I WeatherData.temperature_max =
          IsHeld-Admits WeatherData.temperature_min above WeatherData.temperature_max refl refl in
        let kept = handle_exceptions-Keeps I (
          generate_temperature_max-Keeps I source conf valid_time next_valid_time (λ _. free)
            (λ _ values saved e _. free values saved e) symbols) in
        record {
          reached = λ s a i e. (
            kept.kept s i.0,
            max-IsHeld source conf valid_time next_valid_time irreflexive symbols s i.1 e,
          );
        }

    stay : {A : Type 0} {h : Step Products A} → Keeps IsInOrder h → Leads IsInOrder IsInOrder h
    stay k = Keeps-Leads IsInOrder IsInOrder (λ n i. i) k

    fresh : {A : Type 0} {h : Step Products A} → Keeps IsFresh h → Leads IsFresh IsFresh h
    fresh k = Keeps-Leads IsFresh IsFresh (λ n i. i) k

    own : (d : WeatherData) → allowed conf d ≡ true → steady d ≡ true → Admits IsInOrder d
    own d a e = ordered_field d e

    own_fresh : (d : WeatherData) → allowed conf d ≡ true → steady d ≡ true → Admits IsFresh d
    own_fresh d a e = fresh_field steady refl refl d e

    -- A group of products after the temperatures.
    group :
        (what : String) {h : Handler}
        → Keeps IsInOrder h
        → Keeps IsInOrder
            (when_generated source conf valid_time next_valid_time what (handle_exceptions h))
    group what k =
        when_generated-Keeps source conf valid_time next_valid_time IsInOrder what
          (handle_exceptions-Keeps IsInOrder k)

    generate_with-Leads :
        (symbols : BlobCollection)
        → Leads IsFresh IsInOrder (generate_with source conf valid_time next_valid_time symbols)
    unfolding generate_with
    generate_with-Leads symbols =
        then-Leads IsFresh IsFresh IsInOrder
          (fresh (
            when_generated-Keeps source conf valid_time next_valid_time IsFresh "clouds" (
              handle_exceptions-Keeps IsFresh (
                generate_clouds-Keeps IsFresh source conf valid_time next_valid_time own_fresh
                  symbols))))
          λ _.
            then-Leads IsFresh IsInOrder IsInOrder
              (when-Leads "temperature" (
                then-Leads IsFresh IsFresh IsInOrder
                  (fresh (
                    handle_exceptions-Keeps IsFresh (
                      generate_temperature-Keeps IsFresh source conf valid_time next_valid_time
                        (λ d a e. fresh_field uncorrected refl refl d e) symbols)))
                  λ _.
                    then-Leads IsFresh IsHalf IsInOrder (min-Leads symbols) λ _. max-Leads symbols))
              λ _. stay (
                then-Keeps IsInOrder
                  (group "wind" (
                    generate_wind-Keeps IsInOrder source conf valid_time next_valid_time own
                      symbols))
                  λ _.
                    then-Keeps IsInOrder
                      (group "precipitation" (
                        generate_precipitation-Keeps IsInOrder source conf valid_time
                          next_valid_time own symbols))
                      λ _.
                        then-Keeps IsInOrder
                          (group "pressure" (
                            generate_air_pressure-Keeps IsInOrder source conf valid_time
                              next_valid_time own symbols))
                          λ _. group "humidity" (
                            generate_humidity-Keeps IsInOrder source conf valid_time next_valid_time
                              own symbols))

    waves : Keeps IsInOrder (
        when_generated source conf valid_time next_valid_time "waves"
          (handle_exceptions (generate_waves source conf valid_time next_valid_time)))
    waves =
        group "waves" (generate_waves-Keeps IsInOrder source conf valid_time next_valid_time own)

    generate_rest-Leads :
        (made : Option (Option BlobCollection))
        → Leads IsFresh IsInOrder (generate_rest source conf valid_time next_valid_time made)
    unfolding generate_rest
    generate_rest-Leads (some none) =
        Keeps-Leads IsFresh IsInOrder IsFresh-IsInOrder (return-Keeps IsInOrder false)
    generate_rest-Leads (some (some symbols)) =
        then-Leads IsFresh IsInOrder IsInOrder (generate_with-Leads symbols)
          λ _. stay (then-Keeps IsInOrder waves λ _. return-Keeps IsInOrder true)
    generate_rest-Leads none =
        Keeps-Leads IsFresh IsInOrder IsFresh-IsInOrder
          (then-Keeps IsInOrder waves λ _. return-Keeps IsInOrder true)

    -- For a `<` that holds of no value and itself: if the handlers of `work` return, then in the fields
    -- that they saved the minimum temperature has the size of the temperature and is above it at no
    -- point, and the maximum temperature has its size and is below it at no point, where both are saved.
    pub generate_lem :
        (b : Bool)
        → let (outcome, made) = generate source conf valid_time next_valid_time new_generator in
          outcome ≡ ok b
          → IsHeld WeatherData.temperature_min above made.to_save
            × IsHeld WeatherData.temperature_max below made.to_save
    unfolding generate lookup
    generate_lem b =
        (then-Leads IsFresh IsFresh IsInOrder (fresh (lift-Keeps IsFresh _)) λ wanted.
            then-Leads IsFresh IsFresh IsInOrder
              (fresh (
                make_symbols-Keeps source conf valid_time next_valid_time IsFresh wanted (
                  generate_symbols-Keeps IsFresh source conf valid_time next_valid_time own_fresh)))
              λ made. generate_rest-Leads made).reached
          new_generator b (refl, refl)
