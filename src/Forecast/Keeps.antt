-- ===== src/Forecast/Keeps.antt =====
-- Handlers that keep a property of the saved fields, put together from their parts.
use eps2probandltf.Common.{
  List, Result, Error, ok, err, Bool, true, false, if◌then◌else◌, ◌≡◌, refl, some, Option-cases,
  Bool-cases, inl, inr, length, ◌==◌,
}
use eps2probandltf.Common.Steps.{Step, after, ◌>>=◌, return, lift, reads, modify}
use eps2probandltf.Common.OrderedMap.{assign, lookup}
use eps2probandltf.Machine.{Machine}
use eps2probandltf.DataTypes.{BlobContainer, BlobCollection}
use eps2probandltf.WeatherData.{WeatherData, weather_key}
use eps2probandltf.Generator.Percentile.{BasicPercentileGenerator}
use eps2probandltf.Generator.Wind.{Wind}
use eps2probandltf.Forecast.Handlers.{
  Products, Handler, put, put_percentiles, transfer_force, correct,
}
use eps2probandltf.Forecast.Work.{handle_exceptions, caught, tried}

module _ ⦃m : Machine⦄ where
  abbrev pub Saved : Type 0
  Saved = List (WeatherData × BlobContainer)

  module _ (I : Saved → Type 0) where
    -- The property survives the handler, whether it throws or not.
    pub record Keeps {A : Type 0} (h : Step Products A) : Type 0 where
      pub kept : (s : Products) → I s.to_save → I (h s).1.to_save

    -- It survives a new field of this kind.
    abbrev pub Admits : WeatherData → Type 0
    Admits d = (values : BlobContainer) (saved : Saved) → I saved → I (assign d values saved)

    after-kept :
        {A B : Type 0} (r : Result A × Products) (f : A → Step Products B)
        → I r.1.to_save
        → ((a : A) → Keeps (f a))
        → I (after r f).1.to_save
    after-kept (ok a, s) f i k = (k a).kept s i
    after-kept (err e, s) f i k = i

    pub then-Keeps :
        {A B : Type 0} {h : Step Products A} {f : A → Step Products B}
        → Keeps h
        → ((a : A) → Keeps (f a))
        → Keeps (h >>= f)
    unfolding ◌>>=◌
    then-Keeps {h = h} {f = f} i k = record { kept = λ s t. after-kept (h s) f (i.kept s t) k }

    pub return-Keeps : {A : Type 0} (a : A) → Keeps (return {S = Products} a)
    unfolding return
    return-Keeps a = record { kept = λ s t. t }

    pub lift-Keeps : {A : Type 0} (r : Result A) → Keeps (lift {S = Products} r)
    unfolding lift
    lift-Keeps r = record { kept = λ s t. t }

    pub reads-Keeps : {A : Type 0} (f : Products → A) → Keeps (reads f)
    unfolding reads
    reads-Keeps f = record { kept = λ s t. t }

    pub put-Keeps : (d : WeatherData) → Admits d → (values : BlobContainer) → Keeps (put d values)
    unfolding put modify
    put-Keeps d a values = record { kept = λ s t. a values s.to_save t }

    -- A new `selectedYrSymbol_`.
    pub select-Keeps :
        (selected : BlobContainer)
        → Keeps (modify (λ (s : Products). record s { selected_yr_symbol = selected }))
    unfolding modify
    select-Keeps selected = record { kept = λ s t. t }

    pub if-Keeps :
        {A : Type 0} {b : Bool} {g h : Step Products A}
        → (b ≡ true → Keeps g)
        → (b ≡ false → Keeps h)
        → Keeps (if b then g else h)
    if-Keeps {b = true} k l = k refl
    if-Keeps {b = false} k l = l refl

    pub correct-Keeps :
        (d : WeatherData) (f : BlobContainer → BlobContainer → BlobContainer)
        → ((v values : BlobContainer) (saved : Saved)
            → I saved
            → lookup d saved ≡ some v
            → I (assign d values saved))
        → Keeps (correct d f)
    unfolding correct put modify
    correct-Keeps d f a = record {
      kept = λ s t. elim (Option-cases (lookup WeatherData.temperature s.to_save)) [
        | inl e ↦ rw (correct, e) t
        | inr (temperature, e) ↦ elim (Option-cases (lookup d s.to_save)) [
          | inl g ↦ rw (correct, e, g) t
          | inr (v, g) ↦ elim (Bool-cases (length v == length temperature)) [
            | inl h ↦ rw (correct, e, g, h) (a v (f v temperature) s.to_save t g)
            | inr h ↦ rw (correct, e, g, h) t
          ]
        ]
      ];
    }

    caught-kept : (r : Result (Unit {0}) × Products) → I r.1.to_save → I (caught r).1.to_save
    caught-kept (ok u, s) i = i
    caught-kept (err Error.data_not_available, s) i = i
    caught-kept (err Error.out_of_range, s) i = i
    caught-kept (err Error.logic_error, s) i = i
    caught-kept (err Error.runtime_error, s) i = i
    caught-kept (err Error.undefined, s) i = i

    pub handle_exceptions-Keeps : {h : Handler} → Keeps h → Keeps (handle_exceptions h)
    unfolding handle_exceptions
    handle_exceptions-Keeps {h = h} k = record { kept = λ s t. caught-kept (h s) (k.kept s t) }

    pub tried-kept : (r : Result BlobCollection × Products) → I r.1.to_save → I (tried r).1.to_save
    tried-kept (ok u, s) i = i
    tried-kept (err Error.data_not_available, s) i = i
    tried-kept (err Error.out_of_range, s) i = i
    tried-kept (err Error.logic_error, s) i = i
    tried-kept (err Error.runtime_error, s) i = i
    tried-kept (err Error.undefined, s) i = i

    pub transfer_force-Keeps :
        (d : WeatherData) → Admits d → (winds : List Wind) → Keeps (transfer_force d winds)
    unfolding transfer_force
    transfer_force-Keeps d a winds = then-Keeps (reads-Keeps _) λ to. put-Keeps d a _

    pub put_percentiles-Keeps :
        {A : Type 0} (less : A → A → Bool) (save : WeatherData → List A → Handler)
        → ((d : WeatherData) → Admits d → (row : List A) → Keeps (save d row))
        → (d10 d25 d50 d75 d90 : WeatherData) → Admits d10
        → Admits d25
        → Admits d50
        → Admits d75
        → Admits d90
        → (g : BasicPercentileGenerator A) → Keeps (put_percentiles less save d10 d25 d50 d75 d90 g)
    unfolding put_percentiles
    put_percentiles-Keeps less save k d10 d25 d50 d75 d90 a10 a25 a50 a75 a90 g =
        then-Keeps (lift-Keeps _) λ p10. then-Keeps (k d10 a10 p10.0) λ _.
          then-Keeps (lift-Keeps _) λ p25. then-Keeps (k d25 a25 p25.0) λ _.
            then-Keeps (lift-Keeps _) λ p50. then-Keeps (k d50 a50 p50.0) λ _.
              then-Keeps (lift-Keeps _) λ p75.
                then-Keeps (k d75 a75 p75.0) λ _. then-Keeps (lift-Keeps _) λ p90. k d90 a90 p90.0
