-- ===== src/Forecast/Ordered.antt =====
-- `generateTemperatureMin_` and `generateTemperatureMax_` keep the saved temperatures in order.
use eps2probandltf.Common.{
  ℕ, zero, suc, ◌==◌, Bool, false, if◌then◌else◌, ◌≡◌, refl, ap, sym, [], ◌∷◌, ok, err, Error,
  arith, Result, some, none, ◌⊎◌, inl, inr, length, get_elem?, Option-cases, Bool-cases,
  Result-cases, subst,
}
use eps2probandltf.Common.Steps.{return, lift, ◌>>=◌, after, modify, reads}
use eps2probandltf.Common.OrderedMap.{assign, lookup, lookup-assign}
use eps2probandltf.Machine.{Machine}
use eps2probandltf.DataTypes.{BlobContainer, BlobCollection, BlobValue}
use eps2probandltf.DataAccess.{Source}
use eps2probandltf.WeatherData.{WeatherData, weather_key, number}
use eps2probandltf.Configuration.{GeneratorControl}
use eps2probandltf.Generator.Symbol.{SymbolLibrary}
use eps2probandltf.Forecast.Inputs.{get_data}
use eps2probandltf.Generator.Temperature.{simple_generator}
use eps2probandltf.Forecast.Handlers.{
  Products, Handler, put, correct, lowered, raised, generate_simple,
}
use eps2probandltf.Forecast.Groups.{generate_temperature_min, generate_temperature_max}
use eps2probandltf.Forecast.Work.{handle_exceptions, caught}
use eps2probandltf.Forecast.Keeps.{Saved}

module _ ⦃m : Machine⦄ where
  -- At no place of two fields of the same size is `apart` true of the values.
  pub record IsOrderedBy (apart : BlobValue → BlobValue → Bool) (values temperature : BlobContainer)
      : Type 0 where
    pub sizes : length values ≡ length temperature
    pub order :
        (i : ℕ) (x t : BlobValue)
        → get_elem? values i ≡ some x
        → get_elem? temperature i ≡ some t
        → apart x t ≡ false

  -- The same of the field saved under `d` and the saved temperature, if there are both.
  abbrev pub IsHeld : WeatherData → (BlobValue → BlobValue → Bool) → Saved → Type 0
  IsHeld d apart saved =
      (values temperature : BlobContainer)
      → lookup d saved ≡ some values
      → lookup WeatherData.temperature saved ≡ some temperature
      → IsOrderedBy apart values temperature

  -- `std::min` is above, and `std::max` below, a temperature at no place.
  abbrev pub above : BlobValue → BlobValue → Bool
  above x t = m.float.lt t x

  abbrev pub below : BlobValue → BlobValue → Bool
  below x t = m.float.lt x t

  module _ (irreflexive : (a : BlobValue) → m.float.lt a a ≡ false) where
    pub lowered-IsOrderedBy :
        (xs ts : BlobContainer) → length xs ≡ length ts → IsOrderedBy above (lowered xs ts) ts
    unfolding lowered
    lowered-IsOrderedBy [] [] h = record {
      sizes = refl;
      order = λ i x t e f. absurd (ground arith);
    }
    lowered-IsOrderedBy [] (t ∷ ts) h = absurd (omega arith)
    lowered-IsOrderedBy (x ∷ xs) [] h = absurd (omega arith)
    lowered-IsOrderedBy (x ∷ xs) (t ∷ ts) h =
        let rest = lowered-IsOrderedBy xs ts (omega arith) in
        record { sizes = ap suc rest.sizes; order = λ i. at_place i rest }
      where
        at_place :
            (i : ℕ)
            → IsOrderedBy above (lowered xs ts) ts
            → (y s : BlobValue)
            → get_elem? ((if m.float.lt t x then t else x) ∷ lowered xs ts) i ≡ some y
            → get_elem? (t ∷ ts) i ≡ some s
            → m.float.lt s y ≡ false
        at_place zero rest y s e f = ground (arith, irreflexive t)
        at_place (suc i) rest y s e f = rest.order i y s e f

    pub raised-IsOrderedBy :
        (xs ts : BlobContainer) → length xs ≡ length ts → IsOrderedBy below (raised xs ts) ts
    unfolding raised
    raised-IsOrderedBy [] [] h = record { sizes = refl; order = λ i x t e f. absurd (ground arith) }
    raised-IsOrderedBy [] (t ∷ ts) h = absurd (omega arith)
    raised-IsOrderedBy (x ∷ xs) [] h = absurd (omega arith)
    raised-IsOrderedBy (x ∷ xs) (t ∷ ts) h =
        let rest = raised-IsOrderedBy xs ts (omega arith) in
        record { sizes = ap suc rest.sizes; order = λ i. at_place i rest }
      where
        at_place :
            (i : ℕ)
            → IsOrderedBy below (raised xs ts) ts
            → (y s : BlobValue)
            → get_elem? ((if m.float.lt x t then t else x) ∷ raised xs ts) i ≡ some y
            → get_elem? (t ∷ ts) i ≡ some s
            → m.float.lt y s ≡ false
        at_place zero rest y s e f = ground (arith, irreflexive t)
        at_place (suc i) rest y s e f = rest.order i y s e f

  module _ (d : WeatherData) (other : number d == number WeatherData.temperature ≡ false)
      (apart : BlobValue → BlobValue → Bool) (f : BlobContainer → BlobContainer → BlobContainer)
      (fixes : (xs ts : BlobContainer)
        → length xs ≡ length ts
        → IsOrderedBy apart (f xs ts) ts) where
    assigned :
        (saved : Saved) (v t : BlobContainer)
        → lookup WeatherData.temperature saved ≡ some t
        → length v ≡ length t
        → IsHeld d apart (assign d (f v t) saved)
    assigned saved v t e l values temperature g h =
        let same : f v t ≡ values = ground (arith, lookup-assign d d (f v t) saved, g) in
        let kept : t ≡ temperature =
          ground (arith, lookup-assign WeatherData.temperature d (f v t) saved, h, e, other) in
        subst (λ x. IsOrderedBy apart x temperature) same
          (subst (λ y. IsOrderedBy apart (f v t) y) kept (fixes v t l))

    -- What a correction does.
    correct_cases :
        (s : Products)
        → ((lookup WeatherData.temperature s.to_save ≡ none) × (correct d f s ≡ (ok tt, s)))
          ⊎ (((v : BlobContainer) × (t : BlobContainer) × (lookup WeatherData.temperature s.to_save
                  ≡ some t)
                × (length v ≡ length t)
                × (correct d f s ≡ (ok tt, record s { to_save = assign d (f v t) s.to_save })))
              ⊎ (correct d f s ≡ (err Error.runtime_error, s)))
    unfolding correct put modify
    correct_cases s = elim (Option-cases (lookup WeatherData.temperature s.to_save)) [
      | inl e ↦ inl (e, rw (correct, e))
      | inr (t, e) ↦ elim (Option-cases (lookup d s.to_save)) [
        | inl g ↦ inr (inr (rw (correct, e, g)))
        | inr (v, g) ↦ elim (Bool-cases (length v == length t)) [
          | inl h ↦ inr (inl (v, t, e, ground (arith, h), rw (correct, e, g, h)))
          | inr h ↦ inr (inr (rw (correct, e, g, h)))
        ]
      ]
    ]

    -- A correction that returns leaves the field in order.
    abbrev IsLeft : Result (Unit {0}) × Products → Type 0
    IsLeft r = (caught r).0 ≡ ok tt → IsHeld d apart (caught r).1.to_save

    corrected : (s : Products) → IsLeft (correct d f s)
    corrected s = elim (correct_cases s) [
      | inl (a, g) ↦ subst IsLeft (sym g) λ k values temperature h l. absurd (ground (arith, a, l))
      | inr (inl (v, t, a, l, g)) ↦ subst IsLeft (sym g) λ k. assigned s.to_save v t a l
      | inr (inr g) ↦ subst IsLeft (sym g) λ k. absurd (ground (arith, k))
    ]

    -- So does a handler that first makes the field, which was not there, and leaves the fields alone if
    -- it throws.
    after_first :
        (s : Products) (r : Result (Unit {0}) × Products)
        → ((e : Error) → r.0 ≡ err e → r.1 ≡ s)
        → lookup d s.to_save ≡ none
        → IsLeft (after r (λ _. correct d f))
    after_first s (ok u, s') same absent = corrected s'
    after_first s (err Error.data_not_available, s') same absent = λ k values temperature g h.
        let unchanged = same Error.data_not_available refl in
        absurd (ground (arith, ap (λ (q : Products). lookup d q.to_save) unchanged, absent, g))
    after_first s (err Error.out_of_range, s') same absent = λ k. absurd (ground (arith, k))
    after_first s (err Error.logic_error, s') same absent = λ k. absurd (ground (arith, k))
    after_first s (err Error.runtime_error, s') same absent = λ k. absurd (ground (arith, k))
    after_first s (err Error.undefined, s') same absent = λ k. absurd (ground (arith, k))

  module _ ⦃lib : SymbolLibrary BlobValue⦄ {Time : Type 0} (source : Source Time)
      (conf : GeneratorControl BlobValue) (valid_time next_valid_time : Time) where
    -- A field that cannot be made leaves the others alone.
    generate_simple-unchanged :
        (d : WeatherData) (all_symbols : BlobCollection) (s : Products) (e : Error)
        → (generate_simple source conf valid_time next_valid_time d all_symbols s).0 ≡ err e
        → (generate_simple source conf valid_time next_valid_time d all_symbols s).1 ≡ s
    unfolding generate_simple put modify return lift reads ◌>>=◌
    generate_simple-unchanged d all_symbols s e h =
        elim (Bool-cases conf.exclude_simplified_probabilities) [
          | inl x ↦ rw (generate_simple, x) refl
          | inr x ↦ elim (Result-cases (get_data source d valid_time)) [
            | inr (u, g) ↦ rw (generate_simple, x, g) refl
            | inl (c, g) ↦
                elim (Result-cases (simple_generator s.selected_yr_symbol all_symbols c)) [
                  | inr (u, k) ↦ rw (generate_simple, x, g, k) refl
                  | inl (v, k) ↦ absurd (ground (arith, x, g, k, h))
                ]
          ]
        ]

    module _ (irreflexive : (a : BlobValue) → m.float.lt a a ≡ false)
        (all_symbols : BlobCollection) where
      abbrev pub min_handler : Handler
      min_handler =
          handle_exceptions
            (generate_temperature_min source conf valid_time next_valid_time all_symbols)

      abbrev pub max_handler : Handler
      max_handler =
          handle_exceptions
            (generate_temperature_max source conf valid_time next_valid_time all_symbols)

      pub min-IsHeld :
          (s : Products)
          → lookup WeatherData.temperature_min s.to_save ≡ none
          → (min_handler s).0 ≡ ok tt
          → IsHeld WeatherData.temperature_min above (min_handler s).1.to_save
      unfolding handle_exceptions generate_temperature_min ◌>>=◌ number
      min-IsHeld s absent =
          after_first WeatherData.temperature_min refl above lowered
            (lowered-IsOrderedBy irreflexive) s _
            (generate_simple-unchanged WeatherData.temperature_min all_symbols s) absent

      pub max-IsHeld :
          (s : Products)
          → lookup WeatherData.temperature_max s.to_save ≡ none
          → (max_handler s).0 ≡ ok tt
          → IsHeld WeatherData.temperature_max below (max_handler s).1.to_save
      unfolding handle_exceptions generate_temperature_max ◌>>=◌ number
      max-IsHeld s absent =
          after_first WeatherData.temperature_max refl below raised (raised-IsOrderedBy irreflexive)
            s _ (generate_simple-unchanged WeatherData.temperature_max all_symbols s) absent
