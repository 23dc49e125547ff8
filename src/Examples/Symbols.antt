-- ===== src/Examples/Symbols.antt =====
-- Symbols of ten members.
use eps2probandltf.Common.{
  ℕ, ◌<◌, ◌≤◌, ◌≡◌, ◌⊎◌, List, [], ◌∷◌, ◌++◌, refl, ok, err, Error, arith, length, true, map, ◌*◌,
  zero, suc, subst, if◌then◌else◌,
}
use eps2probandltf.Common.Outcomes.{Result-ok-inj, collect}
use eps2probandltf.Common.Int.{ℤ, pos}
use eps2probandltf.Machine.Milli.{fixed, fixed-CountsExactly}
use eps2probandltf.Container.{column, index, write_column}
use eps2probandltf.DataTypes.{get_equal_size_blob_collection}
use eps2probandltf.Generator.Symbol.Generate.{generate_symbols, generate_symbols_lem}
use eps2probandltf.Generator.Percentile.{count_if}
use eps2probandltf.Common.OrderedMap.{lookup, update}
use eps2probandltf.Generator.Symbol.{
  Certainty, select_symbol, is_rain, has_precipitation, get_symbols, get_symbol_certainty,
  symbol_influences_selection, get_probability_of, get_probability_factor,
  get_probability_factor_of, equals,
}
use eps2probandltf.Generator.Symbol.Codes.{
  light_rain, sun, rain, rain_sun, cloud, drizzle, contains, nearby,
}
use eps2probandltf.Generator.Symbol.Nearby.{
  is_next, IsKnown, known_codes, symbol_influences_selection_lem,
}
use eps2probandltf.Generator.Symbol.Tally.{count}
use eps2probandltf.Generator.Symbol.Selection.{fits, select_symbol_lem}
use eps2probandltf.Generator.Symbol.Rain.{class_size}
use eps2probandltf.Generator.Symbol.Field.{AreCertain, get_symbol_certainty_lem}
use eps2probandltf.Examples.Ensemble.{temperatures, precipitation, two_symbols}

-- Six dry and four wet members.
abbrev mostly_dry : List ℤ
mostly_dry =
    map (λ c. pos (c * 1000))
      (sun ∷ rain ∷ sun ∷ rain_sun ∷ cloud ∷ sun ∷ rain ∷ cloud ∷ sun ∷ rain ∷ [])

abbrev all_wet : List ℤ
all_wet = map (λ c. pos (c * 1000)) (rain ∷ rain ∷ rain_sun ∷ [])

selects_sun : select_symbol mostly_dry (pos 500) ≡ sun
unfolding select_symbol update count_if has_precipitation
selects_sun = refl

-- Three wet members out of three are not enough for the fraction 0.8.
wet_but_dry : select_symbol all_wet (pos 800) ≡ 0
unfolding select_symbol update count_if has_precipitation
wet_but_dry = refl

-- No share is counted for a drizzle symbol.
drizzle_uncounted :
    get_probability_of (map (λ c. pos (c * 1000)) (drizzle ∷ drizzle ∷ [])) drizzle ≡ ok (pos 0)
unfolding get_probability_of get_probability_factor_of get_probability_factor count_if equals nearby
    contains lookup
drizzle_uncounted = refl

symbol_influences_selection_lem_example :
    (symbol_influences_selection drizzle light_rain ≡ (
      if contains drizzle known_codes
      then ok (is_next drizzle light_rain)
      else err Error.logic_error))
    × (is_next drizzle light_rain ≡ is_next light_rain drizzle)
unfolding contains
symbol_influences_selection_lem_example =
    symbol_influences_selection_lem fixed-CountsExactly drizzle light_rain refl

select_symbol_lem_example :
    let s = select_symbol mostly_dry (pos 500) in
    let fit = fits (is_rain mostly_dry (pos 500)) in
    ((s ≡ 0) × ((c : ℕ) → fit c ≡ true → count c mostly_dry ≡ 0))
    ⊎ ((0 < count s mostly_dry)
        × (fit s ≡ true)
        × ((c : ℕ)
            → fit c ≡ true
            → (count c mostly_dry ≤ count s mostly_dry)
              × (c < s → count c mostly_dry < count s mostly_dry)))
select_symbol_lem_example = select_symbol_lem mostly_dry (pos 500) (omega arith)

two_symbols-IsKnown : (x y : ℤ) → IsKnown (two_symbols.get_symbol x y)
unfolding contains
two_symbols-IsKnown x y = ground arith

-- Dry at the first point, wet at the second.
abbrev first_codes : List ℤ
first_codes =
    map (λ c. pos (c * 1000)) (sun ∷ sun ∷ sun ∷ sun ∷ sun ∷ sun ∷ rain ∷ rain ∷ rain ∷ rain ∷ [])

abbrev second_codes : List ℤ
second_codes =
    map (λ c. pos (c * 1000))
      (rain ∷ rain ∷ rain ∷ rain ∷ rain ∷ rain ∷ rain ∷ sun ∷ sun ∷ sun ∷ [])

has_class :
    (codes known : List ℤ)
    → ok known ≡ ok codes
    → 0 < class_size (is_rain known (pos 500)) known
    → 0 < class_size (is_rain codes (pos 500)) codes
has_class codes known e h = subst (λ c. 0 < class_size (is_rain c (pos 500)) c) (Result-ok-inj e) h

sample-decided :
    (i : ℕ) (codes : List ℤ)
    → i < 2
    → get_symbols temperatures precipitation i ≡ ok codes
    → 0 < class_size (is_rain codes (pos 500)) codes
unfolding get_symbols index is_rain count_if has_precipitation collect
sample-decided zero codes h e = has_class codes first_codes e (omega arith)
sample-decided (suc zero) codes h e = has_class codes second_codes e (omega arith)
sample-decided (suc (suc i)) codes h e = absurd (omega arith)

get_symbol_certainty_lem_example :
    (st : Certainty) × (ss : List ℤ) × (ps : List ℤ) × (get_symbol_certainty temperatures
        precipitation [] []
        (pos 500)
      ≡ ok st)
    × AreCertain temperatures precipitation (pos 500) 0 ss ps
    × (length ss ≡ 2)
    × (st.symbol_out ≡ [] ++ ss)
    × (st.certainty_out ≡ [] ++ ps)
    × (length st.symbols ≡ 10)
    × ((j : ℕ) → j < 2 → column j st.symbols ≡ get_symbols temperatures precipitation j)
get_symbol_certainty_lem_example =
    get_symbol_certainty_lem temperatures precipitation (pos 500) fixed-CountsExactly
      two_symbols-IsKnown 2 (omega arith) (omega arith) refl (omega arith) sample-decided
      (omega arith) [] []

-- One dry member at one point.
abbrev dry_point : List (List ℤ)
dry_point = (pos 0 ∷ []) ∷ []

abbrev dry_certainty : Certainty
dry_certainty = record {
  symbols = (pos 1000 ∷ []) ∷ [];
  symbol_out = pos 1000 ∷ [];
  certainty_out = pos 100000 ∷ [];
}

dry_certainty-lem : get_symbol_certainty dry_point dry_point [] [] (pos 500) ≡ ok dry_certainty
unfolding get_symbol_certainty get_symbols index collect select_symbol update count_if
    has_precipitation get_probability_of get_probability_factor_of get_probability_factor equals
    nearby contains lookup write_column get_equal_size_blob_collection
dry_certainty-lem = refl

generate_symbols_lem_example : generate_symbols dry_point dry_point ≡ ok ((pos 1000 ∷ []) ∷ [])
generate_symbols_lem_example =
    generate_symbols_lem dry_point dry_point (pos 500) [] [] dry_certainty dry_certainty-lem
