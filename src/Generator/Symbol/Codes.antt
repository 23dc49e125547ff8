-- ===== src/Generator/Symbol/Codes.antt =====
-- generator/symbol/weatherSymbolProbability.cpp: which symbols influence one another.
use eps2probandltf.Common.{ℕ, List, [], ◌∷◌, Bool, true, false, ◌==◌, if◌then◌else◌}
use eps2probandltf.Common.OrderedMap.{number_key, assign}

-- The codes, numbered as the comments on the table say.
abbrev pub sun : ℕ
sun = 1

abbrev pub light_cloud : ℕ
light_cloud = 2

abbrev pub partly_cloud : ℕ
partly_cloud = 3

abbrev pub cloud : ℕ
cloud = 4

abbrev pub light_rain_sun : ℕ
light_rain_sun = 5

abbrev pub light_rain : ℕ
light_rain = 9

abbrev pub rain : ℕ
rain = 10

abbrev pub drizzle_sun : ℕ
drizzle_sun = 40

abbrev pub rain_sun : ℕ
rain_sun = 41

abbrev pub drizzle : ℕ
drizzle = 46

-- The table as `getProbabilityFactor` fills it, one assignment after the other.
unfoldable pub nearby : List (ℕ × List ℕ)
unfolding assign
nearby =
    let t0 = assign sun (sun ∷ light_cloud ∷ []) [] in
    let t1 = assign light_cloud (sun ∷ light_cloud ∷ partly_cloud ∷ []) t0 in
    let t2 = assign partly_cloud (light_cloud ∷ partly_cloud ∷ cloud ∷ []) t1 in
    let t3 = assign cloud (partly_cloud ∷ cloud ∷ []) t2 in
    let t4 = assign drizzle_sun (drizzle_sun ∷ light_rain_sun ∷ drizzle ∷ []) t3 in
    let t5 = assign light_rain_sun (drizzle_sun ∷ light_rain_sun ∷ rain_sun ∷ light_rain ∷ []) t4 in
    let t6 = assign rain_sun (light_rain_sun ∷ rain_sun ∷ rain ∷ []) t5 in
    let t7 = assign drizzle (drizzle_sun ∷ drizzle ∷ light_rain ∷ []) t6 in
    let t8 = assign light_rain (light_rain_sun ∷ drizzle ∷ light_rain ∷ rain ∷ []) t7 in
    assign rain (rain_sun ∷ light_rain ∷ rain ∷ []) t8

-- Membership of a `std::set`.
unfoldable pub contains : ℕ → List ℕ → Bool
contains c [] = false
contains c (d ∷ codes) = if d == c then true else contains c codes
