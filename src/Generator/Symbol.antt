-- ===== src/Generator/Symbol.antt =====
-- generator/symbol/: weather symbols of an ensemble, the selected symbol of a point and its certainty.
pub mod Codes
pub mod Nearby
pub mod Tally
pub mod Selection
pub mod Rain
pub mod Field
pub mod Generate
use eps2probandltf.Common.{
  ℕ, zero, suc, ◌+◌, ◌-◌, ◌%◌, ◌^◌, List, [], ◌∷◌, ◌++◌, Result, Error, ok, err, ◌>>=◌, at, length,
  Bool, true, false, not, ◌&&◌, ◌||◌, if◌then◌else◌, ltb, ◌==◌, front_size, collect, same,
}
use eps2probandltf.Common.Outcomes.{or_else}
use eps2probandltf.Common.OrderedMap.{Key, number_key, lookup, assign, update}
use eps2probandltf.Machine.{Machine, Arith}
use eps2probandltf.DataTypes.{
  BlobContainer, BlobCollection, BlobValue, get_equal_size_blob_collection,
}
use eps2probandltf.Common.Int.{pos}
use eps2probandltf.Container.{CrossContainer, index, column, write_column}
use eps2probandltf.Generator.Percentile.{count_if}
use Codes.{
  sun, light_cloud, partly_cloud, cloud, drizzle_sun, light_rain_sun, rain_sun, drizzle, light_rain,
  rain, nearby, contains,
}

-- The weather_symbol library: `weather_symbol::Error`, `Factory(6).getSymbol` and the interpretor's
-- `hasPrecipitation`. A code is its number in the enumeration.
pub record SymbolLibrary (F : Type 0) : Type 0 where
  pub error : ℕ
  pub get_symbol : F → F → ℕ
  pub has_precipitation : ℕ → Bool

-- `==` of a floating point type.
unfoldable pub equals : {A : Type 0} → Arith A → A → A → Bool
equals a x y = a.le x y && a.le y x

module _ ⦃m : Machine⦄ where
  -- `getProbabilityFactor(base, selected)`.
  unfoldable pub get_probability_factor : ℕ → ℕ → Result BlobValue
  get_probability_factor base selected = do
    set ← or_else Error.logic_error (lookup base nearby)
    ok (m.float.of_nat (if contains selected set then 1 else 0))

  -- `symbolInfluencesSelection` of generator/bits/algorithm.t.h.
  unfoldable pub symbol_influences_selection : ℕ → ℕ → Result Bool
  unfolding get_probability_factor
  symbol_influences_selection selected_symbol query = do
    factor ← get_probability_factor selected_symbol query
    ok (not (equals m.float factor (m.float.of_nat 0)))

  -- `getProbabilityFactor(start, stop, toShow, chanceOf)`; the count is `unsigned`.
  unfoldable pub get_probability_factor_of : BlobContainer → ℕ → ℕ → Result BlobValue
  get_probability_factor_of symbols to_show chance_of = do
    let elements = m.float.of_nat (length symbols)
    let element_count = count_if (λ x. equals m.float x (m.float.of_nat chance_of)) symbols % 2 ^ 32
    factor ← get_probability_factor to_show chance_of
    ok (
        m.narrow (
          m.double.mul
            (m.widen (m.float.mul (m.float.div (m.float.of_nat element_count) elements) factor))
            (m.double.of_nat 100)))

  -- The sum of `getProbabilityOf` over the codes that it names, from `sum`.
  unfoldable pub add_factors : BlobContainer → ℕ → List ℕ → BlobValue → Result BlobValue
  add_factors symbols s [] sum = ok sum
  add_factors symbols s (c ∷ codes) sum = do
    factor ← get_probability_factor_of symbols s c
    add_factors symbols s codes (m.float.add sum factor)

  -- The codes whose share `getProbabilityOf` adds up.
  abbrev pub summed_codes : List ℕ
  summed_codes = sun ∷ light_cloud ∷ partly_cloud ∷ cloud ∷ light_rain_sun ∷ light_rain ∷ rain ∷ []

  -- `getProbabilityOf`.
  unfoldable pub get_probability_of : BlobContainer → ℕ → Result BlobValue
  unfolding add_factors
  get_probability_of symbols s = add_factors symbols s summed_codes (m.float.of_nat 0)

  -- `++ symbolProbability[s]` for every member; the counts are `unsigned`.
  unfoldable pub tally : BlobContainer → List (ℕ × ℕ) → List (ℕ × ℕ)
  tally [] counts = counts
  tally (x ∷ symbols) counts = tally symbols (update (m.to_code x) 0 (λ n. (n + 1) % 2 ^ 32) counts)

  module _ ⦃lib : SymbolLibrary BlobValue⦄ where
    -- `hasPrecipitation`; a code that is passed to it becomes a `float` first.
    unfoldable pub has_precipitation : BlobValue → Bool
    has_precipitation code_as_float = lib.has_precipitation (m.to_code code_as_float)

    -- The loop over the map in `selectSymbol`.
    unfoldable pub select_from : Bool → List (ℕ × ℕ) → (ret count : ℕ) → ℕ
    select_from is_rain [] ret count = ret
    select_from is_rain ((c, n) ∷ counts) ret count =
        let better = ltb count n && same (has_precipitation (m.float.of_nat c)) is_rain in
        select_from is_rain counts (if better then c else ret) (if better then n else count)

    -- `isRain` of `selectSymbol`, where `numMembers` is one more than the number of members.
    unfoldable pub is_rain : BlobContainer → BlobValue → Bool
    is_rain symbols precip_fraction =
        let precipitation_count = count_if has_precipitation symbols in
        let num_members = length symbols + 1 in
        ltb 0 num_members
        && m.float.le precip_fraction
            (m.float.div (m.float.of_nat precipitation_count) (m.float.of_nat num_members))

    -- `selectSymbol`.
    unfoldable pub select_symbol : BlobContainer → BlobValue → ℕ
    unfolding tally select_from is_rain
    select_symbol symbols precip_fraction =
        select_from (is_rain symbols precip_fraction) (tally symbols []) lib.error 0

    -- The loop of `getSymbols` over the members of point `i`. An iterator at position `j` reads
    -- `at(j).at(i)`, as `operator[]` does.
    unfoldable pub get_symbols : BlobCollection → BlobCollection → ℕ → Result BlobContainer
    get_symbols cloud_cover precipitation i =
        let cloud_at =
          λ (j : ℕ). index (record { collection = cloud_cover; use_index = pos i }) (pos j) in
        let precip_at =
          λ (j : ℕ). index (record { collection = precipitation; use_index = pos i }) (pos j) in
        collect
          (λ j. do
            c ← cloud_at j
            p ← precip_at j
            ok (m.float.of_nat (lib.get_symbol (m.float.mul c (m.float.of_nat 100)) p)))
          (length cloud_cover) 0

    -- The state of the loop of `getSymbolCertainty`.
    pub record Certainty : Type 0 where
      pub symbols : BlobCollection
      pub symbol_out : BlobContainer
      pub certainty_out : BlobContainer

    -- One round: the symbols of point `i`, the selected one and its probability.
    unfoldable pub certainty_point :
        BlobCollection → BlobCollection → BlobValue → ℕ → Certainty → Result Certainty
    unfolding get_symbols select_symbol get_probability_of
    certainty_point cloud_cover precipitation precip_fraction i st = do
      cc ← get_symbols cloud_cover precipitation i
      let s = select_symbol cc precip_fraction
      probability ← get_probability_of cc s
      ok (record {
        symbols = write_column i st.symbols cc;
        symbol_out = st.symbol_out ++ m.float.of_nat s ∷ [];
        certainty_out = st.certainty_out ++ probability ∷ [];
      })

    unfoldable pub certainty_points :
        BlobCollection → BlobCollection → BlobValue → (n i : ℕ) → Certainty → Result Certainty
    unfolding certainty_point
    certainty_points cloud_cover precipitation precip_fraction zero i st = ok st
    certainty_points cloud_cover precipitation precip_fraction (suc n) i st = do
      st' ← certainty_point cloud_cover precipitation precip_fraction i st
      certainty_points cloud_cover precipitation precip_fraction n (suc i) st'

    -- `getSymbolCertainty`; all symbols are returned, the outputs appended to.
    unfoldable pub get_symbol_certainty :
        BlobCollection
        → BlobCollection
        → (symbol_out certainty_out : BlobContainer) → BlobValue
        → Result Certainty
    unfolding certainty_points
    get_symbol_certainty cloud_cover precipitation symbol_out certainty_out precip_fraction = do
      points ← front_size cloud_cover
      symbols ← get_equal_size_blob_collection cloud_cover
      certainty_points cloud_cover precipitation precip_fraction points 0
          (record { symbols = symbols; symbol_out = symbol_out; certainty_out = certainty_out })
