-- ===== src/Fimex/Setup.antt =====
-- data_access/fimex/GeneratedDataReader.cpp: the constructor.
use Prim.Native.String.{String}
use text.Mathlib.Text.{◌==◌, starts_with}
use eps2probandltf.Common.{
  ℕ, suc, ◌-◌, ◌^◌, false, not, ◌||◌, List, [], ◌∷◌, Option, none, some, Result, Error, ok, err,
  ◌>>=◌, length, if◌then◌else◌, ltb,
}
use eps2probandltf.Common.Int.{ℤ, pos, negsuc, ◌*ℤ◌, leb_ℤ}
use eps2probandltf.Common.TextMap.{has_text, insert_text}
use eps2probandltf.Machine.{Machine}
use eps2probandltf.WeatherData.{WeatherData, number, all_data}
use eps2probandltf.Generator.Percentile.{count_if}
use eps2probandltf.Fimex.Translation.{ParameterTranslation, ExtraVariable}
use eps2probandltf.Fimex.Parameters.{get_specification}
use eps2probandltf.Fimex.Cdm.{CdmReader, CdmLibrary, CdmDimension}
use eps2probandltf.Fimex.Buffers.{should_transfer}
use eps2probandltf.Fimex.Generated.{GeneratedDataReader}

-- `60 * 60 * wantedNumberOfHours` with an `int` of 32 bits, whose overflow is undefined.
unfoldable pub wanted_seconds : ℤ → Result ℤ
wanted_seconds hours =
    let product = pos 3600 *ℤ hours in
    if leb_ℤ (negsuc (2 ^ 31 - 1)) product
    then if leb_ℤ product (pos (2 ^ 31 - 1)) then ok product else err Error.undefined
    else err Error.undefined

module _ {Cdm Float Attribute : Type 0} (lib : CdmLibrary Cdm Float Attribute) where
  -- The attributes of a variable, one after the other.
  unfoldable pub put_attributes : String → List Attribute → Cdm → Result Cdm
  put_attributes name [] cdm = ok cdm
  put_attributes name (attribute ∷ attributes) cdm = do
    cdm' ← lib.add_attribute name attribute cdm
    put_attributes name attributes cdm'

  unfoldable pub put_global_attributes : List Attribute → Cdm → Result Cdm
  put_global_attributes [] cdm = ok cdm
  put_global_attributes (attribute ∷ attributes) cdm = do
    cdm' ← lib.add_global_attribute attribute cdm
    put_global_attributes attributes cdm'

  -- The loops over the extra dimensions, their variables and the extra variables.
  unfoldable pub put_extra_dimensions : List (String × List Float) → Cdm → Result Cdm
  put_extra_dimensions [] cdm = ok cdm
  put_extra_dimensions ((name, values) ∷ dimensions) cdm = do
    cdm' ←
        lib.add_dimension (record { name = name; length = length values; is_unlimited = false }) cdm
    put_extra_dimensions dimensions cdm'

  unfoldable pub put_dimension_variables : List (String × List Attribute) → Cdm → Result Cdm
  unfolding put_attributes
  put_dimension_variables [] cdm = ok cdm
  put_dimension_variables ((name, attributes) ∷ variables) cdm = do
    cdm' ← lib.add_variable name (name ∷ []) cdm
    cdm'' ← put_attributes name attributes cdm'
    put_dimension_variables variables cdm''

  unfoldable pub put_extra_variables :
      List (String × ExtraVariable Float Attribute) → Cdm → Result Cdm
  unfolding put_attributes
  put_extra_variables [] cdm = ok cdm
  put_extra_variables ((name, v) ∷ variables) cdm = do
    cdm' ← lib.add_data_variable name v.shape v.values cdm
    cdm'' ← put_attributes name v.attributes cdm'
    put_extra_variables variables cdm''

module _ ⦃m : Machine⦄ where
  -- An `int` as a `double`.
  abbrev pub of_int : ℤ → m.Double
  of_int (pos n) = m.double.of_nat n
  of_int (negsuc n) = m.double.sub (m.double.of_nat 0) (m.double.of_nat (suc n))

  -- How many of the times are at most the last one that is wanted.
  unfoldable pub count_times : ℤ → List m.Double → Result ℕ
  unfolding wanted_seconds count_if
  count_times hours [] = err Error.undefined
  count_times hours (first ∷ times) = do
    seconds ← wanted_seconds hours
    let last_time = m.double.add first (of_int seconds)
    ok (count_if (λ t. m.double.le t last_time) (first ∷ times))

-- What the loop over the variables changes: the names of the dimensions it has seen, the number of time
-- steps, the projection and the `CDM`.
pub record Transfer (Cdm : Type 0) : Type 0 where
  pub seen : List String
  pub time_steps : Option ℕ
  pub projection : String
  pub target : Cdm

module _ ⦃m : Machine⦄ {Cdm Attribute : Type 0} (lib : CdmLibrary Cdm m.Float Attribute) (hours : ℤ)
    (source : CdmReader m.Float m.Double Attribute) where
  -- An unlimited dimension, with `dim.setLength`.
  unfoldable pub limited_dimension : CdmDimension → Transfer Cdm → Result (Transfer Cdm)
  unfolding count_times
  limited_dimension d t = do
    times ← source.get_data d.name
    count ← count_times hours times
    let steps = if ltb count d.length then count else d.length
    cdm ← lib.add_dimension (record d { length = steps }) t.target
    ok (record t { time_steps = some steps; target = cdm })

  -- A dimension that is not yet there.
  unfoldable pub transfer_new_dimension : CdmDimension → Transfer Cdm → Result (Transfer Cdm)
  unfolding limited_dimension
  transfer_new_dimension d t =
      let unchanged = (do cdm ← lib.add_dimension d t.target; ok (record t { target = cdm })) in
      if d.is_unlimited then limited_dimension d t else unchanged

  -- The loop over the shape of a variable.
  unfoldable pub transfer_dimensions : List String → Transfer Cdm → Result (Transfer Cdm)
  unfolding has_text insert_text transfer_new_dimension
  transfer_dimensions [] t = ok t
  transfer_dimensions (dimension ∷ shape) t = do
    t' ←
        if has_text dimension t.seen
        then ok t
        else source.get_dimension dimension >>= λ d. transfer_new_dimension d t
    transfer_dimensions shape (record t' { seen = insert_text dimension t'.seen })

  module _ (translation : ParameterTranslation m.Float Attribute) where
    -- The loop over the variables of the source.
    unfoldable pub transfer_variables :
        List (String × List String) → Transfer Cdm → Result (Transfer Cdm)
    unfolding should_transfer transfer_dimensions put_attributes
    transfer_variables [] t = ok t
    transfer_variables ((name, shape) ∷ variables) t =
        let named = if starts_with name "projection_" then record t { projection = name } else t in
        let transferred = (do
          t' ← transfer_dimensions shape named
          cdm ← lib.add_variable name shape t'.target
          cdm' ← put_attributes lib name (source.get_attributes name) cdm
          ok (record t' { target = cdm' })) in
        let chosen = should_transfer source translation named.projection name in
        do t'' ← if chosen then transferred else ok named; transfer_variables variables t''

    -- The search for the spatial dimensions, which keeps the names of the last parameter.
    unfoldable pub find_axes : List WeatherData → String × String → Result (String × String)
    unfolding get_specification number
    find_axes [] axes = ok axes
    find_axes (d ∷ rest) axes =
        let here = (do
          spec ← get_specification translation d
          let x = source.get_horizontal_x_axis spec.cf_name
          let y = source.get_horizontal_y_axis spec.cf_name
          let found = not (x == "" || y == "")
          if found then ok (x, y) else find_axes rest (x, y)) in
        if ltb (number d) (number WeatherData.max_weather_data_entries) then here else ok axes

    -- The constructor, for a translation that has been read.
    unfoldable pub generated_data_reader :
        Result (GeneratedDataReader Cdm m.Float m.Double Attribute)
    unfolding put_global_attributes transfer_variables put_extra_dimensions put_dimension_variables
        put_extra_variables find_axes
    generated_data_reader = do
      start ← put_global_attributes lib translation.global_attributes lib.empty_cdm
      t ←
          transfer_variables source.variables
            (record { seen = []; time_steps = none; projection = ""; target = start })
      with_dimensions ← put_extra_dimensions lib translation.extra_dimensions t.target
      with_axes ← put_dimension_variables lib translation.dimension_variables with_dimensions
      cdm ← put_extra_variables lib translation.extra_variables with_axes
      axes ← find_axes all_data ("", "")
      _ ← check axes
      ok (record {
        source_reader = source;
        translation = translation;
        parameters = [];
        wanted_number_of_time_steps = t.time_steps;
        projection_variable = t.projection;
        x_dimension = axes.0;
        y_dimension = axes.1;
        fields = [];
        cdm = cdm;
      })
      where
        check : String × String → Result (Unit {0})
        check (x, y) = if x == "" || y == "" then err Error.runtime_error else ok tt
