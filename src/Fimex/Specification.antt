-- ===== src/Fimex/Specification.antt =====
-- data_access/fimex/FimexDataSpecification.h and .cpp: how a parameter is named and shaped in a file.
use Prim.Native.String.{String}
use text.Mathlib.Text.{◌==◌}
use eps2probandltf.Common.{List, Bool, not}
use eps2probandltf.Common.Int.{ℤ}

-- `FimexDataSpecification`. `offset_from_working_time` is in hours; `extra_dimension_value` is not set
-- without an extra dimension, and `F` needs a value for it.
pub record FimexDataSpecification (F Attribute : Type 0) : Type 0 where
  pub cf_name : String
  pub offset_from_working_time : ℤ
  pub attributes : List Attribute
  pub extra_dimension_name : String
  pub extra_dimension_value : F

module _ {F Attribute : Type 0} where
  -- The constructor; `unset` stands for what memory holds.
  unfoldable pub data_specification :
      (unset : F) → String → List Attribute → ℤ → FimexDataSpecification F Attribute
  data_specification unset cf_name attributes offset_from_working_time = record {
    cf_name = cf_name;
    offset_from_working_time = offset_from_working_time;
    attributes = attributes;
    extra_dimension_name = "";
    extra_dimension_value = unset;
  }

  -- `addExtraDimension`.
  unfoldable pub add_extra_dimension :
      String → F → FimexDataSpecification F Attribute → FimexDataSpecification F Attribute
  add_extra_dimension cfname value spec = record spec {
    extra_dimension_name = cfname;
    extra_dimension_value = value;
  }

  -- `hasExtraDimension`.
  unfoldable pub has_extra_dimension : FimexDataSpecification F Attribute → Bool
  has_extra_dimension spec = not (spec.extra_dimension_name == "")

  -- `getParametersValidTime`; `add_hours` is the `+` of local times.
  unfoldable pub get_parameters_valid_time :
      {Time : Type 0} → (Time → ℤ → Time) → FimexDataSpecification F Attribute → Time → Time
  get_parameters_valid_time add_hours spec working_time =
      add_hours working_time spec.offset_from_working_time
