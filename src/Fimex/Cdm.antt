-- ===== src/Fimex/Cdm.antt =====
-- What the code calls of the Fimex library to read and to describe a file.
use Prim.Native.String.{String}
use eps2probandltf.Common.{ℕ, Bool, List, Option, Result}

-- `CDMDimension`.
pub record CdmDimension : Type 0 where
  pub name : String
  pub length : ℕ
  pub is_unlimited : Bool

-- A `CDMReader` with its `CDM`: values as `float` and as `double`, variables by name. `double_attribute`
-- gives the first value of an attribute that a variable has.
pub record CdmReader (Float Double Attribute : Type 0) : Type 0 where
  pub dimensions : List CdmDimension
  pub variables : List (String × List String)
  pub has_variable : String → Bool
  pub get_shape : String → Result (List String)
  pub get_dimension : String → Result CdmDimension
  pub get_attributes : String → List Attribute
  pub double_attribute : (variable name : String) → Option Double
  pub get_time_axis : String → String
  pub get_horizontal_x_axis : String → String
  pub get_horizontal_y_axis : String → String
  pub get_data : String → Result (List Double)
  pub get_data_slice : String → ℕ → Result (List Float)

-- A `CDM` that the code fills, and the making of data of type float.
pub record CdmLibrary (Cdm Float Attribute : Type 0) : Type 0 where
  pub empty_cdm : Cdm
  pub add_global_attribute : Attribute → Cdm → Result Cdm
  pub add_attribute : String → Attribute → Cdm → Result Cdm
  pub add_dimension : CdmDimension → Cdm → Result Cdm
  pub add_variable : String → List String → Cdm → Result Cdm
  pub add_data_variable : String → List String → List Float → Cdm → Result Cdm
  pub get_dimension : Cdm → String → Result CdmDimension
  pub get_shape : Cdm → String → Result (List String)
  pub grid_mapping : String → Attribute
  pub create_data : ℕ → Result (List Float)
  pub create_missing : ℕ → Result (List Float)
