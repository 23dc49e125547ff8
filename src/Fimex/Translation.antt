-- ===== src/Fimex/Translation.antt =====
-- data_access/fimex/ParameterTranslation.h and .cpp: the parameter file as tables.
use Prim.Native.String.{String}
use text.Mathlib.Text.{◌==◌}
use eps2probandltf.Common.{
  List, [], ◌∷◌, ◌++◌, Option, Result, Error, ok, err, ◌>>=◌, if◌then◌else◌,
}
use eps2probandltf.Common.Int.{ℤ}
use eps2probandltf.Common.Outcomes.{or_else}
use eps2probandltf.Common.TextMap.{insert_text}
use eps2probandltf.Machine.{Arith}
use eps2probandltf.WeatherData.{WeatherData, weather_key}
use eps2probandltf.Fimex.Specification.{FimexDataSpecification}
use eps2probandltf.Fimex.Xml.{XmlNode, XmlElement, get_attribute}

-- What the code calls to read the file: `CDMAttribute` of Fimex with a name and a value, and with a type
-- too, and `boost::lexical_cast`, which is `none` for a bad text. `unset` is a `float` that was never
-- written.
pub record TranslationLibrary (F Attribute : Type 0) : Type 0 where
  pub string_attribute : (name value : String) → Attribute
  pub typed_attribute : (name type value : String) → Result Attribute
  pub cast_float : String → Option F
  pub cast_int : String → Option ℤ
  pub unset : F

-- A `CDMVariable` of type float: its name, shape and data. The map of extra variables is keyed by name.
pub record ExtraVariable (F Attribute : Type 0) : Type 0 where
  pub shape : List String
  pub values : List F
  pub attributes : List Attribute

-- `ParameterTranslation`.
pub record ParameterTranslation (F Attribute : Type 0) : Type 0 where
  pub global_attributes : List Attribute
  pub direct_transfer_variables : List String
  pub translations : List (WeatherData × FimexDataSpecification F Attribute)
  pub extra_dimensions : List (String × List F)
  pub dimension_variables : List (String × List Attribute)
  pub extra_variables : List (String × ExtraVariable F Attribute)

-- The nodes that `xmlXPathEvalExpression` finds, `none` for a null pointer.
abbrev pub Document : Type 0
Document = String → Option (List XmlElement)

-- `elementNode->type != XML_ELEMENT_NODE`.
unfoldable pub check_element : XmlElement → Result (Unit {0})
check_element e = if e.node.is_element then ok tt else err Error.runtime_error

module _ {F Attribute : Type 0} (a : Arith F) (lib : TranslationLibrary F Attribute) where
  -- `values.insert(value)` of a `std::set<float>`.
  unfoldable pub insert_value : F → List F → List F
  insert_value x [] = x ∷ []
  insert_value x (y ∷ ys) =
      if a.lt x y then x ∷ y ∷ ys else if a.lt y x then y ∷ insert_value x ys else y ∷ ys

  -- `getValue<float>`.
  unfoldable pub get_value : String → Result F
  get_value s = or_else Error.runtime_error (lib.cast_float s)

  -- The attribute of a node with the names `cfname` and `value`.
  unfoldable pub read_attribute : XmlNode → Result Attribute
  unfolding get_attribute
  read_attribute node = do
    name ← get_attribute node "cfname"
    value ← get_attribute node "value"
    ok (lib.string_attribute name value)

  -- The value of a node.
  unfoldable pub read_value : XmlNode → Result F
  unfolding get_attribute get_value
  read_value node = do text ← get_attribute node "value"; get_value text

  -- The loop of `addGlobalAttributes_`.
  unfoldable pub add_global_attributes : List XmlElement → List Attribute → Result (List Attribute)
  unfolding check_element read_attribute
  add_global_attributes [] attributes = ok attributes
  add_global_attributes (e ∷ nodes) attributes = do
    _ ← check_element e
    attribute ← read_attribute e.node
    add_global_attributes nodes (attributes ++ attribute ∷ [])

  -- The loop of `addDirectTransferVariables_`.
  unfoldable pub add_direct_transfer_variables :
      List XmlElement → List String → Result (List String)
  unfolding check_element get_attribute insert_text
  add_direct_transfer_variables [] variables = ok variables
  add_direct_transfer_variables (e ∷ nodes) variables = do
    _ ← check_element e
    name ← get_attribute e.node "cfname"
    add_direct_transfer_variables nodes (insert_text name variables)

  -- The inner loop of `addExtraDimensions_`, on what it appends to the attributes and the values.
  unfoldable pub read_dimension :
      List XmlNode → List Attribute → List F → Result (List Attribute × List F)
  unfolding read_attribute read_value insert_value
  read_dimension [] attributes values = ok (attributes, values)
  read_dimension (node ∷ children) attributes values =
      let with_attribute = (do
        attribute ← read_attribute node
        read_dimension children (attributes ++ attribute ∷ []) values) in
      let with_value = (do
        value ← read_value node
        read_dimension children attributes (insert_value value values)) in
      if node.name == "attribute"
      then with_attribute
      else if node.name == "value"
      then with_value
      else read_dimension children attributes values

  -- The inner loop of `addExtraVariables_`.
  unfoldable pub read_variable :
      List XmlNode → ExtraVariable F Attribute → Result (ExtraVariable F Attribute)
  unfolding get_attribute read_attribute read_value
  read_variable [] v = ok v
  read_variable (node ∷ children) v =
      let with_dimension = (do
        name ← get_attribute node "cfname"
        read_variable children (record v { shape = v.shape ++ name ∷ [] })) in
      let with_attribute = (do
        attribute ← read_attribute node
        read_variable children (record v { attributes = v.attributes ++ attribute ∷ [] })) in
      let with_value = (do
        value ← read_value node
        read_variable children (record v { values = v.values ++ value ∷ [] })) in
      if node.name == "dimension"
      then with_dimension
      else if node.name == "attribute"
      then with_attribute
      else if node.name == "value"
      then with_value
      else read_variable children v
