-- ===== src/Fimex/Parameters.antt =====
-- data_access/fimex/ParameterTranslation.cpp: the parameters of the file, and the constructor.
use Prim.Native.String.{String}
use text.Mathlib.Text.{◌==◌}
use eps2probandltf.Common.{
  Bool, not, List, [], ◌∷◌, ◌++◌, Option, none, some, Result, Error, ok, err, ◌>>=◌, if◌then◌else◌,
}
use eps2probandltf.Common.Int.{ℤ, pos}
use eps2probandltf.Common.Outcomes.{or_else}
use eps2probandltf.Common.OrderedMap.{lookup, assign, or_default}
use eps2probandltf.Common.TextMap.{find_text, assign_text}
use eps2probandltf.Machine.{Arith}
use eps2probandltf.WeatherData.{WeatherData, weather_key}
use eps2probandltf.Fimex.Specification.{
  FimexDataSpecification, data_specification, add_extra_dimension,
}
use eps2probandltf.Fimex.Identifiers.{config_file_identifiers, get_identifying_name, parameter_path}
use eps2probandltf.Fimex.Xml.{XmlNode, XmlElement, get_attribute, get_attribute_or}
use eps2probandltf.Fimex.Translation.{
  TranslationLibrary, ParameterTranslation, ExtraVariable, Document, check_element, read_dimension,
  read_variable, add_global_attributes, add_direct_transfer_variables, get_value,
}

module _ {F Attribute : Type 0} (a : Arith F) (lib : TranslationLibrary F Attribute) where
  -- `time_offset`: a missing attribute is zero, a text that is no number an error.
  unfoldable pub read_time_offset : XmlNode → Result ℤ
  unfolding get_attribute
  read_time_offset node = elim (get_attribute node "time_offset") [
    | ok text ↦ or_else Error.runtime_error (lib.cast_int text)
    | err e ↦ missing e
  ]
    where
      missing : Error → Result ℤ
      missing Error.runtime_error = ok (pos 0)
      missing e = err e

  -- A second extra dimension is an error.
  abbrev only_one : String → Result (Unit {0})
  only_one name = if name == "" then ok tt else err Error.runtime_error

  -- The inner loop of `addParameters_`, on the attributes and the extra dimension.
  unfoldable pub read_parameter :
      List XmlNode → List Attribute → String × F → Result (List Attribute × String × F)
  unfolding get_attribute get_attribute_or get_value
  read_parameter [] attributes extra = ok (attributes, extra.0, extra.1)
  read_parameter (node ∷ children) attributes extra =
      let with_attribute = (do
        name ← get_attribute node "cfname"
        unit ← get_attribute_or node "unit" "String"
        value ← get_attribute node "value"
        attribute ← lib.typed_attribute name unit value
        read_parameter children (attributes ++ attribute ∷ []) extra) in
      let with_dimension = (do
        cfname ← get_attribute node "cfname"
        text ← get_attribute node "value"
        value ← get_value a lib text
        _ ← only_one extra.0
        read_parameter children attributes (cfname, value)) in
      if node.name == "attribute"
      then with_attribute
      else if node.name == "dimension"
      then with_dimension
      else read_parameter children attributes extra

  -- `addParameters_` from the node on.
  unfoldable pub read_specification : XmlElement → Result (FimexDataSpecification F Attribute)
  unfolding check_element get_attribute read_time_offset read_parameter data_specification
      add_extra_dimension
  read_specification e = do
    _ ← check_element e
    cf_name ← get_attribute e.node "cfname"
    time_offset ← read_time_offset e.node
    found ← read_parameter e.children [] ("", lib.unset)
    let spec = data_specification lib.unset cf_name found.0 time_offset
    ok (if found.1 == "" then spec else add_extra_dimension found.1 found.2 spec)

  abbrev pub Specifications : Type 0
  Specifications = List (WeatherData × FimexDataSpecification F Attribute)

  -- `addParameters_` for the nodes of its path. `insert` leaves a parameter that is there.
  unfoldable pub add_parameter_nodes :
      WeatherData → Option (List XmlElement) → Specifications → Result Specifications
  unfolding read_specification
  add_parameter_nodes d none translations = err Error.runtime_error
  add_parameter_nodes d (some []) translations = ok translations
  add_parameter_nodes d (some (e ∷ [])) translations = do
    spec ← read_specification e
    ok (elim (lookup d translations) [
      | none ↦ assign d spec translations
      | some old ↦ translations
    ])
  add_parameter_nodes d (some (e ∷ e' ∷ nodes)) translations = err Error.runtime_error

  -- `addParameters_`.
  unfoldable pub add_parameters : Document → WeatherData → Specifications → Result Specifications
  unfolding add_parameter_nodes get_identifying_name
  add_parameters document d translations = do
    identifier ← get_identifying_name d
    add_parameter_nodes d (document (parameter_path identifier)) translations

  -- The loop of the constructor over `configFileIdentifiers_`.
  unfoldable pub add_all_parameters :
      Document → List (WeatherData × String) → Specifications → Result Specifications
  unfolding add_parameters
  add_all_parameters document [] translations = ok translations
  add_all_parameters document ((d, name) ∷ identifiers) translations = do
    more ← add_parameters document d translations
    add_all_parameters document identifiers more

  -- The loop of `addExtraDimensions_`, over both of its maps.
  unfoldable pub add_extra_dimensions :
      List XmlElement
      → List (String × List Attribute) × List (String × List F)
      → Result (List (String × List Attribute) × List (String × List F))
  unfolding check_element get_attribute read_dimension find_text assign_text
  add_extra_dimensions [] maps = ok maps
  add_extra_dimensions (e ∷ nodes) maps = do
    _ ← check_element e
    cf_name ← get_attribute e.node "cfname"
    found ←
        read_dimension a lib e.children (or_default [] (find_text cf_name maps.0))
          (or_default [] (find_text cf_name maps.1))
    add_extra_dimensions nodes
        (assign_text cf_name found.0 maps.0, assign_text cf_name found.1 maps.1)

  -- `extraVariables_[var] = attributes`, which keeps the variable of a name that is there.
  unfoldable pub put_variable :
      String
      → ExtraVariable F Attribute
      → List (String × ExtraVariable F Attribute)
      → List (String × ExtraVariable F Attribute)
  unfolding find_text assign_text
  put_variable name v variables = elim (find_text name variables) [
    | none ↦ assign_text name v variables
    | some old ↦ assign_text name (record old { attributes = v.attributes }) variables
  ]

  -- The loop of `addExtraVariables_`.
  unfoldable pub add_extra_variables :
      List XmlElement
      → List (String × ExtraVariable F Attribute)
      → Result (List (String × ExtraVariable F Attribute))
  unfolding check_element get_attribute read_variable put_variable
  add_extra_variables [] variables = ok variables
  add_extra_variables (e ∷ nodes) variables = do
    _ ← check_element e
    cf_name ← get_attribute e.node "cfname"
    v ← read_variable a lib e.children (record { shape = []; values = []; attributes = [] })
    add_extra_variables nodes (put_variable cf_name v variables)

  -- The nodes of a path; for a null pointer the first four steps of the constructor do nothing.
  abbrev pub nodes_at : Document → String → List XmlElement
  nodes_at document path = or_default [] (document path)

  -- The constructor, for a document that is parsed.
  unfoldable pub read_translation : Document → Result (ParameterTranslation F Attribute)
  unfolding add_global_attributes add_direct_transfer_variables add_extra_dimensions
      add_extra_variables add_all_parameters config_file_identifiers
  read_translation document = do
    globals ← add_global_attributes a lib (nodes_at document "/eps2probandltf/global_attribute") []
    direct ←
        add_direct_transfer_variables a lib (nodes_at document "/eps2probandltf/direct_transfer") []
    maps ← add_extra_dimensions (nodes_at document "/eps2probandltf/dimension") ([], [])
    variables ← add_extra_variables (nodes_at document "/eps2probandltf/variable") []
    specifications ← add_all_parameters document config_file_identifiers []
    ok (record {
      global_attributes = globals;
      direct_transfer_variables = direct;
      translations = specifications;
      extra_dimensions = maps.1;
      dimension_variables = maps.0;
      extra_variables = variables;
    })

  -- The constructor: whether the file exists and is a directory, and the document if it can be parsed.
  unfoldable pub parameter_translation :
      (exists is_directory : Bool) → Option Document → Result (ParameterTranslation F Attribute)
  unfolding read_translation
  parameter_translation exists is_directory parsed =
      let document = or_else Error.runtime_error parsed in
      if not exists
      then err Error.runtime_error
      else if is_directory
      then err Error.runtime_error
      else document >>= read_translation

module _ {F Attribute : Type 0} where
  -- `get`.
  unfoldable pub get_specification :
      ParameterTranslation F Attribute → WeatherData → Result (FimexDataSpecification F Attribute)
  unfolding lookup
  get_specification t d = or_else Error.data_not_available (lookup d t.translations)

  -- `dimensionValues(cfname)`.
  unfoldable pub dimension_values : ParameterTranslation F Attribute → String → Result (List F)
  unfolding find_text
  dimension_values t cfname = or_else Error.runtime_error (find_text cfname t.extra_dimensions)
