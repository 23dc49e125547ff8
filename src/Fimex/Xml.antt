-- ===== src/Fimex/Xml.antt =====
-- What ParameterTranslation.cpp reads of libxml2's nodes, and `getAttribute_`.
use Prim.Native.String.{String}
use text.Mathlib.Text.{◌==◌}
use eps2probandltf.Common.{Bool, List, [], ◌∷◌, Result, Error, ok, err, ◌>>=◌, if◌then◌else◌}

-- `xmlNode`: whether it is an element, its name and its properties with their values. A property with
-- the empty value has no child node.
pub record XmlNode : Type 0 where
  pub is_element : Bool
  pub name : String
  pub properties : List (String × String)

-- A node that a path finds, with its children.
pub record XmlElement : Type 0 where
  pub node : XmlNode
  pub children : List XmlNode

-- `attr->children->content`, which goes through a null pointer for an empty value.
unfoldable pub content : String → Result String
content value = if value == "" then err Error.undefined else ok value

-- The loop of `getAttribute_` with a default value.
unfoldable pub find_property : String → String → List (String × String) → Result String
unfolding content
find_property name default_value [] = ok default_value
find_property name default_value ((key, value) ∷ properties) =
    if key == name then content value else find_property name default_value properties

-- `getAttribute_` with a default value.
unfoldable pub get_attribute_or : XmlNode → String → String → Result String
unfolding find_property
get_attribute_or element_node name default_value =
    find_property name default_value element_node.properties

-- `getAttribute_`.
unfoldable pub get_attribute : XmlNode → String → Result String
unfolding get_attribute_or
get_attribute element_node name = do
  ret ← get_attribute_or element_node name ""
  if ret == "" then err Error.runtime_error else ok ret
