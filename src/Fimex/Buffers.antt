-- ===== src/Fimex/Buffers.antt =====
-- data_access/fimex/GeneratedDataReader.cpp: the searches and the buffers of the reader of written fields.
use Prim.Native.String.{String}
use text.Mathlib.Text.{◌==◌}
use eps2probandltf.Common.{
  ℕ, zero, suc, ◌*◌, ◌%◌, ◌^◌, Bool, true, false, List, [], ◌∷◌, Option, none, Result, Error, ok,
  err, ◌>>=◌, if◌then◌else◌,
}
use eps2probandltf.Common.TextMap.{has_text}
use eps2probandltf.Machine.{Machine}
use eps2probandltf.Fimex.Specification.{FimexDataSpecification, has_extra_dimension}
use eps2probandltf.Fimex.Translation.{ParameterTranslation}
use eps2probandltf.Fimex.Parameters.{dimension_values}
use eps2probandltf.Fimex.Cdm.{CdmReader, CdmDimension}
use eps2probandltf.Fimex.Extract.{equals}

-- A `DataList`: the data of each time, `none` for a null pointer.
abbrev pub DataList : Type 0 → Type 0
DataList Float = List (Option (List Float))

module _ {A : Type 0} where
  -- `resize` of a `DataList`.
  unfoldable pub resize : ℕ → DataList A → DataList A
  resize zero xs = []
  resize (suc n) [] = none ∷ resize n []
  resize (suc n) (x ∷ xs) = x ∷ resize n xs

  -- `std::copy(data.begin(), data.end(), buffer + offset)`.
  unfoldable pub copy_into : (offset : ℕ) → (values buffer : List A) → Result (List A)
  copy_into offset [] buffer = ok buffer
  copy_into offset (x ∷ xs) [] = err Error.undefined
  copy_into zero (x ∷ xs) (b ∷ buffer) = do rest ← copy_into zero xs buffer; ok (x ∷ rest)
  copy_into (suc n) (x ∷ xs) (b ∷ buffer) = do rest ← copy_into n (x ∷ xs) buffer; ok (b ∷ rest)

-- The loop of `shouldTransferFromSourceToSink_`.
unfoldable pub has_dimension : String → List CdmDimension → Bool
has_dimension variable [] = false
has_dimension variable (d ∷ dimensions) =
    if d.name == variable then true else has_dimension variable dimensions

-- The loop of `getSliceSize` over the shape.
unfoldable pub slice_size : (String → Result CdmDimension) → List String → ℕ → Result ℕ
slice_size get_dimension [] size = ok size
slice_size get_dimension (name ∷ shape) size = do
  d ← get_dimension name
  slice_size get_dimension shape (if d.is_unlimited then size else size * d.length % 2 ^ 64)

module _ ⦃m : Machine⦄ where
  -- The search of `getValidTimeIndex_`.
  unfoldable pub equal_index : (wanted : m.Double) → List m.Double → ℕ → Result ℕ
  equal_index wanted [] i = err Error.runtime_error
  equal_index wanted (t ∷ times) i =
      let later = equal_index wanted times (suc i) in if equals t wanted then ok i else later

  -- The place of a value in a `std::set<float>`.
  unfoldable pub value_index : m.Float → List m.Float → ℕ → Result ℕ
  value_index x [] i = err Error.runtime_error
  value_index x (y ∷ ys) i =
      let later = value_index x ys (suc i) in
      if m.float.lt y x then later else if m.float.lt x y then err Error.runtime_error else ok i

module _ ⦃m : Machine⦄ {Attribute : Type 0} where
  -- `shouldTransferFromSourceToSink_`.
  unfoldable pub should_transfer :
      CdmReader m.Float m.Double Attribute
      → ParameterTranslation m.Float Attribute
      → (projection variable : String) → Bool
  unfolding has_text has_dimension
  should_transfer source translation projection variable =
      if has_text variable translation.direct_transfer_variables
      then true
      else if variable == projection
      then true
      else has_dimension variable source.dimensions

  -- `getOutputBufferIndex_`.
  unfoldable pub get_output_buffer_index :
      ParameterTranslation m.Float Attribute → FimexDataSpecification m.Float Attribute → Result ℕ
  unfolding has_extra_dimension dimension_values value_index
  get_output_buffer_index translation spec =
      if has_extra_dimension spec
      then or_else_find (dimension_values translation spec.extra_dimension_name)
      else ok 0
    where
      or_else_find : Result (List m.Float) → Result ℕ
      or_else_find (err e) = err e
      or_else_find (ok values) = value_index spec.extra_dimension_value values 0
