-- ===== src/Fimex/Generated.antt =====
-- data_access/fimex/GeneratedDataReader.h and .cpp: the fields that have been written, as a reader. Its
-- constructor is in Setup.
use Prim.Native.String.{String}
use eps2probandltf.Common.{
  ℕ, ◌*◌, ◌%◌, ◌^◌, ◌-◌, List, [], ◌∷◌, ◌++◌, Option, none, some, Result, Error, ok, err, length,
  if◌then◌else◌, ltb, get_elem?, set, at,
}
use eps2probandltf.Common.Int.{ℤ, pos, negsuc}
use eps2probandltf.Common.Outcomes.{or_else}
use eps2probandltf.Common.Steps.{Step, ◌>>=◌, return, lift, reads, modify}
use eps2probandltf.Common.OrderedMap.{or_default}
use eps2probandltf.Common.TextMap.{find_text, assign_text, has_text, insert_text}
use eps2probandltf.Machine.{Machine}
use eps2probandltf.WeatherData.{WeatherData}
use eps2probandltf.LocalTime.{get_seconds_since_epoch}
use eps2probandltf.Fimex.Specification.{
  FimexDataSpecification, has_extra_dimension, get_parameters_valid_time,
}
use eps2probandltf.Fimex.Translation.{ParameterTranslation}
use eps2probandltf.Fimex.Parameters.{get_specification}
use eps2probandltf.Fimex.Cdm.{CdmReader, CdmLibrary}
use eps2probandltf.Common.Int.{int_of_size}
use eps2probandltf.Fimex.Source.{TimeLibrary}
use eps2probandltf.Fimex.Buffers.{
  DataList, resize, copy_into, slice_size, should_transfer, equal_index, get_output_buffer_index,
}

-- `GeneratedDataReader`. `wanted_number_of_time_steps` is `none` as long as nothing is written to it.
pub record GeneratedDataReader (Cdm Float Double Attribute : Type 0) : Type 0 where
  pub source_reader : CdmReader Float Double Attribute
  pub translation : ParameterTranslation Float Attribute
  pub parameters : List String
  pub wanted_number_of_time_steps : Option ℕ
  pub projection_variable : String
  pub x_dimension : String
  pub y_dimension : String
  pub fields : List (String × DataList Float)
  pub cdm : Cdm

-- An `int` as a `std::size_t`.
abbrev size_of_int : ℤ → ℕ
size_of_int (pos n) = n
size_of_int (negsuc n) = 2 ^ 64 - 1 - n

module _ ⦃m : Machine⦄ {Time Cdm Attribute : Type 0} (times : TimeLibrary Time m.Double)
    (lib : CdmLibrary Cdm m.Float Attribute) where
  -- A method that changes the object and may throw.
  abbrev pub Method : Type 0 → Type 0
  Method = Step (GeneratedDataReader Cdm m.Float m.Double Attribute)

  -- `getValidTimeIndex_`.
  unfoldable pub get_valid_time_index : Time → Method ℕ
  unfolding equal_index get_seconds_since_epoch
  get_valid_time_index valid_time = do
    source ← reads (λ s. s.source_reader)
    values ← lift (source.get_data "time")
    lift (equal_index (m.double.of_nat (get_seconds_since_epoch times.clock valid_time)) values 0)

  -- `data_[cfName]`, resized.
  unfoldable pub make_room : String → Method (DataList m.Float)
  unfolding find_text assign_text resize
  make_room cf_name = do
    room ← reads (λ s. s.wanted_number_of_time_steps)
    wanted ← lift (or_else Error.undefined room)
    entries ← reads (λ s. resize wanted (or_default [] (find_text cf_name s.fields)))
    _ ← modify (λ s. record s { fields = assign_text cf_name entries s.fields })
    return entries

  -- `binaryData[idx] = ...`.
  unfoldable pub store : String → DataList m.Float → ℕ → List m.Float → Method (Unit {0})
  unfolding assign_text
  store cf_name entries idx buffer =
      modify
        (λ s. record s { fields = assign_text cf_name (set entries idx (some buffer)) s.fields })

  -- The number of values of a new buffer.
  unfoldable pub buffer_size : FimexDataSpecification m.Float Attribute → ℕ → Method ℕ
  unfolding has_extra_dimension int_of_size
  buffer_size spec n = do
    cdm ← reads (λ s. s.cdm)
    let scaled = (do
      d ← lift (lib.get_dimension cdm spec.extra_dimension_name)
      return (size_of_int (int_of_size n) * d.length))
    size ← if has_extra_dimension spec then scaled else return n
    return (size_of_int (int_of_size size))

  -- The buffer of a time, which is made if it is not there.
  unfoldable pub buffer_from :
      FimexDataSpecification m.Float Attribute
      → DataList m.Float
      → (idx n : ℕ) → Option (List m.Float)
      → Method (List m.Float)
  unfolding buffer_size store
  buffer_from spec entries idx n (some buffer) = return buffer
  buffer_from spec entries idx n none = do
    size ← buffer_size spec n
    buffer ← lift (lib.create_data size)
    _ ← store spec.cf_name entries idx buffer
    return buffer

  unfoldable pub buffer_for :
      FimexDataSpecification m.Float Attribute
      → DataList m.Float
      → (idx n : ℕ) → Method (List m.Float)
  unfolding buffer_from
  buffer_for spec entries idx n =
      buffer_from spec entries idx n (or_default none (get_elem? entries idx))

  -- A call that changes the `CDM`.
  unfoldable pub change_cdm : (Cdm → Result Cdm) → Method (Unit {0})
  change_cdm f = do
    cdm ← reads (λ s. s.cdm)
    cdm' ← lift (f cdm)
    modify (λ s. record s { cdm = cdm' })

  unfoldable pub add_attributes : String → List Attribute → Method (Unit {0})
  unfolding change_cdm
  add_attributes name [] = return tt
  add_attributes name (attribute ∷ attributes) = do
    _ ← change_cdm (lib.add_attribute name attribute)
    add_attributes name attributes

  -- The shape of a new variable.
  unfoldable pub shape_of :
      FimexDataSpecification m.Float Attribute → (x_dimension y_dimension : String) → List String
  unfolding has_extra_dimension
  shape_of spec x_dimension y_dimension =
      let extra = if has_extra_dimension spec then spec.extra_dimension_name ∷ [] else [] in
      x_dimension ∷ y_dimension ∷ (extra ++ "time" ∷ [])

  -- The end of `add`, which registers a variable.
  unfoldable pub register : FimexDataSpecification m.Float Attribute → Method (Unit {0})
  unfolding shape_of change_cdm add_attributes has_text insert_text
  register spec = do
    known ← reads (λ s. has_text spec.cf_name s.parameters)
    shape ← reads (λ s. shape_of spec s.x_dimension s.y_dimension)
    projection ← reads (λ s. s.projection_variable)
    let registered = (do
      _ ← change_cdm (lib.add_variable spec.cf_name shape)
      _ ← add_attributes spec.cf_name spec.attributes
      _ ← change_cdm (lib.add_attribute spec.cf_name (lib.grid_mapping projection))
      modify (λ s. record s { parameters = insert_text spec.cf_name s.parameters }))
    if known then return tt else registered

  -- `add` from the storage on, for an index that is in the list.
  unfoldable pub write_field :
      FimexDataSpecification m.Float Attribute
      → DataList m.Float
      → ℕ
      → List m.Float
      → Method (Unit {0})
  unfolding buffer_for get_output_buffer_index copy_into store register
  write_field spec entries idx values = do
    buffer ← buffer_for spec entries idx (length values)
    translation ← reads (λ s. s.translation)
    place ← lift (get_output_buffer_index translation spec)
    buffer' ← lift (copy_into (place * length values % 2 ^ 32) values buffer)
    _ ← store spec.cf_name entries idx buffer'
    register spec

  -- `add`.
  unfoldable pub add : WeatherData → Time → List m.Float → Method (Unit {0})
  unfolding get_specification make_room get_valid_time_index get_parameters_valid_time write_field
  add d working_time values = do
    translation ← reads (λ s. s.translation)
    spec ← lift (get_specification translation d)
    entries ← make_room spec.cf_name
    idx ← get_valid_time_index (get_parameters_valid_time times.add_hours spec working_time)
    if ltb idx (length entries) then write_field spec entries idx values else return tt

  -- `getDataSlice`.
  unfoldable pub get_data_slice :
      GeneratedDataReader Cdm m.Float m.Double Attribute → String → ℕ → Result (List m.Float)
  unfolding should_transfer find_text slice_size
  get_data_slice s name position =
      let transferred = should_transfer s.source_reader s.translation s.projection_variable name in
      if transferred
      then s.source_reader.get_data_slice name position
      else elim (find_text name s.fields) [
        | some entries ↦ elim (at entries position) [
          | err e ↦ err e
          | ok (some values) ↦ ok values
          | ok none ↦ missing_slice
        ]
        | none ↦ or_else Error.runtime_error (find_text name s.translation.extra_dimensions)
      ]
    where
      with_size : Result ℕ → Result (List m.Float)
      with_size (ok size) = lib.create_missing size
      with_size (err e) = err e

      with_shape : Result (List String) → Result (List m.Float)
      with_shape (ok shape) = with_size (slice_size (lib.get_dimension s.cdm) shape 1)
      with_shape (err e) = err e

      missing_slice : Result (List m.Float)
      missing_slice = with_shape (lib.get_shape s.cdm name)
