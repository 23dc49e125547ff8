-- ===== src/Fimex/Untouched.antt =====
-- What the parts of `add` leave as it is.
use Prim.Native.String.{String}
use eps2probandltf.Common.{ℕ, refl, ap, List, [], ◌∷◌, Option, none, some, Result, length}
use eps2probandltf.Common.Steps.{
  Preserves, then-Preserves, reads-Preserves, lift-Preserves, return-Preserves, modify-Preserves,
  if-Preserves,
}
use eps2probandltf.Machine.{Machine}
use eps2probandltf.Fimex.Specification.{FimexDataSpecification, has_extra_dimension}
use eps2probandltf.Fimex.Cdm.{CdmReader, CdmLibrary}
use eps2probandltf.Fimex.Translation.{ParameterTranslation}
use eps2probandltf.Fimex.Source.{TimeLibrary}
use eps2probandltf.Fimex.Buffers.{DataList}
use eps2probandltf.Fimex.Generated.{
  GeneratedDataReader, store, buffer_size, buffer_from, buffer_for, change_cdm, add_attributes,
  register, write_field,
}

module _ ⦃m : Machine⦄ {Time Cdm Attribute : Type 0} (times : TimeLibrary Time m.Double)
    (lib : CdmLibrary Cdm m.Float Attribute) where
  abbrev pub Reader : Type 0
  Reader = GeneratedDataReader Cdm m.Float m.Double Attribute

  -- The size of a buffer changes nothing.
  pub buffer_size-Preserves :
      (spec : FimexDataSpecification m.Float Attribute) (n : ℕ)
      → Preserves (λ (r : Reader). r) (buffer_size times lib spec n)
  unfolding buffer_size
  buffer_size-Preserves spec n = then-Preserves _ (reads-Preserves _ _) (λ cdm.
      then-Preserves _
        (if-Preserves _ (has_extra_dimension spec)
          (then-Preserves _ (lift-Preserves _ _) (λ d. return-Preserves _ _))
          (return-Preserves _ _))
        (λ size. return-Preserves _ _))

  -- Registering changes only the `CDM` and the names that are registered.
  abbrev pub View : Type 0
  View =
      List (String × DataList m.Float)
      × CdmReader m.Float m.Double Attribute
      × ParameterTranslation m.Float Attribute
      × String

  abbrev pub view : Reader → View
  view r = (r.fields, r.source_reader, r.translation, r.projection_variable)

  change_cdm-Preserves : (f : Cdm → Result Cdm) → Preserves view (change_cdm times lib f)
  unfolding change_cdm
  change_cdm-Preserves f =
      then-Preserves _ (reads-Preserves _ _)
        (λ cdm. then-Preserves _ (lift-Preserves _ _) (λ cdm'. modify-Preserves _ _ (λ r. refl)))

  add_attributes-Preserves :
      (name : String) (attributes : List Attribute)
      → Preserves view (add_attributes times lib name attributes)
  unfolding add_attributes
  add_attributes-Preserves name [] = return-Preserves _ _
  add_attributes-Preserves name (x ∷ attributes) =
      then-Preserves _ (change_cdm-Preserves _) (λ u. add_attributes-Preserves name attributes)

  pub register-Preserves :
      (spec : FimexDataSpecification m.Float Attribute) → Preserves view (register times lib spec)
  unfolding register
  register-Preserves spec = then-Preserves _ (reads-Preserves _ _) (λ known.
      then-Preserves _ (reads-Preserves _ _) (λ shape.
        then-Preserves _ (reads-Preserves _ _) (λ projection.
          if-Preserves _ known (return-Preserves _ _) (
            then-Preserves _ (change_cdm-Preserves _) (λ u.
              then-Preserves _ (add_attributes-Preserves spec.cf_name spec.attributes) (λ u'.
                then-Preserves _ (change_cdm-Preserves _)
                  (λ u''. modify-Preserves _ _ (λ r. refl))))))))

  -- What `add` does not touch.
  abbrev pub Setup : Type 0
  Setup = CdmReader m.Float m.Double Attribute × ParameterTranslation m.Float Attribute × String

  abbrev pub setup : Reader → Setup
  setup r = (r.source_reader, r.translation, r.projection_variable)

  pub buffer_from-Preserves :
      (spec : FimexDataSpecification m.Float Attribute) (entries : DataList m.Float) (idx n : ℕ)
      (o : Option (List m.Float))
      → Preserves setup (buffer_from times lib spec entries idx n o)
  unfolding buffer_from store buffer_size
  buffer_from-Preserves spec entries idx n (some b) = return-Preserves _ _
  buffer_from-Preserves spec entries idx n none =
      then-Preserves _
        (then-Preserves _ (reads-Preserves _ _) (λ cdm.
          then-Preserves _
            (if-Preserves _ (has_extra_dimension spec)
              (then-Preserves _ (lift-Preserves _ _) (λ d. return-Preserves _ _))
              (return-Preserves _ _))
            (λ size. return-Preserves _ _)))
        (λ size. then-Preserves _ (lift-Preserves _ _) (λ buffer.
          then-Preserves _ (modify-Preserves _ _ (λ r. refl)) (λ u. return-Preserves _ _)))

  pub write_field-Preserves :
      (spec : FimexDataSpecification m.Float Attribute) (entries : DataList m.Float) (idx : ℕ)
      (values : List m.Float)
      → Preserves setup (write_field times lib spec entries idx values)
  unfolding write_field buffer_for store
  write_field-Preserves spec entries idx values =
      then-Preserves _ (buffer_from-Preserves spec entries idx (length values) _) (λ buffer.
        then-Preserves _ (reads-Preserves _ _) (λ translation.
          then-Preserves _ (lift-Preserves _ _) (λ place.
            then-Preserves _ (lift-Preserves _ _) (λ buffer'.
              then-Preserves _ (modify-Preserves _ _ (λ r. refl)) (λ u. record {
                preserved =
                    λ r. ap (λ (v : View). (v.1, v.2, v.3)) ((register-Preserves spec).preserved r);
              })))))
