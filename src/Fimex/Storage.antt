-- ===== src/Fimex/Storage.antt =====
-- What the parts of `add` do to the lists of buffers.
use Prim.Native.String.{String}
use text.Mathlib.Text.{◌==◌}
use text.Mathlib.TextPositions.{eq_refl}
use eps2probandltf.Common.{
  ℕ, ◌*◌, ◌%◌, ◌^◌, ◌≡◌, ap, sym, ◌∙◌, Bool, false, List, [], Option, none, some, Error, ok, length,
  get_elem?, set, arith, if◌then◌else◌,
}
use eps2probandltf.Common.Outcomes.{or_else}
use eps2probandltf.Common.Steps.{
  Ends, Preserves-Ends, >>=-inv, lift-inv, reads-inv, return-inv, change-inv,
}
use eps2probandltf.Common.OrderedMap.{or_default}
use eps2probandltf.Common.TextMap.{find_text, assign_text, find_text-assign_text}
use eps2probandltf.Machine.{Machine}
use eps2probandltf.Fimex.Specification.{FimexDataSpecification}
use eps2probandltf.Fimex.Cdm.{CdmLibrary}
use eps2probandltf.Fimex.Source.{TimeLibrary}
use eps2probandltf.Fimex.Buffers.{DataList, resize, copy_into, get_output_buffer_index}
use eps2probandltf.Fimex.Generated.{make_room, store, buffer_from, buffer_for, write_field}
use eps2probandltf.Fimex.Untouched.{
  Reader, View, Setup, buffer_size-Preserves, register-Preserves, buffer_from-Preserves,
}

module _ ⦃m : Machine⦄ {Time Cdm Attribute : Type 0} (times : TimeLibrary Time m.Double)
    (lib : CdmLibrary Cdm m.Float Attribute) where
  -- The lists of the other variables are the same.
  abbrev pub OthersSame : String → (s s' : Reader times lib) → Type 0
  OthersSame name s s' =
      (other : String)
      → name == other ≡ false
      → find_text other s'.fields ≡ find_text other s.fields

  pub make_room_lem :
      (name : String) (s s' : Reader times lib) (entries : DataList m.Float)
      → Ends (make_room times lib name) s entries s'
      → (w : ℕ) × (s.wanted_number_of_time_steps ≡ some w)
        × (entries ≡ resize w (or_default [] (find_text name s.fields)))
        × (s' ≡ record s { fields = assign_text name entries s.fields })
  unfolding make_room
  make_room_lem name s s' entries e =
      let (w, e1, f1) = lift-inv (reads-inv (λ r. r.wanted_number_of_time_steps) _ e) in
      let f2 = reads-inv (λ r. resize w (or_default [] (find_text name r.fields))) _ f1 in
      let xs = resize w (or_default [] (find_text name s.fields)) in
      let f3 = change-inv (λ r. record r { fields = assign_text name xs r.fields }) _ f2 in
      let (same, state) = return-inv f3 in
      (
        w,
        or_else-inv s.wanted_number_of_time_steps w e1,
        sym same,
        sym state ∙ ap (λ ys. record s { fields = assign_text name ys s.fields }) same,
      )
    where
      or_else-inv : (o : Option ℕ) (w : ℕ) → or_else Error.undefined o ≡ ok w → o ≡ some w
      or_else-inv o w e = ground (arith, e)

  pub other_assign :
      (name other : String) (entries : DataList m.Float) (fields : List (String × DataList m.Float))
      → name == other ≡ false
      → find_text other (assign_text name entries fields) ≡ find_text other fields
  other_assign name other entries fields h =
      find_text-assign_text other name entries fields
      ∙ ap (λ (b : Bool). if b then some entries else find_text other fields) h

  pub own_assign :
      (name : String) (entries : DataList m.Float) (fields : List (String × DataList m.Float))
      → find_text name (assign_text name entries fields) ≡ some entries
  own_assign name entries fields =
      find_text-assign_text name name entries fields
      ∙ ap (λ (b : Bool). if b then some entries else find_text name fields) (eq_refl name)

  -- A buffer that is there is taken as it is.
  buffer_from_lem :
      (spec : FimexDataSpecification m.Float Attribute) (entries : DataList m.Float) (idx n : ℕ)
      (o : Option (List m.Float)) (s s' : Reader times lib) (buffer : List m.Float)
      → Ends (buffer_from times lib spec entries idx n o) s buffer s'
      → ((old : List m.Float) → o ≡ some old → buffer ≡ old) × OthersSame spec.cf_name s s'
  unfolding buffer_from store
  buffer_from_lem spec entries idx n (some b) s s' buffer e =
      let (same, state) = return-inv e in
      (
        λ old f. ground (arith, f, same),
        λ other h. ap (λ (r : Reader times lib). find_text other r.fields) (sym state),
      )
  buffer_from_lem spec entries idx n none s s' buffer e =
      let (size, t, e1, f1) = >>=-inv e in
      let (new, e2, f2) = lift-inv f1 in
      let f3 =
        change-inv
          (λ (r : Reader times lib). record r {
            fields = assign_text spec.cf_name (set entries idx (some new)) r.fields;
          })
          _ f2 in
      let (same, state) = return-inv f3 in
      (
        λ old f. absurd (ground (arith, f)),
        λ other h.
            ap (λ (r : Reader times lib). find_text other r.fields) (sym state)
            ∙ other_assign spec.cf_name other (set entries idx (some new)) t.fields h
            ∙ ap (λ (r : Reader times lib). find_text other r.fields)
                (Preserves-Ends _ (buffer_size-Preserves times lib spec n) e1),
      )

  -- A field that is written: its place in the buffer, and what is left as it was.
  pub record IsWritten (spec : FimexDataSpecification m.Float Attribute)
      (entries : DataList m.Float) (idx : ℕ) (values : List m.Float) (s s' : Reader times lib)
      : Type 0 where
    pub old : List m.Float
    pub buffer : List m.Float
    pub place : ℕ
    pub place-eq : get_output_buffer_index s.translation spec ≡ ok place
    pub old-eq : (b : List m.Float) → or_default none (get_elem? entries idx) ≡ some b → old ≡ b
    pub copied : copy_into (place * length values % 2 ^ 32) values old ≡ ok buffer
    pub own : find_text spec.cf_name s'.fields ≡ some (set entries idx (some buffer))
    pub others : OthersSame spec.cf_name s s'

  pub write_field_lem :
      (spec : FimexDataSpecification m.Float Attribute) (entries : DataList m.Float) (idx : ℕ)
      (values : List m.Float) (s s' : Reader times lib) (u : Unit {0})
      → Ends (write_field times lib spec entries idx values) s u s'
      → IsWritten spec entries idx values s s'
  unfolding write_field buffer_for store
  write_field_lem spec entries idx values s s' u e =
      let (old, t, e1, f1) = >>=-inv e in
      let (known, others) = buffer_from_lem spec entries idx (length values) _ s t old e1 in
      let kept =
        Preserves-Ends _ (buffer_from-Preserves times lib spec entries idx (length values) _) e1 in
      let f2 = reads-inv (λ (r : Reader times lib). r.translation) _ f1 in
      let (place, e3, f3) = lift-inv f2 in
      let (buffer, e4, f4) = lift-inv f3 in
      let list = set entries idx (some buffer) in
      let f5 =
        change-inv
          (λ (r : Reader times lib). record r { fields = assign_text spec.cf_name list r.fields }) _
          f4 in
      let same =
        ap (λ (v : View times lib). v.0)
          (Preserves-Ends _ (register-Preserves times lib spec) f5) in
      record {
        old = old;
        buffer = buffer;
        place = place;
        place-eq = ap (λ (v : Setup times lib). get_output_buffer_index v.1 spec) (sym kept) ∙ e3;
        old-eq = known;
        copied = e4;
        own = ap (find_text spec.cf_name) same ∙ own_assign spec.cf_name list t.fields;
        others = λ other h.
            ap (find_text other) same
            ∙ other_assign spec.cf_name other list t.fields h
            ∙ others other h;
      }
