-- ===== src/Fimex/Stored.antt =====
-- A field that is stored by `add`, and what `getDataSlice` returns then.
use Prim.Native.String.{String}
use text.Mathlib.Text.{◌==◌}
use text.Mathlib.TextEquality.{eq_iff}
use eps2probandltf.Common.{
  ℕ, ◌+◌, ◌*◌, ◌%◌, ◌^◌, ◌≤◌, ◌<◌, ◌≡◌, ◌≢◌, ◌⊎◌, inl, inr, refl, ap, sym, ◌∙◌, subst, false, true,
  List, [], Option, none, some, ok, length, get_elem?, set, arith, Bool-cases, get_elem?-set_self,
  get_elem?-set_ne,
}
use eps2probandltf.Common.Steps.{Ends, Preserves-Ends}
use eps2probandltf.Common.OrderedMap.{or_default}
use eps2probandltf.Common.TextMap.{find_text, assign_text}
use eps2probandltf.Machine.{Machine}
use eps2probandltf.Fimex.Specification.{FimexDataSpecification}
use eps2probandltf.Fimex.Cdm.{CdmLibrary}
use eps2probandltf.Fimex.Source.{TimeLibrary}
use eps2probandltf.Fimex.Buffers.{DataList, resize, get_output_buffer_index, should_transfer}
use eps2probandltf.Fimex.Generated.{write_field, get_data_slice}
use eps2probandltf.Fimex.Slots.{length-resize, get_elem?-resize, copy_into_lem}
use eps2probandltf.Fimex.Storage.{write_field_lem, own_assign, other_assign}
use eps2probandltf.Fimex.Untouched.{Reader, Setup, write_field-Preserves}

module _ ⦃m : Machine⦄ {Time Cdm Attribute : Type 0} (times : TimeLibrary Time m.Double)
    (lib : CdmLibrary Cdm m.Float Attribute) where
  -- The buffer of a variable and a time; `none` if there is none.
  abbrev pub slot : Reader times lib → String → ℕ → Option (List m.Float)
  slot s name i = or_default none (get_elem? (or_default [] (find_text name s.fields)) i)

  -- A field that is stored: where it stands, that it is read back, and that all else is kept.
  pub record IsStored (spec : FimexDataSpecification m.Float Attribute) (idx w : ℕ)
      (values : List m.Float) (s s' : Reader times lib) : Type 0 where
    pub place : ℕ
    pub place-eq : get_output_buffer_index s.translation spec ≡ ok place
    pub buffer : List m.Float
    pub reads_back :
        (should_transfer s.source_reader s.translation s.projection_variable spec.cf_name ≡ true)
        ⊎ (get_data_slice times lib s' spec.cf_name idx ≡ ok buffer)
    pub inside :
        (j : ℕ)
        → j < length values
        → get_elem? buffer (place * length values % 2 ^ 32 + j) ≡ get_elem? values j
    pub outside :
        (old : List m.Float)
        → slot s spec.cf_name idx ≡ some old
        → (i : ℕ)
        → (i < place * length values % 2 ^ 32)
          ⊎ (place * length values % 2 ^ 32 + length values ≤ i)
        → get_elem? buffer i ≡ get_elem? old i
    pub others :
        (name : String) (i : ℕ)
        → i < w
        → (spec.cf_name == name ≡ false) ⊎ (idx ≢ i)
        → slot s' name i ≡ slot s name i

  -- Making room keeps every buffer of the times that are generated.
  pub room_lem :
      (own name : String) (w i : ℕ) (s : Reader times lib)
      → i < w
      → slot
          (record s {
            fields = assign_text own (resize w (or_default [] (find_text own s.fields))) s.fields;
          })
          name
          i
        ≡ slot s name i
  room_lem own name w i s h = elim (Bool-cases (own == name)) [
    | inr f ↦
        ap (λ o. or_default none (get_elem? (or_default [] o) i))
          (other_assign times lib own name _ s.fields f)
    | inl f ↦
        let same : own ≡ name = (eq_iff own name).0 f in
        subst
          (λ n.
            slot
              (record s {
                fields =
                    assign_text own (resize w (or_default [] (find_text own s.fields))) s.fields;
              })
              n i
            ≡ slot s n i)
          same
          (ap (λ o. or_default none (get_elem? (or_default [] o) i))
              (own_assign times lib own _ s.fields)
            ∙ get_elem?-resize w i (or_default [] (find_text own s.fields)) h)
  ]

  -- A list that is read at a place with a buffer.
  get_data_slice-found :
      (s : Reader times lib) (name : String) (entries : DataList m.Float) (i : ℕ)
      (buffer : List m.Float)
      → should_transfer s.source_reader s.translation s.projection_variable name ≡ false
      → find_text name s.fields ≡ some entries
      → get_elem? entries i ≡ some (some buffer)
      → get_data_slice times lib s name i ≡ ok buffer
  unfolding get_data_slice
  get_data_slice-found s name entries i buffer h e f = rw (h, e, f) refl

  pub stored_lem :
      (spec : FimexDataSpecification m.Float Attribute) (idx w : ℕ) (values : List m.Float)
      (s s' : Reader times lib) (entries : DataList m.Float)
      → entries ≡ resize w (or_default [] (find_text spec.cf_name s.fields))
      → idx < w
      → Ends
          (write_field times lib spec entries idx values)
          (record s { fields = assign_text spec.cf_name entries s.fields })
          tt
          s'
      → IsStored spec idx w values s s'
  stored_lem spec idx w values s s' entries room h e =
      let t = record s { fields = assign_text spec.cf_name entries s.fields } in
      let r = write_field_lem times lib spec entries idx values t s' tt e in
      let kept = Preserves-Ends _ (write_field-Preserves times lib spec entries idx values) e in
      let size : length entries ≡ w =
        ap length room ∙ length-resize w (or_default [] (find_text spec.cf_name s.fields)) in
      let before : (name : String) (i : ℕ) → i < w → slot t name i ≡ slot s name i = λ name i k.
        ap (λ xs. slot (record s { fields = assign_text spec.cf_name xs s.fields }) name i) room
        ∙ room_lem spec.cf_name name w i s k in
      let own : get_elem? (set entries idx (some r.buffer)) idx ≡ some (some r.buffer) =
        get_elem?-set_self entries idx (some r.buffer) (omega (arith, size, h)) in
      let in_list : (i : ℕ) → slot t spec.cf_name i ≡ or_default none (get_elem? entries i) = λ i.
        ap (λ o. or_default none (get_elem? (or_default [] o) i))
          (own_assign times lib spec.cf_name entries s.fields) in
      let copied = copy_into_lem _ values r.old r.buffer r.copied in
      record {
        place = r.place;
        place-eq = r.place-eq;
        buffer = r.buffer;
        reads_back =
            elim (Bool-cases
              (should_transfer s.source_reader s.translation s.projection_variable spec.cf_name)) [
                | inl f ↦ inl f
                | inr f ↦ inr (
                    get_data_slice-found s' spec.cf_name (set entries idx (some r.buffer)) idx
                      r.buffer
                      (ap (λ (v : Setup times lib). should_transfer v.0 v.1 v.2 spec.cf_name) kept
                        ∙ f)
                      r.own own)
              ];
        inside = λ j k. copied.0 j _ refl k;
        outside = λ old f i k.
            copied.1 i k
            ∙ ap (λ b. get_elem? b i)
                (r.old-eq old (sym (in_list idx) ∙ before spec.cf_name idx h ∙ f));
        others = λ name i k f. elim (Bool-cases (spec.cf_name == name)) [
          | inr other ↦
              ap (λ o. or_default none (get_elem? (or_default [] o) i)) (r.others name other)
              ∙ before name i k
          | inl same ↦
              let ne : idx ≢ i = elim f [ inl g ↦ absurd (ground (arith, g, same)) | inr g ↦ g ] in
              subst (λ n. slot s' n i ≡ slot s n i) ((eq_iff spec.cf_name name).0 same)
                (ap (λ o. or_default none (get_elem? (or_default [] o) i)) r.own
                  ∙ ap (or_default none) (get_elem?-set_ne entries idx i (some r.buffer) ne)
                  ∙ sym (in_list i)
                  ∙ before spec.cf_name i k)
        ];
      }
