-- ===== src/Fimex/RoundTrip.antt =====
-- What `getDataSlice` returns after `add`.
use Prim.Native.String.{String}
use eps2probandltf.Common.{
  ℕ, ◌≤◌, ◌<◌, ◌≡◌, ap, sym, ◌∙◌, subst, Bool, true, false, List, [], some, Result, ok, length,
  arith, if◌then◌else◌, ltb, ◌⊎◌, inl, inr, Bool-cases,
}
use eps2probandltf.Common.Outcomes.{◌>>=◌}
use eps2probandltf.Common.Steps.{
  Step, return, Ends, >>=-inv, lift-inv, lift-Ends, reads-inv, return-inv,
}
use eps2probandltf.Common.OrderedMap.{or_default}
use eps2probandltf.Common.TextMap.{find_text, assign_text}
use eps2probandltf.Machine.{Machine}
use eps2probandltf.WeatherData.{WeatherData}
use eps2probandltf.LocalTime.{get_seconds_since_epoch}
use eps2probandltf.Fimex.Specification.{FimexDataSpecification, get_parameters_valid_time}
use eps2probandltf.Fimex.Parameters.{get_specification}
use eps2probandltf.Fimex.Cdm.{CdmLibrary}
use eps2probandltf.Fimex.Source.{TimeLibrary}
use eps2probandltf.Fimex.Buffers.{DataList, equal_index}
use eps2probandltf.Fimex.Generated.{add, write_field, get_valid_time_index}
use eps2probandltf.Fimex.Slots.{length-resize}
use eps2probandltf.Fimex.Storage.{make_room_lem}
use eps2probandltf.Fimex.Untouched.{Reader}
use eps2probandltf.Fimex.Stored.{slot, IsStored, room_lem, stored_lem}

module _ ⦃m : Machine⦄ {Time Cdm Attribute : Type 0} (times : TimeLibrary Time m.Double)
    (lib : CdmLibrary Cdm m.Float Attribute) where
  -- The place of a time among those of the source.
  abbrev pub index_in_file : Reader times lib → Time → Result ℕ
  index_in_file s valid_time = s.source_reader.get_data "time" >>= λ values.
      equal_index (m.double.of_nat (get_seconds_since_epoch times.clock valid_time)) values 0

  get_valid_time_index_lem :
      (valid_time : Time) (s s' : Reader times lib) (idx : ℕ)
      → Ends (get_valid_time_index times lib valid_time) s idx s'
      → (index_in_file s valid_time ≡ ok idx) × (s ≡ s')
  unfolding get_valid_time_index
  get_valid_time_index_lem valid_time s s' idx e =
      let (values, e1, f1) = lift-inv (reads-inv (λ (r : Reader times lib). r.source_reader) _ e) in
      let (found, same) = lift-Ends f1 in (rw e1 found, same)

  -- The end of `add`.
  abbrev write_or_skip :
      Bool
      → FimexDataSpecification m.Float Attribute
      → DataList m.Float
      → ℕ
      → List m.Float
      → Step (Reader times lib) (Unit {0})
  write_or_skip b spec entries idx values =
      if b then write_field times lib spec entries idx values else return tt

  -- If `add` returns, then the parameter is specified, and its valid time is one of the source's. If that
  -- time is one of those that are generated, the field is stored: the values stand in the buffer from the
  -- place of the value of the extra dimension times the number of values, modulo 2^32, on; `getDataSlice`
  -- returns that buffer unless the variable is taken from the source; the rest of a buffer that was there,
  -- and every other buffer of a time that is generated, are as before. A field of a later time changes no
  -- buffer of a time that is generated.
  pub add_lem :
      (d : WeatherData) (working_time : Time) (values : List m.Float) (s s' : Reader times lib)
      → add times lib d working_time values s ≡ (ok tt, s')
      → (spec : FimexDataSpecification m.Float Attribute) × (w idx : ℕ) × (get_specification
            s.translation d
          ≡ ok spec)
        × (s.wanted_number_of_time_steps ≡ some w)
        × (index_in_file s (get_parameters_valid_time times.add_hours spec working_time) ≡ ok idx)
        × (((idx < w) × IsStored times lib spec idx w values s s')
            ⊎ ((w ≤ idx)
                × ((name : String) (i : ℕ)
                    → i < w
                    → slot times lib s' name i ≡ slot times lib s name i)))
  unfolding add
  add_lem d working_time values s s' e =
      let (spec, e1, f1) =
        lift-inv (reads-inv (λ (r : Reader times lib). r.translation) _ (record { ended = e })) in
      let (entries, t, e2, f2) = >>=-inv f1 in
      let (w, wanted, room, state) = make_room_lem times lib spec.cf_name s t entries e2 in
      let (idx, t', e3, f3) = >>=-inv f2 in
      let (index, same) = get_valid_time_index_lem _ t t' idx e3 in
      let size : length entries ≡ w =
        ap length room ∙ length-resize w (or_default [] (find_text spec.cf_name s.fields)) in
      let now : t' ≡ record s { fields = assign_text spec.cf_name entries s.fields } =
        sym same ∙ state in
      let room_made = record s { fields = assign_text spec.cf_name entries s.fields } in
      let last : (b : Bool)
          → ltb idx (length entries) ≡ b
          → Ends (write_or_skip b spec entries idx values) room_made tt s' =
        λ b g.
          subst (λ b. Ends (write_or_skip b spec entries idx values) room_made tt s') g
            (subst
              (λ r. Ends (write_or_skip (ltb idx (length entries)) spec entries idx values) r tt s')
              now f3) in
      (
        spec,
        w,
        idx,
        e1,
        wanted,
        ap
              (λ (r : Reader times lib).
                index_in_file r (get_parameters_valid_time times.add_hours spec working_time))
              (sym state)
            ∙ index,
        elim (Bool-cases (ltb idx w)) [
          | inl f ↦
              let h : idx < w = ground (arith, f) in
              inl (
                h,
                stored_lem times lib spec idx w values s s' entries room h
                    (last true (ground (arith, size, h))),
              )
          | inr f ↦
              let h : w ≤ idx = ground (arith, f) in
              inr (
                h,
                λ name i k.
                    ap (λ r. slot times lib r name i)
                      (sym ((return-inv (last false (ground (arith, size, h)))).1))
                    ∙ ap
                        (λ xs.
                          slot times lib
                            (record s { fields = assign_text spec.cf_name xs s.fields }) name i)
                        room
                    ∙ room_lem times lib spec.cf_name name w i s k,
              )
        ],
      )
