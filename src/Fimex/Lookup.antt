-- ===== src/Fimex/Lookup.antt =====
-- What `get` finds in a parameter file.
use Prim.Native.String.{String}
use native.Mathlib.Decide.{ℕ_discrete}
use eps2probandltf.Common.{
  Bool, true, ◌&&◌, ℕ, suc, ◌==◌, ◌<◌, false, List, [], ◌∷◌, Option, none, some, Result, Error, ok,
  err, ◌>>=◌, ◌≡◌, refl, sym, ◌∙◌, ap, arith, >>=-eq-ok, Option-cases, inl, inr,
}
use eps2probandltf.Common.Outcomes.{or_else, Result-ok-inj}
use eps2probandltf.Common.OrderedMap.{lookup, assign, lookup-assign}
use eps2probandltf.Machine.{Arith}
use eps2probandltf.WeatherData.{WeatherData, weather_key, number, number-inj}
use eps2probandltf.Fimex.Specification.{FimexDataSpecification}
use eps2probandltf.Fimex.Identifiers.{config_file_identifiers, get_identifying_name, parameter_path}
use eps2probandltf.Fimex.Xml.{XmlElement}
use eps2probandltf.Fimex.Translation.{
  TranslationLibrary, ParameterTranslation, Document, add_global_attributes,
  add_direct_transfer_variables,
}
use eps2probandltf.Fimex.Parameters.{
  Specifications, read_specification, add_parameter_nodes, add_parameters, add_all_parameters,
  add_extra_dimensions, add_extra_variables, nodes_at, read_translation, get_specification,
}

-- The table has the constants one after the other.
abbrev is_consecutive : ℕ → List (WeatherData × String) → Bool
is_consecutive n [] = true
is_consecutive n ((d, name) ∷ rest) = number d == n && is_consecutive (suc n) rest

is_consecutive-cons :
    (n : ℕ) (d : WeatherData) (name : String) (rest : List (WeatherData × String))
    → is_consecutive n ((d, name) ∷ rest) ≡ true
    → (number d ≡ n) × (is_consecutive (suc n) rest ≡ true)
is_consecutive-cons n d name rest e = (ground (arith, e), ground (arith, e))

table_consecutive : is_consecutive 0 config_file_identifiers ≡ true
unfolding config_file_identifiers number
table_consecutive = refl

lookup_past :
    (n : ℕ) (ids : List (WeatherData × String)) (d : WeatherData)
    → is_consecutive n ids ≡ true
    → number d < n
    → lookup d ids ≡ none
unfolding lookup
lookup_past n [] d c h = refl
lookup_past n ((k, name) ∷ rest) d c h =
    let (here, later) = is_consecutive-cons n k name rest c in
    ground (arith, here, lookup_past (suc n) rest d later)

module _ {F Attribute : Type 0} (a : Arith F) (lib : TranslationLibrary F Attribute)
    (document : Document) where
  -- What the nodes of a parameter specify.
  abbrev pub specified : Option (List XmlElement) → Result (FimexDataSpecification F Attribute)
  specified none = err Error.data_not_available
  specified (some []) = err Error.data_not_available
  specified (some (e ∷ [])) = read_specification a lib e
  specified (some (e ∷ e' ∷ nodes)) = err Error.data_not_available

  -- What the document specifies for a constant.
  abbrev pub specified_for : Option String → Result (FimexDataSpecification F Attribute)
  specified_for none = err Error.data_not_available
  specified_for (some name) = specified (document (parameter_path name))

  -- The specification of a map, as `get` returns it.
  abbrev found : WeatherData → Specifications a lib → Result (FimexDataSpecification F Attribute)
  found d m = or_else Error.data_not_available (lookup d m)

  -- The nodes of a constant that is not there yet.
  nodes_lem :
      (d : WeatherData) (nodes : Option (List XmlElement)) (m m' : Specifications a lib)
      → lookup d m ≡ none
      → add_parameter_nodes a lib d nodes m ≡ ok m'
      → found d m' ≡ specified nodes
  unfolding add_parameter_nodes
  nodes_lem d none m m' n e = absurd (ground (arith, e))
  nodes_lem d (some []) m m' n e = let same : m ≡ m' = Result-ok-inj e in rw (← same) (rw n refl)
  nodes_lem d (some (x ∷ [])) m m' n e =
      let (spec, f, g) = >>=-eq-ok (read_specification a lib x) _ m' e in
      let same : assign d spec m ≡ m' = ground (arith, n, g) in
      let self : lookup d (assign d spec m) ≡ some spec =
        ground (arith, lookup-assign d d spec m) in
      rw (← same) (ap (or_else Error.data_not_available) self ∙ sym f)
  nodes_lem d (some (x ∷ y ∷ nodes)) m m' n e = absurd (ground (arith, e))

  -- The nodes of another constant.
  other_nodes_lem :
      (k d : WeatherData) (nodes : Option (List XmlElement)) (m m' : Specifications a lib)
      → number k == number d ≡ false
      → add_parameter_nodes a lib k nodes m ≡ ok m'
      → lookup d m' ≡ lookup d m
  unfolding add_parameter_nodes
  other_nodes_lem k d none m m' n e = absurd (ground (arith, e))
  other_nodes_lem k d (some []) m m' n e = ap (lookup d) (sym (Result-ok-inj e))
  other_nodes_lem k d (some (x ∷ [])) m m' n e =
      let (spec, f, g) = >>=-eq-ok (read_specification a lib x) _ m' e in
      elim (Option-cases (lookup k m)) [
        | inl free ↦
            let same : assign k spec m ≡ m' = ground (arith, free, g) in
            rw (← same) (ground (arith, lookup-assign d k spec m, n))
        | inr (old, there) ↦ let same : m ≡ m' = ground (arith, there, g) in rw (← same) refl
      ]
  other_nodes_lem k d (some (x ∷ y ∷ nodes)) m m' n e = absurd (ground (arith, e))

  -- `add_parameters` works on the nodes of the path of the constant.
  path_lem :
      (d : WeatherData) (m m' : Specifications a lib)
      → add_parameters a lib document d m ≡ ok m'
      → (name : String) × (lookup d config_file_identifiers ≡ some name)
        × (add_parameter_nodes a lib d (document (parameter_path name)) m ≡ ok m')
  unfolding add_parameters get_identifying_name
  path_lem d m m' e = elim (Option-cases (lookup d config_file_identifiers)) [
    | inl f ↦ absurd (ground (arith, e, f))
    | inr (name, f) ↦ (
      name,
      f,
      ap
            (λ (o : Option String). or_else Error.runtime_error o >>= λ i.
              add_parameter_nodes a lib d (document (parameter_path i)) m)
            (sym f)
          ∙ e,
    )
  ]

  -- What a step of the constructor does for `d`, and for the other constants.
  abbrev Adds : WeatherData → Result (FimexDataSpecification F Attribute) → Type 0
  Adds d r =
      (m m' : Specifications a lib)
      → lookup d m ≡ none
      → add_parameters a lib document d m ≡ ok m'
      → found d m' ≡ r

  abbrev Passes : Type 0
  Passes =
      (k d : WeatherData) (m m' : Specifications a lib)
      → add_parameters a lib document k m ≡ ok m'
      → number k == number d ≡ false
      → lookup d m' ≡ lookup d m

  module _ (d : WeatherData) (r : Result (FimexDataSpecification F Attribute)) (adds : Adds d r)
      (passes : Passes) where
    all_lem :
        (n : ℕ) (ids : List (WeatherData × String)) (m m' : Specifications a lib)
        → is_consecutive n ids ≡ true
        → add_all_parameters a lib document ids m ≡ ok m'
        → (lookup d ids ≡ none → lookup d m' ≡ lookup d m)
          × ((name : String) → lookup d ids ≡ some name → lookup d m ≡ none → found d m' ≡ r)
    unfolding add_all_parameters lookup
    all_lem n [] m m' c e =
        (λ h. ap (lookup d) (sym (Result-ok-inj e)), λ name h. absurd (ground (arith, h)))
    all_lem n ((k, name) ∷ rest) m m' c e =
        let (more, f, g) = >>=-eq-ok (add_parameters a lib document k m) _ m' e in
        let (here, later) = is_consecutive-cons n k name rest c in
        let (skips, finds) = all_lem (suc n) rest more m' later g in
        elim (ℕ_discrete (number k) (number d)) [
          | yes p ↦
              let same : k ≡ d = number-inj k d p in
              let gone = lookup_past (suc n) rest d later (omega (arith, here, p)) in
              (
                λ h. absurd (ground (arith, p, h)),
                λ name' h free.
                    ap (or_else Error.data_not_available) (skips gone)
                    ∙ adds m more free (rw (← same) f),
              )
          | no p ↦
              let pass = passes k d m more f (ground (arith, p)) in
              (
                λ h. skips (ground (arith, p, h)) ∙ pass,
                λ name' h free. finds name' (ground (arith, p, h)) (pass ∙ free),
              )
        ]

  -- The constructor ends with the parameters.
  parameters_lem :
      (t : ParameterTranslation F Attribute)
      → read_translation a lib document ≡ ok t
      → add_all_parameters a lib document config_file_identifiers [] ≡ ok t.translations
  unfolding read_translation
  parameters_lem t e =
      let (globals, f, e1) =
        >>=-eq-ok
          (add_global_attributes a lib (nodes_at a lib document "/eps2probandltf/global_attribute")
            [])
          _ t e in
      let (direct, g, e2) =
        >>=-eq-ok
          (add_direct_transfer_variables a lib
            (nodes_at a lib document "/eps2probandltf/direct_transfer") [])
          _ t e1 in
      let (maps, h, e3) =
        >>=-eq-ok
          (add_extra_dimensions a lib (nodes_at a lib document "/eps2probandltf/dimension")
            ([], []))
          _ t e2 in
      let (variables, k, e4) =
        >>=-eq-ok
          (add_extra_variables a lib (nodes_at a lib document "/eps2probandltf/variable") []) _ t
          e3 in
      let (specs, l, e5) =
        >>=-eq-ok (add_all_parameters a lib document config_file_identifiers []) _ t e4 in
      l ∙ ap (λ (u : ParameterTranslation F Attribute). ok u.translations) (Result-ok-inj e5)

  -- If the constructor returns, then `get` of a parameter gives what the one node of its own path
  -- specifies, and throws DataNotAvailable if the path has no node or the parameter is not in the table.
  pub get_specification_lem :
      (t : ParameterTranslation F Attribute)
      → read_translation a lib document ≡ ok t
      → (d : WeatherData) → get_specification t d ≡ specified_for (lookup d config_file_identifiers)
  unfolding get_specification
  get_specification_lem t e d =
      let (skips, finds) =
        all_lem d (specified_for (lookup d config_file_identifiers)) (adds d) passes 0
          config_file_identifiers [] t.translations table_consecutive (parameters_lem t e) in
      elim (Option-cases (lookup d config_file_identifiers)) [
        | inl f ↦ ap (or_else Error.data_not_available) (skips f) ∙ ap specified_for (sym f)
        | inr (name, f) ↦ finds name f refl
      ]
    where
      adds : (d : WeatherData) → Adds d (specified_for (lookup d config_file_identifiers))
      adds d m m' n e =
          let (name, f, g) = path_lem d m m' e in
          nodes_lem d (document (parameter_path name)) m m' n g ∙ ap specified_for (sym f)

      passes : Passes
      passes k d m m' e n =
          let (name, f, g) = path_lem k m m' e in
          other_nodes_lem k d (document (parameter_path name)) m m' n g
