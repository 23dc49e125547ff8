-- ===== src/Fimex/Cached.antt =====
-- The list of times that a `FimexSource` keeps, against a source that reads them at each call.
use eps2probandltf.Common.{
  ℕ, List, [], ◌∷◌, map, Option, none, some, Result, Error, ok, err, ◌>>=◌, ◌≡◌, ◌⊎◌, inl, inr,
  refl, ap, sym, ◌∙◌, Result-cases,
}
use eps2probandltf.Common.Steps.{after}
use eps2probandltf.Machine.{Machine}
use eps2probandltf.DataTypes.{BlobCollection}
use eps2probandltf.DataAccess.{Source}
use eps2probandltf.WeatherData.{WeatherData}
use eps2probandltf.Fimex.Specification.{FimexDataSpecification}
use eps2probandltf.Fimex.Source.{
  FimexSource, TimeLibrary, read_times, get_valid_times, get_layout, get_raw_data, make_data,
  get_found, get_data,
}

-- A call of the interface, and what it returns.
pub data Call (Time : Type 0) : Type 0 where
  times_call : Call Time
  data_call : WeatherData → Time → Call Time

pub data Answer (Time Field : Type 0) : Type 0 where
  times_answer : Result (List Time) → Answer Time Field
  data_answer : Result Field → Answer Time Field

module _ ⦃m : Machine⦄ {Time : Type 0} where
  abbrev pub answer : Source Time → Call Time → Answer Time BlobCollection
  answer source times_call = times_answer source.get_valid_times
  answer source (data_call d t) = data_answer (source.get_data d t)

module _ ⦃m : Machine⦄ {Time Attribute : Type 0} (lib : TimeLibrary Time m.Double) where
  -- The source that keeps nothing.
  unfoldable pub as_source : FimexSource Time m.Float m.Double Attribute → Source Time
  unfolding read_times get_layout make_data
  as_source s = record {
    get_valid_times = read_times lib s;
    get_data = λ d t.
        get_layout lib s d >>= λ found. read_times lib s >>= λ times. make_data lib s found t times;
  }

  -- The answers to a sequence of calls of one object.
  unfoldable pub run :
      List (Call Time)
      → FimexSource Time m.Float m.Double Attribute
      → List (Answer Time BlobCollection)
  unfolding get_valid_times get_data
  run [] s = []
  run (times_call ∷ calls) s = let (r, s') = get_valid_times lib s in times_answer r ∷ run calls s'
  run (data_call d t ∷ calls) s = let (r, s') = get_data lib d t s in data_answer r ∷ run calls s'

  -- Neither the layout nor the values depend on the list.
  get_layout_lem :
      (s : FimexSource Time m.Float m.Double Attribute) (kept : Option (List Time))
      (d : WeatherData)
      → get_layout lib (record s { valid_times = kept }) d ≡ get_layout lib s d
  unfolding get_layout
  get_layout_lem s kept d = refl

  make_data_lem :
      (s : FimexSource Time m.Float m.Double Attribute) (kept : Option (List Time))
      (found : ℕ × ℕ × FimexDataSpecification m.Float Attribute) (t : Time) (times : List Time)
      → make_data lib (record s { valid_times = kept }) found t times
        ≡ make_data lib s found t times
  unfolding make_data get_raw_data
  make_data_lem s kept found t times = refl

  -- What a call gives for a layout, from a state in which the times are those of the file.
  get_found_lem :
      (s s' : FimexSource Time m.Float m.Double Attribute) (times : List Time)
      → get_valid_times lib s' ≡ (ok times, record s { valid_times = some times })
      → (d : WeatherData) (t : Time) (found : ℕ × ℕ × FimexDataSpecification m.Float Attribute)
      → get_layout lib s' d ≡ ok found
      → get_data lib d t s' ≡ (make_data lib s found t times, record s { valid_times = some times })
  unfolding get_data get_found
  get_found_lem s s' times v d t found f =
      ap (λ l. get_found lib l t s') f
      ∙ ap (λ r. after r (λ times s'. (make_data lib s' found t times, s'))) v
      ∙ ap (λ r. (r, record s { valid_times = some times }))
          (make_data_lem s (some times) found t times)

  source_lem :
      (s : FimexSource Time m.Float m.Double Attribute) (times : List Time)
      → read_times lib s ≡ ok times
      → (d : WeatherData) (t : Time) (found : ℕ × ℕ × FimexDataSpecification m.Float Attribute)
      → get_layout lib s d ≡ ok found
      → (as_source s).get_data d t ≡ make_data lib s found t times
  unfolding as_source
  source_lem s times e d t found f = rw (f, e) refl

  -- A call that fails its checks.
  get_data-err :
      (s s' : FimexSource Time m.Float m.Double Attribute) (d : WeatherData) (t : Time) (u : Error)
      → get_layout lib s d ≡ err u
      → get_layout lib s' d ≡ err u
      → get_data lib d t s' ≡ ((as_source s).get_data d t, s')
  unfolding as_source get_data get_found
  get_data-err s s' d t u f g =
      ap (λ l. get_found lib l t s') g
      ∙ ap (λ l. (l >>= λ found. read_times lib s >>= λ times. make_data lib s found t times, s'))
          (sym f)

  -- What a call gives, and what it leaves, with the times in the object.
  get_data_lem :
      (s : FimexSource Time m.Float m.Double Attribute) (times : List Time)
      → read_times lib s ≡ ok times
      → (d : WeatherData) (t : Time)
      → get_data lib d t (record s { valid_times = some times })
        ≡ ((as_source s).get_data d t, record s { valid_times = some times })
  unfolding get_valid_times
  get_data_lem s times e d t =
      let s' = record s { valid_times = some times } in
      let same = get_layout_lem s (some times) d in
      elim (Result-cases (get_layout lib s d)) [
        | inr (u, f) ↦ get_data-err s s' d t u f (same ∙ f)
        | inl (found, f) ↦
            get_found_lem s s' times refl d t found (same ∙ f)
            ∙ ap (λ r. (r, s')) (sym (source_lem s times e d t found f))
      ]

  -- The first call that needs the times.
  first_get_data_lem :
      (s : FimexSource Time m.Float m.Double Attribute) (times : List Time)
      → s.valid_times ≡ none
      → read_times lib s ≡ ok times
      → (d : WeatherData) (t : Time)
      → (get_data lib d t s ≡ ((as_source s).get_data d t, s))
        ⊎ (get_data lib d t s ≡ ((as_source s).get_data d t, record s { valid_times = some times }))
  unfolding get_valid_times
  first_get_data_lem s times n e d t = elim (Result-cases (get_layout lib s d)) [
    | inr (u, f) ↦ inl (get_data-err s s d t u f f)
    | inl (found, f) ↦ inr (
        get_found_lem s s times (rw (n, e) refl) d t found f
        ∙ ap (λ r. (r, record s { valid_times = some times }))
            (sym (source_lem s times e d t found f)))
  ]

  source_times :
      (s : FimexSource Time m.Float m.Double Attribute)
      → (as_source s).get_valid_times ≡ read_times lib s
  unfolding as_source
  source_times s = refl

  -- With the times in the object.
  known_lem :
      (s : FimexSource Time m.Float m.Double Attribute) (times : List Time)
      → read_times lib s ≡ ok times
      → (calls : List (Call Time))
      → run calls (record s { valid_times = some times }) ≡ map (answer (as_source s)) calls
  unfolding run get_valid_times
  known_lem s times e [] = refl
  known_lem s times e (times_call ∷ calls) = rw (source_times s, e, known_lem s times e calls) refl
  known_lem s times e (data_call d t ∷ calls) =
      rw (get_data_lem s times e d t, known_lem s times e calls) refl

  -- If the times of the file can be read, every sequence of calls of an object that has read none gets
  -- the answers of the source that keeps nothing.
  pub run_lem :
      (s : FimexSource Time m.Float m.Double Attribute) (times : List Time)
      → s.valid_times ≡ none
      → read_times lib s ≡ ok times
      → (calls : List (Call Time)) → run calls s ≡ map (answer (as_source s)) calls
  unfolding run get_valid_times
  run_lem s times n e [] = refl
  run_lem s times n e (times_call ∷ calls) =
      rw (source_times s, n, e, known_lem s times e calls) refl
  run_lem s times n e (data_call d t ∷ calls) = elim (first_get_data_lem s times n e d t) [
    | inl f ↦ rw (f, run_lem s times n e calls) refl
    | inr f ↦ rw (f, known_lem s times e calls) refl
  ]

  -- If the times of the file cannot be read, the first call of `getValidTimes` throws that error, and the
  -- second returns an empty list.
  pub get_valid_times_lem :
      (s : FimexSource Time m.Float m.Double Attribute) (e : Error)
      → s.valid_times ≡ none
      → read_times lib s ≡ err e
      → run (times_call ∷ times_call ∷ []) s ≡ times_answer (err e) ∷ times_answer (ok []) ∷ []
  unfolding run get_valid_times
  get_valid_times_lem s e n f = rw (n, f) refl
