-- ===== src/Generator/Temperature/Deviation.antt =====
-- The two probabilities of a temperature.
use eps2probandltf.Common.{
  ℕ, ◌+◌, ◌%◌, ◌^◌, ◌<◌, ◌≤◌, ◌≡◌, ap, Bool, true, [], ◌∷◌, ◌++◌, ok, length, arith, get_elem?,
  get_elem?_in, some, Bool-cases, inl, inr, sym, ◌∙◌,
}
use eps2probandltf.Common.Outcomes.{collect_in, collect_at, Result-ok-inj}
use eps2probandltf.Machine.{Machine}
use eps2probandltf.Machine.Laws.{IsOrdered}
use eps2probandltf.DataTypes.{BlobContainer, BlobCollection, BlobValue}
use eps2probandltf.Container.{column}
use eps2probandltf.Container.Columns.{IsRect, column_in, front_size-IsRect}
use eps2probandltf.Generator.Percentile.{count_if}
use eps2probandltf.Generator.Temperature.{
  TemperatureProbabilityGenerator, count_near, deviation_probability, deviation_point,
  get_temperature_deviation_probability, get_temperature_probability1p5,
  get_temperature_probability2p5,
}

module _ ⦃m : Machine⦄ where
  -- `a` is at most `deviation` away from `selected`.
  abbrev pub within : (deviation selected a : BlobValue) → Bool
  within deviation selected a = m.float.le (m.float.fabs (m.float.sub a selected)) deviation

  -- The share of the members, in percent.
  abbrev pub percentage : (count members : ℕ) → BlobValue
  percentage count members = m.narrow (
      m.double.mul (m.widen (m.float.div (m.float.of_nat count) (m.float.of_nat members)))
        (m.double.of_nat 100))

  count_if-length : (p : BlobValue → Bool) (xs : BlobContainer) → count_if p xs ≤ length xs
  unfolding count_if
  count_if-length p [] = omega arith
  count_if-length p (x ∷ xs) = ground (arith, count_if-length p xs)

  count_near_lem :
      (d s : BlobValue) (xs : BlobContainer) (near : ℕ)
      → near + length xs < 2 ^ 32
      → count_near d s xs near ≡ near + count_if (within d s) xs
  unfolding count_near count_if
  count_near_lem d s [] near h = omega arith
  count_near_lem d s (x ∷ xs) near h =
      let step : (near + 1) % 2 ^ 32 ≡ near + 1 = omega arith in
      elim (Bool-cases (within d s x)) [
        | inl e ↦ rw (e, step) (omega (arith, count_near_lem d s xs (near + 1) (omega arith)))
        | inr e ↦ rw e (count_near_lem d s xs near (omega arith))
      ]

  deviation_probability_lem :
      (d s : BlobValue) (xs : BlobContainer)
      → length xs < 2 ^ 32
      → deviation_probability d xs s ≡ percentage (count_if (within d s) xs) (length xs)
  unfolding deviation_probability
  deviation_probability_lem d s xs h =
      ap (λ n. percentage n (length xs)) (omega (arith, count_near_lem d s xs 0 (omega arith)))

  -- A wider deviation holds more members.
  count_if_mono :
      IsOrdered m.float
      → (d e : BlobValue) → m.float.le d e ≡ true
      → (s : BlobValue) (xs : BlobContainer) → count_if (within d s) xs ≤ count_if (within e s) xs
  unfolding count_if
  count_if_mono o d e h s [] = omega arith
  count_if_mono o d e h s (x ∷ xs) =
      let ih = count_if_mono o d e h s xs in
      let distance = m.float.fabs (m.float.sub x s) in
      ground (arith, ih, o.le_trans distance d e, h)

  -- What the loop over the points appends.
  abbrev pub IsDeviation : BlobValue → BlobCollection → BlobContainer → ℕ → BlobContainer → Type 0
  IsDeviation d base selected w ps =
      (length ps ≡ w)
      × ((i : ℕ)
          → i < w
          → (s : BlobValue) × (xs : BlobContainer) × (get_elem? selected i ≡ some s)
            × (column i base ≡ ok xs)
            × (get_elem? ps i ≡ some (percentage (count_if (within d s) xs) (length base))))

  module _ (w : ℕ) (base : BlobCollection) (rect : IsRect w base) (some_members : 0 < length base)
      (few : length base < 2 ^ 32) where
    point_in :
        (d : BlobValue) (selected : BlobContainer)
        → length selected ≡ w
        → (i : ℕ) → i < w
        → (s : BlobValue) × (xs : BlobContainer) × (get_elem? selected i ≡ some s)
          × (column i base ≡ ok xs)
          × (deviation_point d base selected i
              ≡ ok (percentage (count_if (within d s) xs) (length base)))
    unfolding deviation_point
    point_in d selected l i h =
        let (s, e) = get_elem?_in selected i (omega arith) in
        let (xs, f, k) = column_in w i base rect h in
        let value = deviation_probability_lem d s xs (omega arith) in
        let size = ap (percentage (count_if (within d s) xs)) k in
        (s, xs, e, f, rw (e, f) (ap ok (value ∙ size)))

    IsDeviation-in :
        (d : BlobValue) (selected out : BlobContainer)
        → length selected ≡ w
        → (ps : BlobContainer) × (get_temperature_deviation_probability d base selected out
            ≡ ok (out ++ ps))
          × IsDeviation d base selected w ps
    unfolding get_temperature_deviation_probability
    IsDeviation-in d selected out l =
        let point = deviation_point d base selected in
        let (ps, run, k, _) =
          collect_in (λ _. Unit {0}) point w 0
            λ i p q. let (s, xs, _, _, e) = point_in d selected l i (omega arith) in (_, e, tt) in
        (
          ps,
          rw (front_size-IsRect w base rect some_members, run),
          (
            k,
            λ i h.
                let (s, xs, e, f, g) = point_in d selected l i h in
                let (x, p, q) = collect_at point w 0 ps run i h in
                let here : 0 + i ≡ i = omega arith in
                let same : ok x ≡ ok (percentage (count_if (within d s) xs) (length base)) =
                  sym q ∙ ap point here ∙ g in
                (s, xs, e, f, p ∙ ap some (Result-ok-inj same)),
          ),
        )

    -- For a field of `w` points with at least one and fewer than 2^32 members, selected temperatures
    -- for all points, and 1.5 <= 2.5 in an ordered `float`: both probabilities are returned. Each appends
    -- for each point, in order, the share of the members that are at most 1.5 and 2.5 degrees from the
    -- selected temperature, in percent, and no fewer members are counted for 2.5 than for 1.5.
    pub temperature_probability_lem :
        IsOrdered m.float
        → m.float.le (m.float.decimal 15 1) (m.float.decimal 25 1) ≡ true
        → (t : TemperatureProbabilityGenerator) → t.percentiles.base_data ≡ base
        → length t.temperature ≡ w
        → (out : BlobContainer)
        → (ps qs : BlobContainer) × (get_temperature_probability1p5 t out ≡ ok (out ++ ps))
          × (get_temperature_probability2p5 t out ≡ ok (out ++ qs))
          × IsDeviation (m.float.decimal 15 1) base t.temperature w ps
          × IsDeviation (m.float.decimal 25 1) base t.temperature w qs
          × ((s : BlobValue) (xs : BlobContainer)
              → count_if (within (m.float.decimal 15 1) s) xs
                ≤ count_if (within (m.float.decimal 25 1) s) xs)
    unfolding get_temperature_probability1p5 get_temperature_probability2p5
    temperature_probability_lem o h t e l out =
        let (ps, f, p) = IsDeviation-in (m.float.decimal 15 1) t.temperature out l in
        let (qs, g, q) = IsDeviation-in (m.float.decimal 25 1) t.temperature out l in
        (
          ps,
          qs,
          rw e f,
          rw e g,
          p,
          q,
          count_if_mono o (m.float.decimal 15 1) (m.float.decimal 25 1) h,
        )
