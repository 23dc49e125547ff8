-- ===== src/Fimex/TimeSteps.antt =====
-- The unlimited dimension of the output.
use eps2probandltf.Common.{
  ℕ, ◌≤◌, ◌≡◌, refl, ap, sym, ◌∙◌, Bool, true, List, [], ◌∷◌, some, ok, ◌>>=◌, if◌then◌else◌, ltb,
  arith, length, >>=-eq-ok,
}
use eps2probandltf.Common.Outcomes.{Result-ok-inj}
use eps2probandltf.Common.Int.{ℤ}
use eps2probandltf.Machine.{Machine}
use eps2probandltf.Generator.Percentile.{count_if}
use eps2probandltf.Fimex.Cdm.{CdmReader, CdmLibrary, CdmDimension}
use eps2probandltf.Fimex.Setup.{
  wanted_seconds, count_times, of_int, Transfer, limited_dimension, transfer_new_dimension,
}

-- The smaller of two sizes.
abbrev pub smaller : ℕ → ℕ → ℕ
smaller a b = if ltb a b then a else b

smaller_lem : (a b : ℕ) → (smaller a b ≤ b) × (smaller a b ≤ a)
smaller_lem a b = (ground arith, ground arith)

count_if_le : {A : Type 0} (p : A → Bool) (xs : List A) → count_if p xs ≤ length xs
unfolding count_if
count_if_le p [] = omega arith
count_if_le p (x ∷ xs) = ground (arith, count_if_le p xs)

module _ ⦃m : Machine⦄ where
  -- The count of the times up to the last wanted one.
  count_times_lem :
      (hours : ℤ) (times : List m.Double) (count : ℕ)
      → count_times hours times ≡ ok count
      → (first : m.Double) × (rest : List m.Double) × (seconds : ℤ) × (times ≡ first ∷ rest)
        × (wanted_seconds hours ≡ ok seconds)
        × (count ≡ count_if (λ t. m.double.le t (m.double.add first (of_int seconds))) times)
  unfolding count_times
  count_times_lem hours [] count e = absurd (ground (arith, e))
  count_times_lem hours (first ∷ rest) count e =
      let (seconds, f, g) = >>=-eq-ok (wanted_seconds hours) _ count e in
      (first, rest, seconds, refl, f, sym (Result-ok-inj g))

module _ ⦃m : Machine⦄ {Cdm Attribute : Type 0} (lib : CdmLibrary Cdm m.Float Attribute) (hours : ℤ)
    (source : CdmReader m.Float m.Double Attribute) where
  limited_lem :
      (d : CdmDimension) (t t' : Transfer Cdm)
      → d.is_unlimited ≡ true
      → transfer_new_dimension lib hours source d t ≡ ok t'
      → (source.get_data d.name >>= λ times. count_times hours times >>= λ count.
          lib.add_dimension (record d { length = smaller count d.length }) t.target >>= λ cdm.
          ok (record t { time_steps = some (smaller count d.length); target = cdm }))
        ≡ ok t'
  unfolding transfer_new_dimension limited_dimension
  limited_lem d t t' u e = ground (arith, u, e)

  pub transfer_new_dimension_lem :
      (d : CdmDimension) (t t' : Transfer Cdm)
      → d.is_unlimited ≡ true
      → transfer_new_dimension lib hours source d t ≡ ok t'
      → (first : m.Double) × (rest : List m.Double) × (seconds : ℤ) × (steps : ℕ) × (source.get_data
            d.name
          ≡ ok (first ∷ rest))
        × (wanted_seconds hours ≡ ok seconds)
        × (t'.time_steps ≡ some steps)
        × (steps
            ≡ smaller
                (count_if (λ x. m.double.le x (m.double.add first (of_int seconds))) (first ∷ rest))
                d.length)
        × (steps ≤ d.length)
        × (steps ≤ length (first ∷ rest))
        × (lib.add_dimension (record d { length = steps }) t.target ≡ ok t'.target)
  transfer_new_dimension_lem d t t' u e =
      let (times, e1, f1) = >>=-eq-ok (source.get_data d.name) _ t' (limited_lem d t t' u e) in
      let (count, e2, f2) = >>=-eq-ok (count_times hours times) _ t' f1 in
      let steps = smaller count d.length in
      let (cdm, e3, f3) =
        >>=-eq-ok (lib.add_dimension (record d { length = steps }) t.target) _ t' f2 in
      let (first, rest, seconds, whole, sum, counted) = count_times_lem hours times count e2 in
      let made = Result-ok-inj f3 in
      let upto : m.Double → Bool = λ x. m.double.le x (m.double.add first (of_int seconds)) in
      let exact : count ≡ count_if upto (first ∷ rest) = counted ∙ ap (count_if upto) whole in
      (
        first,
        rest,
        seconds,
        steps,
        e1 ∙ ap ok whole,
        sum,
        ap (λ (r : Transfer Cdm). r.time_steps) (sym made),
        ap (λ c. smaller c d.length) exact,
        (smaller_lem count d.length).0,
        omega (arith, (smaller_lem count d.length).1, exact, count_if_le upto (first ∷ rest)),
        e3 ∙ ap (λ (r : Transfer Cdm). ok r.target) made,
      )
