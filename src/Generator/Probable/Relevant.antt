-- ===== src/Generator/Probable/Relevant.antt =====
-- The values that `getProbableValue` collects are those whose symbols are near the selected one.
use eps2probandltf.Common.{
  ℕ, suc, ◌+◌, ◌<◌, ◌≡◌, refl, List, [], ◌∷◌, Result, ok, length, true, if◌then◌else◌, arith, some,
  get_elem?, Bool-cases, inl, inr,
}
use eps2probandltf.Common.{All}
use native.Mathlib.Decide.{ℕ_discrete}
use eps2probandltf.Machine.{Machine}
use eps2probandltf.Machine.Laws.{CountsExactly}
use eps2probandltf.DataTypes.{BlobContainer, BlobValue}
use eps2probandltf.Generator.Percentile.{count_if}
use eps2probandltf.Generator.Symbol.Nearby.{IsKnown, near, near_refl, influences-near}
use eps2probandltf.Generator.Symbol.Tally.{count}
use eps2probandltf.Generator.Probable.{relevant}

module _ ⦃m : Machine⦄ {A : Type 0} where
  -- The values of the members whose symbols are near `selected`, in the order of the members.
  unfoldable pub chosen : ℕ → BlobContainer → List A → List A
  chosen selected (s ∷ symbols) (v ∷ values) =
      if near selected (m.to_code s)
      then v ∷ chosen selected symbols values
      else chosen selected symbols values
  chosen selected _ _ = []

  pub All-chosen :
      (P : A → Type 0) (selected : ℕ) (symbols : BlobContainer) (values : List A)
      → All P values
      → All P (chosen selected symbols values)
  unfolding chosen
  All-chosen P selected [] values a = tt
  All-chosen P selected (s ∷ symbols) [] a = tt
  All-chosen P selected (s ∷ symbols) (v ∷ values) a =
      ground (arith, All-chosen P selected symbols values a.1)

  -- A member that has the selected symbol itself is chosen.
  pub chosen-pos :
      (selected : ℕ) (symbols : BlobContainer) (values : List A)
      → IsKnown selected
      → length symbols ≡ length values
      → 0 < count selected symbols
      → 0 < length (chosen selected symbols values)
  unfolding chosen count_if
  chosen-pos selected [] values k e h = absurd (omega arith)
  chosen-pos selected (s ∷ symbols) [] k e h = absurd (omega arith)
  chosen-pos selected (s ∷ symbols) (v ∷ values) k e h = elim (ℕ_discrete (m.to_code s) selected) [
    | yes p ↦
        let hit : near selected (m.to_code s) ≡ true = rw p (near_refl selected k) in
        rw hit (omega arith)
    | no p ↦ ground (arith, chosen-pos selected symbols values k)
  ]

  pub relevant-chosen :
      CountsExactly m
      → (selected i : ℕ) → IsKnown selected
      → (sym : ℕ → Result BlobValue) (dat : ℕ → Result A)
      → (symbols : BlobContainer) (values : List A) → length symbols ≡ length values
      → ((k : ℕ) (x : BlobValue) → get_elem? symbols k ≡ some x → sym (i + k) ≡ ok x)
      → ((k : ℕ) (x : A) → get_elem? values k ≡ some x → dat (i + k) ≡ ok x)
      → relevant selected sym dat (length symbols) i ≡ ok (chosen selected symbols values)
  unfolding relevant chosen
  relevant-chosen exact selected i known sym dat [] values e hs hv = refl
  relevant-chosen exact selected i known sym dat (s ∷ symbols) [] e hs hv = absurd (omega arith)
  relevant-chosen exact selected i known sym dat (s ∷ symbols) (v ∷ values) e hs hv =
      let here : i + 0 ≡ i = omega arith in
      let fs : sym i ≡ ok s = rw here at (hs 0 s refl) in
      let fv : dat i ≡ ok v = rw here at (hv 0 v refl) in
      let ih =
        relevant-chosen exact selected (suc i) known sym dat symbols values (omega arith)
          (λ k x p. let next : suc i + k ≡ i + suc k = omega arith in rw next (hs (suc k) x p))
          (λ k x p. let next : suc i + k ≡ i + suc k = omega arith in rw next (hv (suc k) x p)) in
      elim (Bool-cases (near selected (m.to_code s))) [
        | inl p ↦ rw (fs, influences-near exact selected (m.to_code s) known, p, fv, ih)
        | inr p ↦ rw (fs, influences-near exact selected (m.to_code s) known, p, ih)
      ]
