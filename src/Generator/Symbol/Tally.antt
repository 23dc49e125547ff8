-- ===== src/Generator/Symbol/Tally.antt =====
-- The map of counts that `selectSymbol` builds.
use native.Mathlib.Decide.{ℕ_discrete}
use eps2probandltf.Common.{
  ℕ, ◌+◌, ◌%◌, ◌^◌, ◌<◌, ◌≡◌, List, [], ◌∷◌, length, ◌==◌, if◌then◌else◌, arith,
}
use eps2probandltf.Common.OrderedMap.{
  number_key, lookup, assign, update, or_default, lookup-assign, IsRising, assign-IsRising,
}
use eps2probandltf.Machine.{Machine}
use eps2probandltf.DataTypes.{BlobContainer}
use eps2probandltf.Generator.Percentile.{count_if}
use eps2probandltf.Generator.Symbol.{tally}

abbrev pub value : ℕ → List (ℕ × ℕ) → ℕ
value c m = or_default 0 (lookup c m)

value_bump :
    (k d : ℕ) (counts : List (ℕ × ℕ))
    → value k counts + 1 < 2 ^ 32
    → value d (assign k ((value k counts + 1) % 2 ^ 32) counts)
      ≡ value d counts + (if k == d then 1 else 0)
value_bump k d counts h =
    let e = lookup-assign d k ((value k counts + 1) % 2 ^ 32) counts in
    elim (ℕ_discrete k d) [
      | yes p ↦ rw e (rw (← p) (ground arith))
      | no p ↦ rw e (ground (arith, p))
    ]

module _ ⦃m : Machine⦄ where
  -- The number of members with code `c`.
  abbrev pub count : ℕ → BlobContainer → ℕ
  count c = count_if (λ x. m.to_code x == c)

  -- As long as no count reaches 2^32, the tally adds the number of members with each code.
  pub tally_lem :
      (symbols : BlobContainer) (counts : List (ℕ × ℕ))
      → ((c : ℕ) → value c counts + length symbols < 2 ^ 32)
      → (c : ℕ) → value c (tally symbols counts) ≡ value c counts + count c symbols
  unfolding tally update count_if
  tally_lem [] counts h c = omega arith
  tally_lem (x ∷ symbols) counts h c =
      let k = m.to_code x in
      let counts' = assign k ((value k counts + 1) % 2 ^ 32) counts in
      let step : (d : ℕ) → value d counts' ≡ value d counts + (if k == d then 1 else 0) =
        λ d. value_bump k d counts (ground (arith, h k)) in
      let ih = tally_lem symbols counts' (λ d. ground (arith, step d, h d)) c in
      ground (arith, ih, step c)

  pub tally-IsRising :
      (symbols : BlobContainer) (counts : List (ℕ × ℕ))
      → IsRising counts
      → IsRising (tally symbols counts)
  unfolding tally update
  tally-IsRising [] counts r = r
  tally-IsRising (x ∷ symbols) counts r =
      tally-IsRising symbols _ (assign-IsRising (m.to_code x) _ counts r)
