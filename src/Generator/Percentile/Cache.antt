-- ===== src/Generator/Percentile/Cache.antt =====
-- The cache of sorted data does not show: a percentile is a row of the sorted base data, whichever
-- percentiles were asked for before.
use eps2probandltf.Common.{
  ℕ, ◌+◌, ◌-◌, ◌*◌, ◌/◌, ◌%◌, ◌^◌, ◌<◌, ◌≤◌, ◌≡◌, ◌⊎◌, inl, inr, refl, Bool, List, [], ◌∷◌, Result,
  ok, ◌>>=◌, at, length, arith, Result-cases, Option-cases, get_elem?,
}
use eps2probandltf.Machine.{Machine}
use eps2probandltf.Machine.Laws.{ScalesSize}
use eps2probandltf.Container.{sort}
use eps2probandltf.Generator.Percentile.{
  BasicPercentileGenerator, after_sort, get_index, scaled_size, get10_percentile, get25_percentile,
  get50_percentile, get75_percentile, get90_percentile,
}

module _ ⦃m : Machine⦄ {A : Type 0} (less : A → A → Bool) where
  -- The cache is empty, or holds the sorted base data.
  abbrev pub IsCached : BasicPercentileGenerator A → Type 0
  IsCached g = (g.sorted_data ≡ []) ⊎ (sort less g.base_data ≡ ok g.sorted_data)

  -- What `get_index` returns on an object with an empty cache.
  abbrev pub sorted_row : List (List A) → ℕ → Result (List A × BasicPercentileGenerator A)
  sorted_row c i = do
    sorted ← sort less c
    row ← at sorted i
    ok (row, record { base_data = c; sorted_data = sorted })

  pub get_index-sorted_row :
      (c s : List (List A)) (i : ℕ)
      → (s ≡ []) ⊎ (sort less c ≡ ok s)
      → get_index less (record { base_data = c; sorted_data = s }) i ≡ sorted_row c i
  unfolding get_index after_sort
  get_index-sorted_row c [] i h = elim (Result-cases (sort less c)) [
    | inl (d, e) ↦ rw e
    | inr (u, e) ↦ rw e
  ]
  get_index-sorted_row c (row ∷ rows) i (inl e) = absurd (ground arith)
  get_index-sorted_row c (row ∷ rows) i (inr e) = rw e

  -- An object that has answered is in order, and keeps its data.
  pub sorted_row-IsCached :
      (c : List (List A)) (i : ℕ) (row : List A) (g : BasicPercentileGenerator A)
      → sorted_row c i ≡ ok (row, g)
      → (g.base_data ≡ c) × IsCached g
  sorted_row-IsCached c i row g e = elim (Result-cases (sort less c)) [
    | inl (d, f) ↦ elim (Option-cases (get_elem? d i)) [
      | inl h ↦ absurd (ground (arith, f, h))
      | inr (r, h) ↦
          let same : g ≡ record { base_data = c; sorted_data = d } = ground (arith, f, h) in
          rw same (refl, inr f)
    ]
    | inr (u, f) ↦ absurd (ground (arith, f))
  ]

  module _ (scales : ScalesSize m) where
    -- With sizes scaled by the four literals as in double precision: for an object whose cache is
    -- empty or right, with at least 10 and fewer than 2^32 members, the five percentiles are the rows
    -- n / 10 - 1, n / 4, n / 2, 3 n / 4 and 9 n / 10 of the sorted base data, and the object keeps
    -- the sorted data.
    pub percentile_rows :
        (g : BasicPercentileGenerator A)
        → IsCached g
        → let n = length g.base_data in
          let c = g.base_data in
          10 ≤ n
          → n < 2 ^ 32
          → (get10_percentile less g ≡ sorted_row c (n / 10 - 1))
            × (get25_percentile less g ≡ sorted_row c (n / 4))
            × (get50_percentile less g ≡ sorted_row c (n / 2))
            × (get75_percentile less g ≡ sorted_row c (n * 3 / 4))
            × (get90_percentile less g ≡ sorted_row c (n * 9 / 10))
    unfolding get10_percentile get25_percentile get50_percentile get75_percentile get90_percentile
        scaled_size
    percentile_rows g h k l =
        let n = length g.base_data in
        let row = λ (i : ℕ). get_index-sorted_row g.base_data g.sorted_data i h in
        let first : (n / 10 + 2 ^ 64 - 1) % 2 ^ 64 ≡ n / 10 - 1 = omega arith in
        (
          rw (scales.tenth n l, first) (row (n / 10 - 1)),
          rw (scales.quarter n l) (row (n / 4)),
          row (n / 2),
          rw (scales.three_quarters n l) (row (n * 3 / 4)),
          rw (scales.nine_tenths n l) (row (n * 9 / 10)),
        )
