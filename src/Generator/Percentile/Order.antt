-- ===== src/Generator/Percentile/Order.antt =====
-- The rows of the sorted base data are the order statistics of the points, and so the percentiles
-- rise from one to the next.
use mathlib.Core.List.{Permᴰ}
use eps2probandltf.Common.{
  ℕ, ◌-◌, ◌*◌, ◌/◌, ◌^◌, ◌<◌, ◌≤◌, ◌≡◌, sym, ◌∙◌, Bool, false, List, ok, length, All, arith,
  get_elem?, some, get_elem?_in, get_elem?-lt, All-get_elem?,
}
use eps2probandltf.Machine.{Machine}
use eps2probandltf.Machine.Laws.{IsStrictWeak, IsAscending, IsAscending-le, Sorts, ScalesSize}
use eps2probandltf.Container.{sort, column}
use eps2probandltf.Container.Columns.{IsRect, column_in, column-get_elem?}
use eps2probandltf.Container.Sort.{IsColumnSorted, sort_lem}
use eps2probandltf.Generator.Percentile.{
  BasicPercentileGenerator, get10_percentile, get25_percentile, get50_percentile, get75_percentile,
  get90_percentile,
}
use eps2probandltf.Generator.Percentile.Cache.{IsCached, sorted_row, percentile_rows}

-- `x` is the element at position `k` of `xs` in ascending order.
abbrev pub IsOrderStatistic : {A : Type 0} → (A → A → Bool) → ℕ → List A → A → Type 0
IsOrderStatistic {A} lt k xs x =
    (ys : List A) × Permᴰ xs ys × IsAscending lt ys × (get_elem? ys k ≡ some x)

-- At each point, `row` holds the order statistic `k` of the values that `c` has there.
abbrev pub IsStatisticRow : {A : Type 0} → (A → A → Bool) → ℕ → ℕ → List (List A) → List A → Type 0
IsStatisticRow {A} lt k w c row =
    (length row ≡ w)
    × ((j : ℕ) (xs : List A)
        → j < w
        → column j c ≡ ok xs
        → (x : A) × (get_elem? row j ≡ some x) × IsOrderStatistic lt k xs x)

-- No point of `low` is above the same point of `high`.
abbrev pub IsBelowRow : {A : Type 0} → (A → A → Bool) → List A → List A → Type 0
IsBelowRow {A} lt low high =
    (j : ℕ) (x y : A) → get_elem? low j ≡ some x → get_elem? high j ≡ some y → lt y x ≡ false

module _ ⦃m : Machine⦄ {A : Type 0} {lt : A → A → Bool} {P : A → Type 0} (sorts : Sorts m)
    (weak : IsStrictWeak P lt) (w : ℕ) (c : List (List A)) (rect : IsRect w c)
    (values : All (All P) c) where
  -- Row `k` of the sorted data.
  statistic_row :
      (d : List (List A))
      → IsColumnSorted lt w c d
      → (k : ℕ) → k < length c
      → (row : List A) × (get_elem? d k ≡ some row) × IsStatisticRow lt k w c row
  statistic_row d s k h =
      let (row, e) = get_elem?_in d k (omega (arith, s.rows)) in
      let len : length row ≡ w = All-get_elem? (λ r. length r ≡ w) d k row s.rect e in
      (
        row,
        e,
        (
          len,
          λ j xs l f.
              let (ys, g, p, q) = s.columns j xs l f in
              let (x, u) = get_elem?_in row j (omega arith) in
              (x, u, (ys, p, q, sym (column-get_elem? j k d ys row g e) ∙ u)),
        ),
      )

  sorted_row-eq :
      (d : List (List A))
      → sort lt c ≡ ok d
      → (k : ℕ) (row : List A) → get_elem? d k ≡ some row
      → sorted_row lt c k ≡ ok (row, record { base_data = c; sorted_data = d })
  sorted_row-eq d e k row f = rw (e, f)

  below_row :
      (d : List (List A))
      → IsColumnSorted lt w c d
      → (k l : ℕ) (low high : List A) → k < l
      → get_elem? d k ≡ some low
      → get_elem? d l ≡ some high
      → length low ≡ w
      → IsBelowRow lt low high
  below_row d s k l low high h e f len j x y u v =
      let inside : j < w = omega (arith, get_elem?-lt low j x u) in
      let (xs, g, _) = column_in w j c rect inside in
      let (ys, p, _, q) = s.columns j xs inside g in
      IsAscending-le lt ys k l x y q h (sym (column-get_elem? j k d ys low p e) ∙ u)
        (sym (column-get_elem? j l d ys high p f) ∙ v)

  -- With a `std::sort` that sorts and a comparison that is a strict weak ordering of its domain, and
  -- sizes scaled by the four literals as in double precision: for a generator, with an empty or right
  -- cache, over `w` points and `n` members, with 10 ≤ n < 2^32, whose values are in the domain of the
  -- comparison, every percentile is returned. At each point they are the order statistics n / 10 - 1,
  -- n / 4, n / 2, 3 n / 4 and 9 n / 10 of the values there, and none is above the next.
  pub percentiles_lem :
      ScalesSize m
      → 10 ≤ length c
      → length c < 2 ^ 32
      → (s : List (List A)) → IsCached lt (record { base_data = c; sorted_data = s })
      → let g : BasicPercentileGenerator A = record { base_data = c; sorted_data = s } in
        let n = length c in
        (after : BasicPercentileGenerator A) × (p10 : List A) × (p25 : List A) × (p50 : List A)
        × (p75 : List A) × (p90 : List A) × (get10_percentile lt g ≡ ok (p10, after))
        × (get25_percentile lt g ≡ ok (p25, after))
        × (get50_percentile lt g ≡ ok (p50, after))
        × (get75_percentile lt g ≡ ok (p75, after))
        × (get90_percentile lt g ≡ ok (p90, after))
        × IsStatisticRow lt (n / 10 - 1) w c p10
        × IsStatisticRow lt (n / 4) w c p25
        × IsStatisticRow lt (n / 2) w c p50
        × IsStatisticRow lt (n * 3 / 4) w c p75
        × IsStatisticRow lt (n * 9 / 10) w c p90
        × IsBelowRow lt p10 p25
        × IsBelowRow lt p25 p50
        × IsBelowRow lt p50 p75
        × IsBelowRow lt p75 p90
  percentiles_lem scales few many s cached =
      let n = length c in
      let (d, e, sorted) = sort_lem sorts weak w c rect values in
      let (e10, e25, e50, e75, e90) =
        percentile_rows lt scales (record { base_data = c; sorted_data = s }) cached few many in
      let (p10, f10, s10) = statistic_row d sorted (n / 10 - 1) (omega arith) in
      let (p25, f25, s25) = statistic_row d sorted (n / 4) (omega arith) in
      let (p50, f50, s50) = statistic_row d sorted (n / 2) (omega arith) in
      let (p75, f75, s75) = statistic_row d sorted (n * 3 / 4) (omega arith) in
      let (p90, f90, s90) = statistic_row d sorted (n * 9 / 10) (omega arith) in
      (
        record { base_data = c; sorted_data = d },
        p10,
        p25,
        p50,
        p75,
        p90,
        e10 ∙ sorted_row-eq d e (n / 10 - 1) p10 f10,
        e25 ∙ sorted_row-eq d e (n / 4) p25 f25,
        e50 ∙ sorted_row-eq d e (n / 2) p50 f50,
        e75 ∙ sorted_row-eq d e (n * 3 / 4) p75 f75,
        e90 ∙ sorted_row-eq d e (n * 9 / 10) p90 f90,
        s10,
        s25,
        s50,
        s75,
        s90,
        below_row d sorted (n / 10 - 1) (n / 4) p10 p25 (omega arith) f10 f25 s10.0,
        below_row d sorted (n / 4) (n / 2) p25 p50 (omega arith) f25 f50 s25.0,
        below_row d sorted (n / 2) (n * 3 / 4) p50 p75 (omega arith) f50 f75 s50.0,
        below_row d sorted (n * 3 / 4) (n * 9 / 10) p75 p90 (omega arith) f75 f90 s75.0,
      )
