-- ===== src/Generator/Symbol/Selection.antt =====
-- `selectSymbol` returns the most frequent symbol of the class that the precipitation test chose.
use eps2probandltf.Common.{
  ℕ, ◌^◌, ◌<◌, ◌≤◌, ◌≡◌, ◌⊎◌, inl, inr, refl, List, [], ◌∷◌, length, Bool, true, false, ◌&&◌, same,
  ltb, arith, some, Bool-cases, Option-cases, All,
}
use eps2probandltf.Common.OrderedMap.{number_key, lookup, IsRising}
use eps2probandltf.Machine.{Machine}
use eps2probandltf.DataTypes.{BlobContainer, BlobValue}
use eps2probandltf.Generator.Symbol.{
  SymbolLibrary, has_precipitation, select_from, select_symbol, is_rain, tally,
}
use eps2probandltf.Generator.Symbol.Tally.{value, count, tally_lem, tally-IsRising}

module _ (fits : ℕ → Bool) where
  -- No code of the map that fits has more than `n`, and one below `c` has fewer.
  abbrev IsTop : List (ℕ × ℕ) → ℕ → ℕ → Type 0
  IsTop counts c n =
      (d k : ℕ) → lookup d counts ≡ some k → fits d ≡ true → (k ≤ n) × (d < c → k < n)

  -- What a scan from `ret` and `start` ends with.
  pub data Scanned (counts : List (ℕ × ℕ)) (ret start : ℕ) : ℕ → Type 0 where
    kept :
        ((d k : ℕ) → lookup d counts ≡ some k → fits d ≡ true → k ≤ start)
        → Scanned counts ret start ret
    taken :
        (c n : ℕ)
        → lookup c counts ≡ some n
        → fits c ≡ true
        → start < n
        → IsTop counts c n
        → Scanned counts ret start c

  lookup-gt :
      (c d k : ℕ) (counts : List (ℕ × ℕ))
      → All (λ e. c < e.0) counts
      → lookup d counts ≡ some k
      → c < d
  unfolding lookup
  lookup-gt c d k [] a e = absurd (ground arith)
  lookup-gt c d k ((j, n) ∷ counts) a e = ground (arith, lookup-gt c d k counts a.1)

  -- One more entry in front of the ones that were scanned.
  scan_better :
      (c n ret start s : ℕ) (counts : List (ℕ × ℕ))
      → All (λ e. c < e.0) counts
      → start < n
      → fits c ≡ true
      → Scanned counts c n s
      → Scanned ((c, n) ∷ counts) ret start s
  unfolding lookup
  scan_better c n ret start s counts a h f (kept g) =
      taken c n (ground arith) f h (λ d k e p. ground (arith, lookup-gt c d k counts a, g d k))
  scan_better c n ret start s counts a h f (taken c' n' e f' h' top) =
      taken c' n' (ground (arith, lookup-gt c c' n' counts a e)) f' (omega arith)
        (λ d k q p. ground (arith, lookup-gt c c' n' counts a e, top d k))

  scan_worse :
      (c n ret start s : ℕ) (counts : List (ℕ × ℕ))
      → All (λ e. c < e.0) counts
      → (ltb start n && fits c) ≡ false
      → Scanned counts ret start s
      → Scanned ((c, n) ∷ counts) ret start s
  unfolding lookup
  scan_worse c n ret start s counts a h (kept g) = kept (λ d k e p. ground (arith, g d k))
  scan_worse c n ret start s counts a h (taken c' n' e f' h' top) =
      taken c' n' (ground (arith, lookup-gt c c' n' counts a e)) f' h'
        (λ d k q p. ground (arith, top d k))

module _ ⦃m : Machine⦄ ⦃lib : SymbolLibrary BlobValue⦄ where
  abbrev pub fits : Bool → ℕ → Bool
  fits rain c = same (has_precipitation (m.float.of_nat c)) rain

  select_from-Scanned :
      (rain : Bool) (counts : List (ℕ × ℕ)) (ret start : ℕ)
      → IsRising counts
      → Scanned (fits rain) counts ret start (select_from rain counts ret start)
  unfolding select_from lookup
  select_from-Scanned rain [] ret start r = kept (λ d k e f. absurd (ground arith))
  select_from-Scanned rain ((c, n) ∷ counts) ret start r =
      elim (Bool-cases (ltb start n && fits rain c)) [
        | inl better ↦ rw better (
            scan_better (fits rain) c n ret start _ counts r.0 (ground arith) (ground arith)
              (select_from-Scanned rain counts c n r.1))
        | inr worse ↦ rw worse (
            scan_worse (fits rain) c n ret start _ counts r.0 worse
              (select_from-Scanned rain counts ret start r.1))
      ]

  value_of :
      (symbols : BlobContainer)
      → length symbols < 2 ^ 32
      → (c : ℕ) → value c (tally symbols []) ≡ count c symbols
  unfolding lookup
  value_of symbols h c = omega (arith, tally_lem symbols [] (λ d. omega arith) c)

  selected :
      (symbols : BlobContainer) (rain : Bool) (s : ℕ)
      → length symbols < 2 ^ 32
      → Scanned (fits rain) (tally symbols []) lib.error 0 s
      → ((s ≡ lib.error) × ((c : ℕ) → fits rain c ≡ true → count c symbols ≡ 0))
        ⊎ ((0 < count s symbols)
            × (fits rain s ≡ true)
            × ((c : ℕ)
                → fits rain c ≡ true
                → (count c symbols ≤ count s symbols)
                  × (c < s → count c symbols < count s symbols)))
  selected symbols rain s h (kept g) = inl (
    refl,
    λ c f. elim (Option-cases (lookup c (tally symbols []))) [
      | inl e ↦ ground (arith, value_of symbols h c, e)
      | inr (k, e) ↦ ground (arith, value_of symbols h c, e, g c k e f)
    ],
  )
  selected symbols rain s h (taken c n e f k top) = inr (
    ground (arith, value_of symbols h s),
    f,
    λ d q. elim (Option-cases (lookup d (tally symbols []))) [
      | inl u ↦ ground (arith, value_of symbols h d, value_of symbols h s, u)
      | inr (j, u) ↦ ground (arith, value_of symbols h d, value_of symbols h s, u, top d j u q)
    ],
  )

  -- For fewer than 2^32 members, and the class `rain` that the precipitation test chose: either no
  -- member's code is of that class and the result is `Error`, or the result is a member's code of that
  -- class, no code of the class has more members, and each code of the class with a smaller number has
  -- fewer.
  pub select_symbol_lem :
      (symbols : BlobContainer) (precip_fraction : BlobValue)
      → length symbols < 2 ^ 32
      → let s = select_symbol symbols precip_fraction in
        let fit = fits (is_rain symbols precip_fraction) in
        ((s ≡ lib.error) × ((c : ℕ) → fit c ≡ true → count c symbols ≡ 0))
        ⊎ ((0 < count s symbols)
            × (fit s ≡ true)
            × ((c : ℕ)
                → fit c ≡ true
                → (count c symbols ≤ count s symbols)
                  × (c < s → count c symbols < count s symbols)))
  unfolding select_symbol
  select_symbol_lem symbols precip_fraction h =
      let rain = is_rain symbols precip_fraction in
      let counts = tally symbols [] in
      selected symbols rain (select_from rain counts lib.error 0) h
        (select_from-Scanned rain counts lib.error 0 (tally-IsRising symbols [] tt))
