-- ===== src/Generator/Symbol/Rain.antt =====
-- When `selectSymbol` finds a symbol, and when it is left with `Error`.
use eps2probandltf.Common.{
  ℕ, ◌^◌, ◌<◌, ◌≡◌, inl, inr, sym, ap, ◌∙◌, [], ◌∷◌, length, Bool, true, same, arith, Bool-cases,
  All,
}
use native.Mathlib.Decide.{ℕ_discrete}
use eps2probandltf.Machine.{Machine}
use eps2probandltf.DataTypes.{BlobContainer, BlobValue}
use eps2probandltf.Generator.Percentile.{count_if}
use eps2probandltf.Generator.Symbol.{SymbolLibrary, has_precipitation, select_symbol, is_rain}
use eps2probandltf.Generator.Symbol.Tally.{count}
use eps2probandltf.Generator.Symbol.Selection.{fits, select_symbol_lem}

module _ ⦃m : Machine⦄ ⦃lib : SymbolLibrary BlobValue⦄ where
  -- Every value is a code.
  abbrev pub AreCodes : BlobContainer → Type 0
  AreCodes = All (λ x. m.float.of_nat (m.to_code x) ≡ x)

  -- The number of members in the class `rain`.
  abbrev pub class_size : Bool → BlobContainer → ℕ
  class_size rain = count_if (λ x. same (has_precipitation x) rain)

  -- A code that no member of another class has.
  class_of_count :
      (rain : Bool) (c : ℕ) (symbols : BlobContainer)
      → AreCodes symbols
      → 0 < count c symbols
      → fits rain c ≡ true
      → 0 < class_size rain symbols
  unfolding count_if
  class_of_count rain c [] a h f = absurd (omega arith)
  class_of_count rain c (x ∷ symbols) a h f = elim (ℕ_discrete (m.to_code x) c) [
    | yes e ↦
        let same_class : same (has_precipitation x) rain ≡ true =
          ap (λ y. same (has_precipitation y) rain) (sym (ap m.float.of_nat (sym e) ∙ a.0)) ∙ f in
        rw same_class (omega arith)
    | no e ↦ ground (arith, class_of_count rain c symbols a.1)
  ]

  count_of_class :
      (rain : Bool) (symbols : BlobContainer)
      → AreCodes symbols
      → 0 < class_size rain symbols
      → (c : ℕ) × (fits rain c ≡ true) × (0 < count c symbols)
  unfolding count_if
  count_of_class rain [] a h = absurd (omega arith)
  count_of_class rain (x ∷ symbols) a h = elim (Bool-cases (same (has_precipitation x) rain)) [
    | inl e ↦ (m.to_code x, ap (λ y. same (has_precipitation y) rain) a.0 ∙ e, ground arith)
    | inr e ↦
        let (c, f, k) = count_of_class rain symbols a.1 (ground (arith, e)) in
        (c, f, ground (arith, k))
  ]

  -- For fewer than 2^32 members whose values are codes: the selected symbol is the code of a member, and
  -- of the class that the precipitation test chose, if that class has a member; if it has none, the
  -- result is `Error`.
  pub select_symbol_class :
      (symbols : BlobContainer) (precip_fraction : BlobValue)
      → length symbols < 2 ^ 32
      → AreCodes symbols
      → let s = select_symbol symbols precip_fraction in
        let rain = is_rain symbols precip_fraction in
        (0 < class_size rain symbols → (0 < count s symbols) × (fits rain s ≡ true))
        × (class_size rain symbols ≡ 0 → s ≡ lib.error)
  select_symbol_class symbols precip_fraction h a =
      let rain = is_rain symbols precip_fraction in
      elim (select_symbol_lem symbols precip_fraction h) [
        | inl (e, none_left) ↦ (
          λ k.
              let (c, f, l) = count_of_class rain symbols a k in
              absurd (omega (arith, none_left c f)),
          λ k. e,
        )
        | inr (k, f, top) ↦
            (λ l. (k, f), λ l. absurd (omega (arith, class_of_count rain _ symbols a k f)))
      ]
