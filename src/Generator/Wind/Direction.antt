-- ===== src/Generator/Wind/Direction.antt =====
-- The normalisation of a wind direction.
use eps2probandltf.Common.{
  ℕ, suc, ◌≡◌, refl, ◌∙◌, true, false, ok, arith, Bool-cases, inl, inr, subst,
}
use eps2probandltf.Machine.{Machine}
use eps2probandltf.Machine.Laws.{IsOrdered, IsNumber}
use eps2probandltf.DataTypes.{BlobValue}
use eps2probandltf.Generator.Wind.{raise, lower, normalised}

module _ ⦃m : Machine⦄ where
  abbrev pub degrees : ℕ → BlobValue
  degrees n = m.float.of_nat n

  abbrev pub below_zero : ℕ → BlobValue
  below_zero n = m.float.sub (m.float.of_nat 0) (m.float.of_nat n)

  -- Between two directions.
  abbrev pub IsBetween : (low high x : BlobValue) → Type 0
  IsBetween low high x = (m.float.le low x ≡ true) × (m.float.le x high ≡ true)

  -- What IEEE 754 says of whole turns: the rounded addition and subtraction of 360 keep the order, and are
  -- exact for multiples of 180 degrees.
  pub record KeepsTurns : Type 0 where
    pub add_le :
        (x y : BlobValue)
        → m.float.le x y ≡ true
        → m.float.le (m.float.add x (degrees 360)) (m.float.add y (degrees 360)) ≡ true
    pub sub_le :
        (x y : BlobValue)
        → m.float.le x y ≡ true
        → m.float.le (m.float.sub x (degrees 360)) (m.float.sub y (degrees 360)) ≡ true
    pub add-540 : m.float.add (below_zero 540) (degrees 360) ≡ below_zero 180
    pub add-180 : m.float.add (below_zero 180) (degrees 360) ≡ degrees 180
    pub sub540 : m.float.sub (degrees 540) (degrees 360) ≡ degrees 180
    pub sub180 : m.float.sub (degrees 180) (degrees 360) ≡ below_zero 180
    pub apart : m.float.le (degrees 180) (below_zero 180) ≡ false
    pub wide : m.float.le (degrees 180) (degrees 540) ≡ true
    pub signs : m.float.le (below_zero 180) (degrees 180) ≡ true

  module _ (order : IsOrdered m.float) (turns : KeepsTurns) where
    -- A turn more for a direction between -540 and -180 degrees.
    raised_lem :
        (x : BlobValue)
        → IsBetween (below_zero 540) (below_zero 180) x
        → IsBetween (below_zero 180) (degrees 180) (m.float.add x (degrees 360))
    raised_lem x b = (
      subst (λ y. m.float.le y (m.float.add x (degrees 360)) ≡ true) turns.add-540
          (turns.add_le (below_zero 540) x b.0),
      subst (λ y. m.float.le (m.float.add x (degrees 360)) y ≡ true) turns.add-180
          (turns.add_le x (below_zero 180) b.1),
    )

    lowered_lem :
        (x : BlobValue)
        → IsBetween (degrees 180) (degrees 540) x
        → IsBetween (below_zero 180) (degrees 180) (m.float.sub x (degrees 360))
    lowered_lem x b = (
      subst (λ y. m.float.le y (m.float.sub x (degrees 360)) ≡ true) turns.sub180
          (turns.sub_le (degrees 180) x b.0),
      subst (λ y. m.float.le (m.float.sub x (degrees 360)) y ≡ true) turns.sub540
          (turns.sub_le x (degrees 540) b.1),
    )

    raise_stop :
        (fuel : ℕ) (x : BlobValue)
        → m.float.le x (below_zero 180) ≡ false
        → raise (suc fuel) x ≡ ok x
    unfolding raise
    raise_stop fuel x h = rw h refl

    raise_more :
        (fuel : ℕ) (x : BlobValue)
        → m.float.le x (below_zero 180) ≡ true
        → raise (suc fuel) x ≡ raise fuel (m.float.add x (degrees 360))
    unfolding raise
    raise_more fuel x h = rw h refl

    lower_stop :
        (fuel : ℕ) (x : BlobValue) → m.float.lt (degrees 180) x ≡ false → lower (suc fuel) x ≡ ok x
    unfolding lower
    lower_stop fuel x h = rw h refl

    lower_more :
        (fuel : ℕ) (x : BlobValue)
        → m.float.lt (degrees 180) x ≡ true
        → lower (suc fuel) x ≡ lower fuel (m.float.sub x (degrees 360))
    unfolding lower
    lower_more fuel x h = rw h refl

    -- Two numbers are one way around or the other.
    other_way :
        (x y z : BlobValue)
        → m.float.le x z ≡ true
        → m.float.le y y ≡ true
        → m.float.le x y ≡ false
        → m.float.le y x ≡ true
    other_way x y z e n f = elim (order.le_total x y ((order.num_of_le x z e).0) n) [
      | inl g ↦ absurd (ground (arith, f, g))
      | inr g ↦ g
    ]

    -- `<` of two numbers, from `≤`.
    lt_lem :
        (x y : BlobValue)
        → IsNumber m.float x
        → IsNumber m.float y
        → (m.float.le y x ≡ true → m.float.lt x y ≡ false)
          × (m.float.lt x y ≡ false → m.float.le y x ≡ true)
    lt_lem x y p q = (
      λ e. ground (arith, order.lt-eq-not-le x y p q, e),
      λ e. ground (arith, order.lt-eq-not-le x y p q, e),
    )

    raise_lem :
        (x : BlobValue)
        → IsBetween (below_zero 540) (degrees 540) x
        → (y : BlobValue) × (raise 3 x ≡ ok y) × IsBetween (below_zero 180) (degrees 540) y
    raise_lem x b = elim (Bool-cases (m.float.le x (below_zero 180))) [
      | inr f ↦
          let low = (order.num_of_le (below_zero 180) (degrees 180) turns.signs).0 in
          (x, raise_stop 2 x f, (other_way x (below_zero 180) (degrees 540) b.1 low f, b.1))
      | inl f ↦
          let x' = m.float.add x (degrees 360) in
          let b' = raised_lem x (b.0, f) in
          let up : (z : BlobValue)
              → m.float.le z (degrees 180) ≡ true
              → m.float.le z (degrees 540) ≡ true =
            λ z e. order.le_trans z (degrees 180) (degrees 540) e turns.wide in
          elim (Bool-cases (m.float.le x' (below_zero 180))) [
            | inr g ↦ (x', raise_more 2 x f ∙ raise_stop 1 x' g, (b'.0, up x' b'.1))
            | inl g ↦
                let x'' = m.float.add x' (degrees 360) in
                let at_least : m.float.le (degrees 180) x'' ≡ true =
                  subst (λ z. m.float.le z x'' ≡ true) turns.add-180
                    (turns.add_le (below_zero 180) x' b'.0) in
                let at_most : m.float.le x'' (degrees 180) ≡ true =
                  subst (λ z. m.float.le x'' z ≡ true) turns.add-180
                    (turns.add_le x' (below_zero 180) g) in
                let past : m.float.le x'' (below_zero 180) ≡ false =
                  elim (Bool-cases (m.float.le x'' (below_zero 180))) [
                    | inr h ↦ h
                    | inl h ↦ absurd (
                        ground (
                          arith,
                          turns.apart,
                          order.le_trans (degrees 180) x'' (below_zero 180) at_least h,
                        ))
                  ] in
                (
                  x'',
                  raise_more 2 x f ∙ raise_more 1 x' g ∙ raise_stop 0 x'' past,
                  (
                    order.le_trans (below_zero 180) (degrees 180) x'' turns.signs at_least,
                    up x'' at_most,
                  ),
                )
          ]
    ]

    lower_lem :
        (x : BlobValue)
        → IsBetween (below_zero 180) (degrees 540) x
        → (y : BlobValue) × (lower 3 x ≡ ok y) × IsBetween (below_zero 180) (degrees 180) y
    lower_lem x b =
        let half = (order.num_of_le (degrees 180) (degrees 540) turns.wide).0 in
        let number = (order.num_of_le x (degrees 540) b.1).0 in
        elim (Bool-cases (m.float.lt (degrees 180) x)) [
          | inr f ↦ (x, lower_stop 2 x f, (b.0, (lt_lem (degrees 180) x half number).1 f))
          | inl f ↦
              let x' = m.float.sub x (degrees 360) in
              let above : m.float.le (degrees 180) x ≡ true =
                elim (Bool-cases (m.float.le x (degrees 180))) [
                  | inl g ↦ absurd (ground (arith, f, (lt_lem (degrees 180) x half number).0 g))
                  | inr g ↦ other_way x (degrees 180) (degrees 540) b.1 half g
                ] in
              let b' = lowered_lem x (above, b.1) in
              let number' = (order.num_of_le x' (degrees 180) b'.1).0 in
              (
                x',
                lower_more 2 x f ∙ lower_stop 1 x' ((lt_lem (degrees 180) x' half number').0 b'.1),
                b',
              )
        ]

    -- For ordered numbers whose rounding keeps whole turns: a direction of at most one turn and a half to
    -- either side is normalised in at most three rounds of each loop, to a direction from -180 to 180
    -- degrees.
    pub normalised_lem :
        (x : BlobValue)
        → IsBetween (below_zero 540) (degrees 540) x
        → (y : BlobValue) × (normalised x ≡ ok y) × IsBetween (below_zero 180) (degrees 180) y
    unfolding normalised
    normalised_lem x b =
        let (x', e, b') = raise_lem x b in let (y, f, b'') = lower_lem x' b' in (y, rw e f, b'')
