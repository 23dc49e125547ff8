-- ===== src/Machine/Laws.antt =====
-- What IEEE 754 says of comparisons, and what the standard says of `std::sort`.
use mathlib.Core.List.{Permᴰ}
use eps2probandltf.Common.{
  length, ◌*◌, ◌/◌, leb, ◌^◌, ◌≤◌, ◌≡◌, ◌⊎◌, Bool, true, false, not, List, [], ◌∷◌, All, arith,
  get_elem?, ℕ, zero, suc, ◌<◌, some, All-get_elem?,
}
use eps2probandltf.Machine.{Arith, Machine}

-- `lt` is a strict weak ordering of the values that satisfy `P`.
pub record IsStrictWeak {A : Type 0} (P : A → Type 0) (lt : A → A → Bool) : Type 0 where
  pub asymm : (x y : A) → P x → P y → lt x y ≡ true → lt y x ≡ false
  pub negtrans : (x y z : A) → P x → P y → P z → lt x y ≡ false → lt y z ≡ false → lt x z ≡ false

module _ {A : Type 0} where
  -- No element comes before one that stands ahead of it.
  abbrev pub IsAscending : (A → A → Bool) → List A → Type 0
  IsAscending lt [] = Unit {0}
  IsAscending lt (x ∷ xs) = All (λ y. lt y x ≡ false) xs × IsAscending lt xs

  -- In an ascending list a later position does not hold a smaller value.
  pub IsAscending-le :
      (lt : A → A → Bool) (xs : List A) (i j : ℕ) (x y : A)
      → IsAscending lt xs
      → i < j
      → get_elem? xs i ≡ some x
      → get_elem? xs j ≡ some y
      → lt y x ≡ false
  IsAscending-le lt [] i j x y s h e f = absurd (ground arith)
  IsAscending-le lt (a ∷ xs) i zero x y s h e f = absurd (omega arith)
  IsAscending-le lt (a ∷ xs) zero (suc j) x y s h e f =
      ground (arith, All-get_elem? (λ b. lt b a ≡ false) xs j y s.0 f)
  IsAscending-le lt (a ∷ xs) (suc i) (suc j) x y s h e f =
      IsAscending-le lt xs i j x y s.1 (omega arith) e f

-- `std::sort` with a strict weak ordering rearranges the range into ascending order. The order of
-- equivalent elements is open, and nothing is said of any other comparison.
abbrev pub Sorts : Machine → Type 1
Sorts m =
    (A : Type 0) (P : A → Type 0) (lt : A → A → Bool)
    → IsStrictWeak P lt
    → (xs : List A) → All P xs
    → Permᴰ xs (m.sort A lt xs) × IsAscending lt (m.sort A lt xs)

-- When a read throws, `std::sort` has exchanged elements, and the number of members is as before.
abbrev pub KeepsMembers : Machine → Type 1
KeepsMembers m =
    (A : Type 0) (lt : A → A → Bool) (i : ℕ) (c : List (List A))
    → length (m.sort_thrown A lt i c) ≡ length c

module _ {A : Type 0} (a : Arith A) where
  -- Not NaN, which is the one value that does not equal itself.
  abbrev pub IsNumber : A → Type 0
  IsNumber x = a.le x x ≡ true

  pub record IsOrdered : Type 0 where
    pub num_of_le : (x y : A) → a.le x y ≡ true → IsNumber x × IsNumber y
    pub le_trans : (x y z : A) → a.le x y ≡ true → a.le y z ≡ true → a.le x z ≡ true
    pub le_total : (x y : A) → IsNumber x → IsNumber y → (a.le x y ≡ true) ⊎ (a.le y x ≡ true)
    pub lt-eq-not-le : (x y : A) → IsNumber x → IsNumber y → a.lt x y ≡ not (a.le y x)

  -- `std::less` is a strict weak ordering of the numbers.
  pub lt-IsStrictWeak : IsOrdered → IsStrictWeak IsNumber a.lt
  lt-IsStrictWeak o = record {
    asymm = λ x y p q e.
        ground (arith, o.lt-eq-not-le x y p q, o.lt-eq-not-le y x q p, o.le_total x y p q);
    negtrans = λ x y z p q r e f. ground (
      arith,
      o.lt-eq-not-le x y p q,
      o.lt-eq-not-le y z q r,
      o.lt-eq-not-le x z p r,
      o.le_trans z y x,
    );
  }

-- A `float` holds every number up to 2^24, which covers the symbol codes and the members.
pub record CountsExactly (m : Machine) : Type 0 where
  pub le-of_nat :
      (a b : ℕ)
      → a ≤ 2 ^ 24
      → b ≤ 2 ^ 24
      → m.float.le (m.float.of_nat a) (m.float.of_nat b) ≡ leb a b
  pub to_code-of_nat : (c : ℕ) → c ≤ 2 ^ 24 → m.to_code (m.float.of_nat c) ≡ c

-- `n` times 0.1, 0.25, 0.75 and 0.9 in double precision, truncated, for a number of members `n`.
pub record ScalesSize (m : Machine) : Type 0 where
  pub tenth :
      (n : ℕ)
      → n < 2 ^ 32
      → m.to_size (m.double.mul (m.double.of_nat n) (m.double.decimal 1 1)) ≡ n / 10
  pub quarter :
      (n : ℕ)
      → n < 2 ^ 32
      → m.to_size (m.double.mul (m.double.of_nat n) (m.double.decimal 25 2)) ≡ n / 4
  pub three_quarters :
      (n : ℕ)
      → n < 2 ^ 32
      → m.to_size (m.double.mul (m.double.of_nat n) (m.double.decimal 75 2)) ≡ n * 3 / 4
  pub nine_tenths :
      (n : ℕ)
      → n < 2 ^ 32
      → m.to_size (m.double.mul (m.double.of_nat n) (m.double.decimal 9 1)) ≡ n * 9 / 10
