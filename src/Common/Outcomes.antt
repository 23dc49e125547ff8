-- ===== src/Common/Outcomes.antt =====
-- The outcome of C++ code that may throw, and the loops that read a value for each index.
use Prim.Native.Nat.{ℕ, zero, suc, ◌+◌, ◌<◌, ◌≤◌}
use mathlib.Core.Path.{◌≡◌, refl, ap}
use mathlib.Core.Logic.{◌⊎◌, inl, inr}
use mathlib.Core.List.{List, [], ◌∷◌}
use mathlib.Core.Option.{Option, none, some}
use native.Mathlib.Omega.{arith}
use eps2probandltf.Common.Lists.{length, get_elem?, All}

-- `std::out_of_range`, `std::logic_error`, `std::runtime_error` and `Source::DataNotAvailable`, without
-- their messages; `undefined` is an access that the standard leaves undefined, which nothing catches.
pub data Error : Type 0 where
  out_of_range logic_error runtime_error data_not_available undefined : Error

pub data Result {ℓ} (A : Type ℓ) : Type ℓ where
  ok : A → Result A
  err : Error → Result A

-- To split on a computed outcome and keep the equation.
pub Result-cases {ℓ} :
    {A : Type ℓ} (r : Result A) → ((a : A) × (r ≡ ok a)) ⊎ ((e : Error) × (r ≡ err e))
Result-cases (ok a) = inl (a, refl)
Result-cases (err e) = inr (e, refl)

pub Option-cases {ℓ} : {A : Type ℓ} (o : Option A) → (o ≡ none) ⊎ ((a : A) × (o ≡ some a))
Option-cases none = inl refl
Option-cases (some a) = inr (a, refl)

infixl 5 ◌>>=◌
abbrev pub ◌>>=◌ {ℓ κ} : {A : Type ℓ} {B : Type κ} → Result A → (A → Result B) → Result B
ok a >>= f = f a
err e >>= f = err e

module _ {ℓ} {A : Type ℓ} where
  abbrev pub or_else : Error → Option A → Result A
  or_else e none = err e
  or_else e (some a) = ok a

  -- `v.at(i)` and `v[i]` of a `std::vector`.
  abbrev pub at : List A → ℕ → Result A
  at xs i = or_else Error.out_of_range (get_elem? xs i)

  abbrev pub read : List A → ℕ → Result A
  read xs i = or_else Error.undefined (get_elem? xs i)

  -- `v[0].size()`, the number of points of a collection.
  abbrev pub front_size : List (List A) → Result ℕ
  front_size [] = err Error.undefined
  front_size (row ∷ rows) = ok (length row)

  -- The values that a loop reads at `i`, `i + 1`, ..., `n` of them. It stops at the first error.
  unfoldable pub collect : (ℕ → Result A) → (n i : ℕ) → Result (List A)
  collect f zero i = ok []
  collect f (suc n) i = do x ← f i; xs ← collect f n (suc i); ok (x ∷ xs)

  -- If every read gives a value with `P`, the loop gives them all.
  pub collect_in {κ} :
      (P : A → Type κ) (f : ℕ → Result A) (n i : ℕ)
      → ((k : ℕ) → i ≤ k → k < i + n → (x : A) × (f k ≡ ok x) × P x)
      → (xs : List A) × (collect f n i ≡ ok xs) × (length xs ≡ n) × All P xs
  unfolding collect
  collect_in P f zero i h = ([], refl, refl, tt)
  collect_in P f (suc n) i h =
      let (x, e, p) = h i (omega arith) (omega arith) in
      let (xs, g, l, a) = collect_in P f n (suc i) (λ k p q. h k (omega arith) (omega arith)) in
      (x ∷ xs, rw (e, g), ap suc l, (p, a))

  -- Element `k` of what the loop gave was read at `i + k`.
  pub collect_at :
      (f : ℕ → Result A) (n i : ℕ) (xs : List A)
      → collect f n i ≡ ok xs
      → (k : ℕ) → k < n
      → (x : A) × (get_elem? xs k ≡ some x) × (f (i + k) ≡ ok x)
  unfolding collect
  collect_at f zero i xs e k h = absurd (omega arith)
  collect_at f (suc n) i xs e k h = elim (Result-cases (f i)) [
    | inr (u, g) ↦ absurd (ground (arith, g))
    | inl (x, g) ↦ elim (Result-cases (collect f n (suc i))) [
      | inr (u, l) ↦ absurd (ground (arith, g, l))
      | inl (ys, l) ↦
          let same : xs ≡ x ∷ ys = ground (arith, g, l) in
          rw same (at_place k x ys g h (collect_at f n (suc i) ys l))
    ]
  ]
    where
      at_place :
          (k : ℕ) (x : A) (ys : List A)
          → f i ≡ ok x
          → k < suc n
          → ((j : ℕ) → j < n → (y : A) × (get_elem? ys j ≡ some y) × (f (suc i + j) ≡ ok y))
          → (y : A) × (get_elem? (x ∷ ys) k ≡ some y) × (f (i + k) ≡ ok y)
      at_place zero x ys g h ih = let z : i + 0 ≡ i = omega arith in (x, refl, rw z g)
      at_place (suc j) x ys g h ih =
          let (y, e, l) = ih j (omega arith) in
          let z : i + suc j ≡ suc i + j = omega arith in (y, e, rw z l)

  pub Result-ok-inj : {a b : A} → ok a ≡ ok b → a ≡ b
  Result-ok-inj e = cc

pub >>=-eq-ok {ℓ κ} :
    {A : Type ℓ} {B : Type κ} (m : Result A) (f : A → Result B) (b : B)
    → (m >>= f) ≡ ok b
    → (a : A) × (m ≡ ok a) × (f a ≡ ok b)
>>=-eq-ok (ok a) f b h = (a, refl, h)
>>=-eq-ok (err e) f b h = cc
