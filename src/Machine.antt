-- ===== src/Machine.antt =====
-- The C++ implementation that the program is compiled for: `float` and `double` with the operations that
-- the code calls, the conversions between them, and `std::sort`.
pub mod Laws
pub mod Sorting
pub mod Milli
use eps2probandltf.Common.{ℕ, Bool, List}

-- One floating point type. `decimal m k` is the literal m * 10^-k.
pub record Arith (A : Type 0) : Type 0 where
  pub add : A → A → A
  pub sub : A → A → A
  pub mul : A → A → A
  pub div : A → A → A
  pub lt : A → A → Bool
  pub le : A → A → Bool
  pub fabs : A → A
  pub sqrt : A → A
  pub of_nat : ℕ → A
  pub decimal : ℕ → ℕ → A

-- `to_size` and `to_code` are the conversions of a `double` to `std::size_t` and of a `float` to an
-- enumeration. `sort lt` stands for `std::sort` with the comparison `lt`; `sort_thrown lt i c` is what it
-- leaves of the collection `c` when the read of a member at point `i` throws.
pub record Machine : Type 1 where
  pub Float : Type 0
  pub Double : Type 0
  pub float : Arith Float
  pub double : Arith Double
  pub widen : Float → Double
  pub narrow : Double → Float
  pub to_size : Double → ℕ
  pub to_code : Float → ℕ
  pub atan2 : Float → Float → Float
  pub sort : (A : Type 0) → (A → A → Bool) → List A → List A
  pub sort_thrown : (A : Type 0) → (A → A → Bool) → ℕ → List (List A) → List (List A)
