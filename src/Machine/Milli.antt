-- ===== src/Machine/Milli.antt =====
-- A machine to run the code on: both floating point types are fixed-point numbers with three decimals.
use eps2probandltf.Common.{
  List, [], ◌∷◌, All, ℕ, zero, suc, ◌+◌, ◌*◌, ◌/◌, ◌^◌, arith, leb, if◌then◌else◌,
}
use eps2probandltf.Common.Int.{ℤ, pos, negsuc, ◌+ℤ◌, ◌-ℤ◌, ◌*ℤ◌, ◌/ℤ◌, abs, ltb_ℤ, leb_ℤ, pos_part}
use eps2probandltf.Machine.{Arith, Machine}
use eps2probandltf.Machine.Laws.{IsNumber, IsOrdered, Sorts, CountsExactly, ScalesSize}
use eps2probandltf.Machine.Sorting.{insertion_sort, insertion_sort-perm, insertion_sort-IsAscending}

-- The integer square root, bit by bit from the top.
root_bits : ℕ → ℕ → ℕ → ℕ
root_bits zero r n = r
root_bits (suc k) r n = root_bits k (if leb ((r + 2 ^ k) * (r + 2 ^ k)) n then r + 2 ^ k else r) n

-- The square root, in thousandths.
unfoldable pub root : ℤ → ℤ
unfolding root_bits
root a = pos (root_bits 30 0 (pos_part a * 1000))

abbrev pub milli : Arith ℤ
milli = record {
  add = ◌+ℤ◌;
  sub = ◌-ℤ◌;
  mul = λ a b. a *ℤ b /ℤ pos 1000;
  div = λ a b. a *ℤ pos 1000 /ℤ b;
  lt = ltb_ℤ;
  le = leb_ℤ;
  fabs = abs;
  sqrt = root;
  of_nat = λ n. pos (n * 1000);
  decimal = λ n k. pos (n * 1000 / 10 ^ k);
}

-- The quadrant's middle, or the axis.
abbrev eighth : ℤ → ℤ → ℤ
eighth (pos zero) (pos (suc v)) = pos 1570
eighth (pos zero) (negsuc v) = negsuc 1569
eighth (pos u) (pos zero) = pos 0
eighth (pos (suc u)) (pos (suc v)) = pos 785
eighth (pos (suc u)) (negsuc v) = negsuc 784
eighth (negsuc u) (pos zero) = pos 3141
eighth (negsuc u) (pos (suc v)) = pos 2356
eighth (negsuc u) (negsuc v) = negsuc 2355

instance abbrev pub fixed : Machine
fixed = record {
  Float = ℤ;
  Double = ℤ;
  float = milli;
  double = milli;
  widen = λ a. a;
  narrow = λ a. a;
  to_size = λ a. pos_part a / 1000;
  to_code = λ a. pos_part a / 1000;
  atan2 = λ v u. eighth u v;
  sort = λ A lt. insertion_sort lt;
  sort_thrown = λ A lt i c. c;
}

pub milli-IsOrdered : IsOrdered milli
milli-IsOrdered = record {
  num_of_le = λ x y e. (ground arith, ground arith);
  le_trans = λ x y z e f. ground arith;
  le_total = λ x y p q. ground arith;
  lt-eq-not-le = λ x y p q. ground arith;
}

pub fixed-Sorts : Sorts fixed
fixed-Sorts A P lt w xs ps = (insertion_sort-perm lt xs, insertion_sort-IsAscending lt w xs ps)

pub fixed-CountsExactly : CountsExactly fixed
fixed-CountsExactly = record {
  le-of_nat = λ a b p q. ground arith;
  to_code-of_nat = λ c h. omega arith;
}

pub fixed-ScalesSize : ScalesSize fixed
fixed-ScalesSize = record {
  tenth = λ n h. ground arith;
  quarter = λ n h. ground arith;
  three_quarters = λ n h. ground arith;
  nine_tenths = λ n h. ground arith;
}

pub milli-IsNumber : (a : ℤ) → IsNumber milli a
milli-IsNumber a = ground arith

pub row-IsNumber : (row : List ℤ) → All (IsNumber milli) row
row-IsNumber [] = tt
row-IsNumber (a ∷ row) = (milli-IsNumber a, row-IsNumber row)

-- Every value is a number.
pub field-IsNumber : (c : List (List ℤ)) → All (All (IsNumber milli)) c
field-IsNumber [] = tt
field-IsNumber (row ∷ c) = (row-IsNumber row, field-IsNumber c)
