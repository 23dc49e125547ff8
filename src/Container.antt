-- ===== src/Container.antt =====
-- container/CrossContainer.h and container/ccAlgorithm.h: one grid point of a collection as a
-- container of its own, its iterators, and the algorithms that visit a collection point by point.
pub mod Columns
pub mod Iterators
pub mod Sort
pub mod Visit
use eps2probandltf.Common.{
  ℕ, zero, suc, List, [], ◌∷◌, Result, Error, ok, err, ◌>>=◌, at, length, Bool, true, false, not,
  ◌&&◌, ◌==◌, set, front_size, if◌then◌else◌, ltb,
}
use eps2probandltf.Common.Int.{ℤ, pos, negsuc, ◌+ℤ◌, ◌-ℤ◌, ltb_ℤ, eqb_ℤ, int_of_size}
use eps2probandltf.Machine.{Machine}

-- `CrossContainer(collection, useIndex)`.
pub record CrossContainer (A : Type 0) : Type 0 where
  pub collection : List (List A)
  pub use_index : ℤ

-- `CrossContainerIteratorBase`; `address` is where the collection stands in memory, in collections.
pub record CrossIterator (A : Type 0) : Type 0 where
  pub address : ℕ
  pub to_iterate : List (List A)
  pub const_index : ℤ
  pub to_iterate_index : ℤ

-- `at` with an `int`: a negative index becomes a `size_type` past every vector.
abbrev at_int {ℓ} : {A : Type ℓ} → List A → ℤ → Result A
at_int xs (pos n) = at xs n
at_int xs (negsuc n) = err Error.out_of_range

-- A write through `at` with an `int`.
abbrev set_int {ℓ} : {A : Type ℓ} → List A → ℤ → A → Result (List A)
set_int xs (pos n) v = do old ← at xs n; ok (set xs n v)
set_int xs (negsuc n) v = err Error.out_of_range

module _ {A : Type 0} where
  -- `operator[]`.
  unfoldable pub index : CrossContainer A → ℤ → Result A
  index cc i = do row ← at_int cc.collection i; at_int row cc.use_index

  -- What a write through `operator[]` leaves.
  unfoldable pub write_index : CrossContainer A → ℤ → A → Result (List (List A))
  write_index container (negsuc n) v = err Error.out_of_range
  write_index container (pos n) v = do
    row ← at container.collection n
    row' ← set_int row container.use_index v
    ok (set container.collection n row')

  unfoldable pub size : CrossContainer A → ℕ
  size cc = length cc.collection

  unfoldable pub empty : CrossContainer A → Bool
  empty cc = elim cc.collection [ [] ↦ true | row ∷ rows ↦ false ]

  -- `begin()` and `end()`.
  unfoldable pub begin : ℕ → CrossContainer A → CrossIterator A
  begin address cc = record {
    address = address;
    to_iterate = cc.collection;
    const_index = cc.use_index;
    to_iterate_index = pos 0;
  }

  unfoldable pub end : ℕ → CrossContainer A → CrossIterator A
  unfolding int_of_size
  end address cc = record {
    address = address;
    to_iterate = cc.collection;
    const_index = cc.use_index;
    to_iterate_index = int_of_size (length cc.collection);
  }

  -- `operator*`.
  unfoldable pub deref : CrossIterator A → Result A
  deref it = do row ← at_int it.to_iterate it.to_iterate_index; at_int row it.const_index

  -- `operator[]` of the iterator.
  unfoldable pub subscript : CrossIterator A → ℤ → Result A
  subscript it i = do
    row ← at_int it.to_iterate (it.to_iterate_index +ℤ i)
    at_int row it.const_index

  -- `it += amount` and `it + amount`, `++ it` and `-- it`.
  unfoldable pub advance : CrossIterator A → ℤ → CrossIterator A
  advance it amount = record it { to_iterate_index = it.to_iterate_index +ℤ amount }

  unfoldable pub increment : CrossIterator A → CrossIterator A
  increment it = record it { to_iterate_index = it.to_iterate_index +ℤ pos 1 }

  unfoldable pub decrement : CrossIterator A → CrossIterator A
  decrement it = record it { to_iterate_index = it.to_iterate_index -ℤ pos 1 }

  -- `operator-` between iterators.
  unfoldable pub difference : CrossIterator A → CrossIterator A → ℤ
  difference it other =
      it.to_iterate_index -ℤ other.to_iterate_index +ℤ (pos it.address -ℤ pos other.address)

  -- `operator==`, `operator!=` and `operator<`.
  unfoldable pub equal : CrossIterator A → CrossIterator A → Bool
  equal it other =
      eqb_ℤ it.const_index other.const_index
      && eqb_ℤ it.to_iterate_index other.to_iterate_index
      && it.address == other.address

  unfoldable pub not_equal : CrossIterator A → CrossIterator A → Bool
  unfolding equal
  not_equal it other = not (equal it other)

  unfoldable pub less : CrossIterator A → CrossIterator A → Bool
  less it other =
      if not (it.address == other.address)
      then ltb it.address other.address
      else if not (eqb_ℤ it.const_index other.const_index)
      then ltb_ℤ it.const_index other.const_index
      else ltb_ℤ it.to_iterate_index other.to_iterate_index

  -- What the range from `begin()` to `end()` of point `i` reads, one member after the other.
  unfoldable pub column : ℕ → List (List A) → Result (List A)
  column i [] = ok []
  column i (row ∷ rows) = do x ← at row i; xs ← column i rows; ok (x ∷ xs)

  -- What writing `vs` through that range leaves.
  unfoldable pub write_column : ℕ → List (List A) → List A → List (List A)
  write_column i (row ∷ rows) (v ∷ vs) = set row i v ∷ write_column i rows vs
  write_column i rows vs = rows

module _ ⦃m : Machine⦄ {A : Type 0} (less_than : A → A → Bool) where
  -- The loop of `algorithm::sort`, with `n` points to go from point `i`.
  unfoldable pub sort_points : (n i : ℕ) → List (List A) → Result (List (List A))
  sort_points zero i c = ok c
  sort_points (suc n) i c = do
    values ← column i c
    sort_points n (suc i) (write_column i c (m.sort A less_than values))

  -- `algorithm::sort(toSort, sortFunction)`.
  unfoldable pub sort : List (List A) → Result (List (List A))
  unfolding sort_points
  sort [] = ok []
  sort (row ∷ rows) = sort_points (length row) 0 (row ∷ rows)

  -- What the loop of `algorithm::sort` leaves of the collection if it throws.
  unfoldable pub thrown_points : (n i : ℕ) → List (List A) → List (List A)
  thrown_points zero i c = c
  thrown_points (suc n) i c = elim (column i c) [
    | ok values ↦ thrown_points n (suc i) (write_column i c (m.sort A less_than values))
    | err e ↦ m.sort_thrown A less_than i c
  ]

  unfoldable pub thrown_sort : List (List A) → List (List A)
  unfolding thrown_points
  thrown_sort [] = []
  thrown_sort (row ∷ rows) = thrown_points (length row) 0 (row ∷ rows)
