-- ===== src/Generator/Probable.antt =====
-- generator/bits/algorithm.t.h: the value of a point that goes with its selected symbol, as the median
-- of the members whose symbols influence the selection.
pub mod Relevant
pub mod Median
pub mod Field
use eps2probandltf.Common.{
  ℕ, zero, suc, ◌-◌, ◌/◌, ◌%◌, List, [], ◌∷◌, ◌++◌, Result, Error, ok, err, ◌>>=◌, at, read, length,
  Bool, true, false, if◌then◌else◌, ◌==◌, front_size, collect,
}
use eps2probandltf.Machine.{Machine, Arith}
use eps2probandltf.DataTypes.{BlobContainer, BlobCollection, BlobValue}
use eps2probandltf.Common.Int.{pos}
use eps2probandltf.Container.{CrossContainer, index}
use eps2probandltf.Generator.Symbol.{symbol_influences_selection}

-- `median`; `middle` is what the template and its specialisation for `Wind` do with the two values in the
-- middle, the upper one first.
unfoldable pub median : {A : Type 0} → (A → A → A) → List A → Result A
median middle values =
    let count = length values in
    let between = (do
      a ← read values (count / 2)
      b ← read values (count / 2 - 1)
      ok (middle a b)) in
    if count == 0
    then err Error.undefined
    else if count % 2 == 0
    then between
    else read values (count / 2)

module _ ⦃m : Machine⦄ where
  -- The average that `median<float>` takes.
  unfoldable pub average : BlobValue → BlobValue → BlobValue
  average a b = m.float.div (m.float.add a b) (m.float.of_nat 2)

  module _ {A : Type 0} where
    -- The loop of `getProbableValue` over `n` members from member `k`; the value of a member is read
    -- only if its symbol is relevant.
    unfoldable pub relevant :
        ℕ → (ℕ → Result BlobValue) → (ℕ → Result A) → (n k : ℕ) → Result (List A)
    relevant selected_symbol symbols values zero k = ok []
    relevant selected_symbol symbols values (suc n) k = do
      to_consider ← symbols k
      symbol_is_relevant ← symbol_influences_selection selected_symbol (m.to_code to_consider)
      own ← if symbol_is_relevant then values k >>= (λ v. ok (v ∷ [])) else ok []
      rest ← relevant selected_symbol symbols values n (suc k)
      ok (own ++ rest)

    module _ (middle : A → A → A) (cmp : A → A → Bool) where
      -- `getProbableValue`, over `n` members.
      unfoldable pub get_probable_value : ℕ → (ℕ → Result BlobValue) → (ℕ → Result A) → ℕ → Result A
      unfolding relevant median
      get_probable_value selected_symbol symbols values n = do
        found ← relevant selected_symbol symbols values n 0
        if length found == 0 then err Error.runtime_error else median middle (m.sort A cmp found)

      -- One round of the loop of `getProbableValues`.
      unfoldable pub probable_point : BlobContainer → BlobCollection → List (List A) → ℕ → Result A
      unfolding get_probable_value
      probable_point selected_symbols all_symbols data_in i =
          let value = (do
            selected ← at selected_symbols i
            get_probable_value (m.to_code selected)
                (λ j. index (record { collection = all_symbols; use_index = pos i }) (pos j))
                (λ j. index (record { collection = data_in; use_index = pos i }) (pos j))
                (length all_symbols)) in
          if length all_symbols == length data_in then value else err Error.runtime_error

      -- `getProbableValues`, which appends to `data_out`.
      unfoldable pub get_probable_values :
          BlobContainer → BlobCollection → List (List A) → List A → Result (List A)
      unfolding probable_point
      get_probable_values selected_symbols all_symbols data_in data_out = do
        points ← front_size all_symbols
        found ← collect (probable_point selected_symbols all_symbols data_in) points 0
        ok (data_out ++ found)
