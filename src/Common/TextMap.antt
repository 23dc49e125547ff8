-- ===== src/Common/TextMap.antt =====
-- `std::map` and `std::set` with `std::string` keys: entries in the order of the texts.
use Prim.Native.Nat.{Ordering}
use Prim.Native.String.{String, compare}
use text.Mathlib.Text.{◌==◌}
use text.Mathlib.TextEquality.{eq_iff}
use mathlib.Core.Path.{◌≡◌, refl}
use mathlib.Core.Bool.{Bool, true, false}
use mathlib.Core.List.{List, [], ◌∷◌}
use mathlib.Core.Option.{Option, none, some}
use native.Mathlib.Omega.{arith}
use eps2probandltf.Common.Tests.{if◌then◌else◌}
use eps2probandltf.Common.OrderedMap.{or_default}

-- `<` of two texts.
abbrev pub precedes : String → String → Bool
precedes a b = elim (compare a b) [ Ordering.lt ↦ true | _ ↦ false ]

module _ {V : Type 0} where
  -- `m.find(k)`.
  unfoldable pub find_text : String → List (String × V) → Option V
  find_text k [] = none
  find_text k ((j, v) ∷ m) = if j == k then some v else find_text k m

  -- `m[k] = v`.
  unfoldable pub assign_text : String → V → List (String × V) → List (String × V)
  assign_text k v [] = (k, v) ∷ []
  assign_text k v ((j, w) ∷ m) =
      if j == k
      then (j, v) ∷ m
      else if precedes k j
      then (k, v) ∷ (j, w) ∷ m
      else (j, w) ∷ assign_text k v m

  -- `m[k]` with a change of the value that is found or, with value `d`, put there.
  unfoldable pub update_text : String → V → (V → V) → List (String × V) → List (String × V)
  unfolding find_text assign_text
  update_text k d f m = assign_text k (f (or_default d (find_text k m))) m

  pub find_text-assign_text :
      (j k : String) (v : V) (m : List (String × V))
      → find_text j (assign_text k v m) ≡ (if k == j then some v else find_text j m)
  unfolding find_text assign_text
  find_text-assign_text j k v [] = refl
  find_text-assign_text j k v ((i, w) ∷ m) =
      ground (arith, eq_iff k j, eq_iff i k, eq_iff i j, find_text-assign_text j k v m)

-- `s.find(k) != s.end()`.
unfoldable pub has_text : String → List String → Bool
has_text k [] = false
has_text k (j ∷ s) = if j == k then true else has_text k s

-- `s.insert(k)`.
unfoldable pub insert_text : String → List String → List String
insert_text k [] = k ∷ []
insert_text k (j ∷ s) =
    if j == k then j ∷ s else if precedes k j then k ∷ j ∷ s else j ∷ insert_text k s

pub has_text-insert_text :
    (j k : String) (s : List String)
    → has_text j (insert_text k s) ≡ (if k == j then true else has_text j s)
unfolding has_text insert_text
has_text-insert_text j k [] = refl
has_text-insert_text j k (i ∷ s) =
    ground (arith, eq_iff k j, eq_iff i k, eq_iff i j, has_text-insert_text j k s)
