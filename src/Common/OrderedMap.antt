-- ===== src/Common/OrderedMap.antt =====
-- `std::map`: entries in the order of their keys.
use Prim.Native.Nat.{ℕ, ◌<◌}
use mathlib.Core.Path.{◌≡◌, refl, subst}
use native.Mathlib.Decide.{ℕ_discrete}
use mathlib.Core.List.{List, [], ◌∷◌}
use mathlib.Core.Option.{Option, none, some}
use native.Mathlib.Omega.{arith}
use eps2probandltf.Common.Tests.{ltb, ◌==◌, if◌then◌else◌}
use eps2probandltf.Common.Lists.{All}

-- A key type: its order, through an injective rank.
pub record Key (K : Type 0) : Type 0 where
  pub rank : K → ℕ
  pub rank_inj : (a b : K) → rank a ≡ rank b → a ≡ b

instance abbrev pub number_key : Key ℕ
number_key = record { rank = λ n. n; rank_inj = λ a b e. e }

abbrev pub or_default : {V : Type 0} → V → Option V → V
or_default d none = d
or_default d (some v) = v

module _ {K : Type 0} {V : Type 0} ⦃key : Key K⦄ where
  -- `m.find(k)`.
  unfoldable pub lookup : K → List (K × V) → Option V
  lookup k [] = none
  lookup k ((j, v) ∷ m) = if key.rank j == key.rank k then some v else lookup k m

  -- `m[k] = v`.
  unfoldable pub assign : K → V → List (K × V) → List (K × V)
  assign k v [] = (k, v) ∷ []
  assign k v ((j, w) ∷ m) =
      if key.rank k == key.rank j
      then (j, v) ∷ m
      else if ltb (key.rank k) (key.rank j)
      then (k, v) ∷ (j, w) ∷ m
      else (j, w) ∷ assign k v m

  -- `m[k]` with a change of the value that is found or, with value `d`, put there.
  unfoldable pub update : K → V → (V → V) → List (K × V) → List (K × V)
  unfolding lookup assign
  update k d f m = assign k (f (or_default d (lookup k m))) m

  pub lookup-assign :
      (j k : K) (v : V) (m : List (K × V))
      → lookup j (assign k v m) ≡ (if key.rank k == key.rank j then some v else lookup j m)
  unfolding lookup assign
  lookup-assign j k v [] = refl
  lookup-assign j k v ((i, w) ∷ m) = ground (arith, lookup-assign j k v m)

  -- The keys rise.
  abbrev pub IsRising : List (K × V) → Type 0
  IsRising [] = Unit {0}
  IsRising ((k, v) ∷ m) = All (λ e. key.rank k < key.rank e.0) m × IsRising m

  assign-above :
      (i k : K) (v : V) (m : List (K × V))
      → key.rank i < key.rank k
      → All (λ e. key.rank i < key.rank e.0) m
      → All (λ e. key.rank i < key.rank e.0) (assign k v m)
  unfolding assign
  assign-above i k v [] h a = (h, tt)
  assign-above i k v ((j, w) ∷ m) h a = ground (arith, assign-above i k v m h a.1)

  All-above :
      (i k : K) (m : List (K × V))
      → key.rank i < key.rank k
      → All (λ e. key.rank k < key.rank e.0) m
      → All (λ e. key.rank i < key.rank e.0) m
  All-above i k [] h a = tt
  All-above i k (e ∷ m) h a = (omega (arith, a.0), All-above i k m h a.1)

  pub assign-IsRising : (k : K) (v : V) (m : List (K × V)) → IsRising m → IsRising (assign k v m)
  unfolding assign
  assign-IsRising k v [] r = (tt, tt)
  assign-IsRising k v ((j, w) ∷ m) r =
      ground (arith, assign-IsRising k v m r.1, All-above k j m, assign-above j k v m)

  pub lookup_above :
      (k : K) (m : List (K × V)) → All (λ e. key.rank k < key.rank e.0) m → lookup k m ≡ none
  unfolding lookup
  lookup_above k [] a = refl
  lookup_above k ((j, w) ∷ m) a = ground (arith, lookup_above k m a.1)

  -- A property of the keys survives an assignment to a key that has it.
  pub assign-All :
      (P : K → Type 0) (k : K) (v : V) (m : List (K × V))
      → P k
      → All (λ e. P e.0) m
      → All (λ e. P e.0) (assign k v m)
  unfolding assign
  assign-All P k v [] p a = (p, tt)
  assign-All P k v ((j, w) ∷ m) p a = ground (arith, p, a.0, a.1, assign-All P k v m p a.1)

  -- A key that is found has what all keys have.
  pub lookup-All :
      (P : K → Type 0) (k : K) (v : V) (m : List (K × V))
      → All (λ e. P e.0) m
      → lookup k m ≡ some v
      → P k
  unfolding lookup
  lookup-All P k v [] a e = absurd (ground arith)
  lookup-All P k v ((j, w) ∷ m) a e = elim (ℕ_discrete (key.rank j) (key.rank k)) [
    | yes p ↦ subst P (key.rank_inj j k p) a.0
    | no p ↦ lookup-All P k v m a.1 (ground (arith, p))
  ]
