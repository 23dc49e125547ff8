-- ===== src/Generator/Wind.antt =====
-- generator/wind: wind as a vector, its selection and how sure it is.
pub mod Direction
use eps2probandltf.Common.{
  ℕ, zero, suc, List, [], ◌∷◌, ◌++◌, Result, Error, ok, err, ◌>>=◌, read, length, Bool,
  if◌then◌else◌, collect, map,
}
use eps2probandltf.Machine.{Machine}
use eps2probandltf.DataTypes.{BlobContainer, BlobCollection, BlobValue}
use eps2probandltf.Container.{column}
use eps2probandltf.Generator.Percentile.{count_if}
use eps2probandltf.Generator.Probable.{get_probable_values}

module _ ⦃m : Machine⦄ where
  -- `Wind`.
  pub record Wind : Type 0 where
    pub u : BlobValue
    pub v : BlobValue

  -- `force`; `WindForceLess` orders by it.
  unfoldable pub force : Wind → BlobValue
  force w = m.float.sqrt (m.float.add (m.float.mul w.u w.u) (m.float.mul w.v w.v))

  unfoldable pub wind_force_less : Wind → Wind → Bool
  unfolding force
  wind_force_less a b = m.float.lt (force a) (force b)

  -- The two loops of the constructor of `Wind::Direction`, on fuel.
  unfoldable pub raise : ℕ → BlobValue → Result BlobValue
  raise zero dir = err Error.undefined
  raise (suc fuel) dir =
      let rest = raise fuel (m.float.add dir (m.float.of_nat 360)) in
      let limit = m.float.sub (m.float.of_nat 0) (m.float.of_nat 180) in
      if m.float.le dir limit then rest else ok dir

  unfoldable pub lower : ℕ → BlobValue → Result BlobValue
  lower zero dir = err Error.undefined
  lower (suc fuel) dir =
      let rest = lower fuel (m.float.sub dir (m.float.of_nat 360)) in
      if m.float.lt (m.float.of_nat 180) dir then rest else ok dir

  -- `Wind::Direction(dir)`. The callers pass at most one turn and a half, which three rounds reduce.
  unfoldable pub normalised : BlobValue → Result BlobValue
  unfolding raise lower
  normalised dir = do raised ← raise 3 dir; lower 3 raised

  -- `direction`, in degrees.
  unfoldable pub direction : Wind → Result BlobValue
  unfolding normalised
  direction w =
      normalised
        (m.narrow (m.double.mul (m.widen (m.atan2 w.v w.u)) (m.double.decimal 5729577951308232 14)))

  -- `differenceTo`, for two directions.
  unfoldable pub difference_to : BlobValue → BlobValue → Result BlobValue
  unfolding normalised
  difference_to a b = normalised (m.float.sub a b)

  -- `scaledTo`.
  unfoldable pub scaled_to : Wind → BlobValue → Wind
  unfolding force
  scaled_to w wind_force =
      let factor = m.float.div wind_force (force w) in
      record { u = m.float.mul w.u factor; v = m.float.mul w.v factor }

  -- What `median<Wind>` makes of the two winds in the middle, the stronger one first.
  unfoldable pub between_winds : Wind → Wind → Wind
  unfolding scaled_to
  between_winds a b =
      let sum = m.widen (m.float.add (force a) (force b)) in
      scaled_to b (m.narrow (m.double.div sum (m.double.of_nat 2)))

  -- `std::transform` with `makeWind` over the values of a member; `v` is read without a check.
  unfoldable pub make_winds : BlobContainer → BlobContainer → Result (List Wind)
  make_winds [] vs = ok []
  make_winds (u ∷ us) [] = err Error.undefined
  make_winds (u ∷ us) (v ∷ vs) = do ws ← make_winds us vs; ok (record { u = u; v = v } ∷ ws)

  -- `getWind`.
  unfoldable pub get_wind : BlobCollection → BlobCollection → Result (List (List Wind))
  unfolding make_winds
  get_wind [] v = ok []
  get_wind (us ∷ u) [] = err Error.undefined
  get_wind (us ∷ u) (vs ∷ v) = do row ← make_winds us vs; rows ← get_wind u v; ok (row ∷ rows)

  -- `almost_equal_force(delta)`.
  unfoldable pub almost_equal_force : BlobValue → Wind → Wind → Bool
  unfolding force
  almost_equal_force delta a b = m.float.le (m.float.fabs (m.float.sub (force a) (force b))) delta

  -- `getForceProbability`, for the winds of a point.
  unfoldable pub get_force_probability : List Wind → Wind → BlobValue
  unfolding almost_equal_force
  get_force_probability point wind =
      let deviation = if m.float.lt (force wind) (m.float.of_nat 12) then 2 else 3 in
      let count = count_if (λ w. almost_equal_force (m.float.of_nat deviation) w wind) point in
      m.narrow (
        m.double.mul (m.widen (m.float.div (m.float.of_nat count) (m.float.of_nat (length point))))
          (m.double.of_nat 100))

  -- `almost_equal_direction(delta)`.
  unfoldable pub almost_equal_direction : BlobValue → Wind → Wind → Result Bool
  unfolding direction difference_to
  almost_equal_direction delta a b = do
    a_dir ← direction a
    b_dir ← direction b
    turn ← difference_to a_dir b_dir
    ok (m.float.le (m.float.fabs turn) (m.float.fabs delta))

  -- `countAbsDifferenceDirection`.
  unfoldable pub count_abs_difference_direction : List Wind → Wind → BlobValue → Result ℕ
  unfolding almost_equal_direction
  count_abs_difference_direction [] value abs_diff = ok 0
  count_abs_difference_direction (w ∷ winds) value abs_diff = do
    near ← almost_equal_direction abs_diff w value
    rest ← count_abs_difference_direction winds value abs_diff
    ok (if near then suc rest else rest)

  -- `getDirectionProbability`.
  unfoldable pub get_direction_probability : List Wind → Wind → Result BlobValue
  unfolding count_abs_difference_direction
  get_direction_probability point wind =
      let weak = m.float.lt (force wind) (m.float.of_nat 12) in
      let deviation = if weak then m.float.of_nat 45 else m.float.decimal 225 1 in
      let share = (do
        count ← count_abs_difference_direction point wind deviation
        ok (
            m.narrow (
              m.double.mul
                (m.widen (m.float.div (m.float.of_nat count) (m.float.of_nat (length point))))
                (m.double.of_nat 100)))) in
      if m.float.lt (force wind) (m.float.of_nat 3) then ok (m.float.of_nat 100) else share

  -- `getOverallProbability`.
  unfoldable pub get_overall_probability : List Wind → Wind → BlobValue
  unfolding get_force_probability
  get_overall_probability point wind = get_force_probability point wind

  -- One round of `getWindProbability`.
  unfoldable pub wind_probability_point : List Wind → List (List Wind) → ℕ → Result BlobValue
  unfolding get_overall_probability
  wind_probability_point selected_wind wind_samples i = do
    wind ← read selected_wind i
    point ← column i wind_samples
    ok (get_overall_probability point wind)

  -- `getWindProbability`, which appends to its output.
  unfoldable pub get_wind_probability :
      List Wind → List (List Wind) → BlobContainer → Result BlobContainer
  unfolding wind_probability_point
  get_wind_probability selected_wind wind_samples out = do
    found ← collect (wind_probability_point selected_wind wind_samples) (length selected_wind) 0
    ok (out ++ found)

  -- The three outputs of `getWindProbabilities`.
  pub record WindOut : Type 0 where
    pub wind_u : BlobContainer
    pub wind_v : BlobContainer
    pub wind_probability : BlobContainer

  -- `getWindProbabilities`, which appends to its outputs.
  unfoldable pub get_wind_probabilities :
      BlobContainer → BlobCollection → List (List Wind) → WindOut → Result WindOut
  unfolding wind_force_less between_winds get_wind_probability
  get_wind_probabilities selected_symbols all_symbols wind out = do
    selected_wind ←
        get_probable_values between_winds wind_force_less selected_symbols all_symbols wind []
    probability ← get_wind_probability selected_wind wind out.wind_probability
    ok (record {
      wind_u = out.wind_u ++ map (λ w. w.u) selected_wind;
      wind_v = out.wind_v ++ map (λ w. w.v) selected_wind;
      wind_probability = probability;
    })
