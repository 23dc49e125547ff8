-- ===== src/Configuration.antt =====
-- configuration/ProbabilityGenerationConfiguration.h and .cpp: which products are generated. The option
-- parser gives the values of `--exclude` and `--include` as lists.
pub mod Products
pub mod Options
use Prim.Native.String.{String}
use mathlib.Core.Bool.{Bool, true, false, not}
use text.Mathlib.Text.{◌==◌}
use eps2probandltf.Common.{
  List, [], ◌∷◌, map, Option, none, some, Result, Error, ok, err, ◌>>=◌, if◌then◌else◌,
}
use eps2probandltf.Common.Outcomes.{or_else}
use eps2probandltf.Common.Int.{ℤ}

abbrev pub Parameters : Type 0
Parameters = List (String × Bool)

-- `GeneratorControl`.
pub record GeneratorControl (F : Type 0) : Type 0 where
  pub number_of_hours_to_generate : ℤ
  pub exclude_percentiles : Bool
  pub exclude_simplified_probabilities : Bool
  pub excluded_parameters : Parameters
  pub precip_fraction : F

-- The constructor of `GeneratorControl`: nothing is excluded. The entries of a `std::map` are in order.
abbrev pub default_parameters : Parameters
default_parameters =
    ("clouds", false)
    ∷ ("humidity", false)
    ∷ ("precipitation", false)
    ∷ ("pressure", false)
    ∷ ("symbols", false)
    ∷ ("temperature", false)
    ∷ ("waves", false)
    ∷ ("wind", false)
    ∷ []

-- `find`.
unfoldable pub find : String → Parameters → Option Bool
find what [] = none
find what ((name, excluded) ∷ m) = if name == what then some excluded else find what m

-- `find->second = excluded`, where `find` is not `end()`.
unfoldable pub set_excluded : String → Bool → Parameters → Option Parameters
set_excluded what b [] = none
set_excluded what b ((name, excluded) ∷ m) =
    let rest = set_excluded what b m in
    if name == what then some ((name, b) ∷ m) else with_entry rest
  where
    with_entry : Option Parameters → Option Parameters
    with_entry none = none
    with_entry (some m') = some ((name, excluded) ∷ m')

-- The loop for `all`.
unfoldable pub set_all : Bool → Parameters → Parameters
set_all b [] = []
set_all b ((name, excluded) ∷ m) = (name, b) ∷ set_all b m

-- The loop over the values of `--exclude`, with `true`, and over those of `--include`, with `false`.
unfoldable pub apply_options : Bool → List String → Parameters → Result Parameters
unfolding set_excluded set_all
apply_options b [] m = ok m
apply_options b (option ∷ options) m = do
  m' ←
      if option == "all"
      then ok (set_all b m)
      else or_else Error.runtime_error (set_excluded option b m)
  apply_options b options m'

-- What the constructor of the configuration leaves in `excludedParameters`.
unfoldable pub configure : (exclude include : List String) → Result Parameters
unfolding apply_options
configure exclude include = do
  m ← apply_options true exclude default_parameters
  apply_options false include m

-- `shouldGenerate`.
unfoldable pub should_generate : {F : Type 0} → GeneratorControl F → String → Result Bool
unfolding find
should_generate conf what = do
  excluded ← or_else Error.runtime_error (find what conf.excluded_parameters)
  ok (not excluded)
