-- ===== src/Configuration/Products.antt =====
-- How the options of the command line decide which products are generated.
use Prim.Native.String.{String}
use mathlib.Core.Bool.{Bool, true, false, not, ◌||◌}
use text.Mathlib.Text.{◌==◌}
use text.Mathlib.TextEquality.{eq_iff}
use eps2probandltf.Common.{
  List, [], ◌∷◌, some, ok, Error, if◌then◌else◌, ◌≡◌, ◌⊎◌, inl, inr, refl, sym, ◌∙◌, Bool-cases,
  All, ap, arith,
}
use eps2probandltf.Common.Outcomes.{or_else}
use eps2probandltf.Configuration.{
  Parameters, GeneratorControl, default_parameters, find, set_excluded, set_all, apply_options,
  configure, should_generate,
}

-- `option` is in the list, by its name or as `all`.
abbrev pub mentions : String → List String → Bool
mentions what [] = false
mentions what (option ∷ options) = option == "all" || option == what || mentions what options

abbrev pub IsProduct : Parameters → String → Type 0
IsProduct m what = (b : Bool) × (find what m ≡ some b)

-- What an option may be.
abbrev pub IsOption : Parameters → String → Type 0
IsOption m option = (option ≡ "all") ⊎ IsProduct m option

set_all_lem :
    (b : Bool) (what : String) (m : Parameters)
    → IsProduct m what
    → find what (set_all b m) ≡ some b
unfolding find set_all
set_all_lem b what [] (v, h) = absurd (ground arith)
set_all_lem b what ((name, excluded) ∷ m) (v, h) = elim (Bool-cases (name == what)) [
  | inl e ↦ rw e
  | inr e ↦ rw e (set_all_lem b what m (v, ground (arith, e)))
]

other_name : (name x what : String) → name == x ≡ false → name == what ≡ true → x == what ≡ false
other_name name x what e f = elim (Bool-cases (x == what)) [
  | inr g ↦ g
  | inl g ↦
      let same : name ≡ x = (eq_iff name what).0 f ∙ sym ((eq_iff x what).0 g) in
      absurd (ground (arith, (eq_iff name x).1 same, e))
]

set_excluded_lem :
    (b : Bool) (x : String) (m : Parameters)
    → IsProduct m x
    → (m' : Parameters) × (set_excluded x b m ≡ some m')
      × ((what : String) → find what m' ≡ (if x == what then some b else find what m))
unfolding find set_excluded
set_excluded_lem b x [] (v, h) = absurd (ground arith)
set_excluded_lem b x ((name, excluded) ∷ m) (v, h) = elim (Bool-cases (name == x)) [
  | inl e ↦ ((name, b) ∷ m, rw e, λ what. ground (arith, (eq_iff name x).0 e))
  | inr e ↦
      let (m', f, g) = set_excluded_lem b x m (v, ground (arith, e)) in
      (
        (name, excluded) ∷ m',
        rw (e, f),
        λ what. elim (Bool-cases (name == what)) [
          | inl k ↦ rw (k, other_name name x what e k) refl
          | inr k ↦ rw k (g what)
        ],
      )
]

-- One option, and what it does to every product.
option_lem :
    (b : Bool) (x : String) (m : Parameters)
    → IsOption m x
    → (m' : Parameters) × ((if x == "all"
          then ok (set_all b m)
          else or_else Error.runtime_error (set_excluded x b m))
        ≡ ok m')
      × ((what : String) (v : Bool)
          → find what m ≡ some v
          → find what m' ≡ some (if x == "all" || x == what then b else v))
option_lem b x m h = elim (Bool-cases (x == "all")) [
  | inl e ↦ (set_all b m, rw e, λ what v k. rw e (set_all_lem b what m (v, k)))
  | inr e ↦ elim h [
    | inl k ↦ absurd (ground (arith, (eq_iff x "all").1 k, e))
    | inr k ↦
        let (m', f, g) = set_excluded_lem b x m k in
        (m', rw (e, f), λ what v l. rw e (g what ∙ chosen what v l))
  ]
]
  where
    chosen :
        (what : String) (v : Bool)
        → find what m ≡ some v
        → (if x == what then some b else find what m) ≡ some (if x == what then b else v)
    chosen what v l = ground (arith, l)

still :
    (m m' : Parameters)
    → ((what : String) (v : Bool) → find what m ≡ some v → IsProduct m' what)
    → (ys : List String) → All (IsOption m) ys
    → All (IsOption m') ys
still m m' f [] t = tt
still m m' f (y ∷ ys) t =
    (elim t.0 [ inl e ↦ inl e | inr (v, e) ↦ inr (f y v e) ], still m m' f ys t.1)

-- With the keys kept and one value for all, a product that is found has that value.
find-All :
    (b : Bool) (m : Parameters)
    → All (λ e. e.1 ≡ b) m
    → (what : String) (v : Bool) → find what m ≡ some v
    → v ≡ b
unfolding find
find-All b [] a what v e = absurd (ground arith)
find-All b ((name, excluded) ∷ m) a what v e = ground (arith, a.0, find-All b m a.1 what v)

apply_options_lem :
    (b : Bool) (xs : List String) (m : Parameters)
    → All (IsOption m) xs
    → (m' : Parameters) × (apply_options b xs m ≡ ok m')
      × ((what : String) (v : Bool)
          → find what m ≡ some v
          → find what m' ≡ some (if mentions what xs then b else v))
unfolding apply_options
apply_options_lem b [] m a = (m, refl, λ what v h. h)
apply_options_lem b (x ∷ xs) m a =
    let (m', e, f) = option_lem b x m a.0 in
    let (m'', g, h) = apply_options_lem b xs m' (still m m' (λ what v k. (_, f what v k)) xs a.1) in
    (m'', rw (e, g), λ what v k. h what _ (f what v k) ∙ ap some (join what v))
  where
    join :
        (what : String) (v : Bool)
        → (if mentions what xs then b else (if x == "all" || x == what then b else v))
          ≡ (if mentions what (x ∷ xs) then b else v)
    join what v = ground arith

-- For options that are all `all` or the name of a product: the configuration is made, and for each product
-- `shouldGenerate` answers whether it is not excluded, by name or by `all`, or is included in one of these
-- ways, whatever the order of the options.
pub configure_lem :
    {F : Type 0} (exclude include : List String)
    → All (IsOption default_parameters) exclude
    → All (IsOption default_parameters) include
    → (m : Parameters) × (configure exclude include ≡ ok m)
      × ((what : String)
          → IsProduct default_parameters what
          → (conf : GeneratorControl F) → conf.excluded_parameters ≡ m
          → should_generate conf what ≡ ok (mentions what include || not (mentions what exclude)))
unfolding configure should_generate
configure_lem exclude include a b =
    let (m, e, f) = apply_options_lem true exclude default_parameters a in
    let (m', g, h) =
      apply_options_lem false include m
        (still default_parameters m (λ what v k. (_, f what v k)) include b) in
    (
      m',
      rw (e, g),
      λ what k conf l.
          rw (l, h what _ (f what k.0 k.1))
            (ground (
              arith,
              find-All false default_parameters
                  (refl, (refl, (refl, (refl, (refl, (refl, (refl, (refl, tt)))))))) what k.0 k.1,
            )),
    )
