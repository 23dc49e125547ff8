-- ===== src/Generator/Symbol/Nearby.antt =====
-- The relation that the table of nearby symbols gives.
use eps2probandltf.Common.{
  ℕ, ◌≡◌, refl, ap, ◌∙◌, inl, inr, List, [], ◌∷◌, Error, ok, err, Bool, true, false, ◌&&◌, not,
  if◌then◌else◌, arith, some, none, same, Option-cases, ◌+◌, ◌-◌, leb, ◌==◌, Bool-cases,
}
use eps2probandltf.Common.OrderedMap.{number_key, lookup}
use eps2probandltf.Machine.{Machine}
use eps2probandltf.Machine.Laws.{CountsExactly}
use eps2probandltf.Generator.Symbol.{equals, symbol_influences_selection}
use eps2probandltf.Generator.Symbol.Codes.{
  sun, light_cloud, partly_cloud, cloud, drizzle_sun, light_rain_sun, rain_sun, drizzle, light_rain,
  rain, nearby, contains,
}

-- The codes that the table has a row for.
abbrev pub known_codes : List ℕ
known_codes =
    sun ∷ light_cloud ∷ partly_cloud ∷ cloud ∷ drizzle_sun ∷ light_rain_sun ∷ rain_sun ∷ drizzle
    ∷ light_rain ∷ rain ∷ []

abbrev pub IsKnown : ℕ → Type 0
IsKnown c = contains c known_codes ≡ true

-- The answer of the table.
unfoldable pub near : ℕ → ℕ → Bool
unfolding lookup nearby contains
near a b = elim (lookup a nearby) [ none ↦ false | some s ↦ contains b s ]

same_eq : (a b : Bool) → same a b ≡ true → a ≡ b
same_eq a b h = ground (arith, h)

for_all : (ℕ → Bool) → List ℕ → Bool
for_all p [] = true
for_all p (c ∷ codes) = p c && for_all p codes

for_all_sound :
    (p : ℕ → Bool) (c : ℕ) (codes : List ℕ)
    → for_all p codes ≡ true
    → contains c codes ≡ true
    → p c ≡ true
unfolding for_all contains
for_all_sound p c [] h k = cc
for_all_sound p c (d ∷ codes) h k = ground (arith, for_all_sound p c codes, ap p)

-- The codes in a plane: the sky without precipitation from sun to cloud in one row; apart from it,
-- precipitation from drizzle to rain in a row with sun and a row without.
abbrev pub place : ℕ → ℕ × ℕ
place c =
    if c == sun
    then (0, 1)
    else if c == light_cloud
    then (0, 2)
    else if c == partly_cloud
    then (0, 3)
    else if c == cloud
    then (0, 4)
    else if c == drizzle_sun
    then (5, 1)
    else if c == light_rain_sun
    then (5, 2)
    else if c == rain_sun
    then (5, 3)
    else if c == drizzle
    then (6, 1)
    else if c == light_rain
    then (6, 2)
    else (6, 3)

-- The codes have the same place, or neighbouring places in a row or in a column.
abbrev pub is_next : ℕ → ℕ → Bool
is_next a b =
    let (row, x) = place a in
    let (row', x') = place b in leb ((row - row') + (row' - row) + ((x - x') + (x' - x))) 1

near_table :
    for_all (λ a. for_all (λ b. same (near a b) (is_next a b)) known_codes) known_codes ≡ true
unfolding for_all near
near_table = refl

known_rows :
    for_all (λ a. elim (lookup a nearby) [ none ↦ false | some s ↦ true ]) known_codes ≡ true
unfolding for_all lookup nearby
known_rows = refl

pub IsKnown-row : (a : ℕ) → IsKnown a → (s : List ℕ) × (lookup a nearby ≡ some s)
IsKnown-row a h = elim (Option-cases (lookup a nearby)) [
  | inl e ↦ absurd (ground (arith, e, for_all_sound _ a known_codes known_rows h))
  | inr r ↦ r
]

near-is_next : (a b : ℕ) → IsKnown a → IsKnown b → near a b ≡ is_next a b
near-is_next a b h k =
    let row =
      for_all_sound (λ a. for_all (λ b. same (near a b) (is_next a b)) known_codes) a known_codes
        near_table h in
    let found = for_all_sound (λ b. same (near a b) (is_next a b)) b known_codes row k in
    same_eq (near a b) (is_next a b) found

pub near_refl : (a : ℕ) → IsKnown a → near a a ≡ true
near_refl a h = near-is_next a a h h ∙ at_place (place a)
  where
    at_place : (p : ℕ × ℕ) → leb ((p.0 - p.0) + (p.0 - p.0) + ((p.1 - p.1) + (p.1 - p.1))) 1 ≡ true
    at_place p = ground arith

unknown_row : (a : ℕ) → contains a known_codes ≡ false → lookup a nearby ≡ none
unfolding lookup nearby contains
unknown_row a h = ground arith

module _ ⦃m : Machine⦄ (exact : CountsExactly m) where
  factor_test :
      (b : Bool) → not (equals m.float (m.float.of_nat (if b then 1 else 0)) (m.float.of_nat 0)) ≡ b
  unfolding equals
  factor_test true = ground (arith, exact.le-of_nat 1 0, exact.le-of_nat 0 1)
  factor_test false = ground (arith, exact.le-of_nat 0 0)

  pub influences-near : (a b : ℕ) → IsKnown a → symbol_influences_selection a b ≡ ok (near a b)
  unfolding symbol_influences_selection near
  influences-near a b h =
      let (s, e) = IsKnown-row a h in rw (e, near) (ap ok (factor_test (contains b s)))

  -- With a `float` that holds numbers up to 2^24 exactly: for a queried symbol that has a row in the
  -- table, the test whether it influences the selection of a symbol throws a logic error if that symbol
  -- has no row. Otherwise it answers, and the answer is whether the two are the same or neighbours: in the
  -- row of the sky without precipitation, from sun to cloud; in a row of precipitation, from drizzle to
  -- rain, with or without sun; or with the same precipitation, one with sun and one without. So the answer
  -- for two symbols of the table does not depend on which of them is selected.
  pub symbol_influences_selection_lem :
      (selected query : ℕ)
      → IsKnown query
      → (symbol_influences_selection selected query ≡ (
          if contains selected known_codes
          then ok (is_next selected query)
          else err Error.logic_error))
        × (is_next selected query ≡ is_next query selected)
  unfolding symbol_influences_selection
  symbol_influences_selection_lem a b k = (
    elim (Bool-cases (contains a known_codes)) [
      | inl h ↦ rw h (influences-near a b h ∙ ap ok (near-is_next a b h k))
      | inr h ↦ rw (h, unknown_row a h) refl
    ],
    is_next_symm (place a) (place b),
  )
    where
      is_next_symm :
          (p q : ℕ × ℕ)
          → leb ((p.0 - q.0) + (q.0 - p.0) + ((p.1 - q.1) + (q.1 - p.1))) 1
            ≡ leb ((q.0 - p.0) + (p.0 - q.0) + ((q.1 - p.1) + (p.1 - q.1))) 1
      is_next_symm p q = ap (λ n. leb n 1) (omega arith)
