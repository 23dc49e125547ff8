-- ===== src/Container/Iterators.antt =====
-- The range from `begin()` to `end()` of a CrossContainer, as the standard algorithms visit it.
use eps2probandltf.Common.{
  ℕ, zero, suc, ◌+◌, ◌^◌, ◌<◌, ◌≤◌, ◌≡◌, ap, ◌∙◌, List, [], ◌∷◌, Result, Error, ok, err, ◌>>=◌,
  length, some, get_elem?, arith, if◌then◌else◌,
}
use eps2probandltf.Common.Int.{pos, int_of_size_lem}
use eps2probandltf.Container.{
  CrossContainer, CrossIterator, begin, end, deref, increment, difference, not_equal, equal, size,
  column,
}

module _ {A : Type 0} where
  -- `for ( ; it != stop; ++ it )` with a read of `* it` in each round. `undefined` stands for a loop
  -- that is not over after `n` rounds.
  pub visit : ℕ → CrossIterator A → CrossIterator A → Result (List A)
  unfolding not_equal deref increment
  visit zero it stop = if not_equal it stop then err Error.undefined else ok []
  visit (suc n) it stop =
      let rest = visit n (increment it) stop in
      if not_equal it stop then (do x ← deref it; xs ← rest; ok (x ∷ xs)) else ok []

  -- The iterator at a member.
  abbrev at_member : ℕ → List (List A) → ℕ → ℕ → CrossIterator A
  at_member address c i k = record {
    address = address;
    to_iterate = c;
    const_index = pos i;
    to_iterate_index = pos k;
  }

  next_member :
      (address : ℕ) (c : List (List A)) (i k : ℕ)
      → increment (at_member address c i k) ≡ at_member address c i (suc k)
  unfolding increment
  next_member address c i k = ground arith

  visit_from :
      (address : ℕ) (c : List (List A)) (i n k : ℕ) (rows : List (List A))
      → ((j : ℕ) → get_elem? c (k + j) ≡ get_elem? rows j)
      → k + length rows ≡ length c
      → length rows ≤ n
      → visit n (at_member address c i k) (at_member address c i (length c)) ≡ column i rows
  unfolding visit not_equal equal deref column
  visit_from address c i zero k [] same total h =
      let last : k ≡ length c = omega (arith, total) in ground (arith, last)
  visit_from address c i zero k (row ∷ rows) same total h = absurd (omega arith)
  visit_from address c i (suc n) k [] same total h =
      let last : k ≡ length c = omega (arith, total) in ground (arith, last)
  visit_from address c i (suc n) k (row ∷ rows) same total h =
      let here : get_elem? c k ≡ some row = ap (λ j. get_elem? c j) (omega arith) ∙ same 0 in
      let later : (j : ℕ) → get_elem? c (suc k + j) ≡ get_elem? rows j =
        λ j. ap (λ j. get_elem? c j) (omega arith) ∙ same (suc j) in
      let rest =
        visit_from address c i n (suc k) rows later (omega (arith, total)) (omega (arith, h)) in
      let before : k < length c = omega (arith, total) in
      ground (arith, here, next_member address c i k, rest, before)

  -- For a collection of fewer than 2^31 members, wherever it stands, and a point: visiting the range from
  -- `begin()` to `end()` with `!=`, `*` and `++` is over after as many rounds as there are members, and
  -- reads the value of each member at the point, in the order of the members, the exception of a member
  -- that lacks the point included; and `end() - begin()` is the number of members.
  pub visit-begin :
      (address i : ℕ) (c : List (List A))
      → length c < 2 ^ 31
      → let container : CrossContainer A = record { collection = c; use_index = pos i } in
        (visit (size container) (begin address container) (end address container) ≡ column i c)
        × (difference (end address container) (begin address container) ≡ pos (length c))
  unfolding begin end difference size
  visit-begin address i c h = rw (int_of_size_lem (length c) h) (
    visit_from address c i (length c) 0 c (λ j. ap (λ k. get_elem? c k) (omega arith)) (omega arith)
        (omega arith),
    ground arith,
  )
