-- ===== src/Container/Sort.antt =====
-- `algorithm::sort` sorts each grid point for itself.
use mathlib.Core.List.{Permᴰ}
use eps2probandltf.Common.{
  ℕ, zero, suc, ◌+◌, ◌<◌, ◌≤◌, ◌≡◌, ◌≢◌, refl, sym, ◌∙◌, ap, List, [], ◌∷◌, ok, length, All, arith,
  Perm-length, Bool,
}
use native.Mathlib.Decide.{ℕ_discrete}
use eps2probandltf.Common.Outcomes.{Result-ok-inj}
use eps2probandltf.Machine.{Machine}
use eps2probandltf.Machine.Laws.{IsStrictWeak, IsAscending, Sorts}
use eps2probandltf.Container.{column, write_column, sort_points, sort}
use eps2probandltf.Container.Columns.{
  IsRect, column_in, column-write_column_self, column-write_column_ne, write_column-IsRect,
  length-write_column, column-All,
}

module _ {A : Type 0} (lt : A → A → Bool) where
  -- `d` has the shape of `c`, and each of its points holds the values of `c` in ascending order.
  pub record IsColumnSorted (w : ℕ) (c d : List (List A)) : Type 0 where
    pub rect : IsRect w d
    pub rows : length d ≡ length c
    pub columns :
        (j : ℕ) (xs : List A)
        → j < w
        → column j c ≡ ok xs
        → (ys : List A) × (column j d ≡ ok ys) × Permᴰ xs ys × IsAscending lt ys

module _ ⦃m : Machine⦄ {A : Type 0} {lt : A → A → Bool} {P : A → Type 0} (sorts : Sorts m)
    (weak : IsStrictWeak P lt) where
  sort_points_lem :
      (w n i : ℕ) (c : List (List A))
      → IsRect w c
      → i + n ≡ w
      → ((j : ℕ) (xs : List A) → i ≤ j → column j c ≡ ok xs → All P xs)
      → (d : List (List A)) × (sort_points lt n i c ≡ ok d)
        × IsRect w d
        × (length d ≡ length c)
        × ((j : ℕ) → j < i → column j d ≡ column j c)
        × ((j : ℕ) (xs : List A)
            → i ≤ j
            → j < w
            → column j c ≡ ok xs
            → column j d ≡ ok (m.sort A lt xs))
  unfolding sort_points
  sort_points_lem w zero i c r e good =
      (c, refl, r, refl, λ j h. refl, λ j xs h k f. absurd (omega arith))
  sort_points_lem w (suc n) i c r e good =
      let (xs, f, len) = column_in w i c r (omega arith) in
      let ys = m.sort A lt xs in
      let c' = write_column i c ys in
      let same : length ys ≡ length c =
        sym (Perm-length (sorts A P lt weak xs (good i xs (omega arith) f)).0) ∙ len in
      let (d, g, rect, rows, before, after) =
        sort_points_lem w n (suc i) c' (write_column-IsRect w i c ys r) (omega arith) (λ j zs h k.
          good j zs (omega arith) (sym (column-write_column_ne i j c ys (omega arith)) ∙ k)) in
      let moved : (j : ℕ) → i ≢ j → column j c' ≡ column j c =
        λ j h. column-write_column_ne i j c ys h in
      let here : column i d ≡ ok ys =
        before i (omega arith) ∙ column-write_column_self i c xs ys f same in
      (
        d,
        rw f g,
        rect,
        rows ∙ length-write_column i c ys,
        λ j h. before j (omega arith) ∙ moved j (omega arith),
        λ j zs h k q. elim (ℕ_discrete i j) [
          | yes p ↦
              let q' : column i c ≡ ok zs = rw p q in rw (← p, Result-ok-inj (sym q' ∙ f)) here
          | no p ↦ after j zs (omega arith) k (moved j p ∙ q)
        ],
      )

  sorted_empty :
      (j : ℕ) (xs : List A)
      → column j [] ≡ ok xs
      → (ys : List A) × (column j [] ≡ ok ys) × Permᴰ xs ys × IsAscending lt ys
  unfolding column
  sorted_empty j xs e =
      ([], refl, rw (← Result-ok-inj {A = List A} {a = []} {b = xs} e) Permᴰ.nil, tt)

  -- With a `std::sort` that sorts and a comparison that is a strict weak ordering of its domain: for
  -- a collection whose members all have `w` points, whose values are in the domain of the comparison,
  -- `algorithm::sort` returns, keeps the shape, and leaves at each point the values that the point
  -- had, in ascending order.
  pub sort_lem :
      (w : ℕ) (c : List (List A))
      → IsRect w c
      → All (All P) c
      → (d : List (List A)) × (sort lt c ≡ ok d) × IsColumnSorted lt w c d
  unfolding sort
  sort_lem w [] r a =
      ([], refl, record { rect = tt; rows = refl; columns = λ j xs h e. sorted_empty j xs e })
  sort_lem w (row ∷ rows) r a =
      let c = row ∷ rows in
      let (d, g, rect, same, _, sorted) =
        sort_points_lem w w 0 c r (omega arith) (λ j xs h k. column-All P j c xs a k) in
      (
        d,
        ap (λ n. sort_points lt n 0 c) r.0 ∙ g,
        record {
          rect = rect;
          rows = same;
          columns = λ j xs h e.
              let contract = sorts A P lt weak xs (column-All P j c xs a e) in
              (m.sort A lt xs, sorted j xs (omega arith) h e, contract.0, contract.1);
        },
      )
