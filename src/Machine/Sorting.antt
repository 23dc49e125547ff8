-- ===== src/Machine/Sorting.antt =====
-- An implementation of `std::sort` that meets its contract: insertion into an ascending list.
use mathlib.Core.List.{Permᴰ}
use mathlib.Core.List.Permᴰ
use eps2probandltf.Common.{
  ◌≡◌, inl, inr, Bool, false, List, [], ◌∷◌, All, Perm-All, Bool-cases, if◌then◌else◌, refl,
}
use eps2probandltf.Machine.Laws.{IsStrictWeak, IsAscending}

module _ {A : Type 0} (lt : A → A → Bool) where
  unfoldable pub insert : A → List A → List A
  insert x [] = x ∷ []
  insert x (y ∷ ys) = if lt y x then y ∷ insert x ys else x ∷ y ∷ ys

  unfoldable pub insertion_sort : List A → List A
  unfolding insert
  insertion_sort [] = []
  insertion_sort (x ∷ xs) = insert x (insertion_sort xs)

  insert-perm : (x : A) (xs : List A) → Permᴰ (x ∷ xs) (insert x xs)
  unfolding insert
  insert-perm x [] = Permᴰ.refl _
  insert-perm x (y ∷ ys) = elim (Bool-cases (lt y x)) [
    | inl e ↦ rw e (Permᴰ.trans (Permᴰ.swap refl refl) (Permᴰ.cons refl (insert-perm x ys)))
    | inr e ↦ rw e (Permᴰ.refl _)
  ]

  pub insertion_sort-perm : (xs : List A) → Permᴰ xs (insertion_sort xs)
  unfolding insertion_sort
  insertion_sort-perm [] = Permᴰ.nil
  insertion_sort-perm (x ∷ xs) =
      Permᴰ.trans (Permᴰ.cons refl (insertion_sort-perm xs)) (insert-perm x (insertion_sort xs))

  module _ {P : A → Type 0} (w : IsStrictWeak P lt) where
    All-below :
        (x y : A) (zs : List A)
        → P x
        → P y
        → All P zs
        → lt y x ≡ false
        → All (λ z. lt z y ≡ false) zs
        → All (λ z. lt z x ≡ false) zs
    All-below x y [] p q ps e a = tt
    All-below x y (z ∷ zs) p q ps e a =
        (w.negtrans z y x ps.0 q p a.0 e, All-below x y zs p q ps.1 e a.1)

    insert-IsAscending :
        (x : A) (xs : List A) → P x → All P xs → IsAscending lt xs → IsAscending lt (insert x xs)
    unfolding insert
    insert-IsAscending x [] p ps s = (tt, tt)
    insert-IsAscending x (y ∷ ys) p ps s = elim (Bool-cases (lt y x)) [
      | inl e ↦ rw e (
        Perm-All (λ z. lt z y ≡ false) (insert-perm x ys) (w.asymm y x ps.0 p e, s.0),
        insert-IsAscending x ys p ps.1 s.1,
      )
      | inr e ↦ rw e ((e, All-below x y ys p ps.0 ps.1 e s.0), s)
    ]

    pub insertion_sort-IsAscending : (xs : List A) → All P xs → IsAscending lt (insertion_sort xs)
    unfolding insertion_sort
    insertion_sort-IsAscending [] ps = tt
    insertion_sort-IsAscending (x ∷ xs) ps =
        insert-IsAscending x (insertion_sort xs) ps.0 (Perm-All P (insertion_sort-perm xs) ps.1)
          (insertion_sort-IsAscending xs ps.1)
