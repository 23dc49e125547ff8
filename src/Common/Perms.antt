-- ===== src/Common/Perms.antt =====
-- What a permutation keeps.
use mathlib.Core.Path.{◌≡◌, refl, subst, ◌∙◌}
use mathlib.Core.List.{List, Permᴰ}
use native.Mathlib.Omega.{arith}
use eps2probandltf.Common.Lists.{length, All}

module _ {ℓ} {A : Type ℓ} where
  pub Perm-length : {xs ys : List A} → Permᴰ xs ys → length xs ≡ length ys
  Perm-length Permᴰ.nil = refl
  Perm-length (Permᴰ.cons e p) = omega (arith, Perm-length p)
  Perm-length (Permᴰ.swap e f) = refl
  Perm-length (Permᴰ.trans p q) = Perm-length p ∙ Perm-length q

  pub Perm-All {κ} : (P : A → Type κ) {xs ys : List A} → Permᴰ xs ys → All P xs → All P ys
  Perm-All P Permᴰ.nil a = a
  Perm-All P (Permᴰ.cons e p) a = (subst P e a.0, Perm-All P p a.1)
  Perm-All P (Permᴰ.swap e f) a = (subst P f a.1.0, (subst P e a.0, a.1.1))
  Perm-All P (Permᴰ.trans p q) a = Perm-All P q (Perm-All P p a)
