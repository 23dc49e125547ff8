-- ===== src/Fimex/Slots.antt =====
-- The lists of buffers that the written fields are kept in, and the copying of values into a buffer.
use eps2probandltf.Common.{
  ℕ, zero, suc, ◌+◌, ◌≤◌, ◌<◌, ◌≡◌, ◌⊎◌, refl, ap, sym, List, [], ◌∷◌, none, ok, length, get_elem?,
  arith, >>=-eq-ok, subst,
}
use eps2probandltf.Common.Outcomes.{Result-ok-inj}
use eps2probandltf.Common.OrderedMap.{or_default}
use eps2probandltf.Fimex.Buffers.{DataList, resize, copy_into}

module _ {A : Type 0} where
  pub length-resize : (w : ℕ) (xs : DataList A) → length (resize w xs) ≡ w
  unfolding resize
  length-resize zero xs = refl
  length-resize (suc w) [] = ap suc (length-resize w [])
  length-resize (suc w) (x ∷ xs) = ap suc (length-resize w xs)

  -- Below the new length an entry stays, and an entry that is new is a null pointer.
  pub get_elem?-resize :
      (w i : ℕ) (xs : DataList A)
      → i < w
      → or_default none (get_elem? (resize w xs) i) ≡ or_default none (get_elem? xs i)
  unfolding resize
  get_elem?-resize zero i xs h = absurd (omega arith)
  get_elem?-resize (suc w) zero [] h = refl
  get_elem?-resize (suc w) (suc i) [] h = get_elem?-resize w i [] (omega arith)
  get_elem?-resize (suc w) zero (x ∷ xs) h = refl
  get_elem?-resize (suc w) (suc i) (x ∷ xs) h = get_elem?-resize w i xs (omega arith)

  -- After a copy that stays inside the buffer, the values stand at the offset, and the rest is as before.
  abbrev pub IsCopied : ℕ → (values buffer result : List A) → Type 0
  IsCopied offset values buffer result =
      ((j k : ℕ) → k ≡ offset + j → j < length values → get_elem? result k ≡ get_elem? values j)
      × ((i : ℕ)
          → (i < offset) ⊎ (offset + length values ≤ i)
          → get_elem? result i ≡ get_elem? buffer i)

  -- One value that is copied, and one that is passed.
  first-IsCopied :
      (x b : A) (xs buffer rest : List A)
      → IsCopied 0 xs buffer rest
      → IsCopied 0 (x ∷ xs) (b ∷ buffer) (x ∷ rest)
  first-IsCopied x b xs buffer rest c = (inside, outside)
    where
      inside :
          (j k : ℕ)
          → k ≡ 0 + j
          → j < suc (length xs)
          → get_elem? (x ∷ rest) k ≡ get_elem? (x ∷ xs) j
      inside zero zero e h = refl
      inside zero (suc k) e h = absurd (omega (arith, e))
      inside (suc j) zero e h = absurd (omega (arith, e))
      inside (suc j) (suc k) e h = c.0 j k (omega (arith, e)) (omega arith)

      outside :
          (i : ℕ)
          → (i < 0) ⊎ (0 + suc (length xs) ≤ i)
          → get_elem? (x ∷ rest) i ≡ get_elem? (b ∷ buffer) i
      outside zero h = absurd (omega (arith, h))
      outside (suc i) h = c.1 i (omega (arith, h))

  later-IsCopied :
      (offset : ℕ) (b : A) (values buffer rest : List A)
      → IsCopied offset values buffer rest
      → IsCopied (suc offset) values (b ∷ buffer) (b ∷ rest)
  later-IsCopied n b values buffer rest c = (inside, outside)
    where
      inside :
          (j k : ℕ)
          → k ≡ suc n + j
          → j < length values
          → get_elem? (b ∷ rest) k ≡ get_elem? values j
      inside j zero e h = absurd (omega (arith, e))
      inside j (suc k) e h = c.0 j k (omega (arith, e)) h

      outside :
          (i : ℕ)
          → (i < suc n) ⊎ (suc n + length values ≤ i)
          → get_elem? (b ∷ rest) i ≡ get_elem? (b ∷ buffer) i
      outside zero h = refl
      outside (suc i) h = c.1 i (omega (arith, h))

  pub copy_into_lem :
      (offset : ℕ) (values buffer result : List A)
      → copy_into offset values buffer ≡ ok result
      → IsCopied offset values buffer result
  unfolding copy_into
  copy_into_lem n [] buffer result e =
      (λ j k f h. absurd (omega (arith, h)), λ i h. ap (λ l. get_elem? l i) (sym (Result-ok-inj e)))
  copy_into_lem n (x ∷ xs) [] result e = absurd (ground (arith, e))
  copy_into_lem zero (x ∷ xs) (b ∷ buffer) result e =
      let (rest, f, g) = >>=-eq-ok (copy_into zero xs buffer) _ result e in
      subst (IsCopied 0 (x ∷ xs) (b ∷ buffer)) (Result-ok-inj g)
        (first-IsCopied x b xs buffer rest (copy_into_lem zero xs buffer rest f))
  copy_into_lem (suc n) (x ∷ xs) (b ∷ buffer) result e =
      let (rest, f, g) = >>=-eq-ok (copy_into n (x ∷ xs) buffer) _ result e in
      subst (IsCopied (suc n) (x ∷ xs) (b ∷ buffer)) (Result-ok-inj g)
        (later-IsCopied n b (x ∷ xs) buffer rest (copy_into_lem n (x ∷ xs) buffer rest f))
