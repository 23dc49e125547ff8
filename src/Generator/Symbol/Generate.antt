-- ===== src/Generator/Symbol/Generate.antt =====
-- generator/symbol/SymbolGenerator.cpp and `getSymbolProbability` of SymbolGenerator.h.
use eps2probandltf.Common.{
  ℕ, zero, suc, ◌+◌, ◌<◌, List, [], ◌∷◌, ◌++◌, map, Result, ok, ◌>>=◌, length, ◌≡◌, refl, ap, sym,
  ◌∙◌, front_size, >>=-eq-ok, set, get_elem?, get_elem?_in, some, arith, subst, length-append,
  length-replicate,
}
use eps2probandltf.Common.Outcomes.{Result-ok-inj, collect}
use eps2probandltf.Common.OrderedMap.{number_key, update}
use eps2probandltf.Machine.{Machine}
use eps2probandltf.DataTypes.{
  BlobContainer, BlobCollection, BlobValue, get_equal_size_blob_collection,
}
use eps2probandltf.Common.Int.{pos}
use eps2probandltf.Container.{index, write_index, write_column}
use eps2probandltf.Container.Columns.{IsRect, write_column-IsRect, length-write_column}
use eps2probandltf.Generator.Symbol.{
  SymbolLibrary, get_symbols, select_symbol, get_probability_of, Certainty, certainty_point,
  certainty_points, get_symbol_certainty,
}
use eps2probandltf.Generator.Symbol.Field.{replicate-IsRect}

module _ {A : Type 0} where
  append_assoc : (xs ys zs : List A) → (xs ++ ys) ++ zs ≡ xs ++ (ys ++ zs)
  append_assoc [] ys zs = refl
  append_assoc (x ∷ xs) ys zs = ap (λ l. x ∷ l) (append_assoc xs ys zs)

  get_elem?-append :
      (before after : List A) (x : A) (j : ℕ)
      → j ≡ length before
      → get_elem? (before ++ x ∷ after) j ≡ some x
  get_elem?-append [] after x zero h = refl
  get_elem?-append [] after x (suc j) h = absurd (omega (arith, h))
  get_elem?-append (y ∷ before) after x zero h = absurd (omega (arith, h))
  get_elem?-append (y ∷ before) after x (suc j) h =
      get_elem?-append before after x j (omega (arith, h))

  set-append :
      (before after : List A) (x v : A) (j : ℕ)
      → j ≡ length before
      → set (before ++ x ∷ after) j v ≡ before ++ v ∷ after
  set-append [] after x v zero h = refl
  set-append [] after x v (suc j) h = absurd (omega (arith, h))
  set-append (y ∷ before) after x v zero h = absurd (omega (arith, h))
  set-append (y ∷ before) after x v (suc j) h =
      ap (λ l. y ∷ l) (set-append before after x v j (omega (arith, h)))

-- A write through `operator[]` inside the bounds.
write_index-append :
    {A : Type 0} (i j : ℕ) (before : List (List A)) (row : List A) (after : List (List A)) (x : A)
    → i < length row
    → j ≡ length before
    → write_index (record { collection = before ++ row ∷ after; use_index = pos i }) (pos j) x
      ≡ ok (before ++ set row i x ∷ after)
unfolding write_index
write_index-append i j before row after x h place =
    let (old, e) = get_elem?_in row i h in
    let found = get_elem?-append before after row j place in
    rw (found, e, set-append before after row (set row i x) j place) refl

module _ ⦃m : Machine⦄ where
  -- The first loop of `getSymbolProbability`; the counts are of type `double`.
  unfoldable pub add_members : BlobContainer → List (ℕ × m.Double) → List (ℕ × m.Double)
  add_members [] out = out
  add_members (x ∷ symbols) out =
      add_members symbols
        (update (m.to_code x) (m.double.of_nat 0) (λ n. m.double.add n (m.double.of_nat 1)) out)

  -- `getSymbolProbability`.
  unfoldable pub get_symbol_probability : BlobContainer → List (ℕ × m.Double) → List (ℕ × m.Double)
  unfolding add_members
  get_symbol_probability symbols out =
      map (λ e. (e.0, m.double.div e.1 (m.double.of_nat (length symbols))))
        (add_members symbols out)

  module _ ⦃lib : SymbolLibrary BlobValue⦄ (cloud_cover precipitation : BlobCollection) where
    -- The inner loop of `generateSymbols` at point `i`, with `n` members to go from member `j`.
    unfoldable pub symbol_members : (i n j : ℕ) → BlobCollection → Result BlobCollection
    unfolding index write_index
    symbol_members i zero j ret = ok ret
    symbol_members i (suc n) j ret = do
      cloud ← index (record { collection = cloud_cover; use_index = pos i }) (pos j)
      precip ← index (record { collection = precipitation; use_index = pos i }) (pos j)
      let code = lib.get_symbol (m.float.mul cloud (m.float.of_nat 100)) precip
      ret' ←
          write_index (record { collection = ret; use_index = pos i }) (pos j) (m.float.of_nat code)
      symbol_members i n (suc j) ret'

    -- The loop of `generateSymbols`, with `n` points to go from point `i`.
    unfoldable pub symbol_points : (n i : ℕ) → BlobCollection → Result BlobCollection
    unfolding symbol_members
    symbol_points zero i ret = ok ret
    symbol_points (suc n) i ret = do
      ret' ← symbol_members i (length cloud_cover) 0 ret
      symbol_points n (suc i) ret'

    -- `generateSymbols`. Its second allocation of a collection is never used.
    unfoldable pub generate_symbols : Result BlobCollection
    unfolding symbol_points get_equal_size_blob_collection
    generate_symbols = do
      points ← front_size cloud_cover
      ret ← get_equal_size_blob_collection cloud_cover
      symbol_points points 0 ret

    equal_size_lem :
        (c z : BlobCollection) (w : ℕ)
        → front_size c ≡ ok w
        → get_equal_size_blob_collection c ≡ ok z
        → IsRect w z × (length z ≡ length c)
    unfolding get_equal_size_blob_collection
    equal_size_lem [] z w e f = absurd (ground (arith, e))
    equal_size_lem (row ∷ rows) z w e f =
        let same = Result-ok-inj f in
        let width : length row ≡ w = Result-ok-inj e in
        (
          subst (λ n. IsRect n z) width
              (subst (IsRect (length row)) same
                (replicate-IsRect (length row) (length (row ∷ rows)) (m.float.of_nat 0))),
          ap length (sym same) ∙ length-replicate (length (row ∷ rows)) _,
        )

    -- The symbol of one member.
    abbrev element : ℕ → ℕ → Result BlobValue
    unfolding index
    element i j = do
      c ← index (record { collection = cloud_cover; use_index = pos i }) (pos j)
      p ← index (record { collection = precipitation; use_index = pos i }) (pos j)
      ok (m.float.of_nat (lib.get_symbol (m.float.mul c (m.float.of_nat 100)) p))

    element-write :
        (i n j : ℕ) (ret ret' : BlobCollection) (x : BlobValue)
        → element i j ≡ ok x
        → write_index (record { collection = ret; use_index = pos i }) (pos j) x ≡ ok ret'
        → symbol_members i (suc n) j ret ≡ symbol_members i n (suc j) ret'
    unfolding symbol_members
    element-write i n j ret ret' x e f =
        let (c, e1, f1) =
          >>=-eq-ok (index (record { collection = cloud_cover; use_index = pos i }) (pos j)) _ x
            e in
        let (p, e2, f2) =
          >>=-eq-ok (index (record { collection = precipitation; use_index = pos i }) (pos j)) _ x
            f1 in
        let value : m.float.of_nat (lib.get_symbol (m.float.mul c (m.float.of_nat 100)) p) ≡ x =
          Result-ok-inj f2 in
        let write = λ (v : BlobValue).
          write_index (record { collection = ret; use_index = pos i }) (pos j) v in
        let go_on = λ (r : Result BlobCollection). r >>= λ out. symbol_members i n (suc j) out in
        rw (e1, e2) (ap (λ v. go_on (write v)) value ∙ ap go_on f)

    -- The members from `j` on, one write after the other, are the column that `getSymbols` writes.
    symbol_members_lem :
        (w i n j : ℕ) (before after : BlobCollection) (codes : BlobContainer)
        → i < w
        → j ≡ length before
        → length after ≡ n
        → IsRect w after
        → collect (element i) n j ≡ ok codes
        → symbol_members i n j (before ++ after) ≡ ok (before ++ write_column i after codes)
    unfolding symbol_members write_column collect
    symbol_members_lem w i zero j before [] codes h place size r e = refl
    symbol_members_lem w i zero j before (row ∷ after) codes h place size r e =
        absurd (omega (arith, size))
    symbol_members_lem w i (suc n) j before [] codes h place size r e = absurd (omega (arith, size))
    symbol_members_lem w i (suc n) j before (row ∷ after) codes h place size r e =
        let (x, e1, f1) = >>=-eq-ok (element i j) _ codes e in
        let (xs, e2, f2) = >>=-eq-ok (collect (element i) n (suc j)) _ codes f1 in
        let all : codes ≡ x ∷ xs = sym (Result-ok-inj f2) in
        let next : suc j ≡ length (before ++ set row i x ∷ []) =
          omega (arith, place, length-append before (set row i x ∷ [])) in
        let rest =
          symbol_members_lem w i n (suc j) (before ++ set row i x ∷ []) after xs h next
            (omega (arith, size)) r.1 e2 in
        let written = write_index-append i j before row after x (omega (arith, h, r.0)) place in
        element-write i n j (before ++ row ∷ after) _ x e1 written
        ∙ ap (λ c. symbol_members i n (suc j) c)
            (sym (append_assoc before (set row i x ∷ []) after))
        ∙ rest
        ∙ ap ok (append_assoc before (set row i x ∷ []) (write_column i after xs))
        ∙ ap (λ vs. ok (before ++ write_column i (row ∷ after) vs)) (sym all)

    module _ (precip_fraction : BlobValue) where
      round_symbols :
          (i : ℕ) (st st' : Certainty)
          → certainty_point cloud_cover precipitation precip_fraction i st ≡ ok st'
          → (cc : BlobContainer) × (get_symbols cloud_cover precipitation i ≡ ok cc)
            × (st'.symbols ≡ write_column i st.symbols cc)
      unfolding certainty_point
      round_symbols i st st' e =
          let (cc, f, g) = >>=-eq-ok (get_symbols cloud_cover precipitation i) _ st' e in
          let (p, h, k) =
            >>=-eq-ok (get_probability_of cc (select_symbol cc precip_fraction)) _ st' g in
          (cc, f, ap (λ (s : Certainty). s.symbols) (sym (Result-ok-inj k)))

      rounds_symbols :
          (w n i : ℕ) (st st' : Certainty)
          → i + n ≡ w
          → IsRect w st.symbols
          → length st.symbols ≡ length cloud_cover
          → certainty_points cloud_cover precipitation precip_fraction n i st ≡ ok st'
          → symbol_points n i st.symbols ≡ ok st'.symbols
      unfolding certainty_points symbol_points get_symbols
      rounds_symbols w zero i st st' total r size e =
          ap (λ (s : Certainty). ok s.symbols) (Result-ok-inj e)
      rounds_symbols w (suc n) i st st' total r size e =
          let (mid, f, g) =
            >>=-eq-ok (certainty_point cloud_cover precipitation precip_fraction i st) _ st' e in
          let (cc, h, k) = round_symbols i st mid f in
          let point =
            symbol_members_lem w i (length cloud_cover) 0 [] st.symbols cc (omega (arith, total))
              refl size r h in
          let r' : IsRect w mid.symbols =
            subst (IsRect w) (sym k) (write_column-IsRect w i st.symbols cc r) in
          let size' : length mid.symbols ≡ length cloud_cover =
            ap length k ∙ length-write_column i st.symbols cc ∙ size in
          rw (point, ← k) (rounds_symbols w n (suc i) mid st' (omega (arith, total)) r' size' g)

      -- Whenever `getSymbolCertainty` returns, `generateSymbols`, which goes over the members by
      -- `operator[]` and writes one symbol after the other, returns for the same input, and gives the
      -- symbols of all members that `getSymbolCertainty` gives.
      pub generate_symbols_lem :
          (symbol_out certainty_out : BlobContainer) (st : Certainty)
          → get_symbol_certainty cloud_cover precipitation symbol_out certainty_out precip_fraction
            ≡ ok st
          → generate_symbols ≡ ok st.symbols
      unfolding get_symbol_certainty generate_symbols
      generate_symbols_lem symbol_out certainty_out st e =
          let (points, f, g) = >>=-eq-ok (front_size cloud_cover) _ st e in
          let (z, h, k) = >>=-eq-ok (get_equal_size_blob_collection cloud_cover) _ st g in
          let zeros = get_equal_size_blob_collection cloud_cover in
          let (r, size) = equal_size_lem cloud_cover z points f h in
          ap (λ (r : Result ℕ). r >>= λ n. zeros >>= λ ret. symbol_points n 0 ret) f
          ∙ ap (λ (r : Result BlobCollection). r >>= λ ret. symbol_points points 0 ret) h
          ∙ rounds_symbols points points 0 _ st (omega arith) r size k
