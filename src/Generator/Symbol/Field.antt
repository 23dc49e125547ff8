-- ===== src/Generator/Symbol/Field.antt =====
-- `getSymbolCertainty` over a whole field.
use eps2probandltf.Common.{
  ℕ, zero, suc, ◌+◌, ◌^◌, ◌<◌, ◌≤◌, ◌≡◌, refl, sym, ap, ◌∙◌, subst, List, [], ◌∷◌, ◌++◌, length, ok,
  replicate, length-replicate, front_size, All, arith,
}
use eps2probandltf.Common.Outcomes.{collect_in}
use native.Mathlib.Decide.{ℕ_discrete}
use mathlib.Core.List.{append_assoc, append-nil}
use eps2probandltf.Machine.{Machine}
use eps2probandltf.Machine.Laws.{CountsExactly}
use eps2probandltf.DataTypes.{
  BlobContainer, BlobCollection, BlobValue, get_equal_size_blob_collection,
}
use eps2probandltf.Container.{column, write_column}
use eps2probandltf.Container.Columns.{
  IsRect, index_in, column_in, column-write_column_self, column-write_column_ne,
  write_column-IsRect, length-write_column,
}
use eps2probandltf.Generator.Percentile.{count_if}
use eps2probandltf.Generator.Symbol.{
  SymbolLibrary, Certainty, get_symbols, select_symbol, is_rain, get_probability_of,
  get_probability_factor, get_probability_factor_of, add_factors, summed_codes, certainty_point,
  certainty_points, get_symbol_certainty,
}
use eps2probandltf.Generator.Symbol.Nearby.{IsKnown, IsKnown-row}
use eps2probandltf.Generator.Symbol.Codes.{contains}
use eps2probandltf.Generator.Symbol.Rain.{AreCodes, class_size, select_symbol_class}
use eps2probandltf.Generator.Symbol.Tally.{count}

IsKnown-le : (c : ℕ) → IsKnown c → c ≤ 2 ^ 24
unfolding contains
IsKnown-le c h = ground arith

module _ ⦃m : Machine⦄ where
  pub replicate-IsRect : (w n : ℕ) (x : BlobValue) → IsRect w (replicate n (replicate w x))
  replicate-IsRect w zero x = tt
  replicate-IsRect w (suc n) x = (length-replicate w x, replicate-IsRect w n x)

  -- A collection of zeros in the shape of a rectangular one.
  zeros_in :
      (w : ℕ) (c : BlobCollection)
      → IsRect w c
      → 0 < length c
      → (z : BlobCollection) × (front_size c ≡ ok w)
        × (get_equal_size_blob_collection c ≡ ok z)
        × IsRect w z
        × (length z ≡ length c)
  unfolding get_equal_size_blob_collection
  zeros_in w [] r h = absurd (omega arith)
  zeros_in w (row ∷ rows) r h =
      let z : BlobCollection = replicate (length (row ∷ rows)) (replicate w (m.float.of_nat 0)) in
      (
        z,
        ap ok r.0,
        ap (λ n. ok (replicate (length (row ∷ rows)) (replicate n (m.float.of_nat 0)))) r.0,
        replicate-IsRect w (length (row ∷ rows)) (m.float.of_nat 0),
        length-replicate (length (row ∷ rows)) (replicate w (m.float.of_nat 0)),
      )

  add_factors_in :
      (symbols : BlobContainer) (s : ℕ) (codes : List ℕ) (sum : BlobValue)
      → IsKnown s
      → (p : BlobValue) × (add_factors symbols s codes sum ≡ ok p)
  unfolding add_factors get_probability_factor_of get_probability_factor
  add_factors_in symbols s [] sum h = (sum, refl)
  add_factors_in symbols s (c ∷ codes) sum h =
      let (set, e) = IsKnown-row s h in rw e (add_factors_in symbols s codes _ h)

  get_probability_of_in :
      (symbols : BlobContainer) (s : ℕ)
      → IsKnown s
      → (p : BlobValue) × (get_probability_of symbols s ≡ ok p)
  unfolding get_probability_of
  get_probability_of_in symbols s h = add_factors_in symbols s summed_codes _ h

  -- A code that some member has.
  IsKnown-count :
      (c : ℕ) (symbols : BlobContainer)
      → All (λ x. IsKnown (m.to_code x)) symbols
      → 0 < count c symbols
      → IsKnown c
  unfolding count_if
  IsKnown-count c [] a h = absurd (omega arith)
  IsKnown-count c (x ∷ symbols) a h = elim (ℕ_discrete (m.to_code x) c) [
    | yes e ↦ rw e at a.0
    | no e ↦ IsKnown-count c symbols a.1 (ground (arith, e))
  ]

module _ ⦃m : Machine⦄ ⦃lib : SymbolLibrary BlobValue⦄ (cloud_cover precipitation : BlobCollection)
    (precip_fraction : BlobValue) where
  -- Symbols and certainties of the points from `i` on.
  pub data AreCertain : ℕ → BlobContainer → BlobContainer → Type 0 where
    done : {i : ℕ} → AreCertain i [] []
    point :
        {i : ℕ} {p : BlobValue} {ss ps : BlobContainer}
        → (codes : BlobContainer) → get_symbols cloud_cover precipitation i ≡ ok codes
        → get_probability_of codes (select_symbol codes precip_fraction) ≡ ok p
        → AreCertain (suc i) ss ps
        → AreCertain i (m.float.of_nat (select_symbol codes precip_fraction) ∷ ss) (p ∷ ps)

  module _ (exact : CountsExactly m) (library : (x y : BlobValue) → IsKnown (lib.get_symbol x y))
      (w : ℕ) (rect : IsRect w cloud_cover) (rect' : IsRect w precipitation)
      (members : length cloud_cover ≡ length precipitation) (many : length cloud_cover < 2 ^ 32)
      (decided : (i : ℕ) (codes : BlobContainer)
        → i < w
        → get_symbols cloud_cover precipitation i ≡ ok codes
        → 0 < class_size (is_rain codes precip_fraction) codes) where
    get_symbols_in :
        (i : ℕ)
        → i < w
        → (codes : BlobContainer) × (get_symbols cloud_cover precipitation i ≡ ok codes)
          × (length codes ≡ length cloud_cover)
          × All (λ x. (m.float.of_nat (m.to_code x) ≡ x) × IsKnown (m.to_code x)) codes
    unfolding get_symbols
    get_symbols_in i h = collect_in _ _ (length cloud_cover) 0 λ k p q.
        let (x, e) = index_in w i k cloud_cover rect h (omega arith) in
        let (y, f) = index_in w i k precipitation rect' h (omega arith) in
        let code = lib.get_symbol (m.float.mul x (m.float.of_nat 100)) y in
        let back = exact.to_code-of_nat code (IsKnown-le code (library _ _)) in
        (m.float.of_nat code, rw (e, f), (ap m.float.of_nat back, rw back (library _ _)))

    codes_of :
        (codes : BlobContainer)
        → All (λ x. (m.float.of_nat (m.to_code x) ≡ x) × IsKnown (m.to_code x)) codes
        → AreCodes codes × All (λ x. IsKnown (m.to_code x)) codes
    codes_of [] a = (tt, tt)
    codes_of (x ∷ codes) a = let (b, c) = codes_of codes a.1 in ((a.0.0, b), (a.0.1, c))

    -- One round succeeds.
    certainty_point_in :
        (i : ℕ) (st : Certainty)
        → i < w
        → (codes : BlobContainer) × (p : BlobValue) × (get_symbols cloud_cover precipitation i
            ≡ ok codes)
          × (length codes ≡ length cloud_cover)
          × (get_probability_of codes (select_symbol codes precip_fraction) ≡ ok p)
          × (certainty_point cloud_cover precipitation precip_fraction i st
              ≡ ok (record {
                symbols = write_column i st.symbols codes;
                symbol_out =
                    st.symbol_out ++ m.float.of_nat (select_symbol codes precip_fraction) ∷ [];
                certainty_out = st.certainty_out ++ p ∷ [];
              }))
    unfolding certainty_point
    certainty_point_in i st h =
        let (codes, e, l, a) = get_symbols_in i h in
        let (b, c) = codes_of codes a in
        let s = select_symbol codes precip_fraction in
        let found =
          (select_symbol_class codes precip_fraction (omega arith) b).0 (decided i codes h e) in
        let (p, f) = get_probability_of_in codes s (IsKnown-count s codes c found.0) in
        (codes, p, e, l, f, rw (e, f))

    certainty_points_in :
        (n i : ℕ) (st : Certainty)
        → i + n ≡ w
        → IsRect w st.symbols
        → length st.symbols ≡ length cloud_cover
        → (st' : Certainty) × (ss : BlobContainer) × (ps : BlobContainer) × (certainty_points
              cloud_cover precipitation precip_fraction n i st
            ≡ ok st')
          × AreCertain i ss ps
          × (length ss ≡ n)
          × (st'.symbol_out ≡ st.symbol_out ++ ss)
          × (st'.certainty_out ≡ st.certainty_out ++ ps)
          × (length st'.symbols ≡ length cloud_cover)
          × ((j : ℕ) → j < i → column j st'.symbols ≡ column j st.symbols)
          × ((j : ℕ)
              → i ≤ j
              → j < w
              → column j st'.symbols ≡ get_symbols cloud_cover precipitation j)
    unfolding certainty_points
    certainty_points_in zero i st e r l = (
      st,
      [],
      [],
      refl,
      done,
      refl,
      sym (append-nil _),
      sym (append-nil _),
      l,
      λ j h. refl,
      λ j h k. absurd (omega arith),
    )
    certainty_points_in (suc n) i st e r l =
        let (codes, p, f, lc, g, round) = certainty_point_in i st (omega arith) in
        let s = m.float.of_nat (select_symbol codes precip_fraction) in
        let next : Certainty = record {
          symbols = write_column i st.symbols codes;
          symbol_out = st.symbol_out ++ s ∷ [];
          certainty_out = st.certainty_out ++ p ∷ [];
        } in
        let (st', ss, ps, run, certain, len, so, co, ls, before, after) =
          certainty_points_in n (suc i) next (omega arith)
            (write_column-IsRect w i st.symbols codes r)
            (length-write_column i st.symbols codes ∙ l) in
        let (old, eo, _) = column_in w i st.symbols r (omega arith) in
        (
          st',
          s ∷ ss,
          p ∷ ps,
          rw (round, run),
          point codes f g certain,
          ap suc len,
          so ∙ append_assoc st.symbol_out (s ∷ []) ss,
          co ∙ append_assoc st.certainty_out (p ∷ []) ps,
          ls,
          λ j h. before j (omega arith) ∙ column-write_column_ne i j st.symbols codes (omega arith),
          λ j h k. elim (ℕ_discrete i j) [
            | yes q ↦
                subst (λ t. column t st'.symbols ≡ get_symbols cloud_cover precipitation t) q
                  (before i (omega arith)
                    ∙ column-write_column_self i st.symbols old codes eo (lc ∙ sym l)
                    ∙ sym f)
            | no q ↦ after j (omega arith) k
          ],
        )

    -- With a `float` that holds numbers up to 2^24 exactly: for a field of `w` points with at least
    -- one and fewer than 2^32 members, the same shape for the cloud cover and the precipitation, a
    -- library that only returns codes of the table, and a class that has a member at each point:
    -- `getSymbolCertainty` returns; the symbols are those of `getSymbols` at each point; and it
    -- appends the selected symbol of each point and the probability that `getProbabilityOf` gives it,
    -- in order.
    pub get_symbol_certainty_lem :
        0 < length cloud_cover
        → (symbol_out certainty_out : BlobContainer)
        → (st : Certainty) × (ss : BlobContainer) × (ps : BlobContainer) × (get_symbol_certainty
              cloud_cover precipitation symbol_out certainty_out precip_fraction
            ≡ ok st)
          × AreCertain 0 ss ps
          × (length ss ≡ w)
          × (st.symbol_out ≡ symbol_out ++ ss)
          × (st.certainty_out ≡ certainty_out ++ ps)
          × (length st.symbols ≡ length cloud_cover)
          × ((j : ℕ) → j < w → column j st.symbols ≡ get_symbols cloud_cover precipitation j)
    unfolding get_symbol_certainty
    get_symbol_certainty_lem h symbol_out certainty_out =
        let (z, points, zeros, r, l) = zeros_in w cloud_cover rect h in
        let start : Certainty = record {
          symbols = z;
          symbol_out = symbol_out;
          certainty_out = certainty_out;
        } in
        let (st, ss, ps, run, certain, len, so, co, ls, _, after) =
          certainty_points_in w 0 start (omega arith) r l in
        (
          st,
          ss,
          ps,
          rw (points, zeros) run,
          certain,
          len,
          so,
          co,
          ls,
          λ j k. after j (omega arith) k,
        )
