-- ===== src/Examples/Ensemble.antt =====
-- Ten members over two grid points, in thousandths, and a library of two symbols.
use eps2probandltf.Common.{ℕ, List, [], ◌∷◌, if◌then◌else◌, leb, ◌*◌}
use eps2probandltf.Common.Int.{ℤ, pos, negsuc, leb_ℤ}
use eps2probandltf.Machine.Milli.{fixed}
use eps2probandltf.Generator.Symbol.{SymbolLibrary}
use eps2probandltf.Generator.Symbol.Codes.{sun, rain}

abbrev pub row : ℕ → ℕ → List ℤ
row a b = pos (a * 1000) ∷ pos (b * 1000) ∷ []

-- Temperatures; the last member is below zero at the second point.
abbrev pub temperatures : List (List ℤ)
temperatures =
    row 5 7
    ∷ row 3 8
    ∷ row 9 7
    ∷ row 1 6
    ∷ row 4 5
    ∷ row 2 4
    ∷ row 8 3
    ∷ row 6 2
    ∷ row 7 1
    ∷ (pos 0 ∷ negsuc 499 ∷ [])
    ∷ []

-- Precipitation: four members are wet at the first point, seven at the second.
abbrev pub precipitation : List (List ℤ)
precipitation =
    row 0 2
    ∷ row 0 2
    ∷ row 0 2
    ∷ row 0 2
    ∷ row 0 2
    ∷ row 0 2
    ∷ row 3 2
    ∷ row 3 0
    ∷ row 3 0
    ∷ row 3 0
    ∷ []

-- Sun without precipitation and rain with it.
instance abbrev pub two_symbols : SymbolLibrary ℤ
two_symbols = record {
  error = 0;
  get_symbol = λ cover amount. if leb_ℤ (pos 1000) amount then rain else sun;
  has_precipitation = λ c. leb 5 c;
}
