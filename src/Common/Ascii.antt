-- ===== src/Common/Ascii.antt =====
-- Go strings that are modelled as bytes: the bytes of a text in ASCII, and strings.Split.
use Prim.Native.Nat.{ℕ}
use Prim.Native.Char.{code}
use Prim.Native.String.{String}
use mathlib.Core.List.{List, [], ◌∷◌}
use lightnode.Common.Tests.{if◌then◌else◌}
use lightnode.Common.Eq.{number_eq, ◌==◌}

abbrev pub codes : String → List ℕ
codes String.[] = []
codes (String.◌∷◌ c s) = code c ∷ codes s

-- strings.Split by one byte.
abbrev pub onto_first : ℕ → List (List ℕ) → List (List ℕ)
onto_first c [] = []
onto_first c (part ∷ parts) = (c ∷ part) ∷ parts

unfoldable pub split : ℕ → List ℕ → List (List ℕ)
split separator [] = [] ∷ []
split separator (c ∷ s) =
    let rest = split separator s in if c == separator then [] ∷ rest else onto_first c rest
