-- ===== src/Base/Split.antt =====
-- strings.Split at one byte, and strings.Join.
use Prim.Native.Nat.{ℕ}
use mathlib.Core.Path.{◌≡◌, refl}
use mathlib.Core.Logic.{◌≢◌}
use mathlib.Core.Bool.{true, false}
use mathlib.Core.List.{List, [], ◌∷◌, ◌++◌}
use native.Mathlib.Omega.{arith}
use neth.Base.Lists.{All}
use neth.Base.Tests.{◌==◌}
use neth.Base.Text.{Text}

-- A byte in front of the first part.
abbrev pub onto_first : ℕ → List Text → List Text
onto_first c [] = (c ∷ []) ∷ []
onto_first c (part ∷ parts) = (c ∷ part) ∷ parts

unfoldable pub split : ℕ → Text → List Text
split sep [] = [] ∷ []
split sep (c ∷ s) =
    let rest = split sep s in elim (c == sep) [ true ↦ [] ∷ rest | false ↦ onto_first c rest ]

unfoldable pub join : Text → List Text → Text
join glue [] = []
join glue (part ∷ []) = part
join glue (part ∷ next ∷ parts) = part ++ (glue ++ join glue (next ∷ parts))

-- The text has no such byte.
abbrev pub Lacks : ℕ → Text → Type 0
Lacks sep = All (λ (c : ℕ). c ≢ sep)

pub split_last : (sep : ℕ) (part : Text) → Lacks sep part → split sep part ≡ part ∷ []
unfolding split
split_last sep [] lacks = refl
split_last sep (c ∷ part) (differs, lacks) = ground (arith, split_last sep part lacks)

pub split-append :
    (sep : ℕ) (part rest : Text)
    → Lacks sep part
    → split sep (part ++ (sep ∷ rest)) ≡ part ∷ split sep rest
unfolding split
split-append sep [] rest lacks = ground arith
split-append sep (c ∷ part) rest (differs, lacks) = ground (arith, split-append sep part rest lacks)
