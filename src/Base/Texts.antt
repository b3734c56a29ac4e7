-- ===== src/Base/Texts.antt =====
-- Texts as lists of character codes, for keys that the code builds from parts.
use Prim.Native.Nat.{ℕ, ◌+◌}
use Prim.Native.Char.{code}
use Prim.Native.String.{String}
use mathlib.Core.Path.{◌≡◌}
use mathlib.Core.Bool.{Bool, true, false, ◌&&◌, ◌||◌}
use mathlib.Core.Logic.{◌↔◌}
use mathlib.Core.List.{List, [], ◌∷◌, ◌++◌}
use native.Mathlib.Omega.{arith}
use traitkeeper_eco.Base.Tests.{◌==◌, leb, if◌then◌else◌}

abbrev pub Text : Type 0
Text = List ℕ

abbrev pub codes : String → Text
codes String.[] = []
codes (String.◌∷◌ c s) = code c ∷ codes s

unfoldable pub same_text : Text → Text → Bool
same_text [] [] = true
same_text [] (d ∷ ds) = false
same_text (c ∷ cs) [] = false
same_text (c ∷ cs) (d ∷ ds) = let rest = same_text cs ds in c == d && rest

pub same_text_iff : (s t : Text) → (same_text s t ≡ true) ↔ (s ≡ t)
unfolding same_text
same_text_iff [] [] = ground arith
same_text_iff [] (d ∷ ds) = ground arith
same_text_iff (c ∷ cs) [] = ground arith
same_text_iff (c ∷ cs) (d ∷ ds) = ground (arith, same_text_iff cs ds)

pub append_cancel_left : (p s t : Text) → p ++ s ≡ p ++ t → s ≡ t
append_cancel_left [] s t e = e
append_cancel_left (c ∷ p) s t e = append_cancel_left p s t (ground (arith, e))

-- `key in keys`
unfoldable pub has_text : Text → List Text → Bool
has_text k [] = false
has_text k (j ∷ js) = let rest = has_text k js in same_text j k || rest

-- `.lower()`, on ASCII letters.
unfoldable pub lower : Text → Text
lower [] = []
lower (c ∷ cs) = (if leb 65 c && leb c 90 then c + 32 else c) ∷ lower cs
