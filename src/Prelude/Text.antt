-- ===== src/Prelude/Text.antt =====
-- Texts as lists of code points, with the functions of Go's `strings` that the package calls. The
-- changes of case are those of the ASCII letters: no other letter is changed into one of those that
-- the package compares with.
use Prim.Native.Nat.{ℕ, ◌+◌, ◌-◌}
use Prim.Native.Char.{code}
use Prim.Native.String.{String}
use mathlib.Core.Bool.{Bool, true, false, ◌&&◌, ◌||◌}
use mathlib.Core.List.{List, [], ◌∷◌, map}
use netconnpool.Prelude.Tests.{leb, ◌==◌, if◌then◌else◌}

abbrev pub Text : Type 0
Text = List ℕ

abbrev pub codes : String → Text
codes String.[] = []
codes (String.◌∷◌ c s) = code c ∷ codes s

unfoldable pub text_eq : Text → Text → Bool
text_eq [] [] = true
text_eq (x ∷ xs) (y ∷ ys) = (x == y) && text_eq xs ys
text_eq _ _ = false

unfoldable pub to_upper : Text → Text
to_upper = map λ c. if leb b'a' c && leb c b'z' then c - 32 else c

unfoldable pub to_lower : Text → Text
to_lower = map λ c. if leb b'A' c && leb c b'Z' then c + 32 else c

unfoldable pub starts_with : Text → Text → Bool
starts_with xs [] = true
starts_with [] (y ∷ ys) = false
starts_with (x ∷ xs) (y ∷ ys) = (x == y) && starts_with xs ys

-- strings.Contains
unfoldable pub contains : Text → Text → Bool
unfolding starts_with
contains [] sub = starts_with [] sub
contains (x ∷ xs) sub = starts_with (x ∷ xs) sub || contains xs sub
