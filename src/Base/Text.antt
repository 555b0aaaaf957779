-- ===== src/Base/Text.antt =====
-- `str::split` at one character, and the texts that it takes apart.
pub mod Laws
use Prim.Native.Char.{Char, code}
use Prim.Native.String.{String}
use mathlib.Core.List.{List, [], ◌∷◌}
use Prim.Native.Nat.{ℕ}
use gluon_actor.Base.Tests.{◌==◌, if◌then◌else◌}

-- A character in front of the first part.
abbrev pub onto_first : Char → List String → List String
onto_first c [] = []
onto_first c (part ∷ parts) = String.◌∷◌ c part ∷ parts

-- `split`, by the separator's code. There is always a first part.
unfoldable pub split : ℕ → String → List String
split sep String.[] = "" ∷ []
split sep (String.◌∷◌ c s) =
    let rest = split sep s in if code c == sep then "" ∷ rest else onto_first c rest
