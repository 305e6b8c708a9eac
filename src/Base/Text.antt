-- ===== src/Base/Text.antt =====
-- Literal texts as the lists of their characters' codes.
use Prim.Native.String.{String}
use Prim.Native.Char.{code}
use terp_builder.Base.{ℕ, List, [], ◌∷◌}

abbrev pub bytes : String → List ℕ
bytes String.[] = []
bytes (String.◌∷◌ c s) = code c ∷ bytes s
