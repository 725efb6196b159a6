-- ===== src/Prelude/Texts.antt =====
-- Parts of texts.
use Prim.Native.Char.{code}
use Prim.Native.String.{String}
use mathlib.Core.Bool.{Bool, true, false, ◌&&◌, ◌||◌}
use atomicassets_api.Prelude.Tests.{◌==◌}

abbrev starts_with : String → String → Bool
starts_with String.[] s = true
starts_with (String.◌∷◌ c p) String.[] = false
starts_with (String.◌∷◌ c p) (String.◌∷◌ d s) = (code c == code d) && starts_with p s

-- `message.includes(part)`
unfoldable pub has_part : String → String → Bool
has_part p String.[] = starts_with p ""
has_part p (String.◌∷◌ c s) = starts_with p (String.◌∷◌ c s) || has_part p s
