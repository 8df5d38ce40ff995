-- ===== src/Prelude/Text.antt =====
-- Prefixes of texts.
use Prim.Native.Char.{code}
use Prim.Native.String.{String}
use mathlib.Core.Option.{Option, none, some}
use neo_cloud_control_plane.Prelude.Tests.{eqb, if◌then◌else◌}

-- the rest of `s` after the literal `p`
unfoldable pub strip : String → String → Option String
strip String.[] s = some s
strip (String.◌∷◌ c p) String.[] = none
strip (String.◌∷◌ c p) (String.◌∷◌ d s) = if eqb (code c) (code d) then strip p s else none
