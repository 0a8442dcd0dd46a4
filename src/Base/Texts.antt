-- ===== src/Base/Texts.antt =====
-- Equality of texts, under a name beside that of the numbers' `==`.
use Prim.Native.String.{String}
use mathlib.Core.Bool.{Bool}
use text.Mathlib.Text.{◌==◌}

abbrev pub same_text : String → String → Bool
same_text a b = a == b
