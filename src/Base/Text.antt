-- ===== src/Base/Text.antt =====
-- Texts: concatenation and the order of `sort()`.
use Prim.Native.String
use Prim.Native.String.{String}
use Prim.Native.Nat.{Ordering}
use mathlib.Core.Bool.{Bool, true, false}

abbrev pub append : String → String → String
append s t = String.◌++◌ s t

-- JavaScript orders texts by UTF-16 code units, this by code points: the two agree on texts
-- without characters above U+FFFF, and both are total orders.
unfoldable pub text_leb : String → String → Bool
text_leb s t = elim (String.compare s t) [ Ordering.gt ↦ false | _ ↦ true ]
