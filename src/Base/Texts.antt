-- ===== src/Base/Texts.antt =====
-- Python's `+` and `in` on texts.
use Prim.Native.String.{String, ◌++◌}
use text.Mathlib.Text.{find?}
use mathlib.Core.Bool.{Bool, true, false}
use mathlib.Core.Option.{none, some}

abbrev pub cat : String → String → String
cat a b = a ++ b

-- `part in whole`
unfoldable pub contains : String → String → Bool
contains whole part = elim (find? whole part) [ none ↦ false | some i ↦ true ]
