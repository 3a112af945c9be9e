-- ===== src/Prelude/Values.antt =====
-- Python values that a `dict[str, Any]` of the authorization code holds, and such dicts.
use Prim.Native.String.{String}
use mathlib.Core.Bool.{Bool, true, false, not}
use mathlib.Core.List.{List, [], ◌∷◌}
use text.Mathlib.Text.{◌==◌ as str_eq}
use queryops_ai.Prelude.Tests.{if◌then◌else◌}

pub data Value : Type 0 where
  null : Value
  str : String → Value
  flag : Bool → Value

-- `bool(v)`
abbrev pub truthy : Value → Bool
truthy null = false
truthy (str s) = not (str_eq s "")
truthy (flag b) = b

-- `a or b`
abbrev pub or_value : Value → Value → Value
or_value a b = if truthy a then a else b

-- `str(v)`
abbrev pub to_str : Value → String
to_str null = "None"
to_str (str s) = s
to_str (flag true) = "True"
to_str (flag false) = "False"

abbrev pub Dict : Type 0
Dict = List (String × Value)

-- `d.get(key)`, which is None for a key that is not there
abbrev pub get : Dict → String → Value
get [] k = null
get ((j, v) ∷ d) k = if str_eq j k then v else get d k
