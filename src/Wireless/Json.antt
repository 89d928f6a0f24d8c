-- ===== src/Wireless/Json.antt =====
-- internal/wireless/plan.go: `JSONStr`, a scalar field of a JSON object as text.
use Prim.Native.String.{String}
use open_unifi.Base.{true, false, Option, some, if◌then◌else◌}
use open_unifi.Base.Text.{str_eq, itoa}
use open_unifi.Store.Value.{Value, str, bool, float64, Fields, get_field}

scalar : Option Value → String → String
scalar (some (str s)) def = if str_eq s "" then def else s
scalar (some (float64 n)) def = itoa n
scalar (some (bool true)) def = "true"
scalar (some (bool false)) def = "false"
scalar _ def = def

unfoldable pub json_str : Fields → String → String → String
unfolding scalar itoa
json_str m key def = scalar (get_field key m) def
