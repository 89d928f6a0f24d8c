-- ===== src/Store/TrustPolicy.antt =====
-- internal/store/trustpolicy.go: record absorption (`Absorb`) under the trust policy. The body of
-- the inform is a map from keys, as the record's `Extra` is.
pub mod Classes
use Prim.Native.String.{String}
use open_unifi.Base.{
  ℕ, Bool, true, false, not, ◌&&◌, Option, none, some, List, [], ◌∷◌, ◌==◌, if◌then◌else◌,
}
use open_unifi.Base.Text.{str_eq}
use open_unifi.Store.Value.{
  Value, null, bool, str, int, int64, float64, arr, obj, Fields, get_field, JsonMap, as_string,
  or_empty,
}
use open_unifi.Store.Keys.{controller_owned_keys, device_refreshable_keys, admin_owned_keys}
use open_unifi.Store.Device.{Device}

abbrev pub contains : String → List String → Bool
contains s [] = false
contains s (x ∷ xs) = if str_eq s x then true else contains s xs

-- `if v, ok := prev[k]; ok { d.Extra[k] = v }`
abbrev restore : Option Value → Option Value → Option Value
restore none now = now
restore (some v) now = some v

-- The three loops, each over the keys of its class.
unfoldable pub restore_controller : List String → JsonMap → JsonMap → JsonMap
restore_controller [] prev m = m
restore_controller (k ∷ ks) prev m =
    restore_controller ks prev (λ j. if str_eq j k then restore (prev j) (m j) else m j)

-- A key that the body lacks is restored. (Go reads the body, which is the same map as `d.Extra`.)
abbrev fill : Option Value → Option Value → Option Value
fill none old = old
fill (some v) old = some v

unfoldable pub restore_caps : List String → JsonMap → JsonMap → JsonMap
restore_caps [] prev m = m
restore_caps (k ∷ ks) prev m =
    restore_caps ks prev (λ j. if str_eq j k then fill (m j) (prev j) else m j)

-- The record's value, or deletion.
unfoldable pub restore_admin : List String → JsonMap → JsonMap → JsonMap
restore_admin [] prev m = m
restore_admin (k ∷ ks) prev m = restore_admin ks prev (λ j. if str_eq j k then prev j else m j)

-- The rows of a record after absorption.
unfoldable pub absorb_rows : JsonMap → JsonMap → JsonMap
absorb_rows prev body =
    restore_admin admin_owned_keys prev (
      restore_caps device_refreshable_keys prev
        (restore_controller controller_owned_keys prev body))

-- `if stat, ok := body["stat"].(map[string]any)`
stats_of : Option Value → JsonMap → JsonMap
stats_of (some (obj fs)) old = λ k. get_field k fs
stats_of _ old = old

-- `if cfg, ok := body["cfgversion"].(string); ok && cfg != ""`
reported_cfg : Option Value → String → String
reported_cfg (some (str s)) old = if str_eq s "" then old else s
reported_cfg _ old = old

says_true : Option Value → Bool
says_true (some (bool b)) = b
says_true _ = false

-- `now` is the inform's time, `gcm` tells that it came encrypted with GCM.
unfoldable pub absorb : JsonMap → ℕ → Bool → Device → Device
unfolding absorb_rows stats_of reported_cfg says_true
absorb body now gcm d =
    let rows = absorb_rows d.extra body in
    let text = λ (k : String). or_empty (as_string (body k)) in
    record d {
      model = text "model";
      firmware = text "version";
      serial = text "serial";
      ip = text "ip";
      inform_url = text "inform_url";
      extra = rows;
      last_ups = stats_of (rows "stat") d.last_ups;
      applied_cfg = reported_cfg (rows "cfgversion") d.applied_cfg;
      last_seen = now;
      first_seen = if d.first_seen == 0 then now else d.first_seen;
      aes_gcm = if gcm then true else if says_true (rows "x_aes_gcm") then true else d.aes_gcm;
    }
