-- ===== src/Adoption/Provision.antt =====
-- internal/server/adoption/engine.go, blockedsta.go, sessions.go: key rotation, the pushes, and the
-- projection of the blocked set.
pub mod Keys
pub mod Push
use Prim.Native.Char.{Char, code}
use Prim.Native.String.{String, ◌++◌ as ◌<>◌}
use open_unifi.Base.{
  ℕ, ◌+◌, ◌-◌, Bool, true, false, not, Option, none, some, List, [], ◌∷◌, ◌++◌, map, length, drop,
  if◌then◌else◌,
}
use open_unifi.Base.Results.{Result, ok, err}
use open_unifi.Base.Text.{str_eq, equal_fold}
use open_unifi.Store.Value.{Value, str, JsonMap, put, erase, as_string, truthy}
use open_unifi.Store.Keys.{blocked_sta_sha_extra_key, session_disconnect_event_extra_key}
use open_unifi.Store.Device.{Device, state_adopting}
use open_unifi.Store.Mac.{colon_mac, lower_text}
use open_unifi.Store.Blocked.{blocked_clients}
use open_unifi.Wireless.Wlan.{Wlan}
use open_unifi.Wireless.Plan.{ProvisioningPlan}
use open_unifi.Wireless.Delivery.{load_delivery_state}
use open_unifi.Wireless.Delivery.Retry.{offer}
use open_unifi.Adoption.Types.{
  Deps, Outcome, Kind, setparam, blocked_sta_reconnect, outcome, M, ◌>>=◌, pure, raise, EngineError,
  render_failed, key_chars,
}
use open_unifi.Adoption.Mgmt.{build_mgmt_cfg}

join_lines : List String → String
join_lines [] = ""
join_lines (s ∷ []) = s
join_lines (s ∷ t ∷ ss) = s <> "\n" <> join_lines (t ∷ ss)

unfoldable pub blocked_sta_wire : JsonMap → String
unfolding join_lines
blocked_sta_wire extra = join_lines (map colon_mac (blocked_clients extra))

drifts : Deps → String → Option String → Bool
drifts D wire none = not (str_eq wire "")
drifts D wire (some baseline) = not (str_eq (D.sha256_hex wire) baseline)

unfoldable pub blocked_sta_drift : Deps → JsonMap → Bool
unfolding drifts
blocked_sta_drift D extra =
    drifts D (blocked_sta_wire extra) (as_string (extra blocked_sta_sha_extra_key))

unfoldable pub stamp_blocked_sta : Deps → String → JsonMap → JsonMap
stamp_blocked_sta D wire extra = put blocked_sta_sha_extra_key (str (D.sha256_hex wire)) extra

unfoldable pub consume_session_disconnect_event : JsonMap → JsonMap
consume_session_disconnect_event = erase session_disconnect_event_extra_key

-- `none` is the Go result false.
unfoldable pub blocked_sta_reconnect_push : Device → Option Outcome × Device
blocked_sta_reconnect_push d =
    if truthy (d.extra session_disconnect_event_extra_key)
    then (let rest = record d { extra = erase session_disconnect_event_extra_key d.extra } in
        let wire = blocked_sta_wire rest.extra in
        if str_eq wire ""
        then (none, rest)
        else (some (record (outcome blocked_sta_reconnect) { blocked_sta = wire }), rest))
    else (none, d)

abbrev pub holds_key : String → List String → Bool
holds_key key [] = false
holds_key key (k ∷ ks) = if equal_fold k key then true else holds_key key ks

-- The loop of `addKey`, over a key in lower case.
unfoldable pub lists_key : String → List String → Bool
unfolding lower_text
lists_key key [] = false
lists_key key (k ∷ ks) = if str_eq (lower_text k) key then true else lists_key key ks

unfoldable pub add_key : List String → String → List String
unfolding lower_text lists_key
add_key keys key =
    let low = lower_text key in if lists_key low keys then keys else keys ++ (low ∷ [])

-- `keys[len(keys)-2:]` where there are more than two.
unfoldable pub newest_two : List String → List String
newest_two keys = drop (length keys - 2) keys

unfoldable pub rotate_keys : Deps → Device → M Device
unfolding add_key newest_two
rotate_keys D d = key_chars D 32 >>= (λ xk. key_chars D 16 >>= (λ cv. pure (record d {
  x_authkey = xk;
  cfg_version = cv;
  authkeys = newest_two (add_key d.authkeys xk);
  state = state_adopting;
})))

unfoldable pub adoption_push : Deps → Device → String → Outcome
adoption_push D d used = record (outcome setparam) { mgmt_cfg = build_mgmt_cfg D d used }

-- A fresh version where the record has none.
unfoldable pub version_of : Deps → Device → M String
version_of D d = if str_eq d.cfg_version "" then key_chars D 16 else pure d.cfg_version

unfoldable pub rendered :
    Result String (String × List (String × String)) → M (String × List (String × String))
rendered (ok r) = pure r
rendered (err e) = raise (render_failed e)

module _ (D : Deps) (now : ℕ) (wls : List Wlan) (plan : ProvisioningPlan) where
  unfoldable pub offered_rows : String → JsonMap → JsonMap
  offered_rows version extra =
      offer D.formats plan.drift_hash now wls plan.placements version
        (load_delivery_state D.formats extra) extra

  unfoldable pub full_push : Device → String × List (String × String) → Outcome × Device
  full_push d (text, credentials) =
      let offered = offered_rows d.cfg_version d.extra in
      let wire = blocked_sta_wire offered in
      let after = record d {
        extra = consume_session_disconnect_event (stamp_blocked_sta D wire offered);
      } in
      (
        record (outcome setparam) {
          full_provision = true;
          cfg_version = d.cfg_version;
          system_cfg = text;
          blocked_sta = wire;
          mgmt_cfg = build_mgmt_cfg D after d.x_authkey;
          credential_deltas = credentials;
        },
        after,
      )

  unfoldable pub assigned_key_flow : Device → M (Outcome × Device)
  unfolding rendered full_push
  assigned_key_flow d = version_of D d >>= (λ version.
      let d1 = record d { cfg_version = version; state = state_adopting } in
      rendered (D.render d1 wls plan) >>= (λ r. pure (full_push d1 r)))
