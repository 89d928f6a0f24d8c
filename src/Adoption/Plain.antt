-- ===== src/Adoption/Plain.antt =====
-- internal/server/adoption/engine.go: `decidePlain`, the decision on a plaintext inform, whose key
-- is a claim and proves nothing.
pub mod Claim
use Prim.Native.String.{String}
use open_unifi.Base.{
  ℕ, Bool, true, false, not, ◌&&◌, Option, none, some, List, [], ◌∷◌, if◌then◌else◌,
}
use open_unifi.Base.Text.{str_eq, equal_fold}
use open_unifi.Store.Value.{JsonMap, as_string, or_empty}
use open_unifi.Store.Device.{Device}
use open_unifi.Store.TrustPolicy.{contains}
use open_unifi.Wireless.Wlan.{Wlan}
use open_unifi.Wireless.Plan.{ProvisioningPlan}
use open_unifi.Adoption.Types.{Deps, Request, Outcome, Kind, noop, M, ◌>>=◌, pure}
use open_unifi.Adoption.Noop.{noop_for}
use open_unifi.Adoption.Lifecycle.{armed_lifecycle}
use open_unifi.Adoption.Provision.{adoption_push, assigned_key_flow}

abbrev known_types : List String
known_types =
    "info" ∷ "heartbeat" ∷ "cmd" ∷ "setparam" ∷ "setparam-ack" ∷ "cmd-ack" ∷ "alarms" ∷ "disconnect"
    ∷ []

unfoldable pub inform_type_gentle_noop : String → Bool
inform_type_gentle_noop rtype = not (str_eq rtype "") && not (contains rtype known_types)

unfoldable pub request_type : Request → String
request_type req = or_empty (as_string (req.body "_type"))

abbrev pub noop_answer : Deps → Request → Kind → Device → Outcome
noop_answer D req kind d = noop_for D.jitter D.random d req.now req.prev_noop_target kind

-- `if out, armed := e.armedLifecycle(d); armed { return out, nil }`
abbrev pub unless_armed :
    Option Outcome × Device → (Device → M (Outcome × Device)) → M (Outcome × Device)
unless_armed (some out, d) rest = pure (out, d)
unless_armed (none, d) rest = rest d

-- `d.XAuthkey != "" && strings.EqualFold(d.XAuthkey, req.UsedKey)`
abbrev pub claims : Device → String → Bool
claims d used = not (str_eq d.x_authkey "") && equal_fold d.x_authkey used

module _ (D : Deps) (req : Request) (wls : List Wlan) (plan : ProvisioningPlan) where
  unfoldable pub plain_answer : Device → M (Outcome × Device)
  plain_answer d =
      if str_eq d.x_authkey ""
      then pure (noop_answer D req noop d, d)
      else if not (equal_fold d.x_authkey req.used_key)
      then pure (adoption_push D d d.x_authkey, d)
      else assigned_key_flow D req.now wls plan d

  unfoldable pub decide_plain : Device → M (Outcome × Device)
  unfolding plain_answer
  decide_plain d =
      if inform_type_gentle_noop (request_type req)
      then pure (noop_answer D req noop d, d)
      else if claims d req.used_key
      then unless_armed (armed_lifecycle d) plain_answer
      else plain_answer d
