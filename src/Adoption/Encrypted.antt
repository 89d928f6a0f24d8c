-- ===== src/Adoption/Encrypted.antt =====
-- internal/server/adoption/engine.go: `decideEncrypted`, the decision on an encrypted inform.
pub mod Connected
use Prim.Native.String.{String}
use open_unifi.Base.{
  ℕ, Bool, true, false, not, ◌&&◌, ◌||◌, Option, none, some, List, [], ◌==◌, if◌then◌else◌,
}
use open_unifi.Base.Text.{str_eq, equal_fold}
use open_unifi.Store.Value.{JsonMap}
use open_unifi.Store.Device.{Device, state_pending, state_adopting}
use open_unifi.Wireless.Wlan.{Wlan}
use open_unifi.Wireless.Plan.{ProvisioningPlan}
use open_unifi.Wireless.Delivery.{DeliveryState, load_delivery_state, settle}
use open_unifi.Wireless.Delivery.Retry.{retry_due}
use open_unifi.Adoption.Types.{
  Deps, Request, Outcome, Kind, noop, noop_pending_wlan, M, ◌>>=◌, pure, raise, EngineError,
  default_key_rejected, default_key_hex,
}
use open_unifi.Adoption.Lifecycle.{armed_lifecycle}
use open_unifi.Adoption.Provision.{rotate_keys, adoption_push, assigned_key_flow, blocked_sta_drift}
use open_unifi.Adoption.Plain.{
  inform_type_gentle_noop, request_type, noop_answer, unless_armed, claims,
}
use open_unifi.Adoption.Encrypted.Connected.{connected, mint}

-- The key-confirmation gate.
unfoldable pub rejects_default_key : Device → String → Bool
rejects_default_key d used =
    equal_fold used default_key_hex
    && (not (d.state == state_pending) && (not (d.state == state_adopting) || d.key_confirmed))

abbrev pub mint_if : Bool → Deps → Device → M Device
mint_if true D d = mint D d
mint_if false D d = pure d

abbrev version_moved : Option String → String → Bool
version_moved none cv = false
version_moved (some offered) cv = not (str_eq cv offered)

abbrev pub is_outstanding : DeliveryState → Bool
is_outstanding st = st.pending_present && not (str_eq st.pending_sha "")

-- Nothing but the budget decides on the retry of the unchanged operation.
abbrev pub is_held : DeliveryState → ProvisioningPlan → Bool → Device → Bool
is_held st plan blocked d =
    not blocked
    && (not (version_moved st.offered_cfgversion d.cfg_version)
        && str_eq st.pending_sha plan.drift_hash)

module _ (D : Deps) (req : Request) (wls : List Wlan) (plan : ProvisioningPlan) where
  -- The switch.
  unfoldable pub route : DeliveryState → Bool → Device → M (Outcome × Device)
  route st drift d =
      if str_eq req.used_key default_key_hex
      then rotate_keys D d >>= (λ d'. pure (adoption_push D d' req.used_key, d'))
      else if not (claims d req.used_key)
      then pure (adoption_push D d req.used_key, d)
      else if drift
      then assigned_key_flow D req.now wls plan d
      else if not (str_eq d.cfg_version "") && str_eq d.applied_cfg d.cfg_version
      then connected D req plan st d
      else assigned_key_flow D req.now wls plan d

  -- The gate on an outstanding delivery, which `RetryDue` may mark exhausted.
  unfoldable pub pending_gate : DeliveryState → Bool → Bool → Device → M (Outcome × Device)
  unfolding route
  pending_gate st drift blocked d =
      if is_outstanding st
      then (if is_held st plan blocked d
          then (let (extra, due) = retry_due st req.now d.extra in
              let d' = record d { extra = extra } in
              if due then route st true d' else pure (noop_answer D req noop_pending_wlan d', d'))
          else route st true d)
      else route st (drift || blocked) d

  -- The record after `Settle`, with the state that it leaves.
  unfoldable pub drift_stage : DeliveryState → Device → M (Outcome × Device)
  unfolding pending_gate
  drift_stage st d =
      let drift = not (str_eq st.sha "") && not (str_eq plan.drift_hash st.sha) in
      let fresh = not st.pending_present || not (str_eq st.pending_sha plan.drift_hash) in
      mint_if (drift && fresh) D d >>= (λ d1.
        let blocked = blocked_sta_drift D d1.extra in
        mint_if blocked D d1 >>= (λ d2. pending_gate st drift blocked d2))

  unfoldable pub settled_stage : Device → M (Outcome × Device)
  unfolding drift_stage
  settled_stage d =
      let (extra, st) = settle (load_delivery_state D.formats d.extra) d.cfg_version d.extra in
      drift_stage st (record d { extra = extra })

  unfoldable pub decide_encrypted : Device → M (Outcome × Device)
  unfolding settled_stage rejects_default_key
  decide_encrypted d =
      if rejects_default_key d req.used_key
      then raise default_key_rejected
      else if inform_type_gentle_noop (request_type req)
      then pure (noop_answer D req noop d, d)
      else unless_armed (armed_lifecycle d) settled_stage
