-- ===== src/Adoption/Decide/Keys.antt =====
-- Which decisions move the keys of a record.
pub mod Steps
use Prim.Native.String.{String}
use open_unifi.Base.{
  ℕ, suc, Bool, true, false, not, ◌&&◌, ◌||◌, ◌⊎◌, inl, inr, Option, none, some, List, [], ◌∷◌, ltb,
  if◌then◌else◌, ◌≡◌, refl, ap, Bool-cases,
}
use open_unifi.Base.Text.{str_eq, equal_fold}
use open_unifi.Base.Results.{Result, ok, err}
use open_unifi.Store.Value.{truthy, Fields}
use open_unifi.Store.Keys.{
  flag_reboot_on_connect, flag_setdefault_armed, session_disconnect_event_extra_key,
}
use open_unifi.Store.Device.{Device, state_adopting}
use open_unifi.Store.CmdTask.{armed_cmd_task}
use open_unifi.Wireless.Wlan.{Wlan}
use open_unifi.Wireless.Plan.{ProvisioningPlan, missing_vaps, plan_provisioning}
use open_unifi.Wireless.Delivery.{
  DeliveryState, load_delivery_state, settle, materialization_reboot_armed_for,
}
use open_unifi.Wireless.Delivery.Retry.{retry_due}
use open_unifi.Wireless.Delivery.Watch.{
  NotRunningClass, not_running_unknown, not_running_run, not_running_miss, clear_not_running_misses,
  record_not_running_miss, record_vap_not_running_miss,
}
use open_unifi.Adoption.Types.{
  Deps, Request, Transport, encrypted, plaintext, Outcome, noop, noop_pending_wlan, M, ◌>>=◌, bound,
  pure, raise, drawn, key_chars, EngineError, default_key_rejected, default_key_hex,
}
use open_unifi.Adoption.Lifecycle.{armed_lifecycle, demote, take_reboot, replay}
use open_unifi.Adoption.Provision.{
  holds_key, rendered, version_of, full_push, assigned_key_flow, adoption_push, blocked_sta_drift,
  blocked_sta_wire, blocked_sta_reconnect_push,
}
use open_unifi.Adoption.Plain.{
  unless_armed, noop_answer, claims, plain_answer, decide_plain, inform_type_gentle_noop,
  request_type,
}
use open_unifi.Adoption.Encrypted.Connected.{
  mint, connected, after_push, watch, vap_watch, vap_miss, ssid_miss, names_version,
}
use open_unifi.Adoption.Encrypted.{
  mint_if, is_outstanding, is_held, route, pending_gate, drift_stage, settled_stage,
  rejects_default_key, decide_encrypted,
}
use open_unifi.Adoption.Decide.{lane, confirm, deltas, decide}
use open_unifi.Adoption.Decide.Keys.Steps.{
  Post, Always, Always-pure, Always-if, Always-bind, SameKeys, KeepsKeys, SameKeys-mint_if,
  KeepsKeys-assigned_key_flow, KeepsKeys-connected,
}

module _ (D : Deps) (req : Request) (base : Device) (wls : List Wlan) (plan : ProvisioningPlan)
    (other : str_eq req.used_key default_key_hex ≡ false) where
  KeepsKeys-route :
      (st : DeliveryState) (drift : Bool) (d : Device)
      → SameKeys base d
      → Always (KeepsKeys base) (route D req wls plan st drift d)
  unfolding route
  KeepsKeys-route st drift d s = rw other (
      Always-if (not (claims d req.used_key)) (Always-pure (inl s)) (
        Always-if drift (KeepsKeys-assigned_key_flow D req base wls plan d s) (
          Always-if (not (str_eq d.cfg_version "") && str_eq d.applied_cfg d.cfg_version)
            (KeepsKeys-connected D req base wls plan st d s)
            (KeepsKeys-assigned_key_flow D req base wls plan d s))))

  KeepsKeys-pending_gate :
      (st : DeliveryState) (drift blocked : Bool) (d : Device)
      → SameKeys base d
      → Always (KeepsKeys base) (pending_gate D req wls plan st drift blocked d)
  unfolding pending_gate
  KeepsKeys-pending_gate st drift blocked d s =
      let after = record d { extra = (retry_due st req.now d.extra).0 } in
      Always-if (is_outstanding st)
        (Always-if (is_held st plan blocked d)
          (Always-if (retry_due st req.now d.extra).1 (KeepsKeys-route st true after s)
            (Always-pure (inl s)))
          (KeepsKeys-route st true d s))
        (KeepsKeys-route st (drift || blocked) d s)

  KeepsKeys-drift_stage :
      (st : DeliveryState) (d : Device)
      → SameKeys base d
      → Always (KeepsKeys base) (drift_stage D req wls plan st d)
  unfolding drift_stage
  KeepsKeys-drift_stage st d s =
      let drift = not (str_eq st.sha "") && not (str_eq plan.drift_hash st.sha) in
      let fresh = not st.pending_present || not (str_eq st.pending_sha plan.drift_hash) in
      Always-bind
        {f = λ d1.
          mint_if (blocked_sta_drift D d1.extra) D d1
          >>= (λ d2. pending_gate D req wls plan st drift (blocked_sta_drift D d1.extra) d2)}
        (SameKeys-mint_if D req base (drift && fresh) d s)
        (λ d1 s1.
          let blocked = blocked_sta_drift D d1.extra in
          Always-bind {f = λ d2. pending_gate D req wls plan st drift blocked d2}
            (SameKeys-mint_if D req base blocked d1 s1)
            (λ d2 s2. KeepsKeys-pending_gate st drift blocked d2 s2))

  KeepsKeys-settled_stage :
      (d : Device) → SameKeys base d → Always (KeepsKeys base) (settled_stage D req wls plan d)
  unfolding settled_stage
  KeepsKeys-settled_stage d s =
      let (extra, st) = settle (load_delivery_state D.formats d.extra) d.cfg_version d.extra in
      KeepsKeys-drift_stage st (record d { extra = extra }) s

-- The lifecycle chain on the record itself: it demotes it, or keeps its keys.
module _ (base : Device) (rest : Device → M (Outcome × Device)) where
  unless_armed-if :
      (b : Bool) (x y : Option Outcome × Device)
      → Always (KeepsKeys base) (unless_armed x rest)
      → Always (KeepsKeys base) (unless_armed y rest)
      → Always (KeepsKeys base) (unless_armed (if b then x else y) rest)
  unless_armed-if true x y p q = p
  unless_armed-if false x y p q = q

  unless_armed-replay :
      (o : Option Fields)
      → Always (KeepsKeys base) (rest base)
      → Always (KeepsKeys base) (unless_armed (replay o base) rest)
  unfolding replay
  unless_armed-replay none p = p
  unless_armed-replay (some task) p = Always-pure (inl (refl, refl))

  KeepsKeys-unless_armed :
      Always (KeepsKeys base) (rest base)
      → Always (KeepsKeys base) (unless_armed (armed_lifecycle base) rest)
  unfolding armed_lifecycle take_reboot
  KeepsKeys-unless_armed p =
      unless_armed-if (truthy (base.extra flag_setdefault_armed)) _ _ (Always-pure (inr refl)) (
        unless_armed-if (truthy (base.extra flag_reboot_on_connect)) _ _
          (Always-pure (inl (refl, refl))) (unless_armed-replay (armed_cmd_task base.extra) p))

module _ (D : Deps) (req : Request) (wls : List Wlan) (plan : ProvisioningPlan) (d : Device) where
  KeepsKeys-plain_answer : Always (KeepsKeys d) (plain_answer D req wls plan d)
  unfolding plain_answer
  KeepsKeys-plain_answer = Always-if (str_eq d.x_authkey "") (Always-pure (inl (refl, refl))) (
      Always-if (not (equal_fold d.x_authkey req.used_key)) (Always-pure (inl (refl, refl)))
        (KeepsKeys-assigned_key_flow D req d wls plan d (refl, refl)))

  KeepsKeys-plain : Always (KeepsKeys d) (decide_plain D req wls plan d)
  unfolding decide_plain
  KeepsKeys-plain =
      Always-if (inform_type_gentle_noop (request_type req)) (Always-pure (inl (refl, refl))) (
        Always-if (claims d req.used_key)
          (KeepsKeys-unless_armed d (plain_answer D req wls plan) KeepsKeys-plain_answer)
          KeepsKeys-plain_answer)

  KeepsKeys-encrypted :
      str_eq req.used_key default_key_hex ≡ false
      → Always (KeepsKeys d) (decide_encrypted D req wls plan d)
  unfolding decide_encrypted
  KeepsKeys-encrypted other =
      Always-if (rejects_default_key d req.used_key) (record { runs = λ n. tt })
        (Always-if (inform_type_gentle_noop (request_type req)) (Always-pure (inl (refl, refl))) (
          KeepsKeys-unless_armed d (settled_stage D req wls plan)
            (KeepsKeys-settled_stage D req d wls plan other d (refl, refl))))

  KeepsKeys-lane :
      (t : Transport)
      → (t ≡ plaintext) ⊎ (str_eq req.used_key default_key_hex ≡ false)
      → Always (KeepsKeys d) (lane D req wls plan t d)
  unfolding lane
  KeepsKeys-lane plaintext h = KeepsKeys-plain
  KeepsKeys-lane encrypted (inl h) = cc
  KeepsKeys-lane encrypted (inr h) = KeepsKeys-encrypted h

confirm-KeepsKeys :
    (base : Device) (used : String) (out : Outcome) (d : Device)
    → KeepsKeys base (out, d)
    → KeepsKeys base (deltas base (confirm used d) out, confirm used d)
unfolding confirm demote
confirm-KeepsKeys base used out d (inr e) = inr (ap (confirm used) e)
confirm-KeepsKeys base used out d (inl s) = elim (Bool-cases (holds_key used d.authkeys)) [
  | inl held ↦ rw held (inl s)
  | inr foreign ↦ rw foreign (inl s)
]

-- Keys move on the factory key alone: whatever a plaintext inform or an encrypted one under any
-- other key asks, a decision that succeeds leaves the assigned key and the key history of the
-- record, or demotes the whole record for a factory reset.
pub decide-KeepsKeys :
    (D : Deps) (req : Request) (n : ℕ)
    → (req.transport ≡ plaintext) ⊎ (str_eq req.used_key default_key_hex ≡ false)
    → Post (KeepsKeys req.device) (decide D req n)
unfolding decide
decide-KeepsKeys D req n h =
    let wls = D.wireless req.device in
    let plan = plan_provisioning D.sha256_24 D.hash_rows req.device wls in
    (Always-bind (KeepsKeys-lane D req wls plan req.device req.transport h)
        (λ r k. Always-pure (confirm-KeepsKeys req.device req.used_key r.0 r.1 k))).runs
      n
