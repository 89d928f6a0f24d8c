-- ===== src/Adoption/Admits.antt =====
-- The decisions below the key-confirmation gate: none of them rejects the factory key.
use Prim.Native.String.{String}
use open_unifi.Base.{
  ℕ, suc, Bool, true, false, not, ◌||◌, Option, none, some, List, [], ◌∷◌, ltb, if◌then◌else◌, ◌≢◌,
  refl,
}
use open_unifi.Base.Text.{str_eq, equal_fold}
use open_unifi.Base.Results.{Result, ok, err}
use open_unifi.Store.Value.{truthy}
use open_unifi.Store.Keys.{flag_reboot_on_connect}
use open_unifi.Store.Device.{Device}
use open_unifi.Wireless.Wlan.{Wlan}
use open_unifi.Wireless.Plan.{ProvisioningPlan, missing_vaps}
use open_unifi.Wireless.Delivery.{DeliveryState, materialization_reboot_armed_for}
use open_unifi.Wireless.Delivery.Retry.{retry_due}
use open_unifi.Wireless.Delivery.Watch.{
  NotRunningClass, not_running_unknown, not_running_run, not_running_miss, clear_not_running_misses,
  record_not_running_miss, record_vap_not_running_miss,
}
use open_unifi.Adoption.Types.{
  Deps, Request, Outcome, noop_pending_wlan, M, ◌>>=◌, bound, pure, drawn, key_chars, EngineError,
  default_key_rejected, key_chars_failed, render_failed, default_key_hex,
}
use open_unifi.Adoption.Lifecycle.{armed_lifecycle}
use open_unifi.Adoption.Provision.{rotate_keys, rendered, version_of, assigned_key_flow}
use open_unifi.Adoption.Plain.{
  noop_answer, unless_armed, claims, plain_answer, decide_plain, inform_type_gentle_noop,
  request_type,
}
use open_unifi.Adoption.Encrypted.Connected.{
  mint, connected, after_push, watch, vap_watch, vap_miss, ssid_miss, names_version,
}
use open_unifi.Adoption.Encrypted.{
  mint_if, is_outstanding, is_held, route, pending_gate, drift_stage, settled_stage,
}

-- A decision that never rejects the factory key.
abbrev pub Admits : {A : Type 0} → M A → Type 0
Admits m = (n : ℕ) → m n ≢ err default_key_rejected

pub Admits-pure : {A : Type 0} (a : A) → Admits (pure a)
Admits-pure a n h = cc

pub Admits-if :
    {A : Type 0} (b : Bool) {x y : M A} → Admits x → Admits y → Admits (if b then x else y)
Admits-if true p q = p
Admits-if false p q = q

Admits-bound :
    {A B : Type 0} (r : Result EngineError (A × ℕ)) (f : A → M B)
    → r ≢ err default_key_rejected
    → ((a : A) → Admits (f a))
    → bound r f ≢ err default_key_rejected
Admits-bound (ok (a, n)) f p q h = q a n h
Admits-bound (err default_key_rejected) f p q h = p refl
Admits-bound (err key_chars_failed) f p q h = cc
Admits-bound (err (render_failed e)) f p q h = cc

pub Admits-bind :
    {A B : Type 0} (m : M A) (f : A → M B) → Admits m → ((a : A) → Admits (f a)) → Admits (m >>= f)
Admits-bind m f p q n = Admits-bound (m n) f (p n) q

Admits-drawn : (o : Option String) → Admits (drawn o)
unfolding drawn
Admits-drawn none n h = cc
Admits-drawn (some s) n h = cc

Admits-key_chars : (D : Deps) (k : ℕ) → Admits (key_chars D k)
unfolding key_chars
Admits-key_chars D k n = Admits-drawn (D.key_chars n k) (suc n)

Admits-mint : (D : Deps) (d : Device) → Admits (mint D d)
unfolding mint
Admits-mint D d =
    Admits-bind (key_chars D 16) (λ nv. pure (record d { cfg_version = nv }))
      (Admits-key_chars D 16) (λ nv. Admits-pure (record d { cfg_version = nv }))

Admits-mint_if : (b : Bool) (D : Deps) (d : Device) → Admits (mint_if b D d)
Admits-mint_if true D d = Admits-mint D d
Admits-mint_if false D d = Admits-pure d

Admits-rendered : (r : Result String (String × List (String × String))) → Admits (rendered r)
unfolding rendered
Admits-rendered (ok r) n h = cc
Admits-rendered (err e) n h = cc

pub Admits-unless_armed :
    (r : Option Outcome × Device) (rest : Device → M (Outcome × Device))
    → ((d : Device) → Admits (rest d))
    → Admits (unless_armed r rest)
Admits-unless_armed (some out, d) rest p = Admits-pure (out, d)
Admits-unless_armed (none, d) rest p = p d

Admits-rotate_keys : (D : Deps) (d : Device) → Admits (rotate_keys D d)
unfolding rotate_keys
Admits-rotate_keys D d n =
    Admits-bind (key_chars D 32) _ (Admits-key_chars D 32)
      (λ xk. Admits-bind (key_chars D 16) _ (Admits-key_chars D 16) (λ cv. Admits-pure _)) n

module _ (D : Deps) (req : Request) (wls : List Wlan) (plan : ProvisioningPlan) where
  Admits-assigned_key_flow : (d : Device) → Admits (assigned_key_flow D req.now wls plan d)
  unfolding assigned_key_flow version_of
  Admits-assigned_key_flow d =
      Admits-bind (version_of D d) _
        (Admits-if (str_eq d.cfg_version "") (Admits-key_chars D 16) (Admits-pure d.cfg_version))
        (λ version. Admits-bind _ _ (Admits-rendered _) (λ r. Admits-pure _))

  pub Admits-plain : (d : Device) → Admits (decide_plain D req wls plan d)
  unfolding decide_plain plain_answer
  Admits-plain d =
      let answer = λ (w : Device). Admits-if (str_eq w.x_authkey "") (Admits-pure _) (
        Admits-if (not (equal_fold w.x_authkey req.used_key)) (Admits-pure _)
          (Admits-assigned_key_flow w)) in
      Admits-if (inform_type_gentle_noop (request_type req)) (Admits-pure _) (
        Admits-if (claims d req.used_key)
          (Admits-unless_armed (armed_lifecycle d) (plain_answer D req wls plan) answer) (answer d))

  Admits-vap_watch :
      (st : DeliveryState) (missing : List String) (d : Device)
      → Admits (vap_watch D req plan st missing d)
  unfolding vap_watch vap_miss
  Admits-vap_watch st [] d = Admits-pure _
  Admits-vap_watch st (m ∷ ms) d =
      Admits-if (truthy (d.extra flag_reboot_on_connect)) (Admits-pure _) (
        Admits-if (names_version (materialization_reboot_armed_for d.extra) d.cfg_version)
          (Admits-pure _)
          (Admits-if (ltb (record_vap_not_running_miss st.vap_not_running_misses d.extra).1 2)
            (Admits-pure _) (Admits-pure _)))

  Admits-watch :
      (st : DeliveryState) (c : NotRunningClass) (d : Device) → Admits (watch D req plan st c d)
  unfolding watch ssid_miss
  Admits-watch st not_running_unknown d = Admits-pure _
  Admits-watch st not_running_run d =
      let seen = record d { extra = clear_not_running_misses d.extra } in
      Admits-vap_watch st (missing_vaps plan.vaps (seen.extra "vap_table")) seen
  Admits-watch st not_running_miss d =
      Admits-if (ltb (record_not_running_miss st.not_running_misses d.extra).1 2) (Admits-pure _)
        (Admits-bind _ _ (Admits-mint D _) (λ d'. Admits-pure _))

  Admits-after_push :
      (st : DeliveryState) (r : Option Outcome × Device) → Admits (after_push D req plan st r)
  unfolding after_push
  Admits-after_push st (some out, d) = Admits-pure _
  Admits-after_push st (none, d) = Admits-watch st _ d

  Admits-connected : (st : DeliveryState) (d : Device) → Admits (connected D req plan st d)
  unfolding connected
  Admits-connected st d =
      Admits-if (str_eq st.sha "") (Admits-bind _ _ (Admits-mint D d) (λ d'. Admits-pure _))
        (Admits-if st.pending_present (Admits-pure _) (Admits-after_push st _))

  Admits-route :
      (st : DeliveryState) (drift : Bool) (d : Device) → Admits (route D req wls plan st drift d)
  unfolding route
  Admits-route st drift d =
      Admits-if (str_eq req.used_key default_key_hex)
        (Admits-bind _ _ (Admits-rotate_keys D d) (λ d'. Admits-pure _))
        (Admits-if (not (claims d req.used_key)) (Admits-pure _) (
          Admits-if drift (Admits-assigned_key_flow d)
            (Admits-if _ (Admits-connected st d) (Admits-assigned_key_flow d))))

  Admits-pending_gate :
      (st : DeliveryState) (drift blocked : Bool) (d : Device)
      → Admits (pending_gate D req wls plan st drift blocked d)
  unfolding pending_gate
  Admits-pending_gate st drift blocked d =
      let after = record d { extra = (retry_due st req.now d.extra).0 } in
      Admits-if (is_outstanding st)
        (Admits-if (is_held st plan blocked d)
          (Admits-if (retry_due st req.now d.extra).1 (Admits-route st true after)
            (Admits-pure (noop_answer D req noop_pending_wlan after, after)))
          (Admits-route st true d))
        (Admits-route st (drift || blocked) d)

  Admits-drift_stage : (st : DeliveryState) (d : Device) → Admits (drift_stage D req wls plan st d)
  unfolding drift_stage
  Admits-drift_stage st d =
      Admits-bind _ _ (Admits-mint_if _ D d)
        (λ d1. Admits-bind _ _ (Admits-mint_if _ D d1) (λ d2. Admits-pending_gate st _ _ d2))

  pub Admits-settled_stage : (d : Device) → Admits (settled_stage D req wls plan d)
  unfolding settled_stage
  Admits-settled_stage d = Admits-drift_stage _ _
