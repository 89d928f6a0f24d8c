-- ===== src/Adoption/Decide/Keys/Steps.antt =====
-- The steps of a decision below its choice of an arm, and the record's keys.
use Prim.Native.String.{String}
use open_unifi.Base.{
  ℕ, suc, Bool, true, false, ◌⊎◌, inl, inr, Option, none, some, List, [], ◌∷◌, ltb, if◌then◌else◌,
  ◌≡◌, Bool-cases,
}
use open_unifi.Base.Text.{str_eq}
use open_unifi.Base.Results.{Result, ok, err}
use open_unifi.Store.Value.{truthy, erase}
use open_unifi.Store.Keys.{flag_reboot_on_connect, session_disconnect_event_extra_key}
use open_unifi.Store.Device.{Device, state_adopting}
use open_unifi.Wireless.Wlan.{Wlan}
use open_unifi.Wireless.Plan.{ProvisioningPlan, missing_vaps}
use open_unifi.Wireless.Delivery.{DeliveryState, materialization_reboot_armed_for}
use open_unifi.Wireless.Delivery.Watch.{
  NotRunningClass, not_running_unknown, not_running_run, not_running_miss, clear_not_running_misses,
  record_not_running_miss, record_vap_not_running_miss,
}
use open_unifi.Adoption.Types.{
  Deps, Request, Outcome, M, ◌>>=◌, bound, pure, drawn, key_chars, EngineError,
}
use open_unifi.Adoption.Lifecycle.{demote}
use open_unifi.Adoption.Provision.{
  rendered, version_of, full_push, assigned_key_flow, blocked_sta_wire, blocked_sta_reconnect_push,
}
use open_unifi.Adoption.Encrypted.Connected.{
  mint, connected, after_push, watch, vap_watch, vap_miss, ssid_miss, names_version,
}
use open_unifi.Adoption.Encrypted.{mint_if}

-- A decision that fails keeps the record, and one that succeeds leaves a value with the property.
abbrev pub Post : {A : Type 0} → (A → Type 0) → Result EngineError (A × ℕ) → Type 0
Post Q (ok (a, n)) = Q a
Post Q (err e) = Unit {0}

pub record Always {A : Type 0} (Q : A → Type 0) (m : M A) : Type 0 where
  pub runs : (n : ℕ) → Post Q (m n)

abbrev Whatever : {A : Type 0} → A → Type 0
Whatever a = Unit {0}

pub Always-pure : {A : Type 0} {Q : A → Type 0} {a : A} → Q a → Always Q (pure a)
Always-pure q = record { runs = λ n. q }

pub Always-if :
    {A : Type 0} {Q : A → Type 0} (b : Bool) {x y : M A}
    → Always Q x
    → Always Q y
    → Always Q (if b then x else y)
Always-if true p q = p
Always-if false p q = q

Post-bound :
    {A B : Type 0} (P : A → Type 0) (Q : B → Type 0) (r : Result EngineError (A × ℕ)) (f : A → M B)
    → Post P r
    → ((a : A) → P a → Always Q (f a))
    → Post Q (bound r f)
Post-bound P Q (ok (a, n)) f p q = (q a p).runs n
Post-bound P Q (err e) f p q = tt

pub Always-bind :
    {A B : Type 0} {P : A → Type 0} {Q : B → Type 0} {m : M A} {f : A → M B}
    → Always P m
    → ((a : A) → P a → Always Q (f a))
    → Always Q (m >>= f)
Always-bind {P = P} {Q = Q} {m = m} {f = f} p q = record {
  runs = λ n. Post-bound P Q (m n) f (p.runs n) q;
}

Whatever-drawn : (o : Option String) → Always Whatever (drawn o)
unfolding drawn
Whatever-drawn none = record { runs = λ n. tt }
Whatever-drawn (some s) = record { runs = λ n. tt }

Whatever-key_chars : (D : Deps) (k : ℕ) → Always Whatever (key_chars D k)
unfolding key_chars
Whatever-key_chars D k = record { runs = λ n. (Whatever-drawn (D.key_chars n k)).runs (suc n) }

Whatever-rendered :
    (r : Result String (String × List (String × String))) → Always Whatever (rendered r)
unfolding rendered
Whatever-rendered (ok r) = record { runs = λ n. tt }
Whatever-rendered (err e) = record { runs = λ n. tt }

-- The keys of the record that the decision started from.
abbrev pub SameKeys : Device → Device → Type 0
SameKeys base d = (d.x_authkey ≡ base.x_authkey) × (d.authkeys ≡ base.authkeys)

abbrev pub KeepsKeys : Device → Outcome × Device → Type 0
KeepsKeys base (out, d) = SameKeys base d ⊎ (d ≡ demote base)

module _ (D : Deps) (req : Request) (base : Device) where
  SameKeys-mint : (d : Device) → SameKeys base d → Always (SameKeys base) (mint D d)
  unfolding mint
  SameKeys-mint d s = Always-bind (Whatever-key_chars D 16) (λ nv u. Always-pure s)

  pub SameKeys-mint_if :
      (b : Bool) (d : Device) → SameKeys base d → Always (SameKeys base) (mint_if b D d)
  SameKeys-mint_if true d s = SameKeys-mint d s
  SameKeys-mint_if false d s = Always-pure s

  module _ (wls : List Wlan) (plan : ProvisioningPlan) where
    KeepsKeys-push :
        (d : Device) (r : String × List (String × String))
        → SameKeys base d
        → KeepsKeys base (full_push D req.now wls plan d r)
    unfolding full_push
    KeepsKeys-push d (text, credentials) s = inl s

    pub KeepsKeys-assigned_key_flow :
        (d : Device)
        → SameKeys base d
        → Always (KeepsKeys base) (assigned_key_flow D req.now wls plan d)
    unfolding assigned_key_flow version_of
    KeepsKeys-assigned_key_flow d s =
        Always-bind (Always-if (str_eq d.cfg_version "") (Whatever-key_chars D 16) (Always-pure tt))
          (λ version u.
            let next = record d { cfg_version = version; state = state_adopting } in
            Always-bind (Whatever-rendered (D.render next wls plan))
              (λ r v. Always-pure (KeepsKeys-push next r s)))

    -- Both watchdogs.
    KeepsKeys-vap_watch :
        (st : DeliveryState) (missing : List String) (d : Device)
        → SameKeys base d
        → Always (KeepsKeys base) (vap_watch D req plan st missing d)
    unfolding vap_watch vap_miss
    KeepsKeys-vap_watch st [] d s = Always-pure (inl s)
    KeepsKeys-vap_watch st (m ∷ ms) d s =
        Always-if (truthy (d.extra flag_reboot_on_connect)) (Always-pure (inl s)) (
          Always-if (names_version (materialization_reboot_armed_for d.extra) d.cfg_version)
            (Always-pure (inl s))
            (Always-if (ltb (record_vap_not_running_miss st.vap_not_running_misses d.extra).1 2)
              (Always-pure (inl s)) (Always-pure (inl s))))

    KeepsKeys-watch :
        (st : DeliveryState) (c : NotRunningClass) (d : Device)
        → SameKeys base d
        → Always (KeepsKeys base) (watch D req plan st c d)
    unfolding watch ssid_miss
    KeepsKeys-watch st not_running_unknown d s = Always-pure (inl s)
    KeepsKeys-watch st not_running_run d s =
        let seen = record d { extra = clear_not_running_misses d.extra } in
        KeepsKeys-vap_watch st (missing_vaps plan.vaps (seen.extra "vap_table")) seen s
    KeepsKeys-watch st not_running_miss d s =
        let (extra, misses) = record_not_running_miss st.not_running_misses d.extra in
        Always-if (ltb misses 2) (Always-pure (inl s)) (
          Always-bind (SameKeys-mint (record d { extra = clear_not_running_misses extra }) s)
            (λ d' s'. Always-pure (inl s')))

    KeepsKeys-after_push :
        (st : DeliveryState) (r : Option Outcome × Device)
        → SameKeys base r.1
        → Always (KeepsKeys base) (after_push D req plan st r)
    unfolding after_push
    KeepsKeys-after_push st (some out, d) s = Always-pure (inl s)
    KeepsKeys-after_push st (none, d) s = KeepsKeys-watch st _ d s

    SameKeys-push : (d : Device) → SameKeys base d → SameKeys base (blocked_sta_reconnect_push d).1
    unfolding blocked_sta_reconnect_push
    SameKeys-push d s = elim (Bool-cases (truthy (d.extra session_disconnect_event_extra_key))) [
      | inr quiet ↦ rw quiet s
      | inl event ↦
          rw event
            (elim (Bool-cases
              (str_eq (blocked_sta_wire (erase session_disconnect_event_extra_key d.extra)) "")) [
                | inl nothing ↦ rw nothing s
                | inr blocked ↦ rw blocked s
              ])
    ]

    pub KeepsKeys-connected :
        (st : DeliveryState) (d : Device)
        → SameKeys base d
        → Always (KeepsKeys base) (connected D req plan st d)
    unfolding connected
    KeepsKeys-connected st d s =
        Always-if (str_eq st.sha "")
          (Always-bind (SameKeys-mint d s) (λ d' s'. Always-pure (inl s')))
          (Always-if st.pending_present (Always-pure (inl s))
            (KeepsKeys-after_push st (blocked_sta_reconnect_push d) (SameKeys-push d s)))
