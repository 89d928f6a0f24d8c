-- ===== src/Adoption/Decide/Gate.antt =====
-- The key-confirmation gate: what rejects a factory-key inform, and the way back through a reset.
use Prim.Native.String.{String}
use open_unifi.Base.{
  ℕ, Bool, true, false, inl, inr, List, ◌==◌, ◌≢◌, ◌⊎◌, not, ◌&&◌, ◌||◌, arith, ◌≡◌, ◌↔◌, refl,
  Bool-cases,
}
use open_unifi.Base.Results.{Result, ok, err}
use open_unifi.Base.Text.{equal_fold}
use open_unifi.Store.Value.{truthy}
use open_unifi.Store.Keys.{flag_setdefault_armed}
use open_unifi.Store.Device.{Device, state_pending, state_adopting}
use open_unifi.Wireless.Wlan.{Wlan}
use open_unifi.Wireless.Plan.{ProvisioningPlan, plan_provisioning}
use open_unifi.Adoption.Types.{
  Deps, Request, Transport, encrypted, plaintext, Outcome, setdefault, outcome, M, bound,
  EngineError, default_key_rejected, key_chars_failed, render_failed, default_key_hex,
}
use open_unifi.Adoption.Lifecycle.{demote, armed_lifecycle}
use open_unifi.Adoption.Lifecycle.OneShot.{when_reset}
use open_unifi.Adoption.Plain.{inform_type_gentle_noop, request_type}
use open_unifi.Adoption.Encrypted.{rejects_default_key, settled_stage, decide_encrypted}
use open_unifi.Adoption.Admits.{
  Admits, Admits-pure, Admits-if, Admits-unless_armed, Admits-plain, Admits-settled_stage,
}
use open_unifi.Adoption.Decide.{lane, confirm, deltas, decide}

module _ (D : Deps) (req : Request) (wls : List Wlan) (plan : ProvisioningPlan) where
  rejected :
      (d : Device) (n : ℕ)
      → rejects_default_key d req.used_key ≡ true
      → decide_encrypted D req wls plan d n ≡ err default_key_rejected
  unfolding decide_encrypted
  rejected d n h = rw h

  Admits-encrypted :
      (d : Device)
      → rejects_default_key d req.used_key ≡ false
      → Admits (decide_encrypted D req wls plan d)
  unfolding decide_encrypted
  Admits-encrypted d h = rw h (
      Admits-if (inform_type_gentle_noop (request_type req)) (Admits-pure _) (
        Admits-unless_armed (armed_lifecycle d) (settled_stage D req wls plan)
          (Admits-settled_stage D req wls plan)))

-- The factory key, in any letter case, on a record that is not pending and that is either past
-- adopting or confirmed.
abbrev pub Locked : Device → String → Type 0
Locked d used =
    (equal_fold used default_key_hex ≡ true)
    × (d.state ≢ state_pending)
    × ((d.state ≢ state_adopting) ⊎ (d.key_confirmed ≡ true))

gate_iff :
    (same confirmed : Bool) (state : ℕ)
    → ((same && (not (state == state_pending) && (not (state == state_adopting) || confirmed)))
        ≡ true)
      ↔ ((same ≡ true) × (state ≢ state_pending) × ((state ≢ state_adopting) ⊎ (confirmed ≡ true)))
gate_iff same confirmed state = (λ h. ground arith, λ h. ground arith)

rejects-Locked : (d : Device) (used : String) → (rejects_default_key d used ≡ true) ↔ Locked d used
unfolding rejects_default_key
rejects-Locked d used = gate_iff (equal_fold used default_key_hex) d.key_confirmed d.state

bound-rejected_iff :
    {A B : Type 0} (r : Result EngineError (A × ℕ)) (f : A → M B)
    → ((a : A) → Admits (f a))
    → (bound r f ≡ err default_key_rejected) ↔ (r ≡ err default_key_rejected)
bound-rejected_iff (ok (a, n)) f p = (λ h. absurd (p a n h), λ h. cc)
bound-rejected_iff (err default_key_rejected) f p = (λ h. refl, λ h. refl)
bound-rejected_iff (err key_chars_failed) f p = (λ h. cc, λ h. cc)
bound-rejected_iff (err (render_failed e)) f p = (λ h. cc, λ h. cc)

lane-rejected_iff :
    (D : Deps) (req : Request) (wls : List Wlan) (plan : ProvisioningPlan) (d : Device) (n : ℕ)
    (t : Transport)
    → (lane D req wls plan t d n ≡ err default_key_rejected)
      ↔ ((t ≡ encrypted) × (rejects_default_key d req.used_key ≡ true))
unfolding lane
lane-rejected_iff D req wls plan d n plaintext =
    (λ h. absurd (Admits-plain D req wls plan d n h), λ h. cc)
lane-rejected_iff D req wls plan d n encrypted =
    elim (Bool-cases (rejects_default_key d req.used_key)) [
      | inl shut ↦ (λ h. (refl, shut), λ h. rejected D req wls plan d n shut)
      | inr pass ↦ (λ h. absurd (Admits-encrypted D req wls plan d pass n h), λ h. cc)
    ]

decide-lane_iff :
    (D : Deps) (req : Request) (n : ℕ)
    → let wls = D.wireless req.device in
      let plan = plan_provisioning D.sha256_24 D.hash_rows req.device wls in
      (decide D req n ≡ err default_key_rejected)
      ↔ (lane D req wls plan req.transport req.device n ≡ err default_key_rejected)
unfolding decide
decide-lane_iff D req n = bound-rejected_iff _ _ (λ a. Admits-pure _)

-- A decision rejects an inform for its key exactly when the inform is encrypted, its key is the
-- factory's in any letter case, and the record is neither pending nor an unconfirmed adopting one.
-- The gate is ahead of everything else: of an armed command, of the inform's type and of the drift
-- checks; and no other step of either lane gives that error.
pub decide-rejected_iff :
    (D : Deps) (req : Request) (n : ℕ)
    → (decide D req n ≡ err default_key_rejected)
      ↔ ((req.transport ≡ encrypted) × Locked req.device req.used_key)
decide-rejected_iff D req n =
    let wls = D.wireless req.device in
    let plan = plan_provisioning D.sha256_24 D.hash_rows req.device wls in
    let through = decide-lane_iff D req n in
    let lanes = lane-rejected_iff D req wls plan req.device n req.transport in
    let gate = rejects-Locked req.device req.used_key in
    (
      λ h. ((lanes.0 (through.0 h)).0, gate.0 (lanes.0 (through.0 h)).1),
      λ (t, l). through.1 (lanes.1 (t, gate.1 l)),
    )

-- What a factory reset leaves of the record, whichever key authenticated the inform.
abbrev pub IsRecovered : Request → Outcome × Device → Type 0
IsRecovered req (out, work) =
    (out.kind ≡ setdefault)
    × (work ≡ demote req.device)
    × ((used : String) → rejects_default_key work used ≡ false)

demote-open : (d : Device) (used : String) → rejects_default_key (demote d) used ≡ false
unfolding demote rejects_default_key
demote-open d used = elim (Bool-cases (equal_fold used default_key_hex)) [
  | inl h ↦ rw h
  | inr h ↦ rw h
]

demote-unconfirmed : (d : Device) (used : String) → confirm used (demote d) ≡ demote d
unfolding confirm demote
demote-unconfirmed d used = refl

reset_answer :
    (D : Deps) (req : Request) (wls : List Wlan) (plan : ProvisioningPlan) (n : ℕ)
    → rejects_default_key req.device req.used_key ≡ false
    → inform_type_gentle_noop (request_type req) ≡ false
    → truthy (req.device.extra flag_setdefault_armed) ≡ true
    → decide_encrypted D req wls plan req.device n ≡ ok ((outcome setdefault, demote req.device), n)
unfolding decide_encrypted
reset_answer D req wls plan n admitted status armed =
    rw (admitted, status, when_reset req.device armed)

reset_lane :
    (D : Deps) (req : Request) (wls : List Wlan) (plan : ProvisioningPlan) (n : ℕ) (t : Transport)
    → t ≡ encrypted
    → rejects_default_key req.device req.used_key ≡ false
    → inform_type_gentle_noop (request_type req) ≡ false
    → truthy (req.device.extra flag_setdefault_armed) ≡ true
    → lane D req wls plan t req.device n ≡ ok ((outcome setdefault, demote req.device), n)
unfolding lane
reset_lane D req wls plan n encrypted e = reset_answer D req wls plan n
reset_lane D req wls plan n plaintext e = cc

-- The way back: an admitted encrypted status inform of a record with an armed factory reset is
-- answered with it, no key is drawn, the record becomes the demoted one and is not confirmed again
-- by the key of this very inform, and the gate admits every key for it from then on, the factory's
-- included.
pub decide-setdefault_recovers :
    (D : Deps) (req : Request) (n : ℕ)
    → req.transport ≡ encrypted
    → rejects_default_key req.device req.used_key ≡ false
    → inform_type_gentle_noop (request_type req) ≡ false
    → truthy (req.device.extra flag_setdefault_armed) ≡ true
    → (r : Outcome × Device) × (decide D req n ≡ ok (r, n)) × IsRecovered req r
unfolding decide lane deltas
decide-setdefault_recovers D req n enc admitted status armed =
    let wls = D.wireless req.device in
    let plan = plan_provisioning D.sha256_24 D.hash_rows req.device wls in
    (
      (deltas req.device (demote req.device) (outcome setdefault), demote req.device),
      rw (
        reset_lane D req wls plan n req.transport enc admitted status armed,
        demote-unconfirmed req.device req.used_key,
      ),
      (refl, refl, demote-open req.device),
    )
