-- ===== src/Adoption/Decide/Unclaimed.antt =====
-- The whole decision on a plaintext inform whose claim is not the record's key.
use open_unifi.Base.{ℕ, false, ◌||◌, ◌≡◌, refl, ap, ◌∙◌, Bool-cases, inl, inr}
use open_unifi.Base.Results.{ok}
use open_unifi.Store.Device.{Device}
use open_unifi.Wireless.Plan.{plan_provisioning}
use open_unifi.Adoption.Types.{Deps, Request, plaintext, Outcome, bound, pure}
use open_unifi.Adoption.Provision.{holds_key}
use open_unifi.Adoption.Plain.{claims}
use open_unifi.Adoption.Plain.Claim.{Harmless, decide_plain-unclaimed}
use open_unifi.Adoption.Decide.{confirm, deltas, lane, decide}

-- The record with its confirmation set where the claim is one of the keys in its history.
abbrev pub stamped : Request → Device
stamped req = record req.device {
  key_confirmed = holds_key req.used_key req.device.authkeys || req.device.key_confirmed;
}

confirm-stamped : (req : Request) → confirm req.used_key req.device ≡ stamped req
unfolding confirm
confirm-stamped req = elim (Bool-cases (holds_key req.used_key req.device.authkeys)) [
  | inl e ↦ rw e refl
  | inr e ↦ rw e refl
]

-- A plaintext inform whose claim is not the record's key draws nothing, leaves the record as it is
-- but for one marker, and is answered with a noop or with a push of the configuration rows that has
-- no authkey row. The marker is the key confirmation: a claim that is an older key of the history
-- sets it. The answer carries the deltas of that record.
pub decide-unclaimed :
    (D : Deps) (req : Request) (n : ℕ)
    → req.transport ≡ plaintext
    → claims req.device req.used_key ≡ false
    → let wls = D.wireless req.device in
      let plan = plan_provisioning D.sha256_24 D.hash_rows req.device wls in
      (out : Outcome) × (decide D req n
        ≡ ok ((deltas req.device (stamped req) out, stamped req), n))
      × Harmless D req wls plan req.device out
unfolding decide lane
decide-unclaimed D req n plain foreign =
    let wls = D.wireless req.device in
    let plan = plan_provisioning D.sha256_24 D.hash_rows req.device wls in
    let (out, answers, harmless) = decide_plain-unclaimed D req wls plan req.device n foreign in
    let close = λ (r : Outcome × Device).
      pure (deltas req.device (confirm req.used_key r.1) r.0, confirm req.used_key r.1) in
    (
      out,
      ap (λ t. bound (lane D req wls plan t req.device n) close) plain
          ∙ ap (λ r. bound r close) answers
          ∙ ap (λ work. ok ((deltas req.device work out, work), n)) (confirm-stamped req),
      harmless,
    )
