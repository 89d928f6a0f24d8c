-- ===== src/Server/Cycle/Reject.antt =====
-- The cycles that are answered with a bare 404 for the key.
use Prim.Native.String.{String}
use open_unifi.Base.{ℕ, List, ◌≢◌, false, ◌≡◌, ◌↔◌, refl, sym, ap, ◌∙◌}
use open_unifi.Base.Text.{str_eq}
use open_unifi.Base.Results.{Result, ok, err}
use open_unifi.Store.Value.{JsonMap}
use open_unifi.Store.Device.{Device}
use open_unifi.Store.Mac.{normalize}
use open_unifi.Store.Sessions.{Transition}
use open_unifi.Store.Db.{
  StoreError, empty_mac, not_found, pending_full, aborted, save_failed, Db, get, update,
}
use open_unifi.Adoption.Types.{
  Deps, EngineError, default_key_rejected, key_chars_failed, render_failed, encrypted, Outcome,
}
use open_unifi.Adoption.Decide.{decide}
use open_unifi.Adoption.Decide.Gate.{Locked, decide-rejected_iff}
use open_unifi.Server.Cycle.{
  InformLane, AdvanceResult, decided, rejected, answer_of, device_of, ended, absorbed, request_of,
  advanced, advance, cycle_answer, run_inform_cycle,
}
use open_unifi.Server.Cycle.Commit.{run_inform_cycle-aborts}

decided_ended :
    (db : Db) (r : AdvanceResult) (u : Result StoreError Db) → (ended db (decided r) u).1 ≢ rejected
decided_ended db r (ok after) h = cc
decided_ended db r (err aborted) h = cc
decided_ended db r (err not_found) h = cc
decided_ended db r (err empty_mac) h = cc
decided_ended db r (err pending_full) h = cc
decided_ended db r (err save_failed) h = cc

error_of :
    {A : Type 0} (e : EngineError)
    → ◌≡◌ {A = Result EngineError A} (err e) (err default_key_rejected)
    → e ≡ default_key_rejected
error_of default_key_rejected h = refl
error_of key_chars_failed h = cc
error_of (render_failed t) h = cc

answer_of-rejected_iff :
    (e : EngineError) → (answer_of (err e) ≡ rejected) ↔ (e ≡ default_key_rejected)
answer_of-rejected_iff default_key_rejected = (λ h. refl, λ h. refl)
answer_of-rejected_iff key_chars_failed = (λ h. cc, λ h. cc)
answer_of-rejected_iff (render_failed t) = (λ h. cc, λ h. cc)

module _ (D : Deps) (draw : ℕ) (l : InformLane) (body : JsonMap) (now target : ℕ) where
  advanced-rejected_iff :
      (seen : Device × List Transition) (r : Result EngineError ((Outcome × Device) × ℕ))
      → (advanced D draw l body now target seen r ≡ err default_key_rejected)
        ↔ (r ≡ err default_key_rejected)
  advanced-rejected_iff seen (ok ((out, work), n)) = (λ h. cc, λ h. cc)
  advanced-rejected_iff seen (err e) = (λ h. cc, λ h. cc)

  advance-rejected_iff :
      (rec : Device)
      → (advance D draw l body now target rec ≡ err default_key_rejected)
        ↔ ((l.transport ≡ encrypted) × Locked (absorbed D draw l body now target rec).0 l.used_key)
  unfolding advance
  advance-rejected_iff rec =
      let seen = absorbed D draw l body now target rec in
      let req = request_of D draw l body now target seen.0 in
      let step = advanced-rejected_iff seen (decide D req draw) in
      let gate = decide-rejected_iff D req draw in (λ h. gate.0 (step.0 h), λ k. step.1 (gate.1 k))

  module _ (mac : String) (db : Db) (rec : Device) (nonempty : str_eq (normalize mac) "" ≡ false)
      (there : get mac db ≡ ok rec) where
    -- What the cycle does, by what its function says of the device.
    by_advance :
        (r : Result EngineError (Device × AdvanceResult))
        → advance D draw l body now target rec ≡ r
        → (((run_inform_cycle D draw l body now target mac db).1 ≡ rejected)
            ↔ (r ≡ err default_key_rejected))
          × ((run_inform_cycle D draw l body now target mac db).1 ≡ rejected
              → (run_inform_cycle D draw l body now target mac db).0 ≡ db)
    unfolding run_inform_cycle
    by_advance (ok (next, r)) went =
        let u = update false mac (λ d. device_of (advance D draw l body now target d)) db in
        let answer : cycle_answer D draw l body now target (get mac db) ≡ decided r =
          ap (cycle_answer D draw l body now target) there ∙ ap answer_of went in
        let never : (run_inform_cycle D draw l body now target mac db).1 ≢ rejected =
          λ h. decided_ended db r u (sym (ap (λ a. (ended db a u).1) answer) ∙ h) in
        ((λ h. absurd (never h), λ h. cc), λ h. absurd (never h))
    by_advance (err e) failed =
        let whole =
          run_inform_cycle-aborts D draw l body now target mac db rec e nonempty there failed in
        let said = ap (λ r. r.1) whole in
        let iff = answer_of-rejected_iff e in
        (
          (λ h. ap err (iff.0 (sym said ∙ h)), λ h. said ∙ iff.1 (error_of e h)),
          λ h. ap (λ r. r.0) whole,
        )

    -- A device that is there is answered with the bare 404 exactly when the inform is encrypted,
    -- its key is the factory's in any letter case, and the record, once it has absorbed the body
    -- and the station table, is neither pending nor an unconfirmed adopting one; and then the store
    -- stays as it was, without what was absorbed.
    pub run_inform_cycle-rejected_iff :
        (((run_inform_cycle D draw l body now target mac db).1 ≡ rejected) ↔ (
          (l.transport ≡ encrypted) × Locked (absorbed D draw l body now target rec).0 l.used_key))
        × ((run_inform_cycle D draw l body now target mac db).1 ≡ rejected
            → (run_inform_cycle D draw l body now target mac db).0 ≡ db)
    run_inform_cycle-rejected_iff =
        let (iff, same) = by_advance (advance D draw l body now target rec) refl in
        let gate = advance-rejected_iff rec in
        ((λ h. gate.0 (iff.0 h), λ k. iff.1 (gate.1 k)), same)
