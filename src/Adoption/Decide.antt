-- ===== src/Adoption/Decide.antt =====
-- internal/server/adoption/engine.go: `Decide` and the deltas of the record that it reports.
pub mod Gate
pub mod Unclaimed
pub mod Keys
use Prim.Native.String.{String}
use open_unifi.Base.{
  ℕ, Bool, true, false, not, ◌&&◌, Option, none, some, List, [], ◌∷◌, ◌==◌, if◌then◌else◌,
}
use open_unifi.Base.Text.{str_eq}
use open_unifi.Store.Device.{Device}
use open_unifi.Wireless.Wlan.{Wlan}
use open_unifi.Wireless.Plan.{ProvisioningPlan, plan_provisioning}
use open_unifi.Adoption.Types.{
  Deps, Request, Transport, encrypted, plaintext, Outcome, M, ◌>>=◌, pure,
}
use open_unifi.Adoption.Provision.{holds_key}
use open_unifi.Adoption.Plain.{decide_plain}
use open_unifi.Adoption.Encrypted.{decide_encrypted}

abbrev pub equal_strings : List String → List String → Bool
equal_strings [] [] = true
equal_strings (a ∷ s) (b ∷ t) = str_eq a b && equal_strings s t
equal_strings _ _ = false

abbrev pub equal_bools : Bool → Bool → Bool
equal_bools true b = b
equal_bools false b = not b

-- A delta of the outcome is set where the record moved; one that the branch has set is kept.
unfoldable pub deltas : Device → Device → Outcome → Outcome
deltas snapshot work out =
    let moved_state = not (work.state == snapshot.state) in
    let moved_key = not (str_eq work.x_authkey snapshot.x_authkey) in
    let moved_version = not (str_eq work.cfg_version snapshot.cfg_version) in
    let moved_applied = not (str_eq work.applied_cfg snapshot.applied_cfg) in
    let moved_keys = not (equal_strings work.authkeys snapshot.authkeys) in
    let moved_confirmed = not (equal_bools work.key_confirmed snapshot.key_confirmed) in
    record out {
      set_state = if moved_state then true else out.set_state;
      state = if moved_state then work.state else out.state;
      set_x_authkey = if moved_key then true else out.set_x_authkey;
      x_authkey = if moved_key then work.x_authkey else out.x_authkey;
      set_cfg_version = if moved_version then true else out.set_cfg_version;
      cfg_version = if moved_version then work.cfg_version else out.cfg_version;
      set_applied_cfg = if moved_applied then true else out.set_applied_cfg;
      applied_cfg = if moved_applied then work.applied_cfg else out.applied_cfg;
      set_authkeys = if moved_keys then true else out.set_authkeys;
      authkeys = if moved_keys then work.authkeys else out.authkeys;
      set_key_confirmed = if moved_confirmed then true else out.set_key_confirmed;
      key_confirmed = if moved_confirmed then work.key_confirmed else out.key_confirmed;
      extra = work.extra;
    }

-- The confirmation: the key in use is one of the record's own.
unfoldable pub confirm : String → Device → Device
confirm used work =
    if holds_key used work.authkeys then record work { key_confirmed = true } else work

unfoldable pub lane :
    Deps → Request → List Wlan → ProvisioningPlan → Transport → Device → M (Outcome × Device)
lane D req wls plan plaintext d = decide_plain D req wls plan d
lane D req wls plan encrypted d = decide_encrypted D req wls plan d

-- The outcome, and the working record that its deltas describe.
unfoldable pub decide : Deps → Request → M (Outcome × Device)
unfolding lane confirm deltas
decide D req =
    let wls = D.wireless req.device in
    let plan = plan_provisioning D.sha256_24 D.hash_rows req.device wls in
    lane D req wls plan req.transport req.device >>= (λ (out, work).
      let confirmed = confirm req.used_key work in
      pure (deltas req.device confirmed out, confirmed))
