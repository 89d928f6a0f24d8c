-- ===== src/Examples/Cycle.antt =====
-- Cycles of a device that is adopted.
use Prim.Native.String.{String}
use open_unifi.Base.{List, ◌≡◌, ◌↔◌, refl, ap, true, false, [], ◌∷◌, if◌then◌else◌}
use open_unifi.Base.Text.{str_eq, equal_fold}
use open_unifi.Base.Results.{ok}
use open_unifi.Store.Value.{JsonMap, no_rows, put, str, bool, truthy}
use open_unifi.Store.Keys.{flag_setdefault_armed}
use open_unifi.Store.Device.{Device}
use open_unifi.Store.Mac.{normalize}
use open_unifi.Store.TrustPolicy.{absorb, restore_admin}
use open_unifi.Store.Sessions.{Transition}
use open_unifi.Store.Db.{Db, get}
use open_unifi.Server.Sessions.{refresh_client_sessions}
use open_unifi.Adoption.Encrypted.{rejects_default_key}
use open_unifi.Adoption.Plain.{inform_type_gentle_noop, request_type}
use open_unifi.Adoption.Types.{Request, Outcome, encrypted, default_key_hex, outcome, setdefault}
use open_unifi.Adoption.Decide.{decide, deltas}
use open_unifi.Adoption.Decide.Gate.{Locked, IsRecovered, decide-setdefault_recovers}
use open_unifi.Server.Cycle.{
  InformLane, AdvanceResult, decided, rejected, apply_outcome, absorbed, request_of, advanced,
  advance, run_inform_cycle,
}
use open_unifi.Server.Cycle.Commit.{run_inform_cycle-commits}
use open_unifi.Server.Cycle.Reject.{run_inform_cycle-rejected_iff}
use open_unifi.Server.Cycle.Deltas.{IsCarried, apply_outcome-deltas}
use open_unifi.Adoption.Lifecycle.{demote}
use open_unifi.Examples.Data.{access_point, deps}

abbrev armed_point : Device
armed_point = record access_point { extra = put flag_setdefault_armed (bool true) no_rows }

abbrev store : Db
store = record { devices = ("aabbccddeeff", armed_point) ∷ []; pending = [] }

abbrev lane_of : String → InformLane
lane_of key = record { transport = encrypted; used_key = key; gcm_req = true }

abbrev own_lane : InformLane
own_lane = lane_of "0123456789abcdef0123456789abcdef"

abbrev body : JsonMap
body = put "cfgversion" (str "0011223344556677") no_rows

abbrev seen : Device × List Transition
seen = absorbed deps 0 own_lane body 1000 0 armed_point

abbrev asked : Request
asked = request_of deps 0 own_lane body 1000 0 seen.0

there : get "AA:BB:CC:DD:EE:FF" store ≡ ok armed_point
unfolding get
there = refl

nonempty : str_eq (normalize "AA:BB:CC:DD:EE:FF") "" ≡ false
unfolding normalize
nonempty = refl

admitted : rejects_default_key seen.0 asked.used_key ≡ false
unfolding rejects_default_key equal_fold
admitted = refl

status-not_gentle : inform_type_gentle_noop (request_type asked) ≡ false
unfolding inform_type_gentle_noop request_type
status-not_gentle = refl

still_armed : truthy (seen.0.extra flag_setdefault_armed) ≡ true
unfolding absorb refresh_client_sessions restore_admin
still_armed = refl

reset : (r : Outcome × Device) × (decide deps asked 0 ≡ ok (r, 0)) × IsRecovered asked r
reset = decide-setdefault_recovers deps asked 0 refl admitted status-not_gentle still_armed

abbrev next : Device
next = apply_outcome reset.0.0 seen.0

abbrev result : AdvanceResult
result = record { outcome = reset.0.0; transitions = seen.1 }

went : advance deps 0 own_lane body 1000 0 armed_point ≡ ok (next, result)
unfolding advance
went = ap (advanced deps 0 own_lane body 1000 0 seen) reset.1

same : normalize next.mac ≡ normalize "AA:BB:CC:DD:EE:FF"
unfolding apply_outcome absorb refresh_client_sessions normalize
same = refl

run_inform_cycle-commits_example :
    (after : Db) × (run_inform_cycle deps 0 own_lane body 1000 0 "AA:BB:CC:DD:EE:FF" store
      ≡ (after, decided result))
    × ((k : String)
        → get k after ≡ (
            if str_eq (normalize k) (normalize "AA:BB:CC:DD:EE:FF")
            then ok (record next { mac = normalize "AA:BB:CC:DD:EE:FF" })
            else get k store))
run_inform_cycle-commits_example =
    run_inform_cycle-commits deps 0 own_lane body 1000 0 "AA:BB:CC:DD:EE:FF" store armed_point next
      result nonempty there went same

-- An adopted device that uses the factory's key.
run_inform_cycle-rejected_iff_example :
    let lane = lane_of default_key_hex in
    let r = run_inform_cycle deps 0 lane body 1000 0 "AA:BB:CC:DD:EE:FF" store in
    ((r.1 ≡ rejected) ↔ (
      (encrypted ≡ encrypted)
      × Locked (absorbed deps 0 lane body 1000 0 armed_point).0 default_key_hex))
    × (r.1 ≡ rejected → r.0 ≡ store)
run_inform_cycle-rejected_iff_example =
    run_inform_cycle-rejected_iff deps 0 (lane_of default_key_hex) body 1000 0 "AA:BB:CC:DD:EE:FF"
      store armed_point nonempty there

-- The deltas of a factory reset.
apply_outcome-deltas_example :
    IsCarried
      (demote armed_point)
      (outcome setdefault)
      (apply_outcome (deltas armed_point (demote armed_point) (outcome setdefault)) armed_point)
apply_outcome-deltas_example =
    apply_outcome-deltas armed_point (demote armed_point) (outcome setdefault) (record {
      state = refl;
      key = refl;
      version = refl;
      applied = refl;
      keys = refl;
      confirmed = refl;
    })
