-- ===== src/Server/Cycle.antt =====
-- internal/server/server.go: the one inform cycle (`runInformCycle`), from the decoded body to the
-- record in the store and the answer. The HTTP layer, the sealing of the answer and the clock are
-- around it.
pub mod Commit
pub mod Deltas
pub mod Reject
use Prim.Native.String.{String}
use open_unifi.Base.{ℕ, Bool, true, false, Option, none, some, List, [], ◌∷◌, if◌then◌else◌}
use open_unifi.Base.Text.{str_eq}
use open_unifi.Base.Results.{Result, ok, err}
use open_unifi.Store.Value.{
  Value, str, float64, int, Fields, end, field, get_field, JsonMap, put, as_string, or_empty,
}
use open_unifi.Store.Device.{Device}
use open_unifi.Store.Mac.{canonical_mac}
use open_unifi.Store.TrustPolicy.{absorb}
use open_unifi.Store.Sessions.{Transition}
use open_unifi.Store.Db.{StoreError, not_found, aborted, Db, get, update}
use open_unifi.Adoption.Types.{
  Transport, Request, Outcome, Kind, setparam, blocked_sta_reconnect, reboot, setdefault, cmd, noop,
  noop_pending_wlan, Deps, EngineError, default_key_rejected,
}
use open_unifi.Adoption.Decide.{decide}
use open_unifi.Server.Sessions.{refresh_client_sessions}

-- The body names the MAC of the header.
unfoldable pub payload_mac_matches : String → JsonMap → Bool
unfolding canonical_mac
payload_mac_matches header body =
    let m = or_empty (as_string (body "mac")) in
    if str_eq m ""
    then false
    else elim (canonical_mac m) [ none ↦ false | some c ↦ str_eq c header ]

unfoldable pub put_all : List (String × String) → JsonMap → JsonMap
put_all [] extra = extra
put_all ((k, v) ∷ rest) extra = put_all rest (put k (str v) extra)

-- The record half of `applyOutcome`.
unfoldable pub apply_outcome : Outcome → Device → Device
unfolding put_all
apply_outcome out rec = record rec {
  state = if out.set_state then out.state else rec.state;
  x_authkey = if out.set_x_authkey then out.x_authkey else rec.x_authkey;
  cfg_version = if out.set_cfg_version then out.cfg_version else rec.cfg_version;
  applied_cfg = if out.set_applied_cfg then out.applied_cfg else rec.applied_cfg;
  authkeys = if out.set_authkeys then out.authkeys else rec.authkeys;
  key_confirmed = if out.set_key_confirmed then out.key_confirmed else rec.key_confirmed;
  extra = put_all out.credential_deltas out.extra;
}

abbrev pub task_fields : Option Fields → Fields
task_fields none = end
task_fields (some fs) = fs

-- The fields of the first object before those of the second, which they hide.
abbrev pub over : Fields → Fields → Fields
over end base = base
over (field k v fs) base = field k v (over fs base)

-- The answer half of `applyOutcome`, at the time `now` in text.
unfoldable pub response : String → Outcome → Fields
response now out =
    let typed = λ (t : String) (more : Fields).
      field "_type" (str t) (field "server_time_in_utc" (str now) more) in
    elim out.kind [
      | setparam ↦
          if out.full_provision
          then typed "setparam" (
              field "cfgversion" (str out.cfg_version) (
                field "system_cfg" (str out.system_cfg) (
                  field "blocked_sta" (str out.blocked_sta)
                    (field "mgmt_cfg" (str out.mgmt_cfg) end))))
          else typed "setparam" (field "mgmt_cfg" (str out.mgmt_cfg) end)
      | blocked_sta_reconnect ↦ typed "setparam" (field "blocked_sta" (str out.blocked_sta) end)
      | reboot ↦ typed "reboot" (field "reboot_type" (str "soft") end)
      | setdefault ↦ typed "setdefault" end
      | cmd ↦ over (task_fields out.cmd_task) (typed "cmd" end)
      | noop ↦ typed "noop" (field "interval" (int out.interval) end)
      | noop_pending_wlan ↦ typed "noop" (field "interval" (int out.interval) end)
    ]

-- The noop target that the server keeps of the MAC afterwards.
abbrev pub kept_target : ℕ → Outcome → ℕ
kept_target before out = if out.persist_noop_target then out.new_noop_target else before

-- What a lane brings: the transport, the key and whether the packet asked for GCM. The writing of
-- the answer is left out.
pub record InformLane : Type 0 where
  pub transport : Transport
  pub used_key : String
  pub gcm_req : Bool

-- A cycle that went through: the outcome, of which the answer is the `response`, and the
-- transitions.
pub record AdvanceResult : Type 0 where
  pub outcome : Outcome
  pub transitions : List Transition

-- The answers: a decision, a bare 404 for the factory's key, a 404 for a device that is gone, and
-- a noop for what else fails.
pub data Answer : Type 0 where
  decided : AdvanceResult → Answer
  rejected : Answer
  vanished : Answer
  internal : Answer

abbrev pub answer_of : Result EngineError (Device × AdvanceResult) → Answer
answer_of (ok r) = decided r.1
answer_of (err default_key_rejected) = rejected
answer_of (err _) = internal

abbrev pub device_of : Result EngineError (Device × AdvanceResult) → Option Device
device_of (err e) = none
device_of (ok r) = some r.0

-- The store's verdict: an aborted update was aborted by the cycle itself.
abbrev pub ended : Db → Answer → Result StoreError Db → Db × Answer
ended db answer (ok after) = (after, answer)
ended db answer (err aborted) = (db, answer)
ended db answer (err not_found) = (db, vanished)
ended db answer (err _) = (db, internal)

module _ (D : Deps) (draw : ℕ) (l : InformLane) (body : JsonMap) (now target : ℕ) where
  abbrev pub absorbed : Device → Device × List Transition
  absorbed rec = refresh_client_sessions (absorb body now l.gcm_req rec) body now

  abbrev pub request_of : Device → Request
  request_of rec = record {
    transport = l.transport;
    device = rec;
    body = body;
    used_key = l.used_key;
    now = now;
    prev_noop_target = target;
  }

  abbrev pub advanced :
      Device × List Transition
      → Result EngineError ((Outcome × Device) × ℕ)
      → Result EngineError (Device × AdvanceResult)
  advanced seen (err e) = err e
  advanced seen (ok ((out, work), n)) =
      ok (apply_outcome out seen.0, record { outcome = out; transitions = seen.1 })

  -- The function that the store's update runs: absorption, sessions, decision, deltas.
  unfoldable pub advance : Device → Result EngineError (Device × AdvanceResult)
  unfolding absorb refresh_client_sessions decide apply_outcome
  advance rec = let seen = absorbed rec in advanced seen (decide D (request_of seen.0) draw)

  abbrev pub cycle_answer : Result StoreError Device → Answer
  cycle_answer (ok rec) = answer_of (advance rec)
  cycle_answer (err _) = vanished

  unfoldable pub run_inform_cycle : String → Db → Db × Answer
  unfolding advance get update
  run_inform_cycle mac db =
      ended db (cycle_answer (get mac db)) (update false mac (λ rec. device_of (advance rec)) db)
