-- ===== src/Store/Sessions/Refresh/Record.antt =====
-- The record after a refresh.
use Prim.Native.String.{String}
use open_unifi.Base.{
  ℕ, ◌≤◌, ◌^◌, Bool, true, false, Option, none, some, List, [], ◌∷◌, ◌≡◌, refl, ap, ◌∙◌,
  if◌then◌else◌, length,
}
use open_unifi.Base.Tables.{find, IsKeyed}
use open_unifi.Store.Value.{Value, null, bool, str, int, int64, float64, arr, obj, JsonMap}
use open_unifi.Store.Keys.{session_disconnect_event_extra_key, sessions_extra_key}
use open_unifi.Store.Device.{Device}
use open_unifi.Store.Sessions.{StationInfo, SessionRow}
use open_unifi.Store.Sessions.Rows.{read_session_rows, stored_rows, write_session_rows}
use open_unifi.Store.Sessions.Rows.RoundTrip.{
  read_rows-IsKeyed, stored, stored-exact, stored_found, find-stored,
}
use open_unifi.Store.Sessions.Refresh.{
  session_row_cap, enforce_session_row_cap, arm, sweep, refresh_session_stations,
}
use open_unifi.Store.Sessions.Refresh.Cap.{enforce_session_row_cap-few}
use open_unifi.Store.Sessions.Refresh.Status.{
  status, disconnected, is_listed, has_left, sweep-status,
}

stored_rows-IsKeyed : (row : Option Value) → IsKeyed (stored_rows row)
stored_rows-IsKeyed none = tt
stored_rows-IsKeyed (some (obj fs)) = read_rows-IsKeyed fs
stored_rows-IsKeyed (some null) = tt
stored_rows-IsKeyed (some (bool b)) = tt
stored_rows-IsKeyed (some (str s)) = tt
stored_rows-IsKeyed (some (int n)) = tt
stored_rows-IsKeyed (some (int64 n)) = tt
stored_rows-IsKeyed (some (float64 n)) = tt
stored_rows-IsKeyed (some (arr vs)) = tt

arm-rows : (b : Bool) (extra : JsonMap) → read_session_rows (arm b extra) ≡ read_session_rows extra
arm-rows true extra = refl
arm-rows false extra = refl

-- A client that has a row was last seen at a time that a float64 holds exactly.
abbrev pub IsTimed : Option (Bool × ℕ) → Type 0
IsTimed none = Unit
IsTimed (some s) = s.1 ≤ 2 ^ 53

abbrev stored_status : Option (Bool × ℕ) → Option (Bool × ℕ)
stored_status none = none
stored_status (some s) = some (s.0, stored s.1)

status-stored : (o : Option SessionRow) → status (stored_found o) ≡ stored_status (status o)
status-stored none = refl
status-stored (some r) = refl

stored-timed :
    (listed : Bool) (now : ℕ) (s : Option (Bool × ℕ))
    → now ≤ 2 ^ 53
    → IsTimed s
    → stored_status (if listed then some (true, now) else disconnected s)
      ≡ (if listed then some (true, now) else disconnected s)
stored-timed true now s h t = ap (λ n. some (true, n)) (stored-exact now h)
stored-timed false now none h t = refl
stored-timed false now (some s) h t = ap (λ n. some (false, n)) (stored-exact s.1 t)

-- While a device has no more than 2048 rows, the rows that are read from the record after a
-- refresh are these: a client of the table, under any spelling of its MAC, is connected and last
-- seen now; any other client that had a row is disconnected and keeps its last proof; nobody else
-- has a row. The times are Unix times that a float64 holds exactly.
pub refresh_session_stations-status :
    (d : Device) (stations : List StationInfo) (now : ℕ) (k : String)
    → length (sweep now (read_session_rows d.extra) stations).rows ≤ session_row_cap
    → now ≤ 2 ^ 53
    → IsTimed (status (find k (read_session_rows d.extra)))
    → status (find k (read_session_rows (refresh_session_stations d stations now).0.extra)) ≡ (
        if is_listed k stations
        then some (true, now)
        else disconnected (status (find k (read_session_rows d.extra))))
unfolding refresh_session_stations
refresh_session_stations-status d stations now k few clock timed =
    let prev = read_session_rows d.extra in
    let l = sweep now prev stations in
    let kept = write_session_rows (enforce_session_row_cap l.rows) d.extra in
    ap (λ rows. status (find k rows)) (arm-rows l.armed kept)
    ∙ ap status (find-stored k (enforce_session_row_cap l.rows) d.extra)
    ∙ ap (λ rows. status (stored_found (find k rows))) (enforce_session_row_cap-few l.rows few)
    ∙ status-stored (find k l.rows)
    ∙ ap stored_status
        ((sweep-status now prev stations (stored_rows-IsKeyed (d.extra sessions_extra_key))).0 k)
    ∙ stored-timed (is_listed k stations) now (status (find k prev)) clock timed

unwritten :
    (rows : List (String × SessionRow)) (extra : JsonMap)
    → write_session_rows rows extra session_disconnect_event_extra_key
      ≡ extra session_disconnect_event_extra_key
unfolding write_session_rows
unwritten [] extra = refl
unwritten (r ∷ rows) extra = refl

armed_row :
    (b : Bool) (extra : JsonMap)
    → arm b extra session_disconnect_event_extra_key
      ≡ (if b then some (bool true) else extra session_disconnect_event_extra_key)
armed_row true extra = refl
armed_row false extra = refl

-- A refresh arms the disconnect flag of the record when some connected client is not in the table;
-- otherwise the flag is left as it is, armed or not. The cap has no part in this.
pub refresh_session_stations-armed :
    (d : Device) (stations : List StationInfo) (now : ℕ)
    → (refresh_session_stations d stations now).0.extra session_disconnect_event_extra_key ≡ (
        if has_left stations (read_session_rows d.extra)
        then some (bool true)
        else d.extra session_disconnect_event_extra_key)
unfolding refresh_session_stations
refresh_session_stations-armed d stations now =
    let prev = read_session_rows d.extra in
    let l = sweep now prev stations in
    armed_row l.armed (write_session_rows (enforce_session_row_cap l.rows) d.extra)
    ∙ rw
        (
          unwritten (enforce_session_row_cap l.rows) d.extra,
          (sweep-status now prev stations (stored_rows-IsKeyed (d.extra sessions_extra_key))).1,
        )
        refl
