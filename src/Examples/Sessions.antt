-- ===== src/Examples/Sessions.antt =====
-- Session rows at concrete tables.
use Prim.Native.String.{String}
use open_unifi.Base.{
  ◌+◌, ◌-◌, ◌^◌, ◌≤◌, ◌≡◌, ◌||◌, refl, true, false, some, List, [], ◌∷◌, if◌then◌else◌, length,
  arith,
}
use open_unifi.Base.Tables.{find}
use open_unifi.Store.Value.{
  JsonMap, Fields, bool, str, float64, arr, cons, nil, obj, field, end, put, no_rows, null,
}
use open_unifi.Store.Keys.{sessions_extra_key, session_disconnect_event_extra_key}
use open_unifi.Store.Device.{Device}
use open_unifi.Store.Blocked.{contains}
use open_unifi.Store.Sessions.{SessionRow, StationInfo, no_row}
use open_unifi.Store.Sessions.Rows.{to_float64, read_rows, read_session_rows, write_session_rows}
use open_unifi.Store.Sessions.Rows.RoundTrip.{read_session_rows-write_session_rows}
use open_unifi.Store.Sessions.Refresh.{
  session_row_cap, sweep, refresh_session_stations, bare_station,
}
use open_unifi.Store.Sessions.Refresh.Status.{status, disconnected, is_listed, has_left}
use open_unifi.Store.Sessions.Refresh.Record.{
  IsTimed, refresh_session_stations-status, refresh_session_stations-armed,
}
use open_unifi.Inform.Stations.{rows_at, elements, station_macs}
use open_unifi.Inform.Stations.Distinct.{AreDistinct, is_table, some_vap, station_macs-AreDistinct}
use open_unifi.Examples.Data.{access_point}

abbrev row : Fields
row = field "last_seen" (float64 100) (field "connected" (bool true) end)

-- A device with two connected clients, and a table with one of them and a new one.
abbrev busy : Device
busy = record access_point {
  extra =
      put sessions_extra_key
        (obj (field "aabbccddee01" (obj row) (field "aabbccddee02" (obj row) end))) no_rows;
}

abbrev seen : List StationInfo
seen = bare_station "AA:BB:CC:DD:EE:02" ∷ bare_station "aa-bb-cc-dd-ee-03" ∷ []

few_rows : length (sweep 200 (read_session_rows busy.extra) seen).rows ≤ session_row_cap
unfolding sweep read_rows
few_rows = omega arith

short_time : IsTimed (status (find "aabbccddee01" (read_session_rows busy.extra)))
unfolding read_rows
short_time = omega arith

refresh_session_stations-status_example :
    status
      (find "aabbccddee01" (read_session_rows (refresh_session_stations busy seen 200).0.extra))
    ≡ (if is_listed "aabbccddee01" seen
        then some (true, 200)
        else disconnected (status (find "aabbccddee01" (read_session_rows busy.extra))))
refresh_session_stations-status_example =
    refresh_session_stations-status busy seen 200 "aabbccddee01" few_rows (omega arith) short_time

was_there : status (find "aabbccddee01" (read_session_rows busy.extra)) ≡ some (true, 100)
unfolding read_rows
was_there = refl

is_gone : is_listed "aabbccddee01" seen ≡ false
unfolding is_listed
is_gone = refl

refresh_session_stations-armed_example :
    (refresh_session_stations busy seen 200).0.extra session_disconnect_event_extra_key ≡ (
      if has_left seen (read_session_rows busy.extra)
      then some (bool true)
      else busy.extra session_disconnect_event_extra_key)
refresh_session_stations-armed_example = refresh_session_stations-armed busy seen 200

abbrev rows : List (String × SessionRow)
rows =
    ("aabbccddee01", record no_row { connected = true; last_seen = 100; radio = "na" })
    ∷ ("aabbccddee02", record no_row { last_seen = 90 })
    ∷ []

read_session_rows-write_session_rows_example :
    find "aabbccddee02" (read_session_rows (write_session_rows rows busy.extra))
    ≡ find "aabbccddee02" rows
read_session_rows-write_session_rows_example =
    read_session_rows-write_session_rows "aabbccddee02" rows busy.extra (record {
      last_seen = omega arith;
      since = omega arith;
      channel = omega arith;
      bytes = omega arith;
    })

-- A repeated row, a row without a MAC and one that is no object, in a VAP.
abbrev body : JsonMap
body =
    put "vap_table"
      (arr (
        cons
          (obj (
            field "sta_table"
              (arr (
                cons (obj (field "mac" (str "m1") end))
                  (cons (obj (field "mac" (str "m1") end)) (cons (obj end) (cons null nil)))))
              end))
          nil))
      no_rows

station_macs-AreDistinct_example :
    AreDistinct (station_macs body).0
    × (contains "" (station_macs body).0 ≡ false)
    × ((station_macs body).1 ≡ (
        is_table (rows_at (body "sta_table")) || some_vap (elements (rows_at (body "vap_table")))))
station_macs-AreDistinct_example = station_macs-AreDistinct body

one_mac : station_macs body ≡ ("m1" ∷ [], true)
unfolding station_macs
one_mac = refl

-- The first integers that a float64 does not hold go to their even neighbours, and the largest
-- int64 goes up to the next power of two.
rounded :
    (to_float64 (2 ^ 53 + 1) ≡ 2 ^ 53)
    × (to_float64 (2 ^ 53 + 3) ≡ 2 ^ 53 + 4)
    × (to_float64 (2 ^ 63 - 1) ≡ 2 ^ 63)
unfolding to_float64
rounded = (refl, refl, refl)
