-- ===== src/Server/Sessions.antt =====
-- internal/server/sessions.go: the step from the station table of an inform to the session rows.
pub mod Life
use Prim.Native.String.{String}
use open_unifi.Base.{ℕ, suc, ◌+◌, Bool, true, false, List, [], ◌∷◌, map, if◌then◌else◌}
use open_unifi.Store.Value.{JsonMap}
use open_unifi.Store.Device.{Device}
use open_unifi.Store.Sessions.{
  StationInfo, Transition, TransitionKind, transition_connect, transition_disconnect,
}
use open_unifi.Store.Sessions.Refresh.{refresh_session_stations, is_connect, is_disconnect}
use open_unifi.Inform.Stations.{Station, stations}

abbrev pub station_info : Station → StationInfo
station_info st = record {
  mac = st.mac;
  hostname = st.hostname;
  ip = st.ip;
  essid = st.essid;
  radio = st.radio;
  channel = st.channel;
  bytes = st.tx_bytes + st.rx_bytes;
}

-- An inform without a station table changes nothing.
abbrev pub refresh_from : List Station × Bool → Device → ℕ → Device × List Transition
refresh_from (sts, true) rec now = refresh_session_stations rec (map station_info sts) now
refresh_from (sts, false) rec now = (rec, [])

unfoldable pub refresh_client_sessions : Device → JsonMap → ℕ → Device × List Transition
unfolding stations refresh_session_stations
refresh_client_sessions rec body now = refresh_from (stations body) rec now

-- The number of connects and of disconnects.
unfoldable pub count_transitions : List Transition → ℕ × ℕ
count_transitions [] = (0, 0)
count_transitions (t ∷ ts) =
    let rest = count_transitions ts in
    (
      (if is_connect t.kind then suc rest.0 else rest.0),
      (if is_disconnect t.kind then suc rest.1 else rest.1),
    )
