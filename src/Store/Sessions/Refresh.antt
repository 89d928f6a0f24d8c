-- ===== src/Store/Sessions/Refresh.antt =====
-- internal/store/sessions.go: `RefreshSessionStations`, `enforceSessionRowCap`, `RefreshSessions`.
pub mod Own
pub mod Status
pub mod Cap
pub mod Record
use Prim.Native.String.{String}
use open_unifi.Base.{
  ℕ, ◌-◌, Bool, true, false, not, ◌&&◌, ◌||◌, Option, none, some, List, [], ◌∷◌, ◌++◌, map, ◌==◌,
  ltb, if◌then◌else◌, length, drop,
}
use open_unifi.Base.Text.{str_eq}
use open_unifi.Base.Sort.{sort, str_lt}
use open_unifi.Base.Tables.{find, bind, without}
use open_unifi.Store.Value.{bool, JsonMap, put}
use open_unifi.Store.Keys.{session_disconnect_event_extra_key}
use open_unifi.Store.Device.{Device}
use open_unifi.Store.Mac.{canonical_mac}
use open_unifi.Store.Blocked.{contains}
use open_unifi.Store.Sessions.{
  StationInfo, TransitionKind, transition_connect, transition_disconnect, transition_radio_change,
  Transition, SessionRow, no_row, session,
}
use open_unifi.Store.Sessions.Rows.{read_session_rows, read_rows, write_session_rows}

abbrev pub session_row_cap : ℕ
session_row_cap = 2048

-- What the loop over the stations has built: the rows, the clients that were in the table, and the
-- transitions.
pub record Pass : Type 0 where
  pub rows : List (String × SessionRow)
  pub present : List String
  pub out : List Transition

-- A client that has no row, or whose row is not connected.
abbrev pub is_fresh : Option SessionRow → Bool
is_fresh none = true
is_fresh (some old) = not old.connected

abbrev pub row_or_zero : Option SessionRow → SessionRow
row_or_zero none = no_row
row_or_zero (some old) = old

abbrev pub known_or : String → String → String
known_or new old = if str_eq new "" then old else new

abbrev pub number_or : ℕ → ℕ → ℕ
number_or new old = if new == 0 then old else new

-- A new association starts from the zero row, a surviving one keeps what the table omits.
abbrev pub association : Bool → SessionRow → ℕ → SessionRow
association true old now = record no_row { connected = true; last_seen = now; since = now }
association false old now = record old { last_seen = now }

abbrev pub reported : StationInfo → SessionRow → SessionRow
reported st row = record row {
  hostname = known_or st.hostname row.hostname;
  ip = known_or st.ip row.ip;
  essid = known_or st.essid row.essid;
  radio = known_or st.radio row.radio;
  channel = number_or st.channel row.channel;
  bytes = number_or st.bytes row.bytes;
}

abbrev pub next_row : Option SessionRow → StationInfo → ℕ → SessionRow
next_row old st now = reported st (association (is_fresh old) (row_or_zero old) now)

abbrev pub texts_differ : String → String → Bool
texts_differ a b = not (str_eq a "") && not (str_eq b "") && not (str_eq a b)

abbrev pub numbers_differ : ℕ → ℕ → Bool
numbers_differ a b = not (a == 0) && not (b == 0) && not (a == b)

abbrev pub moved : SessionRow → SessionRow → Bool
moved old next = texts_differ old.radio next.radio || numbers_differ old.channel next.channel

abbrev pub change : String → TransitionKind → ℕ → SessionRow → SessionRow → Transition
change c k now next old = record {
  mac = c;
  kind = k;
  at = now;
  session = session next c;
  prev = session old c;
}

-- The transition of one present client, if its row shows one.
abbrev pub seen_transition : String → Option SessionRow → SessionRow → ℕ → List Transition
seen_transition c old next now =
    if is_fresh old
    then change c transition_connect now next (row_or_zero old) ∷ []
    else if moved (row_or_zero old) next
    then change c transition_radio_change now next (row_or_zero old) ∷ []
    else []

-- One station of the table, under its canonical MAC; `none` is one that does not parse.
unfoldable pub see_station :
    ℕ → List (String × SessionRow) → StationInfo → Option String → Pass → Pass
unfolding bind
see_station now prev st none p = p
see_station now prev st (some c) p =
    let next = next_row (find c prev) st now in
    if contains c p.present then p else record {
      rows = bind c next p.rows;
      present = c ∷ p.present;
      out = p.out ++ seen_transition c (find c prev) next now;
    }

unfoldable pub see_stations : ℕ → List (String × SessionRow) → List StationInfo → Pass → Pass
unfolding see_station canonical_mac
see_stations now prev [] p = p
see_stations now prev (st ∷ sts) p =
    see_stations now prev sts (see_station now prev st (canonical_mac st.mac) p)

-- What the loop over the rows from before adds: `armed` when a row went.
pub record Leaving : Type 0 where
  pub rows : List (String × SessionRow)
  pub armed : Bool
  pub out : List Transition

unfoldable pub leave_row : ℕ → List String → String → SessionRow → Leaving → Leaving
unfolding bind
leave_row now present m row l =
    let gone = record row { connected = false } in
    if row.connected && not (contains m present)
    then record {
      rows = bind m gone l.rows;
      armed = true;
      out = l.out ++ (change m transition_disconnect now gone row ∷ []);
    }
    else l

unfoldable pub leave_rows : ℕ → List String → List (String × SessionRow) → Leaving → Leaving
unfolding leave_row
leave_rows now present [] l = l
leave_rows now present ((m, row) ∷ prev) l =
    leave_rows now present prev (leave_row now present m row l)

abbrev pub transition_order : TransitionKind → ℕ
transition_order transition_connect = 0
transition_order transition_disconnect = 1
transition_order transition_radio_change = 2

abbrev pub before : Transition → Transition → Bool
before a b =
    if str_eq a.mac b.mac
    then ltb (transition_order a.kind) (transition_order b.kind)
    else str_lt a.mac b.mac

abbrev pub staler : String × SessionRow → String × SessionRow → Bool
staler a b =
    if a.1.last_seen == b.1.last_seen then str_lt a.0 b.0 else ltb a.1.last_seen b.1.last_seen

-- The rows from the stalest up, without the ones over the cap.
unfoldable pub enforce_session_row_cap : List (String × SessionRow) → List (String × SessionRow)
unfolding sort str_lt
enforce_session_row_cap rows =
    let over = length rows - session_row_cap in
    if over == 0 then rows else drop over (sort staler rows)

abbrev pub arm : Bool → JsonMap → JsonMap
arm armed extra = if armed then put session_disconnect_event_extra_key (bool true) extra else extra

abbrev pub start : List (String × SessionRow) → Pass
start rows = record { rows = rows; present = []; out = [] }

-- Both loops over the rows `prev`.
unfoldable pub sweep : ℕ → List (String × SessionRow) → List StationInfo → Leaving
unfolding see_stations leave_rows
sweep now prev stations =
    let p = see_stations now prev stations (start prev) in
    leave_rows now p.present prev (record { rows = p.rows; armed = false; out = p.out })

unfoldable pub refresh_session_stations : Device → List StationInfo → ℕ → Device × List Transition
unfolding read_rows sweep sort enforce_session_row_cap write_session_rows
refresh_session_stations d stations now =
    let l = sweep now (read_session_rows d.extra) stations in
    let kept = write_session_rows (enforce_session_row_cap l.rows) d.extra in
    (record d { extra = arm l.armed kept }, sort before l.out)

abbrev pub macs_of : (TransitionKind → Bool) → List Transition → List String
macs_of test [] = []
macs_of test (t ∷ ts) = let rest = macs_of test ts in if test t.kind then t.mac ∷ rest else rest

abbrev pub is_connect : TransitionKind → Bool
is_connect transition_connect = true
is_connect _ = false

abbrev pub is_disconnect : TransitionKind → Bool
is_disconnect transition_disconnect = true
is_disconnect _ = false

-- `StationInfo{MAC: m}`
abbrev pub bare_station : String → StationInfo
bare_station m = record {
  mac = m;
  hostname = "";
  ip = "";
  essid = "";
  radio = "";
  channel = 0;
  bytes = 0;
}

-- The record, the clients that connected and those that disconnected.
unfoldable pub refresh_sessions : Device → List String → ℕ → Device × (List String × List String)
unfolding refresh_session_stations
refresh_sessions d macs now =
    let r = refresh_session_stations d (map bare_station macs) now in
    (r.0, (macs_of is_connect r.1, macs_of is_disconnect r.1))
