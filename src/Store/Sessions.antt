-- ===== src/Store/Sessions.antt =====
-- internal/store/sessions.go: the client session rows that the record keeps, and what one station
-- table changes of them. A map of rows is a table; numbers are natural, as in `Store.Value`.
pub mod Rows
pub mod Refresh
use Prim.Native.String.{String}
use open_unifi.Base.{ℕ, Bool, false}

-- internal/store/sessions.go: `ClientSession`
pub record ClientSession : Type 0 where
  pub mac : String
  pub connected : Bool
  pub last_seen : ℕ
  pub since : ℕ
  pub hostname : String
  pub ip : String
  pub essid : String
  pub radio : String
  pub channel : ℕ
  pub bytes : ℕ

pub record StationInfo : Type 0 where
  pub mac : String
  pub hostname : String
  pub ip : String
  pub essid : String
  pub radio : String
  pub channel : ℕ
  pub bytes : ℕ

pub data TransitionKind : Type 0 where
  transition_connect transition_disconnect transition_radio_change : TransitionKind

pub record Transition : Type 0 where
  pub mac : String
  pub kind : TransitionKind
  pub at : ℕ
  pub session : ClientSession
  pub prev : ClientSession

pub record SessionRow : Type 0 where
  pub connected : Bool
  pub last_seen : ℕ
  pub since : ℕ
  pub hostname : String
  pub ip : String
  pub essid : String
  pub radio : String
  pub channel : ℕ
  pub bytes : ℕ

-- `sessionRow{}`
abbrev pub no_row : SessionRow
no_row = record {
  connected = false;
  last_seen = 0;
  since = 0;
  hostname = "";
  ip = "";
  essid = "";
  radio = "";
  channel = 0;
  bytes = 0;
}

-- `r.session(mac)`
abbrev pub session : SessionRow → String → ClientSession
session r m = record {
  mac = m;
  connected = r.connected;
  last_seen = r.last_seen;
  since = r.since;
  hostname = r.hostname;
  ip = r.ip;
  essid = r.essid;
  radio = r.radio;
  channel = r.channel;
  bytes = r.bytes;
}
