-- ===== src/Inform/Stations.antt =====
-- internal/inform/stations.go: the station table of a decoded inform body. A number is a natural
-- one, as in `Store.Value`; the conversions of float64 and int64 keep it.
pub mod Distinct
use Prim.Native.String.{String}
use open_unifi.Base.{
  ℕ, Bool, true, false, ◌||◌, Option, none, some, List, [], ◌∷◌, ◌++◌, map, if◌then◌else◌,
}
use open_unifi.Base.Text.{str_eq}
use open_unifi.Store.Value.{
  Value, str, int, int64, float64, arr, obj, Fields, get_field, to_list, JsonMap, as_string,
  or_empty,
}
use open_unifi.Store.Blocked.{contains}

pub record Station : Type 0 where
  pub mac : String
  pub hostname : String
  pub ip : String
  pub signal : ℕ
  pub tx_bytes : ℕ
  pub rx_bytes : ℕ
  pub uptime : ℕ
  pub essid : String
  pub bssid : String
  pub radio : String
  pub channel : ℕ

abbrev pub str_field : Fields → String → String
str_field m key = or_empty (as_string (get_field key m))

abbrev pub number : Option Value → Option ℕ
number (some (float64 n)) = some n
number (some (int n)) = some n
number (some (int64 n)) = some n
number _ = none

-- The first key that holds a number.
abbrev pub num_field : Fields → List String → ℕ
num_field m [] = 0
num_field m (k ∷ ks) = elim (number (get_field k m)) [ some n ↦ n | none ↦ num_field m ks ]

-- The VAP row that a station row stands in, or the row itself.
abbrev pub context : Option Fields → Fields → Fields
context none m = m
context (some vap) m = vap

abbrev pub station : String → Fields → Fields → Station
station mac m ctx = record {
  mac = mac;
  hostname = str_field m "hostname";
  ip = str_field m "ip";
  signal = num_field m ("signal" ∷ "rssi" ∷ []);
  tx_bytes = num_field m ("tx_bytes" ∷ []);
  rx_bytes = num_field m ("rx_bytes" ∷ []);
  uptime = num_field m ("uptime" ∷ []);
  essid = str_field ctx "essid";
  bssid = str_field ctx "bssid";
  radio = str_field ctx "radio";
  channel = num_field ctx ("channel" ∷ []);
}

-- What the loops have built: the MACs that were seen, and the stations in their order.
pub record Table : Type 0 where
  pub seen : List String
  pub stations : List Station

-- `v.(map[string]any)`
abbrev pub as_object : Value → Option Fields
as_object (obj m) = some m
as_object _ = none

unfoldable pub add_named : Option Fields → Fields → Option String → Table → Table
add_named vap m none t = t
add_named vap m (some mac) t = if str_eq mac "" || contains mac t.seen then t else record {
  seen = mac ∷ t.seen;
  stations = t.stations ++ (station mac m (context vap m) ∷ []);
}

unfoldable pub add_row : Option Fields → Option Fields → Table → Table
unfolding add_named
add_row vap none t = t
add_row vap (some m) t = add_named vap m (as_string (get_field "mac" m)) t

unfoldable pub add_rows : Option Fields → List Value → Table → Table
unfolding add_row
add_rows vap [] t = t
add_rows vap (v ∷ vs) t = add_rows vap vs (add_row vap (as_object v) t)

-- A station table of the given place, if it is an array there.
abbrev pub rows_at : Option Value → Option (List Value)
rows_at (some (arr vs)) = some (to_list vs)
rows_at _ = none

unfoldable pub add_table : Option Fields → Option (List Value) → Table × Bool → Table × Bool
unfolding add_rows
add_table vap none r = r
add_table vap (some vs) r = (add_rows vap vs r.0, true)

unfoldable pub add_vap : Option Fields → Table × Bool → Table × Bool
unfolding add_table
add_vap none r = r
add_vap (some vm) r = add_table (some vm) (rows_at (get_field "sta_table" vm)) r

unfoldable pub add_vaps : List Value → Table × Bool → Table × Bool
unfolding add_vap
add_vaps [] r = r
add_vaps (v ∷ vs) r = add_vaps vs (add_vap (as_object v) r)

abbrev pub elements : Option (List Value) → List Value
elements none = []
elements (some vs) = vs

abbrev pub empty_table : Table
empty_table = record { seen = []; stations = [] }

unfoldable pub station_table : JsonMap → Table × Bool
unfolding add_table add_vaps
station_table body =
    add_vaps (elements (rows_at (body "vap_table")))
      (add_table none (rows_at (body "sta_table")) (empty_table, false))

-- The stations, and whether the body holds a table.
unfoldable pub stations : JsonMap → List Station × Bool
unfolding station_table
stations body = ((station_table body).0.stations, (station_table body).1)

unfoldable pub station_macs : JsonMap → List String × Bool
unfolding stations
station_macs body = (map (λ st. st.mac) (stations body).0, (stations body).1)
