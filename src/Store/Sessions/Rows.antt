-- ===== src/Store/Sessions/Rows.antt =====
-- internal/store/sessions.go: `readSessionRows`, `writeSessionRows` and `ClientSessions`.
pub mod RoundTrip
use Prim.Native.String.{String}
use open_unifi.Base.{
  ℕ, zero, suc, ◌-◌, ◌*◌, ◌/◌, ◌%◌, ◌^◌, Bool, true, false, ◌&&◌, ◌||◌, Option, none, some, List,
  [], ◌∷◌, map, ◌==◌, ltb, leb, if◌then◌else◌,
}
use open_unifi.Base.Text.{str_eq}
use open_unifi.Base.Sort.{sort, str_lt}
use open_unifi.Base.Tables.{bind}
use open_unifi.Store.Value.{
  Value, bool, str, float64, obj, Fields, end, field, get_field, JsonMap, put, erase, as_string,
  or_empty,
}
use open_unifi.Store.Keys.{sessions_extra_key}
use open_unifi.Store.Device.{Device}
use open_unifi.Store.Sessions.{ClientSession, SessionRow, session}

-- The nearest multiple of the unit, and the even one of two that are as near.
abbrev pub nearest : ℕ → ℕ → ℕ
nearest u n =
    let q = n / u in
    let r = 2 * (n % u) in if ltb r u || r == u && q % 2 == 0 then q * u else suc q * u

-- The float64 of a number of more than 53 bits: the unit doubles with each bit.
unfoldable pub wider : ℕ → ℕ → ℕ → ℕ
wider zero u n = n
wider (suc more) u n =
    let rest = wider more (2 * u) n in if leb n (u * 2 ^ 53) then nearest u n else rest

-- `float64(n)` of an int64: ten bits more than the 53 of the float are enough.
unfoldable pub to_float64 : ℕ → ℕ
unfolding wider
to_float64 n = if leb n (2 ^ 53) then n else wider 10 2 n

-- `int64(v)`. Go leaves a value out of range to the machine; here it is the largest, as on arm64.
unfoldable pub to_int64 : ℕ → ℕ
to_int64 n = if ltb n (2 ^ 63) then n else 2 ^ 63 - 1

-- `if v, ok := row[k].(float64); ok { … }` over a zero value, and the same of a bool.
unfoldable pub number_of : Option Value → ℕ
unfolding to_int64
number_of (some (float64 n)) = to_int64 n
number_of _ = 0

abbrev pub flag_of : Option Value → Bool
flag_of (some (bool b)) = b
flag_of _ = false

unfoldable pub read_row : Fields → SessionRow
unfolding number_of
read_row row = record {
  connected = flag_of (get_field "connected" row);
  last_seen = number_of (get_field "last_seen" row);
  since = number_of (get_field "since" row);
  hostname = or_empty (as_string (get_field "hostname" row));
  ip = or_empty (as_string (get_field "ip" row));
  essid = or_empty (as_string (get_field "essid" row));
  radio = or_empty (as_string (get_field "radio" row));
  channel = number_of (get_field "channel" row);
  bytes = number_of (get_field "bytes" row);
}

-- The loop over the stored object: a row that is no object is passed over.
unfoldable pub read_rows : Fields → List (String × SessionRow)
unfolding bind read_row
read_rows end = []
read_rows (field mac (obj row) fs) = bind mac (read_row row) (read_rows fs)
read_rows (field mac _ fs) = read_rows fs

abbrev pub stored_rows : Option Value → List (String × SessionRow)
stored_rows (some (obj fs)) = read_rows fs
stored_rows _ = []

abbrev pub read_session_rows : JsonMap → List (String × SessionRow)
read_session_rows extra = stored_rows (extra sessions_extra_key)

-- A context key is written only when its value is known.
unfoldable pub known_number : String → ℕ → Fields → Fields
unfolding to_float64
known_number k n m = if n == 0 then m else field k (float64 (to_float64 n)) m

unfoldable pub known_text : String → String → Fields → Fields
known_text k s m = if str_eq s "" then m else field k (str s) m

unfoldable pub write_row : SessionRow → Fields
unfolding known_number known_text to_float64
write_row row = field "last_seen" (float64 (to_float64 row.last_seen)) (
    field "connected" (bool row.connected) (
      known_number "since" row.since (
        known_text "hostname" row.hostname (
          known_text "ip" row.ip (
            known_text "essid" row.essid (
              known_text "radio" row.radio
                (known_number "channel" row.channel (known_number "bytes" row.bytes end))))))))

unfoldable pub write_rows : List (String × SessionRow) → Fields
unfolding write_row
write_rows [] = end
write_rows ((mac, row) ∷ rows) = field mac (obj (write_row row)) (write_rows rows)

unfoldable pub write_session_rows : List (String × SessionRow) → JsonMap → JsonMap
unfolding write_rows
write_session_rows [] extra = erase sessions_extra_key extra
write_session_rows (r ∷ rows) extra = put sessions_extra_key (obj (write_rows (r ∷ rows))) extra

unfoldable pub client_sessions : Device → List ClientSession
unfolding read_rows sort str_lt
client_sessions d =
    sort (λ a b. str_lt a.mac b.mac) (map (λ r. session r.1 r.0) (read_session_rows d.extra))
