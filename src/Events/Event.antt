-- ===== src/Events/Event.antt =====
-- internal/clientevents/event.go: an event and its texts. Numbers are natural, so a duration below
-- zero does not occur.
use Prim.Native.String.{String, ◌++◌ as ◌<>◌}
use open_unifi.Base.{ℕ, zero, suc, ◌*◌, ◌/◌, ◌%◌, ◌==◌, ltb, leb, if◌then◌else◌}
use open_unifi.Base.Text.{str_eq, itoa}

abbrev pub key_connected : String
key_connected = "EVT_WU_Connected"

abbrev pub key_disconnected : String
key_disconnected = "EVT_WU_Disconnected"

abbrev pub key_roam : String
key_roam = "EVT_WU_Roam"

abbrev pub key_roam_radio : String
key_roam_radio = "EVT_WU_RoamRadio"

pub record Event : Type 0 where
  pub key : String
  pub time : ℕ  -- unix milliseconds
  pub datetime : String
  pub client : String
  pub hostname : String
  pub ip : String
  pub ap : String
  pub ap_name : String
  pub ap_from : String
  pub ap_from_name : String
  pub ap_to : String
  pub ap_to_name : String
  pub ssid : String
  pub radio : String
  pub radio_from : String
  pub radio_to : String
  pub channel : ℕ
  pub channel_from : ℕ
  pub channel_to : ℕ
  pub duration : ℕ
  pub bytes : ℕ
  pub msg : String

-- `Event{Key: key}`
abbrev pub bare : String → Event
bare k = record {
  key = k;
  time = 0;
  datetime = "";
  client = "";
  hostname = "";
  ip = "";
  ap = "";
  ap_name = "";
  ap_from = "";
  ap_from_name = "";
  ap_to = "";
  ap_to_name = "";
  ssid = "";
  radio = "";
  radio_from = "";
  radio_to = "";
  channel = 0;
  channel_from = 0;
  channel_to = 0;
  duration = 0;
  bytes = 0;
  msg = "";
}

-- The library calls of the texts: `time.UnixMilli(t).UTC().Format`, and `fmt.Sprintf("%.1f")` of a
-- quotient of two numbers.
pub record Printing : Type 0 where
  pub utc : ℕ → String
  pub one_decimal : ℕ → ℕ → String

-- `firstNonEmpty`; a label is the name when it is known, else the MAC.
abbrev pub first_non_empty : String → String → String
first_non_empty a b = if str_eq a "" then b else a

abbrev pub client_label : String → String → String
client_label hostname mac = if str_eq hostname "" then mac else hostname

abbrev pub ap_label : String → String → String
ap_label name mac = if str_eq name "" then mac else name

unfoldable pub channel_label : ℕ → String → String
unfolding itoa
channel_label channel radio =
    if channel == 0
    then "unknown channel"
    else if str_eq radio ""
    then "channel " <> itoa channel
    else "channel " <> itoa channel <> " (" <> radio <> ")"

unfoldable pub format_duration : ℕ → String
unfolding itoa
format_duration sec =
    let d = sec / 86400 in
    let h = sec % 86400 / 3600 in
    let m = sec % 3600 / 60 in
    if ltb 0 d
    then itoa d <> "d " <> itoa h <> "h"
    else if ltb 0 h
    then itoa h <> "h " <> itoa m <> "m"
    else if ltb 0 m
    then itoa m <> "m " <> itoa (sec % 60) <> "s"
    else itoa (sec % 60) <> "s"

-- `"kMGTPE"[exp]`; an int64 stays below the seventh unit.
abbrev pub unit_name : ℕ → String
unit_name zero = "k"
unit_name (suc zero) = "M"
unit_name (suc (suc zero)) = "G"
unit_name (suc (suc (suc zero))) = "T"
unit_name (suc (suc (suc (suc zero)))) = "P"
unit_name _ = "E"

-- The loop `for v := n / unit; v >= unit; v /= unit`: the divisor and the exponent.
unfoldable pub scale : ℕ → ℕ → ℕ → ℕ → ℕ × ℕ
scale zero v div exp = (div, exp)
scale (suc fuel) v div exp =
    let rest = scale fuel (v / 1000) (div * 1000) (suc exp) in
    if leb 1000 v then rest else (div, exp)

module _ (P : Printing) where
  unfoldable pub format_bytes : ℕ → String
  unfolding itoa scale
  format_bytes n =
      let (div, exp) = scale n (n / 1000) 1000 0 in
      if ltb n 1000 then itoa n <> " B" else P.one_decimal n div <> " " <> unit_name exp <> "B"

  abbrev set_time : ℕ → Event → Event
  set_time sec e = record e { time = sec * 1000; datetime = P.utc (sec * 1000) }

  connected_msg : String → Event → String
  connected_msg who e =
      who
      <> " connected"
      <> (if str_eq e.ssid "" then "" else " to " <> e.ssid)
      <> " on "
      <> ap_label e.ap_name e.ap
      <> "."

  disconnected_msg : String → Event → String
  unfolding format_duration format_bytes
  disconnected_msg who e =
      who
      <> " disconnected"
      <> (if str_eq e.ssid "" then "" else " from " <> e.ssid)
      <> "."
      <> (if ltb 0 e.duration then " Time Connected: " <> format_duration e.duration <> "." else "")
      <> (if ltb 0 e.bytes then " Data Used: " <> format_bytes e.bytes <> "." else "")
      <> " Last AP: "
      <> ap_label e.ap_name e.ap
      <> "."

  roam_msg : String → Event → String
  roam_msg who e =
      who
      <> " roamed from "
      <> ap_label e.ap_from_name e.ap_from
      <> " to "
      <> ap_label e.ap_to_name e.ap_to
      <> "."

  roam_radio_msg : String → Event → String
  unfolding channel_label
  roam_radio_msg who e =
      who
      <> " changed from "
      <> channel_label e.channel_from e.radio_from
      <> " to "
      <> channel_label e.channel_to e.radio_to
      <> " on "
      <> ap_label e.ap_name e.ap
      <> "."

  unfoldable pub msg_of : Event → String
  unfolding connected_msg disconnected_msg roam_msg roam_radio_msg
  msg_of e =
      let who = client_label e.hostname e.client in
      if str_eq e.key key_connected
      then connected_msg who e
      else if str_eq e.key key_disconnected
      then disconnected_msg who e
      else if str_eq e.key key_roam
      then roam_msg who e
      else if str_eq e.key key_roam_radio
      then roam_radio_msg who e
      else e.msg

  -- `e.setTime(sec)` and `e.buildMsg()`
  unfoldable pub finish : ℕ → Event → Event
  unfolding msg_of
  finish sec e = let timed = set_time sec e in record timed { msg = msg_of timed }
