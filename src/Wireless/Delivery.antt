-- ===== src/Wireless/Delivery.antt =====
-- internal/wireless/delivery_state.go: the WLAN delivery bookkeeping. The Go type holds the map
-- that it was loaded from and writes through it; here an operation takes the map and the typed
-- view, and returns those that it changes. Time is in Unix seconds.
pub mod Settle
pub mod Retry
pub mod Watch
use Prim.Native.String.{String}
use open_unifi.Base.{
  ℕ, ◌+◌, ◌-◌, ◌*◌, ◌^◌, Bool, true, false, not, ◌&&◌, ◌||◌, Option, none, some, List, [], ◌∷◌, ltb,
  leb, ◌==◌, length, if◌then◌else◌,
}
use open_unifi.Base.Text.{str_eq}
use open_unifi.Store.Value.{
  Value, null, bool, str, int, int64, float64, arr, obj, Fields, end, field, get_field, JsonMap,
  put, erase, as_string, or_empty,
}
use open_unifi.Store.Keys.{
  wlan_cfg_sha_key, wlan_cfg_pending_sha_key, wlan_cfg_pending_wlans_key,
  wlan_cfg_pending_old_wlans_key, wlan_cfg_applied_wlans_key, wlan_cfg_pending_placements_key,
  wlan_cfg_attempt_sha_key, wlan_cfg_attempts_key, wlan_cfg_last_attempt_key,
  wlan_cfg_delivery_status_key, wlan_cfg_not_running_misses_key, wlan_cfg_offered_cfgversion_key,
  wlan_cfg_vap_not_running_misses_key, wlan_cfg_materialization_reboot_key,
}
use open_unifi.Wireless.Wlan.{Wlan, ssid_of}
use open_unifi.Wireless.Plan.{Placements, placement_key}
use open_unifi.Wireless.Stored.{WlanJson, encode_stored_wlans, decode_stored_wlans}
use open_unifi.Wireless.Evidence.{VapRun, VapEvidence, read_vap_evidence, is_known, runs_ssid}

-- encoding/json on WLAN lists and on placement maps. `read_placements` gives the map as far as it
-- was filled, also when the text is malformed.
pub record Formats : Type 0 where
  pub wlans : WlanJson
  pub write_placements : Placements → String
  pub read_placements : String → Placements

pub record DeliveryState : Type 0 where
  pub sha : String
  pub pending_present : Bool
  pub pending_is_string : Bool
  pub pending_sha : String
  pub pending_wlans : List Wlan
  pub old_wlans : List Wlan
  pub applied : Option Value
  pub placements : Placements
  pub attempt_sha : String
  pub attempts : ℕ
  pub last_attempt : ℕ
  pub not_running_misses : ℕ
  pub vap_not_running_misses : ℕ
  pub offered_cfgversion : Option String

abbrev pub is_present {ℓ} : {A : Type ℓ} → Option A → Bool
is_present none = false
is_present (some a) = true

abbrev pub count_row : Option Value → ℕ
count_row (some (int n)) = n
count_row (some (float64 n)) = n
count_row _ = 0

abbrev pub time_row : Option Value → ℕ
time_row (some (int64 n)) = n
time_row (some (float64 n)) = n
time_row _ = 0

abbrev or_none : Option (List Wlan) → List Wlan
or_none none = []
or_none (some ws) = ws

-- The WLAN list of a row that holds a text.
abbrev wlans_row : Formats → Option String → List Wlan
wlans_row F none = []
wlans_row F (some raw) = or_none (decode_stored_wlans F.wlans raw)

abbrev placements_row : Formats → Option String → Placements
placements_row F none = []
placements_row F (some raw) = F.read_placements raw

unfoldable pub load_delivery_state : Formats → JsonMap → DeliveryState
load_delivery_state F extra = record {
  sha = or_empty (as_string (extra wlan_cfg_sha_key));
  pending_present = is_present (extra wlan_cfg_pending_sha_key);
  pending_is_string = is_present (as_string (extra wlan_cfg_pending_sha_key));
  pending_sha = or_empty (as_string (extra wlan_cfg_pending_sha_key));
  pending_wlans = wlans_row F (as_string (extra wlan_cfg_pending_wlans_key));
  old_wlans = wlans_row F (as_string (extra wlan_cfg_pending_old_wlans_key));
  applied = extra wlan_cfg_applied_wlans_key;
  placements = placements_row F (as_string (extra wlan_cfg_pending_placements_key));
  attempt_sha = or_empty (as_string (extra wlan_cfg_attempt_sha_key));
  attempts = count_row (extra wlan_cfg_attempts_key);
  last_attempt = time_row (extra wlan_cfg_last_attempt_key);
  not_running_misses = count_row (extra wlan_cfg_not_running_misses_key);
  vap_not_running_misses = count_row (extra wlan_cfg_vap_not_running_misses_key);
  offered_cfgversion = as_string (extra wlan_cfg_offered_cfgversion_key);
}

unfoldable pub contains_enabled : List Wlan → String → Bool
contains_enabled [] ssid = false
contains_enabled (w ∷ ws) ssid = w.enabled && str_eq (ssid_of w) ssid || contains_enabled ws ssid

-- `removed[ssid]`: an enabled old WLAN that is no longer desired.
unfoldable pub is_removed : List Wlan → List Wlan → String → Bool
unfolding contains_enabled
is_removed old desired ssid = contains_enabled old ssid && not (contains_enabled desired ssid)

-- `need[ssid]`: how many enabled desired WLANs carry the SSID.
unfoldable pub count_enabled : List Wlan → String → ℕ
count_enabled [] ssid = 0
count_enabled (w ∷ ws) ssid =
    let rest = count_enabled ws ssid in
    if w.enabled && str_eq (ssid_of w) ssid then rest + 1 else rest

abbrev pub placed : String → Placements → ℕ
placed key [] = 0
placed key ((k, n) ∷ m) = if str_eq k key then n else placed key m

abbrev pub unplace : String → Placements → Placements
unplace key [] = []
unplace key ((k, n) ∷ m) = if str_eq k key then (k, n - 1) ∷ m else (k, n) ∷ unplace key m

-- `need[ssid]--`. The Go count may go below zero, where this one stays at zero: the code only ever
-- asks whether it is positive, and never adds to it again.
abbrev pub lower : String → (String → ℕ) → String → ℕ
lower ssid need s = if str_eq s ssid then need s - 1 else need s

-- What one running row does to `need` and to the placements.
unfoldable pub spend : VapRun → (String → ℕ) → Placements → (String → ℕ) × Placements
spend r need pl =
    if str_eq r.ssid ""
    then (need, pl)
    else if ltb 0 (placed (placement_key r.ssid r.radio) pl)
    then (lower r.ssid need, unplace (placement_key r.ssid r.radio) pl)
    else if ltb 0 (need r.ssid) && length pl == 0
    then (lower r.ssid need, pl)
    else (need, pl)

-- The loop over the running rows; `none` is the early return at a removed SSID.
unfoldable pub spend_all :
    (String → Bool) → List VapRun → (String → ℕ) → Placements → Option (String → ℕ)
unfolding spend
spend_all removed [] need pl = some need
spend_all removed (r ∷ rs) need pl = elim (not (str_eq r.ssid "") && removed r.ssid) [
  | true ↦ none
  | false ↦ spend_all removed rs (spend r need pl).0 (spend r need pl).1
]

unfoldable pub all_met : List Wlan → (String → ℕ) → Bool
all_met [] need = true
all_met (w ∷ ws) need = not (w.enabled && ltb 0 (need (ssid_of w))) && all_met ws need

abbrev proven : List Wlan → Option (String → ℕ) → Bool
proven desired none = false
proven desired (some need) = all_met desired need

-- The tests of `Settle`: the table proves the pending delivery.
unfoldable pub settles : DeliveryState → VapEvidence → Bool
unfolding is_removed count_enabled spend_all all_met
settles st ev =
    st.pending_is_string
    && (ev.present
        && proven st.pending_wlans (
            spend_all (is_removed st.old_wlans st.pending_wlans) ev.running
              (count_enabled st.pending_wlans) st.placements))

-- The row of the marker: its cfgversion, if it is a text that is not empty.
abbrev armed_text : Option String → Option String
armed_text none = none
armed_text (some cv) = if str_eq cv "" then none else some cv

abbrev armed_row : Option Value → Option String
armed_row (some (obj row)) = armed_text (as_string (get_field "cfgversion" row))
armed_row _ = none

unfoldable pub materialization_reboot_armed_for : JsonMap → Option String
materialization_reboot_armed_for extra = armed_row (extra wlan_cfg_materialization_reboot_key)

unfoldable pub set_materialization_reboot_armed : String → JsonMap → JsonMap
set_materialization_reboot_armed cfgversion extra =
    put wlan_cfg_materialization_reboot_key (obj (field "cfgversion" (str cfgversion) end)) extra

unfoldable pub clear_materialization_reboot : JsonMap → JsonMap
clear_materialization_reboot = erase wlan_cfg_materialization_reboot_key

-- A marker that was stamped for another version goes.
retire_marker : Option String → String → JsonMap → JsonMap
retire_marker none cfgversion extra = extra
retire_marker (some cv) cfgversion extra =
    if str_eq cv cfgversion then extra else erase wlan_cfg_materialization_reboot_key extra

-- A missing row is copied as a nil value.
abbrev or_null : Option Value → Value
or_null none = null
or_null (some v) = v

-- The writes of `Settle` once its tests have passed.
unfoldable pub promote : DeliveryState → String → JsonMap → JsonMap × DeliveryState
unfolding retire_marker materialization_reboot_armed_for
promote st cfgversion extra =
    let kept = retire_marker (materialization_reboot_armed_for extra) cfgversion extra in
    let pending = or_null (kept wlan_cfg_pending_wlans_key) in
    (
      erase wlan_cfg_offered_cfgversion_key (
          erase wlan_cfg_pending_placements_key (
            erase wlan_cfg_pending_wlans_key (
              erase wlan_cfg_pending_sha_key (
                put wlan_cfg_delivery_status_key (str "confirmed") (
                  put wlan_cfg_applied_wlans_key pending
                    (put wlan_cfg_sha_key (str st.pending_sha) kept)))))),
      record st {
        sha = st.pending_sha;
        pending_present = false;
        pending_is_string = false;
        pending_sha = "";
        pending_wlans = [];
        placements = [];
        offered_cfgversion = none;
      },
    )

unfoldable pub settle : DeliveryState → String → JsonMap → JsonMap × DeliveryState
unfolding settles promote
settle st cfgversion extra =
    if settles st (read_vap_evidence (extra "vap_table"))
    then promote st cfgversion extra
    else (extra, st)
