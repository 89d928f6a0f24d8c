-- ===== src/Wireless/Plan.antt =====
-- internal/wireless/plan.go: the provisioning plan. sha256 is a parameter: `sha256_hex` is the
-- digest of a text in hexadecimal, and `hash_rows` that of the JSON of the canonical rows.
pub mod Hash
pub mod Counter
use Prim.Native.String.{String, ◌++◌ as ◌<>◌}
use open_unifi.Base.{
  ℕ, ◌+◌, Bool, true, false, not, ◌&&◌, ◌||◌, Option, none, some, List, [], ◌∷◌, ◌++◌, ltb, length,
  if◌then◌else◌,
}
use open_unifi.Base.Text.{str_eq, itoa}
use open_unifi.Base.Sort.{sort, str_lt}
use open_unifi.Store.Value.{Value, str, bool, float64, arr, obj, null, int, int64, Fields, to_list}
use open_unifi.Store.Device.{Device}
use open_unifi.Wireless.Wlan.{Wlan, ssid_of}
use open_unifi.Wireless.Json.{json_str}
use open_unifi.Wireless.Evidence.{VapRun, runs_name, read_vap_evidence, is_known}
use open_unifi.Wireless.Plan.Hash.{HashRow, drift_hash}

pub record RadioRow : Type 0 where
  pub name : String
  pub band : String
  pub band_known : Bool
  pub raw : Fields

-- One entry of the radio table, if it is an object with a name.
read_radio : Value → Option RadioRow
read_radio (obj m) =
    let name = json_str m "name" "" in
    let band = json_str m "radio" "" in
    if str_eq name ""
    then none
    else some (record {
      name = name;
      band = band;
      band_known = str_eq band "na" || str_eq band "ng";
      raw = m;
    })
read_radio _ = none

keep : Option RadioRow → List RadioRow → List RadioRow
keep none rest = rest
keep (some r) rest = r ∷ rest

read_radios : List Value → List RadioRow
read_radios [] = []
read_radios (v ∷ vs) = keep (read_radio v) (read_radios vs)

radio_list : Option Value → List RadioRow
radio_list (some (arr vs)) = sort (λ a b. str_lt a.name b.name) (read_radios (to_list vs))
radio_list _ = []

unfoldable pub stored_radios : Device → List RadioRow
unfolding read_radio keep read_radios radio_list json_str sort str_lt
stored_radios d = radio_list (d.extra "radio_table")

unfoldable pub wrap_vid : ℕ → ℕ
wrap_vid vid = if ltb vid 2 || ltb 4094 vid then 0 else vid

pub record VapPlan : Type 0 where
  pub wlan : Wlan
  pub id : String
  pub radio_n : ℕ
  pub phyname : String
  pub ath_n : ℕ
  pub vid : ℕ

-- The band that the tests read; "" is the default "both".
abbrev pub effective_band : String → String
effective_band band = if str_eq band "" then "both" else band

-- A radio that carries no WLAN: an unknown band, or the managed uplink.
unfoldable pub skips : RadioRow → Bool
unfolding json_str
skips r =
    not r.band_known
    || str_eq (json_str r.raw "usage" "") "uplink" && str_eq (json_str r.raw "mode" "") "managed"

-- The WLAN gets a VAP on the radio.
unfoldable pub serves : RadioRow → Wlan → Bool
serves r w =
    w.enabled
    && not (
        str_eq (effective_band w.band) "2g" && not (str_eq r.band "ng")
        || str_eq (effective_band w.band) "5g" && not (str_eq r.band "na"))

module _ (sha256_24 : String → String) where
  -- The legacy id of a WLAN that has none: `sha256_24` is the digest's first 24 digits.
  unfoldable pub wlan_id : Wlan → String
  wlan_id w =
      if not (str_eq w.id "")
      then w.id
      else sha256_24 (
          if not (str_eq w.name "")
          then w.name
          else if not (str_eq w.ssid "")
          then w.ssid
          else "vlan" <> itoa w.vlan)

  vap : RadioRow → ℕ → ℕ → Wlan → VapPlan
  vap r radio_n ath w = record {
    wlan = w;
    id = wlan_id w;
    radio_n = radio_n;
    phyname = r.name;
    ath_n = ath;
    vid = wrap_vid w.vlan;
  }

  -- The inner loop, over the WLANs of one radio; `ath` is the counter.
  radio_vaps : RadioRow → ℕ → ℕ → List Wlan → List VapPlan
  radio_vaps r radio_n ath [] = []
  radio_vaps r radio_n ath (w ∷ ws) = elim (serves r w) [
    | true ↦ vap r radio_n ath w ∷ radio_vaps r radio_n (ath + 1) ws
    | false ↦ radio_vaps r radio_n ath ws
  ]

  -- The outer loop, over the radios from the one numbered `radio_n`.
  table_vaps : List Wlan → ℕ → ℕ → List RadioRow → List VapPlan
  table_vaps ws radio_n ath [] = []
  table_vaps ws radio_n ath (r ∷ rs) =
      let vs = if skips r then [] else radio_vaps r radio_n ath ws in
      vs ++ table_vaps ws (radio_n + 1) (ath + length vs) rs

  unfoldable pub plan_vaps : Device → List Wlan → List VapPlan
  unfolding table_vaps radio_vaps vap stored_radios serves skips
  plan_vaps d ws = table_vaps ws 1 0 (stored_radios d)

-- A map from placement keys to counts, with one entry for each key.
abbrev pub Placements : Type 0
Placements = List (String × ℕ)

-- SSID, a NUL byte, the radio's name.
abbrev pub placement_key : String → String → String
placement_key ssid radio = ssid <> ("\0" <> radio)

-- `m[key]++`
unfoldable pub bump : String → Placements → Placements
bump key [] = (key, 1) ∷ []
bump key ((k, n) ∷ m) = if str_eq k key then (k, n + 1) ∷ m else (k, n) ∷ bump key m

unfoldable pub vap_placements : Placements → List VapPlan → Placements
unfolding bump ssid_of
vap_placements m [] = m
vap_placements m (v ∷ vs) = vap_placements (bump (placement_key (ssid_of v.wlan) v.phyname) m) vs

pub record ProvisioningPlan : Type 0 where
  pub drift_hash : String
  pub vaps : List VapPlan
  pub radios : List RadioRow
  pub placements : Placements

unfoldable pub plan_provisioning :
    (String → String) → (List HashRow → String) → Device → List Wlan → ProvisioningPlan
unfolding plan_vaps vap_placements
plan_provisioning sha256_24 hash_rows d ws =
    let vaps = plan_vaps sha256_24 d ws in
    record {
      drift_hash = drift_hash hash_rows ws;
      vaps = vaps;
      radios = stored_radios d;
      placements = vap_placements [] vaps;
    }

abbrev pub contains : String → List String → Bool
contains s [] = false
contains s (x ∷ xs) = str_eq x s || contains s xs

-- The devnames of the enabled planned VAPs, each once.
unfoldable pub needed_names : List VapPlan → List String
unfolding itoa
needed_names [] = []
needed_names (v ∷ vs) =
    let name = "ath" <> itoa v.ath_n in
    let rest = needed_names vs in
    if v.wlan.enabled && not (contains name rest) then name ∷ rest else rest

-- `delete(need, r.Name)` for every running row.
unfoldable pub not_running : List VapRun → List String → List String
not_running runs [] = []
not_running runs (n ∷ ns) =
    let rest = not_running runs ns in if runs_name n runs then rest else n ∷ rest

-- Absent and empty tables say nothing, as do plans with no enabled VAP.
unfoldable pub missing_vaps : List VapPlan → Option Value → List String
unfolding needed_names not_running read_vap_evidence sort str_lt
missing_vaps vaps table =
    let ev = read_vap_evidence table in
    if is_known ev then sort str_lt (not_running ev.running (needed_names vaps)) else []
