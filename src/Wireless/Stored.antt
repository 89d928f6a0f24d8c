-- ===== src/Wireless/Stored.antt =====
-- internal/wireless/stored.go: the stored format of WLAN lists. encoding/json is the record
-- `WlanJson`; its `unmarshal` gives each entry under both spellings of the multi-word fields.
pub mod RoundTrip
use Prim.Native.String.{String}
use open_unifi.Base.{
  ℕ, Bool, true, false, ◌||◌, Option, none, some, List, [], ◌∷◌, map, if◌then◌else◌, ◌≡◌,
}
use open_unifi.Base.Text.{str_eq}
use open_unifi.Wireless.Wlan.{Wlan, RadiusServer, RadiusAcctServer}

pub record StoredRadiusRow : Type 0 where
  pub ip : String
  pub port : ℕ

pub record StoredWlanRecord : Type 0 where
  pub name : String
  pub ssid : String
  pub security : String
  pub passphrase : String
  pub vlan : ℕ
  pub enabled : Bool
  pub id : String
  pub band : String
  pub radius_servers : List StoredRadiusRow
  pub radius_secret : String
  pub radius_vlan_mode : String
  pub accounting_enabled : Bool
  pub acct_servers : List StoredRadiusRow
  pub interim_update_enabled : Bool
  pub radius_das_enabled : Bool

-- `storedWlan`: the embedded `Wlan` and the twins of its multi-word fields.
pub record StoredWlan : Type 0 where
  pub wlan : Wlan
  pub stored_radius_servers : List RadiusServer
  pub stored_radius_secret : String
  pub stored_radius_vlan_mode : String
  pub stored_accounting_enabled : Bool
  pub stored_acct_servers : List RadiusAcctServer
  pub stored_interim_update_enabled : Bool
  pub stored_radius_das_enabled : Bool

stored_auth : RadiusServer → StoredRadiusRow
stored_auth s = record { ip = s.ip; port = s.port }

stored_acct : RadiusAcctServer → StoredRadiusRow
stored_acct s = record { ip = s.ip; port = s.port }

unfoldable pub stored_record : Wlan → StoredWlanRecord
unfolding stored_auth stored_acct
stored_record w = record {
  name = w.name;
  ssid = w.ssid;
  security = w.security;
  passphrase = w.passphrase;
  vlan = w.vlan;
  enabled = w.enabled;
  id = w.id;
  band = w.band;
  radius_servers = map stored_auth w.radius_servers;
  radius_secret = w.radius_secret;
  radius_vlan_mode = w.radius_vlan_mode;
  accounting_enabled = w.accounting_enabled;
  acct_servers = map stored_acct w.acct_servers;
  interim_update_enabled = w.interim_update_enabled;
  radius_das_enabled = w.radius_das_enabled;
}

abbrev or_list {ℓ} : {A : Type ℓ} → List A → List A → List A
or_list [] ys = ys
or_list (x ∷ xs) ys = x ∷ xs

abbrev or_text : String → String → String
or_text s t = if str_eq s "" then t else s

-- One round of the loop of `DecodeStoredWlans`.
unfoldable pub merge_spellings : StoredWlan → Wlan
merge_spellings s =
    let w = s.wlan in
    record w {
      radius_servers = or_list w.radius_servers s.stored_radius_servers;
      radius_secret = or_text w.radius_secret s.stored_radius_secret;
      radius_vlan_mode = or_text w.radius_vlan_mode s.stored_radius_vlan_mode;
      accounting_enabled = w.accounting_enabled || s.stored_accounting_enabled;
      acct_servers = or_list w.acct_servers s.stored_acct_servers;
      interim_update_enabled = w.interim_update_enabled || s.stored_interim_update_enabled;
      radius_das_enabled = w.radius_das_enabled || s.stored_radius_das_enabled;
    }

pub record WlanJson : Type 0 where
  pub marshal : List StoredWlanRecord → String
  pub unmarshal : String → Option (List StoredWlan)

module _ (J : WlanJson) where
  unfoldable pub encode_stored_wlans : List Wlan → String
  unfolding stored_record
  encode_stored_wlans ws = J.marshal (map stored_record ws)

  merged : Option (List StoredWlan) → Option (List Wlan)
  merged none = none
  merged (some ss) = some (map merge_spellings ss)

  unfoldable pub decode_stored_wlans : String → Option (List Wlan)
  unfolding merged merge_spellings
  decode_stored_wlans raw = merged (J.unmarshal raw)

auth_row : StoredRadiusRow → RadiusServer
auth_row r = record { ip = r.ip; port = r.port }

acct_row : StoredRadiusRow → RadiusAcctServer
acct_row r = record { ip = r.ip; port = r.port }

-- How Go's decoder reads the stored spelling: the single-word keys land on the embedded fields
-- (its matching ignores case), the multi-word ones on the twins.
unfoldable pub as_stored : StoredWlanRecord → StoredWlan
unfolding auth_row acct_row
as_stored r = record {
  wlan = record {
    name = r.name;
    ssid = r.ssid;
    security = r.security;
    passphrase = r.passphrase;
    vlan = r.vlan;
    enabled = r.enabled;
    id = r.id;
    band = r.band;
    radius_servers = [];
    radius_secret = "";
    radius_vlan_mode = "";
    accounting_enabled = false;
    acct_servers = [];
    interim_update_enabled = false;
    radius_das_enabled = false;
  };
  stored_radius_servers = map auth_row r.radius_servers;
  stored_radius_secret = r.radius_secret;
  stored_radius_vlan_mode = r.radius_vlan_mode;
  stored_accounting_enabled = r.accounting_enabled;
  stored_acct_servers = map acct_row r.acct_servers;
  stored_interim_update_enabled = r.interim_update_enabled;
  stored_radius_das_enabled = r.radius_das_enabled;
}

-- encoding/json on the stored spelling: what it wrote for the records is read as them.
abbrev pub ReadsStored : WlanJson → List StoredWlanRecord → Type 0
ReadsStored J rs = J.unmarshal (J.marshal rs) ≡ some (map as_stored rs)
