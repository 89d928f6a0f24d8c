-- ===== src/Wireless/Wlan.antt =====
-- internal/wireless/wireless.go: one WLAN of a device's envelope. A nil list of servers and an
-- empty one are one list here.
use Prim.Native.String.{String}
use open_unifi.Base.{ℕ, Bool, List, if◌then◌else◌}
use open_unifi.Base.Text.{str_eq}

pub record RadiusServer : Type 0 where
  pub ip : String
  pub port : ℕ

pub record RadiusAcctServer : Type 0 where
  pub ip : String
  pub port : ℕ

pub record Wlan : Type 0 where
  pub name : String
  pub ssid : String
  pub security : String
  pub passphrase : String
  pub vlan : ℕ
  pub enabled : Bool
  pub id : String
  pub band : String
  pub radius_servers : List RadiusServer
  pub radius_secret : String
  pub radius_vlan_mode : String
  pub accounting_enabled : Bool
  pub acct_servers : List RadiusAcctServer
  pub interim_update_enabled : Bool
  pub radius_das_enabled : Bool

-- internal/wireless/plan.go: `SSIDOf`.
unfoldable pub ssid_of : Wlan → String
ssid_of w = if str_eq w.ssid "" then w.name else w.ssid
