-- ===== src/Wireless/Plan/Hash.antt =====
-- internal/wireless/plan.go: `WlanListHash`, the drift hash of an envelope. The JSON object that
-- the code builds for each WLAN is a record; the rows that join only under a condition are options.
-- json.Marshal, sha256 and hex are one parameter.
use Prim.Native.String.{String}
use open_unifi.Base.{
  ℕ, Bool, not, ◌||◌, Option, none, some, List, [], ◌∷◌, map, ◌==◌, ltb, length, if◌then◌else◌,
}
use open_unifi.Base.Text.{str_eq}
use open_unifi.Wireless.Wlan.{Wlan, RadiusServer, RadiusAcctServer}

pub record HashServer : Type 0 where
  pub ip : String
  pub port : ℕ

pub record RadiusRows : Type 0 where
  pub radius_secret : String
  pub radius_vlan_mode : String
  pub radius_servers : List HashServer

pub record AccountingRows : Type 0 where
  pub acct_servers : List HashServer
  pub interim_update_enabled : Bool
  pub radius_das_enabled : Bool

pub record HashRow : Type 0 where
  pub name : String
  pub ssid : String
  pub security : String
  pub passphrase : String
  pub vlan : ℕ
  pub enabled : Bool
  pub id : String
  pub band : String
  pub radius : Option RadiusRows
  pub accounting : Option AccountingRows

-- Port 0 is the default.
abbrev pub effective_port : ℕ → ℕ → ℕ
effective_port default port = if port == 0 then default else port

abbrev pub effective : String → String → String
effective default s = if str_eq s "" then default else s

unfoldable pub hash_auth : List RadiusServer → List HashServer
hash_auth [] = []
hash_auth (s ∷ ss) = record { ip = s.ip; port = effective_port 1812 s.port } ∷ hash_auth ss

unfoldable pub hash_acct : List RadiusAcctServer → List HashServer
hash_acct [] = []
hash_acct (s ∷ ss) = record { ip = s.ip; port = effective_port 1813 s.port } ∷ hash_acct ss

unfoldable pub radius_rows : Wlan → Option RadiusRows
unfolding hash_auth
radius_rows w =
    if ltb 0 (length w.radius_servers)
      || not (str_eq w.radius_secret "")
      || not (str_eq w.radius_vlan_mode "")
    then some (record {
      radius_secret = w.radius_secret;
      radius_vlan_mode = effective "disabled" w.radius_vlan_mode;
      radius_servers = hash_auth w.radius_servers;
    })
    else none

unfoldable pub accounting_rows : Wlan → Option AccountingRows
unfolding hash_acct
accounting_rows w =
    if w.accounting_enabled
    then some (record {
      acct_servers = hash_acct w.acct_servers;
      interim_update_enabled = w.interim_update_enabled;
      radius_das_enabled = w.radius_das_enabled;
    })
    else none

unfoldable pub hash_row : Wlan → HashRow
unfolding radius_rows accounting_rows
hash_row w = record {
  name = w.name;
  ssid = w.ssid;
  security = w.security;
  passphrase = w.passphrase;
  vlan = w.vlan;
  enabled = w.enabled;
  id = w.id;
  band = effective "both" w.band;
  radius = radius_rows w;
  accounting = accounting_rows w;
}

unfoldable pub drift_hash : (List HashRow → String) → List Wlan → String
unfolding hash_row
drift_hash hash_rows ws = hash_rows (map hash_row ws)
