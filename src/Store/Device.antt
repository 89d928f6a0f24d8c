-- ===== src/Store/Device.antt =====
-- internal/store/store.go: the device record and its lifecycle states.
use Prim.Native.String.{String}
use open_unifi.Base.{ℕ, Bool, Option, List}
use open_unifi.Store.Value.{JsonMap}

abbrev pub state_pending : ℕ
state_pending = 1

abbrev pub state_adopting : ℕ
state_adopting = 2

abbrev pub state_adopted : ℕ
state_adopted = 3

abbrev pub state_lost : ℕ
state_lost = 4

pub record Device : Type 0 where
  pub mac : String
  pub name : String
  pub model : String
  pub firmware : String
  pub serial : String
  pub site_id : String
  pub state : ℕ
  pub ip : String
  pub inform_url : String
  pub last_seen : ℕ
  pub first_seen : ℕ
  pub cfg_version : String
  pub applied_cfg : String
  pub authkeys : List String
  pub x_authkey : String
  pub aes_gcm : Bool
  pub key_confirmed : Bool
  pub last_ups : JsonMap
  pub extra : JsonMap
  pub led_override : String
  pub disabled : Bool
  pub led_override_color_brightness : Option ℕ
  pub led_override_color : String
  pub ssh_password : String
  pub regulatory_country_code : ℕ
  pub ssh_public_keys : List String
