-- ===== src/Examples/Data.antt =====
-- Concrete records and instances: a device with one WLAN, a scheduler that counts draws in
-- hundredths, a marshaller that knows one list, ciphers that only frame the text.
use Prim.Native.String.{String}
use open_unifi.Base.{
  ℕ, ◌+◌, ◌-◌, ◌*◌, ◌/◌, ◌≡◌, refl, true, false, none, some, [], ◌∷◌, ◌++◌, map, length, take,
  replicate, leb, ltb, every, All, and-true, if◌then◌else◌, length-append, length-replicate,
  take-append, arith,
}
use open_unifi.Base.Results.{ok}
use open_unifi.Base.Text.{str_eq}
use open_unifi.Inform.Bytes.{Bytes, IsByte}
use open_unifi.Inform.Crypto.{Ciphers, IsLawful}
use open_unifi.Store.Value.{no_rows}
use open_unifi.Store.Device.{Device, state_adopted}
use open_unifi.Wireless.Wlan.{Wlan}
use open_unifi.Wireless.Stored.{WlanJson, ReadsStored, stored_record, as_stored}
use open_unifi.Wireless.Delivery.{Formats}
use open_unifi.Adoption.Types.{Jitter, IsLawful as IsLawfulJitter, Deps, Request, encrypted}

abbrev pub ciphers : Ciphers
ciphers = record {
  cbc_encrypt = λ key iv text. text;
  cbc_decrypt = λ key iv text. text;
  gcm_seal = λ key nonce text aad. text ++ replicate 16 0;
  gcm_open = λ key nonce text aad. some (take (length text - 16) text);
  zlib_read = λ text n. some (take n text);
}

sealed_length : (text : Bytes) → length (text ++ replicate 16 0) ≡ length text + 16
sealed_length text =
    omega (arith, length-append text (replicate 16 0), length-replicate {A = ℕ} 16 0)

opened_again :
    (text : Bytes) → take (length (text ++ replicate 16 0) - 16) (text ++ replicate 16 0) ≡ text
opened_again text =
    take-append (length (text ++ replicate 16 0) - 16) text (replicate 16 0)
      (omega (arith, sealed_length text))

pub ciphers-IsLawful : IsLawful ciphers
ciphers-IsLawful = record {
  cbc_round = λ key iv text k i m. refl;
  cbc_length = λ key iv text. refl;
  gcm_round = λ key nonce text aad k. λ i. some (opened_again text i);
  gcm_length = λ key nonce text aad. sealed_length text;
}

pub every-IsByte : (bs : Bytes) → every (λ b. ltb b 256) bs ≡ true → All IsByte bs
every-IsByte [] h = tt
every-IsByte (b ∷ bs) h =
    let (p, q) = and-true (ltb b 256) (every (λ c. ltb c 256) bs) h in
    (ground arith, every-IsByte bs q)

abbrev pub home : Wlan
home = record {
  name = "home";
  ssid = "";
  security = "wpa2";
  passphrase = "correct horse";
  vlan = 10;
  enabled = true;
  id = "";
  band = "both";
  radius_servers = [];
  radius_secret = "";
  radius_vlan_mode = "";
  accounting_enabled = false;
  acct_servers = [];
  interim_update_enabled = false;
  radius_das_enabled = false;
}

abbrev pub home_text : String
home_text = "[{\"name\":\"home\"}]"

abbrev pub wlan_json : WlanJson
wlan_json = record {
  marshal = λ rs. home_text;
  unmarshal = λ s.
      if str_eq s home_text then some (map as_stored (map stored_record (home ∷ []))) else none;
}

pub reads_home : ReadsStored wlan_json (map stored_record (home ∷ []))
reads_home = refl

abbrev pub formats : Formats
formats = record { wlans = wlan_json; write_placements = λ pl. "{}"; read_placements = λ s. [] }

abbrev pub hundredths : Jitter
hundredths = record {
  Float = ℕ;
  is_negative = λ r. false;
  is_one_or_more = λ r. leb 100 r;
  zero_float = 0;
  below_one = 99;
  floor_times_five = λ r. r * 5 / 100;
  floor_cap = λ r. (9000 - 63 * r) / 100;
}

pub hundredths-IsLawful : IsLawfulJitter hundredths
hundredths-IsLawful = record {
  zero_in = (refl, refl);
  below_one_in = (refl, refl);
  five_bound = λ r low high. ground arith;
  cap_bounds = λ r low high. ground arith;
}

abbrev pub access_point : Device
access_point = record {
  mac = "aabbccddeeff";
  name = "attic";
  model = "U7PG2";
  firmware = "6.6.77";
  serial = "";
  site_id = "";
  state = state_adopted;
  ip = "192.0.2.7";
  inform_url = "";
  last_seen = 0;
  first_seen = 0;
  cfg_version = "0011223344556677";
  applied_cfg = "0011223344556677";
  authkeys = "0123456789abcdef0123456789abcdef" ∷ [];
  x_authkey = "0123456789abcdef0123456789abcdef";
  aes_gcm = true;
  key_confirmed = true;
  last_ups = no_rows;
  extra = no_rows;
  led_override = "";
  disabled = false;
  led_override_color_brightness = none;
  led_override_color = "";
  ssh_password = "";
  regulatory_country_code = 840;
  ssh_public_keys = [];
}

abbrev pub deps : Deps
deps = record {
  jitter = hundredths;
  random = 50;
  key_chars =
      λ k n. some (if leb n 16 then "fedcba9876543210" else "fedcba9876543210fedcba9876543210");
  wireless = λ d. home ∷ [];
  render = λ d ws plan. ok ("sshd.status=enabled\n", []);
  controller_url = "";
  inform_listen_addr = ":8080";
  urls = record {
    host = λ s. "";
    port = λ s. "";
    is_https = λ s. false;
    listen_port = λ s. "8080";
  };
  formats = formats;
  sha256_hex = λ s. s;
  sha256_24 = λ s. s;
  hash_rows = λ rows. "hash";
}

abbrev pub request_of : Device → String → Request
request_of d used = record {
  transport = encrypted;
  device = d;
  body = no_rows;
  used_key = used;
  now = 1000;
  prev_noop_target = 0;
}
