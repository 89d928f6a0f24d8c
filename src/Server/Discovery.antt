-- ===== src/Server/Discovery.antt =====
-- internal/server/discovery.go: the datagrams of the discovery protocol, read. A text of a datagram
-- is the list of its bytes. `net.IP.String`, `net.IP.To4` and `strings.TrimSpace` are library code.
pub mod Listener
pub mod Note
pub mod Reply
pub mod Walk
use Prim.Native.String.{String, ◌++◌ as ◌<>◌}
use open_unifi.Base.{
  ℕ, zero, suc, ◌+◌, ◌-◌, ◌/◌, ◌%◌, Bool, true, false, not, ◌&&◌, ◌||◌, Option, none, some, List,
  [], ◌∷◌, ◌++◌, ◌==◌, ltb, leb, if◌then◌else◌, length, take, drop, get_or,
}
use open_unifi.Base.Results.{Result, ok, err}
use open_unifi.Inform.Bytes.{Bytes, be_value, slice}

pub record NetText : Type 0 where
  pub ip_string : Bytes → Bytes
  pub to4 : Bytes → Option Bytes
  pub trim_space : Bytes → Bytes

abbrev pub discovery_min_modern_len : ℕ
discovery_min_modern_len = 4

abbrev pub discovery_min_v0_len : ℕ
discovery_min_v0_len = 15

-- The TLV ids.
abbrev pub tlv_mac : ℕ
tlv_mac = 1

abbrev pub tlv_alias_ip : ℕ
tlv_alias_ip = 2

abbrev pub tlv_version : ℕ
tlv_version = 3

abbrev pub tlv_uptime : ℕ
tlv_uptime = 10

abbrev pub tlv_hostname : ℕ
tlv_hostname = 11

abbrev pub tlv_platform : ℕ
tlv_platform = 12

abbrev pub tlv_essid : ℕ
tlv_essid = 13

abbrev pub tlv_wmode : ℕ
tlv_wmode = 14

abbrev pub tlv_fingerprint : ℕ
tlv_fingerprint = 16

abbrev pub tlv_seq : ℕ
tlv_seq = 18

abbrev pub tlv_sender_mac : ℕ
tlv_sender_mac = 19

abbrev pub tlv_model : ℕ
tlv_model = 21

abbrev pub tlv_short_version : ℕ
tlv_short_version = 22

abbrev pub tlv_factory : ℕ
tlv_factory = 23

abbrev pub tlv_sshd_port : ℕ
tlv_sshd_port = 28

pub record DiscoveryAlias : Type 0 where
  pub mac : Bytes
  pub ip : Bytes

-- A nil slice is `none`, and a sequence number of -1 too.
pub record DiscoveryInfo : Type 0 where
  pub ver : ℕ
  pub cmd : ℕ
  pub mac : Option Bytes
  pub sender_mac : Option Bytes
  pub seq : Option ℕ
  pub aliases : List DiscoveryAlias
  pub version : Bytes
  pub hostname : Bytes
  pub platform : Bytes
  pub essid : Bytes
  pub wmode : ℕ
  pub fingerprint : Bytes
  pub model : Bytes
  pub short_ver : Bytes
  pub factory : Bool
  pub has_factory : Bool
  pub sshd_port : ℕ
  pub uptime_sec : ℕ
  pub ip : Bytes

-- A zero record of the given version and command, with no sequence number.
abbrev pub blank : ℕ → ℕ → DiscoveryInfo
blank ver cmd = record {
  ver = ver;
  cmd = cmd;
  mac = none;
  sender_mac = none;
  seq = none;
  aliases = [];
  version = [];
  hostname = [];
  platform = [];
  essid = [];
  wmode = 0;
  fingerprint = [];
  model = [];
  short_ver = [];
  factory = false;
  has_factory = false;
  sshd_port = 0;
  uptime_sec = 0;
  ip = [];
}

abbrev pub hex_digits : List String
hex_digits =
    "0" ∷ "1" ∷ "2" ∷ "3" ∷ "4" ∷ "5" ∷ "6" ∷ "7" ∷ "8" ∷ "9" ∷ "a" ∷ "b" ∷ "c" ∷ "d" ∷ "e" ∷ "f"
    ∷ []

abbrev hex_byte : ℕ → String
hex_byte b = get_or hex_digits (b / 16) "" <> get_or hex_digits (b % 16) ""

-- The bytes in hexadecimal, with a separator between them.
unfoldable pub join_hex : String → Bytes → String
join_hex sep [] = ""
join_hex sep (b ∷ []) = hex_byte b
join_hex sep (b ∷ c ∷ bs) = hex_byte b <> sep <> join_hex sep (c ∷ bs)

unfoldable pub discovery_mac_string : Bytes → String
unfolding join_hex
discovery_mac_string mac = if length mac == 6 then join_hex ":" mac else ""

unfoldable pub discovery_canonical_mac : Bytes → String
unfolding join_hex
discovery_canonical_mac mac = join_hex "" mac

module _ (N : NetText) where
  -- The `switch` of the loop: what one entry sets. An entry of another length or type is skipped.
  unfoldable pub set_field : ℕ → Bytes → DiscoveryInfo → DiscoveryInfo
  set_field typ val info =
      let l = length val in
      let text = N.trim_space val in
      let number = be_value 0 (take 4 val) in
      if typ == tlv_mac
      then (if l == 6 then record info { mac = some val } else info)
      else if typ == tlv_alias_ip
      then (if l == 10
          then record info {
            aliases = info.aliases ++ (record { mac = take 6 val; ip = drop 6 val } ∷ []);
          }
          else info)
      else if typ == tlv_version
      then record info { version = text }
      else if typ == tlv_uptime
      then (if leb 4 l then record info { uptime_sec = number } else info)
      else if typ == tlv_hostname
      then record info { hostname = text }
      else if typ == tlv_platform
      then record info { platform = text }
      else if typ == tlv_essid
      then record info { essid = text }
      else if typ == tlv_wmode
      then (if leb 4 l then record info { wmode = number } else info)
      else if typ == tlv_fingerprint
      then record info { fingerprint = text }
      else if typ == tlv_seq
      then (if leb 4 l then record info { seq = some number } else info)
      else if typ == tlv_sender_mac
      then (if l == 6 then record info { sender_mac = some val } else info)
      else if typ == tlv_model
      then record info { model = text }
      else if typ == tlv_short_version
      then record info { short_ver = text }
      else if typ == tlv_factory
      then (if leb 1 l
          then record info { factory = not (get_or val 0 0 == 0); has_factory = true }
          else info)
      else if typ == tlv_sshd_port
      then (if leb 4 l then record info { sshd_port = number } else info)
      else info

  -- The loop over the entries. Each round reads three bytes or more, so the length of the data is
  -- fuel enough; `none` is a packet that is discarded.
  unfoldable pub walk : ℕ → Bytes → DiscoveryInfo → Option DiscoveryInfo
  walk fuel [] info = some info
  walk zero (typ ∷ rest) info = none
  walk (suc fuel) (typ ∷ rest) info =
      let l = be_value 0 (take 2 rest) in
      let val = take l (drop 2 rest) in
      let more = walk fuel (drop l (drop 2 rest)) (set_field typ val info) in
      if ltb (length rest) 2 then none else if ltb (length (drop 2 rest)) l then none else more

  abbrev pub first_ip : List DiscoveryAlias → Option Bytes → Bytes
  first_ip [] none = []
  first_ip [] (some src) = N.ip_string src
  first_ip (a ∷ rest) src = N.ip_string a.ip

  -- The address of the first alias, else the sender's.
  abbrev pub discovery_candidate_ip : Option Bytes → DiscoveryInfo → Bytes
  discovery_candidate_ip src info = first_ip info.aliases src

  abbrev pub found_at : Option Bytes → Option DiscoveryInfo → Option DiscoveryInfo
  found_at src none = none
  found_at src (some info) = some (record info { ip = discovery_candidate_ip src info })

  -- The first half of `parseDiscoveryModern`, up to the gates. `none` is a packet that is dropped.
  unfoldable pub read_modern : Option Bytes → Bytes → Option DiscoveryInfo
  unfolding walk set_field
  read_modern src b =
      let end = discovery_min_modern_len + be_value 0 (slice b 2 4) in
      let body = slice b discovery_min_modern_len end in
      let info = found_at src (walk (length body) body (blank (get_or b 0 0) (get_or b 1 0))) in
      if ltb (length b) discovery_min_modern_len
      then none
      else if ltb (length b) end
      then none
      else info

  -- The version text of a card is what follows its fifteenth byte.
  unfoldable pub parse_discovery_v0 : Bytes → Option DiscoveryInfo
  parse_discovery_v0 b =
      let card = record (blank 0 0) {
        mac = some (slice b 1 7);
        ip = N.ip_string (slice b 7 11);
        seq = some 0;
        version =
            if ltb discovery_min_v0_len (length b)
            then N.trim_space (drop discovery_min_v0_len b)
            else [];
      } in
      if ltb (length b) discovery_min_v0_len then none else some card
