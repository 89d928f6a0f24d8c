-- ===== src/Server/Discovery/Reply.antt =====
-- internal/server/discovery.go: `discoveryEncodeReply`. What `net.Interfaces` tells of the host is
-- given as the metadata.
pub mod RoundTrip
use Prim.Native.String.{String}
use open_unifi.Base.{
  ℕ, ◌^◌, ◌/◌, ◌%◌, Bool, true, false, Option, none, some, List, [], ◌∷◌, ◌++◌, ◌==◌, if◌then◌else◌,
  length,
}
use open_unifi.Base.Text.{codes}
use open_unifi.Inform.Bytes.{Bytes, put_uint16, put_uint32}
use open_unifi.Inform.Hex.{strip_colons, parse_pairs}
use open_unifi.Server.Discovery.{
  DiscoveryAlias, tlv_mac, tlv_alias_ip, tlv_version, tlv_seq, tlv_sender_mac, tlv_model,
  tlv_short_version, tlv_factory,
}

pub record ReplyMetadata : Type 0 where
  pub identity : String
  pub firmware : Bytes
  pub board : Bytes
  pub version : Bytes
  pub aliases : List DiscoveryAlias
  pub setup : Bool

-- `add`: a type, the length in two bytes, and the value.
abbrev pub entry : ℕ → Bytes → Bytes
entry typ val = typ ∷ put_uint16 (length val) ++ val

unfoldable pub alias_entries : List DiscoveryAlias → Bytes
alias_entries [] = []
alias_entries (a ∷ rest) = entry tlv_alias_ip (a.mac ++ a.ip) ++ alias_entries rest

abbrev pub factory_byte : Bool → Bytes
factory_byte true = 1 ∷ []
factory_byte false = 0 ∷ []

unfoldable pub reply_body : ReplyMetadata → ℕ → Bytes → Bytes
unfolding alias_entries
reply_body m seq mac =
    let texts =
      entry tlv_version m.firmware
      ++ (entry tlv_model m.board
          ++ (entry tlv_short_version m.version ++ entry tlv_factory (factory_byte m.setup))) in
    let macs =
      entry tlv_sender_mac mac ++ (entry tlv_mac mac ++ (alias_entries m.aliases ++ texts)) in
    entry tlv_seq (put_uint32 seq) ++ macs

-- `hex.DecodeString` of the identity without its colons.
unfoldable pub identity_bytes : String → Option Bytes
unfolding strip_colons parse_pairs
identity_bytes identity = parse_pairs (strip_colons (codes identity))

abbrev pub framed : Bytes → Bytes
framed body = 2 ∷ 9 ∷ put_uint16 (length body) ++ body

abbrev pub reply_of : ReplyMetadata → ℕ → Option Bytes → Bytes
reply_of m seq none = []
reply_of m seq (some mac) = if length mac == 6 then framed (reply_body m seq mac) else []

-- The sequence number is a `uint32`.
unfoldable pub discovery_encode_reply : ReplyMetadata → ℕ → Bytes
unfolding identity_bytes reply_body
discovery_encode_reply m seq = reply_of m (seq % 2 ^ 32) (identity_bytes m.identity)
