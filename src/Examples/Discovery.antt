-- ===== src/Examples/Discovery.antt =====
-- Packets of the discovery protocol.
use open_unifi.Base.Results.{ok}
use open_unifi.Base.{
  ℕ, ◌^◌, ◌%◌, ◌<◌, ◌≡◌, ◌↔◌, refl, false, none, some, List, [], ◌∷◌, length, arith,
}
use open_unifi.Inform.Bytes.{Bytes}
use open_unifi.Server.Discovery.{
  NetText, DiscoveryInfo, blank, set_field, discovery_mac_string, walk, read_modern,
}
use open_unifi.Server.Discovery.Walk.{walk_all, Entries, walk_iff}
use open_unifi.Server.Discovery.Reply.{
  ReplyMetadata, identity_bytes, reply_body, discovery_encode_reply,
}
use open_unifi.Server.Discovery.Reply.RoundTrip.{heard, read_modern-discovery_encode_reply}
use open_unifi.Server.Discovery.Listener.{
  Host, DiscoverySightings, parse_discovery, nothing, handle_discovery_packet,
}
use open_unifi.Server.Discovery.Listener.Handled.{
  Datagram, handle_all, IsNumbered, handle_discovery_packet-no_replay,
}

abbrev net : NetText
net = record { ip_string = λ ip. ip; to4 = λ ip. some ip; trim_space = λ text. text }

-- A model and an entry of an unknown type.
abbrev packet : Bytes
packet = 21 ∷ 0 ∷ 2 ∷ b'U' ∷ b'7' ∷ 99 ∷ 0 ∷ 0 ∷ []

abbrev with_model : DiscoveryInfo
with_model = record (blank 2 6) { model = b'U' ∷ b'7' ∷ [] }

walk_iff_example :
    (walk_all net packet (blank 2 6) ≡ some with_model) ↔ Entries net packet (blank 2 6) with_model
walk_iff_example = walk_iff net packet (blank 2 6) with_model (omega arith)

is_read : walk_all net packet (blank 2 6) ≡ some with_model
unfolding walk set_field
is_read = refl

abbrev host : ReplyMetadata
host = record {
  identity = "aa:bb:cc:dd:ee:ff";
  firmware = b'1' ∷ [];
  board = b'b' ∷ [];
  version = b'2' ∷ [];
  aliases =
      record { mac = 0xaa ∷ 0xbb ∷ 0xcc ∷ 0xdd ∷ 0xee ∷ 0xff ∷ []; ip = 10 ∷ 0 ∷ 0 ∷ 1 ∷ [] } ∷ [];
  setup = false;
}

abbrev host_mac : Bytes
host_mac = 0xaa ∷ 0xbb ∷ 0xcc ∷ 0xdd ∷ 0xee ∷ 0xff ∷ []

host_identity : identity_bytes host.identity ≡ some host_mac
unfolding identity_bytes
host_identity = refl

short_body : length (reply_body host (7 % 2 ^ 32) host_mac) < 2 ^ 16
unfolding reply_body
short_body = omega arith

read_modern-discovery_encode_reply_example :
    read_modern net none (discovery_encode_reply host 7)
    ≡ some (heard net none host (7 % 2 ^ 32) host_mac)
read_modern-discovery_encode_reply_example =
    read_modern-discovery_encode_reply net none host 7 host_mac host_identity refl
      ((refl, refl), tt) (omega arith) (omega arith) (omega arith) short_body

abbrev listener : Host
listener = record { net = net; metadata = host; discoverable = false; devices = some [] }

abbrev sender : Bytes
sender = 1 ∷ 2 ∷ 3 ∷ 4 ∷ 5 ∷ 6 ∷ []

-- An announcement with a MAC, a number and a sender, after its version.
abbrev rest_of : ℕ → Bytes
rest_of seq =
    6 ∷ 0 ∷ 25 ∷ 1 ∷ 0 ∷ 6 ∷ 1 ∷ 2 ∷ 3 ∷ 4 ∷ 5 ∷ 6 ∷ 18 ∷ 0 ∷ 4 ∷ 0 ∷ 0 ∷ 0 ∷ seq ∷ 19 ∷ 0 ∷ 6 ∷ 1
    ∷ 2 ∷ 3 ∷ 4 ∷ 5 ∷ 6 ∷ []

abbrev announced : ℕ → DiscoveryInfo
announced n = record (blank 2 6) { mac = some sender; seq = some n; sender_mac = some sender }

reads_five : read_modern net none (2 ∷ rest_of 5) ≡ some (announced 5)
unfolding read_modern walk set_field
reads_five = refl

numbered : IsNumbered listener none (2 ∷ rest_of 5) (discovery_mac_string sender) 5
numbered = record {
  rest = rest_of 5;
  begins = refl;
  info = announced 5;
  reads = reads_five;
  version = refl;
  no_query = refl;
  mac = sender;
  numbered = refl;
  named = refl;
}

abbrev quiet : DiscoverySightings
quiet = record { by_mac = []; reply_seq = 0 }

abbrev one_seen : DiscoverySightings
one_seen = record quiet {
  by_mac = (discovery_mac_string sender, record { last_seq = 5; last_seen = 100 }) ∷ [];
}

taken : parse_discovery listener 100 none (2 ∷ rest_of 5) quiet ≡ (ok (announced 5), one_seen)
unfolding parse_discovery
taken = refl

abbrev between : List Datagram
between = record { now = 300; src = none; packet = 2 ∷ rest_of 6 } ∷ []

handle_discovery_packet-no_replay_example :
    handle_discovery_packet listener 400 none (2 ∷ rest_of 5) (handle_all listener between one_seen)
    ≡ (nothing, handle_all listener between one_seen)
handle_discovery_packet-no_replay_example =
    handle_discovery_packet-no_replay listener 100 none (2 ∷ rest_of 5)
      (discovery_mac_string sender) 5 quiet one_seen (announced 5) numbered taken between
      (omega arith) 400 5 none (2 ∷ rest_of 5) numbered (omega arith) (omega arith)
