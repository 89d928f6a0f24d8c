-- ===== src/Server/Discovery/Listener.antt =====
-- internal/server/discovery.go: the gates of a packet, the memory against replays, and what the
-- listener does with one datagram. The seams that the tests set are left out: the identity is the
-- host's own, the sender's address decides who is answered, and the reply goes back to it.
pub mod Replay
pub mod Handled
use Prim.Native.String.{String}
use open_unifi.Base.{
  ℕ, suc, ◌+◌, ◌-◌, Bool, true, false, not, ◌&&◌, ◌||◌, Option, none, some, List, [], ◌∷◌, ◌==◌,
  ltb, leb, if◌then◌else◌, length, get_or,
}
use open_unifi.Base.Text.{str_eq}
use open_unifi.Base.Results.{Result, ok, err}
use open_unifi.Base.Tables.{find, bind, keep_if}
use open_unifi.Store.Device.{Device, state_adopting}
use open_unifi.Inform.Bytes.{Bytes}
use open_unifi.Server.Discovery.{
  NetText, DiscoveryInfo, discovery_mac_string, discovery_canonical_mac, read_modern,
  parse_discovery_v0,
}
use open_unifi.Server.Discovery.Note.{discovery_note, bytes_eq}
use open_unifi.Server.Discovery.Reply.{ReplyMetadata, discovery_encode_reply}

-- Five seconds, in nanoseconds.
abbrev pub discovery_dedup_window : ℕ
discovery_dedup_window = 5000000000

abbrev pub discovery_prune_threshold : ℕ
discovery_prune_threshold = 4096

pub record DiscoverySighting : Type 0 where
  pub last_seq : ℕ
  pub last_seen : ℕ

pub record DiscoverySightings : Type 0 where
  pub by_mac : List (String × DiscoverySighting)
  pub reply_seq : ℕ

-- The server around the listener: its host, its configuration and its stored devices; a store that
-- fails to list them is `none`.
pub record Host : Type 0 where
  pub net : NetText
  pub metadata : ReplyMetadata
  pub discoverable : Bool
  pub devices : Option (List Device)

unfoldable pub discovery_model_blocked : Bytes → Bool
unfolding bytes_eq
discovery_model_blocked model =
    bytes_eq model (b'M' ∷ b'2' ∷ b'M' ∷ [])
    || bytes_eq model (b'M' ∷ b'2' ∷ b'S' ∷ [])
    || bytes_eq model (b'P' ∷ b'8' ∷ b'U' ∷ [])
    || bytes_eq model (b'P' ∷ b'6' ∷ b'E' ∷ [])
    || bytes_eq model (b'P' ∷ b'3' ∷ b'U' ∷ [])
    || bytes_eq model (b'P' ∷ b'3' ∷ b'E' ∷ [])
    || bytes_eq model (b'P' ∷ b'1' ∷ b'U' ∷ [])
    || bytes_eq model (b'P' ∷ b'1' ∷ b'E' ∷ [])
    || bytes_eq model (b'I' ∷ b'W' ∷ b'O' ∷ b'2' ∷ b'U' ∷ [])
    || bytes_eq model (b'I' ∷ b'W' ∷ b'D' ∷ b'1' ∷ b'U' ∷ [])

-- A repeat: seen within the window, and its number is not higher.
abbrev pub is_repeat : ℕ → ℕ → Option DiscoverySighting → Bool
is_repeat now seq none = false
is_repeat now seq (some prev) =
    ltb (now - prev.last_seen) discovery_dedup_window && leb seq prev.last_seq

unfoldable pub prune : ℕ → List (String × DiscoverySighting) → List (String × DiscoverySighting)
unfolding keep_if
prune now seen = keep_if (λ e. not (leb discovery_dedup_window (now - e.1.last_seen))) seen

abbrev pub pruned : ℕ → List (String × DiscoverySighting) → List (String × DiscoverySighting)
pruned now seen = if ltb discovery_prune_threshold (length seen) then prune now seen else seen

-- The sightings after the packet, when it is not a repeat.
unfoldable pub see_discovery :
    ℕ → String → ℕ → List (String × DiscoverySighting) → Option (List (String × DiscoverySighting))
unfolding bind prune
see_discovery now key seq seen =
    if is_repeat now seq (find key seen)
    then none
    else some (pruned now (bind key (record { last_seq = seq; last_seen = now }) seen))

abbrev pub mac_text : Option Bytes → String
mac_text none = ""
mac_text (some mac) = discovery_mac_string mac

-- A packet that echoes the host's own MAC.
unfoldable pub discovery_self_guard : Host → DiscoveryInfo → Bool
unfolding discovery_mac_string
discovery_self_guard h info =
    let echo = mac_text info.sender_mac in not (str_eq echo "") && str_eq echo h.metadata.identity

-- The number of a valid version 2 packet: it has a MAC, a number above zero and a sender.
abbrev pub valid_seq : DiscoveryInfo → Option (Bytes × ℕ)
valid_seq info = elim info.mac [
  | none ↦ none
  | some mac ↦ elim info.seq [
    | none ↦ none
    | some seq ↦ elim info.sender_mac [
      | none ↦ none
      | some sender ↦ if ltb seq 1 then none else some (mac, seq)
    ]
  ]
]

abbrev pub after_repeat_gate :
    DiscoveryInfo
    → DiscoverySightings
    → Option (List (String × DiscoverySighting))
    → Option DiscoveryInfo × DiscoverySightings
after_repeat_gate info st none = (none, st)
after_repeat_gate info st (some seen) = (some info, record st { by_mac = seen })

unfoldable pub gates :
    Host
    → ℕ
    → DiscoveryInfo
    → Option (Bytes × ℕ)
    → DiscoverySightings
    → Option DiscoveryInfo × DiscoverySightings
unfolding see_discovery discovery_self_guard discovery_model_blocked discovery_mac_string
gates h now info none st = (none, st)
gates h now info (some (mac, seq)) st =
    if discovery_self_guard h info || discovery_model_blocked info.model
    then (none, st)
    else after_repeat_gate info st (see_discovery now (discovery_mac_string mac) seq st.by_mac)

-- The second half of `parseDiscoveryModern`: a query passes all gates, an older version too.
unfoldable pub gate_modern :
    Host → ℕ → Option DiscoveryInfo → DiscoverySightings → Option DiscoveryInfo × DiscoverySightings
unfolding gates
gate_modern h now none st = (none, st)
gate_modern h now (some info) st =
    if info.ver == 2 && not (info.cmd == 8)
    then gates h now info (valid_seq info) st
    else (some info, st)

-- The version of a packet that is dropped is kept, for the warning.
abbrev pub or_version :
    ℕ → Option DiscoveryInfo × DiscoverySightings → Result ℕ DiscoveryInfo × DiscoverySightings
or_version ver (none, st) = (err ver, st)
or_version ver (some info, st) = (ok info, st)

unfoldable pub parse_discovery :
    Host
    → ℕ
    → Option Bytes
    → Bytes
    → DiscoverySightings
    → Result ℕ DiscoveryInfo × DiscoverySightings
unfolding gate_modern read_modern parse_discovery_v0
parse_discovery h now src [] st = (err 0, st)
parse_discovery h now src (ver ∷ rest) st =
    if ver == 0
    then or_version 0 (parse_discovery_v0 h.net (ver ∷ rest), st)
    else if ver == 1 || ver == 2
    then or_version ver (gate_modern h now (read_modern h.net src (ver ∷ rest)) st)
    else (err ver, st)

unfoldable pub any_adopting : List Device → Bool
any_adopting [] = false
any_adopting (d ∷ ds) = leb state_adopting d.state || any_adopting ds

unfoldable pub discovery_reply_enabled : Host → Bool
unfolding any_adopting
discovery_reply_enabled h =
    if h.discoverable
    then true
    else elim h.devices [ none ↦ false | some ds ↦ not (any_adopting ds) ]

abbrev site_local : Option Bytes → Bool
site_local none = false
site_local (some ip) =
    let a = get_or ip 0 0 in
    let b = get_or ip 1 0 in a == 10 || a == 172 && leb 16 b && leb b 31 || a == 192 && b == 168

unfoldable pub discovery_site_local_ipv4 : NetText → Option Bytes → Bool
discovery_site_local_ipv4 N none = false
discovery_site_local_ipv4 N (some src) = site_local (N.to4 src)

-- What the listener does with a datagram: nothing that leaves it, a warning about a version, a
-- reply to the sender, or a call of `MarkPending`.
pub data Reaction : Type 0 where
  nothing : Reaction
  warn_version : ℕ → Reaction
  reply : Bytes → Reaction
  mark_pending : String → Bytes → Reaction

abbrev pub record_discovery_candidate : DiscoveryInfo → Reaction
record_discovery_candidate info = elim info.mac [
  | none ↦ nothing
  | some mac ↦
      if length mac == 6
      then mark_pending (discovery_canonical_mac mac) (discovery_note info)
      else nothing
]

-- A query is answered, with the next number, when the sender is on the site and is not the host.
unfoldable pub answer_query :
    Host → Option Bytes → DiscoveryInfo → DiscoverySightings → Reaction × DiscoverySightings
unfolding discovery_site_local_ipv4 discovery_self_guard discovery_reply_enabled
    discovery_encode_reply
answer_query h src info st =
    let allowed =
      discovery_site_local_ipv4 h.net src
      && not (discovery_self_guard h info)
      && discovery_reply_enabled h in
    if allowed
    then (
      reply (discovery_encode_reply h.metadata (suc st.reply_seq)),
      record st { reply_seq = suc st.reply_seq },
    )
    else (nothing, st)

unfoldable pub dispatch : DiscoveryInfo → Reaction
unfolding discovery_canonical_mac discovery_note
dispatch info =
    if info.cmd == 6 || info.cmd == 0x80 then record_discovery_candidate info else nothing

abbrev pub react :
    Host
    → Option Bytes
    → Result ℕ DiscoveryInfo × DiscoverySightings
    → Reaction × DiscoverySightings
react h src (err ver, st) = (if ltb 2 ver then warn_version ver else nothing, st)
react h src (ok info, st) =
    if info.ver == 2 && info.cmd == 8 then answer_query h src info st else (dispatch info, st)

unfoldable pub handle_discovery_packet :
    Host → ℕ → Option Bytes → Bytes → DiscoverySightings → Reaction × DiscoverySightings
unfolding parse_discovery answer_query dispatch
handle_discovery_packet h now src b st = react h src (parse_discovery h now src b st)
