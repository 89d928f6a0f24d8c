-- ===== src/Server/Discovery/Note.antt =====
-- internal/server/discovery.go: `discoveryNote`, the comma-joined text of a candidate.
use Prim.Native.String.{String}
use open_unifi.Base.{ℕ, Bool, true, false, List, [], ◌∷◌, ◌++◌, ◌==◌, ltb, if◌then◌else◌, length}
use open_unifi.Base.Text.{codes, codes_eq, itoa}
use open_unifi.Inform.Bytes.{Bytes}
use open_unifi.Server.Discovery.{DiscoveryInfo}

unfoldable pub bytes_eq : Bytes → Bytes → Bool
unfolding codes_eq
bytes_eq a b = codes_eq a b

-- `strings.ReplaceAll(v, ",", "")`
unfoldable pub without_commas : Bytes → Bytes
without_commas [] = []
without_commas (c ∷ cs) = let rest = without_commas cs in if c == b',' then rest else c ∷ rest

-- A text part is written unless it is empty, a number unless it is zero.
abbrev pub add_string : String → Bytes → List Bytes → List Bytes
add_string k v parts =
    let clean = without_commas v in
    if length clean == 0 then parts else parts ++ ((codes k ++ b'=' ∷ clean) ∷ [])

abbrev pub add_int : String → ℕ → List Bytes → List Bytes
add_int k v parts = if ltb 0 v then parts ++ ((codes k ++ b'=' ∷ codes (itoa v)) ∷ []) else parts

unfoldable pub join_commas : List Bytes → Bytes
join_commas [] = []
join_commas (p ∷ []) = p
join_commas (p ∷ q ∷ ps) = p ++ b',' ∷ join_commas (q ∷ ps)

abbrev pub add_factory : Bool → Bool → List Bytes → List Bytes
add_factory false factory parts = parts
add_factory true factory parts =
    parts ++ ((codes "factory=" ++ (if factory then codes "true" else codes "false")) ∷ [])

unfoldable pub note_parts : DiscoveryInfo → List Bytes
unfolding without_commas itoa
note_parts info =
    let a = add_string "version" info.version (add_int "uptime" info.uptime_sec []) in
    let b = add_string "hostname" info.hostname (add_string "model" info.model a) in
    let c = add_string "ip" info.ip (add_int "sshd_port" info.sshd_port b) in
    let d = add_string "platform" info.platform (add_string "shortversion" info.short_ver c) in
    let e = add_int "wmode" info.wmode (add_string "essid" info.essid d) in
    add_factory info.has_factory info.factory e

unfoldable pub discovery_note : DiscoveryInfo → Bytes
unfolding note_parts join_commas
discovery_note info = codes "discovery:" ++ join_commas (note_parts info)
