-- ===== src/Inform/Packet.antt =====
-- internal/inform/inform.go: the framed packet. `parse_packet` and `serialize` are `ParsePacket`
-- and `Packet.Serialize`; a Go error is a constructor of `FrameError`, with the data of its text.
pub mod RoundTrip
pub mod Accepts
use open_unifi.Base.{
  ℕ, ◌+◌, ◌-◌, ◌%◌, ◌^◌, ◌≤◌, ◌<◌, ◌≡◌, not, List, [], ◌∷◌, ◌++◌, ltb, ◌==◌, if◌then◌else◌, length,
  All,
}
use open_unifi.Base.Results.{Result, ok, err}
use open_unifi.Inform.Bytes.{Bytes, IsByte, put_uint16, put_uint32, be_value, slice}

abbrev pub magic : ℕ
magic = 0x544E4255

abbrev pub packet_version : ℕ
packet_version = 0

abbrev pub data_version : ℕ
data_version = 1

abbrev pub max_body_size : ℕ
max_body_size = 0xA00000

abbrev pub header_len : ℕ
header_len = 40

pub record Packet : Type 0 where
  pub version : ℕ  -- uint32
  pub mac : Bytes
  pub flags : ℕ  -- uint16
  pub iv : Bytes  -- [16]byte
  pub data_version : ℕ  -- uint32
  pub payload : Bytes

pub data FrameError : Type 0 where
  content_too_short : FrameError
  content_too_long : FrameError
  bad_magic : FrameError
  header_too_short : FrameError
  bad_length : FrameError
  unsupported_version : ℕ → FrameError
  bad_mac_length : ℕ → FrameError

-- The fields that are read once the header has been accepted.
unfoldable pub read_packet : Bytes → Packet
read_packet body = record {
  version = be_value 0 (slice body 4 8);
  mac = slice body 8 14;
  flags = be_value 0 (slice body 14 16);
  iv = slice body 16 32;
  data_version = be_value 0 (slice body 32 36);
  payload = slice body header_len (header_len + be_value 0 (slice body 36 40));
}

-- The tests in the code's order, over the length of the body and the words at offsets 0, 36
-- and 32. (No word is read before the length test that covers it has passed.)
frame_checks : ℕ → ℕ → ℕ → ℕ → Packet → Result FrameError Packet
frame_checks len first data_len dv p =
    if ltb len 8
    then err content_too_short
    else if ltb max_body_size len
    then err content_too_long
    else if not (first == magic)
    then err bad_magic
    else if ltb len header_len
    then err header_too_short
    else if ltb ((len - header_len) % 2 ^ 32) data_len
    then err bad_length
    else if not (dv == data_version)
    then err (unsupported_version dv)
    else ok p

unfoldable pub parse_packet : Bytes → Result FrameError Packet
unfolding frame_checks read_packet
parse_packet body =
    frame_checks (length body) (be_value 0 (slice body 0 4)) (be_value 0 (slice body 36 40))
      (be_value 0 (slice body 32 36)) (read_packet body)

-- The 40 bytes that `putHeader` writes, for a MAC of six bytes.
unfoldable pub put_header : Packet → ℕ → Bytes
put_header p payload_len =
    put_uint32 magic
    ++ (put_uint32 p.version
        ++ (p.mac
            ++ (put_uint16 p.flags
                ++ (p.iv ++ (put_uint32 p.data_version ++ put_uint32 payload_len)))))

unfoldable pub serialize : Packet → Result FrameError Bytes
serialize p =
    if not (length p.mac == 6)
    then err (bad_mac_length (length p.mac))
    else ok (put_header p (length p.payload % 2 ^ 32) ++ p.payload)

unfoldable pub header_bytes : Packet → ℕ → Result FrameError Bytes
header_bytes p payload_len =
    if not (length p.mac == 6)
    then err (bad_mac_length (length p.mac))
    else ok (put_header p payload_len)

-- What Go's types give for every packet: the ranges of the words, the array of the IV, bytes.
pub record IsTyped (p : Packet) : Type 0 where
  pub version_fits : p.version < 2 ^ 32
  pub flags_fit : p.flags < 2 ^ 16
  pub data_version_fits : p.data_version < 2 ^ 32
  pub iv_size : length p.iv ≡ 16

-- A body that `ParsePacket` accepts: its length is within the bounds and covers the payload that
-- the header announces, and the magic and the data version are the supported ones.
pub record IsAccepted (body : Bytes) : Type 0 where
  pub header_present : header_len ≤ length body
  pub within : length body ≤ max_body_size
  pub magic_matches : be_value 0 (slice body 0 4) ≡ magic
  pub payload_present : header_len + be_value 0 (slice body 36 40) ≤ length body
  pub supported : be_value 0 (slice body 32 36) ≡ data_version

-- A packet that may travel: a whole MAC, the supported data version, a body within the limit.
pub record IsSendable (p : Packet) : Type 0 where
  pub typed : IsTyped p
  pub mac_size : length p.mac ≡ 6
  pub supported : p.data_version ≡ data_version
  pub within : header_len + length p.payload ≤ max_body_size
