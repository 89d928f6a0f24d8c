-- ===== src/Examples/Inform.antt =====
-- The packet codec at concrete inputs.
use open_unifi.Base.{
  ◌+◌, take, ℕ, ◌≡◌, ◌↔◌, inl, refl, Option, some, List, [], ◌∷◌, ◌++◌, length, replicate, arith,
}
use mathlib.Core.List.{Memᴰ}
use open_unifi.Base.Results.{ok, ◌>>=◌}
use open_unifi.Inform.Bytes.{Bytes}
use open_unifi.Inform.Packet.{
  Packet, read_packet, parse_packet, serialize, IsTyped, IsAccepted, IsSendable,
}
use open_unifi.Inform.Packet.RoundTrip.{parse_packet-serialize}
use open_unifi.Inform.Packet.Accepts.{serialize-parse_packet, parse_packet-ok_iff}
use open_unifi.Inform.Pad.{pkcs7_unpad}
use open_unifi.Inform.Hex.{decode_key_hex}
use open_unifi.Inform.Crypto.{decrypt_payload, decrypt_body}
use open_unifi.Inform.Crypto.Respond.{Answered, respond_read}
use open_unifi.Inform.Codec.{Decoded, decode, attempt, is_plain}
use open_unifi.Inform.Codec.Loop.{FirstWinner, Opened, decode-ok_iff, decode-Opened}
use open_unifi.Examples.Data.{every-IsByte, ciphers, ciphers-IsLawful}

abbrev mac : Bytes
mac = 0xaa ∷ 0xbb ∷ 0xcc ∷ 0xdd ∷ 0xee ∷ 0xff ∷ []

abbrev iv : Bytes
iv = 1 ∷ 2 ∷ 3 ∷ 4 ∷ 5 ∷ 6 ∷ 7 ∷ 8 ∷ 9 ∷ 10 ∷ 11 ∷ 12 ∷ 13 ∷ 14 ∷ 15 ∷ 16 ∷ []

abbrev text : Bytes
text = b'{' ∷ b'}' ∷ []

abbrev packet : Packet
packet = record {
  version = 0;
  mac = mac;
  flags = 1;
  iv = iv;
  data_version = 1;
  payload = text ++ replicate 14 14;
}

abbrev body : Bytes
body =
    0x54
    ∷ 0x4e
    ∷ 0x42
    ∷ 0x55
    ∷ 0
    ∷ 0
    ∷ 0
    ∷ 0
    ∷ (mac ++ (0 ∷ 1 ∷ (iv ++ (0 ∷ 0 ∷ 0 ∷ 1 ∷ 0 ∷ 0 ∷ 0 ∷ 16 ∷ (text ++ replicate 14 14)))))

packet-IsTyped : IsTyped packet
packet-IsTyped = record {
  version_fits = omega arith;
  flags_fit = omega arith;
  data_version_fits = omega arith;
  iv_size = refl;
}

packet-IsSendable : IsSendable packet
packet-IsSendable = record {
  typed = packet-IsTyped;
  mac_size = refl;
  supported = refl;
  within = omega arith;
}

body-parsed : parse_packet body ≡ ok packet
unfolding parse_packet
body-parsed = refl

parse_packet-serialize_example : (serialize packet >>= parse_packet) ≡ ok packet
parse_packet-serialize_example = parse_packet-serialize packet packet-IsSendable

parse_packet-ok_iff_example :
    (parse_packet body ≡ ok packet) ↔ (IsAccepted body × (read_packet body ≡ packet))
parse_packet-ok_iff_example = parse_packet-ok_iff body packet

serialize-parse_packet_example : serialize packet ≡ ok (take (40 + length packet.payload) body)
serialize-parse_packet_example =
    serialize-parse_packet body packet (every-IsByte body refl) body-parsed

abbrev key_text : Bytes
key_text = replicate 32 b'a'

abbrev key : Bytes
key = replicate 16 0xaa

respond_read_example :
    Answered ciphers ciphers-IsLawful key
      (inl refl)
      text
      packet
      packet-IsTyped
      refl
      refl
      (omega arith)
      (some iv)
      (some iv)
respond_read_example =
    respond_read ciphers ciphers-IsLawful key (inl refl) text packet packet-IsTyped refl refl
      (omega arith) iv iv refl refl

-- A parser that keeps the length of what it was given.
abbrev unmarshal : Bytes → Option ℕ
unmarshal bs = some (length bs)

abbrev decoded : Decoded ℕ
decoded = record { body = 2; used_key = key_text; key_bytes = some key }

abbrev candidates : List Bytes
candidates = text ∷ key_text ∷ []

decode-found : decode unmarshal ciphers packet candidates ≡ ok decoded
unfolding decode attempt decrypt_payload decode_key_hex decrypt_body is_plain pkcs7_unpad
decode-found = refl

decode-ok_iff_example :
    (decode unmarshal ciphers packet candidates ≡ ok decoded)
    ↔ FirstWinner unmarshal ciphers packet candidates decoded
decode-ok_iff_example = decode-ok_iff unmarshal ciphers packet candidates decoded

decode-Opened_example : (k : Bytes) × Memᴰ k candidates × Opened unmarshal ciphers packet k decoded
decode-Opened_example = decode-Opened unmarshal ciphers packet candidates decoded decode-found
