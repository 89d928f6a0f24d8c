-- ===== src/Inform/Codec.antt =====
-- internal/inform/codec.go: `Decode`, the loop over the candidate keys. The body that
-- `json.Unmarshal` makes of a payload is a parameter: `unmarshal` gives the JSON object, or `none`
-- where Go returns an error or a nil map.
pub mod Loop
use Prim.Native.Nat.{bit_and, bit_or}
use open_unifi.Base.{
  ℕ, Bool, true, false, not, Option, none, some, List, [], ◌∷◌, ◌==◌, if◌then◌else◌,
}
use open_unifi.Base.Results.{Result, ok, err}
use open_unifi.Inform.Bytes.{Bytes}
use open_unifi.Inform.Packet.{Packet}
use open_unifi.Inform.Hex.{decode_key_hex}
use open_unifi.Inform.Crypto.{Ciphers, CryptoError, flag_enc_cbc, flag_gcm, decrypt_payload}

pub record Decoded (J : Type 0) : Type 0 where
  pub body : J
  pub used_key : Bytes  -- empty for a plain packet
  pub key_bytes : Option Bytes  -- nil for a plain packet

-- `ErrNoValidJSON`, with the last decryption error that it wraps, and `ErrNotJSONObject`.
pub data DecodeError : Type 0 where
  no_valid_json : Option CryptoError → DecodeError
  not_json_object : DecodeError

-- `pkt.Flags&(FlagEncCBC|FlagGCM) == 0`
unfoldable pub is_plain : Packet → Bool
is_plain p = bit_and p.flags (bit_or flag_enc_cbc flag_gcm) == 0

-- What one round of the loop finds out about a candidate.
pub data Attempt (J : Type 0) : Type 0 where
  skipped : Attempt J
  failed : CryptoError → Attempt J
  not_object : Attempt J
  won : Decoded J → Attempt J

module _ {J : Type 0} (unmarshal : Bytes → Option J) (C : Ciphers) (p : Packet) where
  winner : Bytes → Bytes → J → Decoded J
  winner k kb body =
      if is_plain p
      then record { body = body; used_key = []; key_bytes = none }
      else record { body = body; used_key = k; key_bytes = some kb }

  read_body : Bytes → Bytes → Option J → Attempt J
  read_body k kb none = not_object
  read_body k kb (some body) = won (winner k kb body)

  try_payload : Bytes → Bytes → Result CryptoError Bytes → Attempt J
  try_payload k kb (err e) = failed e
  try_payload k kb (ok plain) = read_body k kb (unmarshal plain)

  try_key : Bytes → Option Bytes → Attempt J
  try_key k none = skipped
  try_key k (some kb) = try_payload k kb (decrypt_payload C kb p)

  unfoldable pub attempt : Bytes → Attempt J
  unfolding try_key try_payload read_body winner
  attempt k = try_key k (decode_key_hex k)

  -- After the loop: `notJSON` outranks `lastErr`.
  unfoldable pub give_up : Bool → Option CryptoError → Result DecodeError (Decoded J)
  give_up not_json last = if not_json then err not_json_object else err (no_valid_json last)

  -- One round: go on with the flag and the error that it leaves, or return.
  unfoldable pub round :
      Attempt J
      → Bool
      → Option CryptoError
      → (Bool → Option CryptoError → Result DecodeError (Decoded J))
      → Result DecodeError (Decoded J)
  round skipped not_json last go_on = go_on not_json last
  round (failed e) not_json last go_on = go_on not_json (some e)
  round not_object not_json last go_on = go_on true last
  round (won d) not_json last go_on = ok d

  unfoldable pub decode_loop :
      Bool → Option CryptoError → List Bytes → Result DecodeError (Decoded J)
  decode_loop not_json last [] = give_up not_json last
  decode_loop not_json last (k ∷ ks) =
      round (attempt k) not_json last (λ not_json' last'. decode_loop not_json' last' ks)

  unfoldable pub decode : List Bytes → Result DecodeError (Decoded J)
  unfolding decode_loop round give_up
  decode keys = decode_loop false none keys
