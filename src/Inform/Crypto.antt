-- ===== src/Inform/Crypto.antt =====
-- internal/inform: payload encryption (inform.go, crypto_cbc.go, crypto_gcm.go). The block
-- ciphers and the inflater of Go's library are the record `Ciphers`.
pub mod Respond
use Prim.Native.Nat.{bit_and, bit_or}
use open_unifi.Base.{
  ℕ, ◌+◌, ◌%◌, ◌^◌, ◌≤◌, ◌≡◌, ◌⊎◌, Bool, true, not, ◌||◌, ◌&&◌, Option, none, some, List, [], ◌∷◌,
  ltb, ◌==◌, if◌then◌else◌, length, every,
}
use open_unifi.Base.Results.{Result, ok, err, ◌>>=◌}
use open_unifi.Inform.Bytes.{Bytes}
use open_unifi.Inform.Packet.{Packet, FrameError, max_body_size, header_bytes, serialize}
use open_unifi.Inform.Pad.{block_size, pkcs7_pad, pkcs7_unpad, trim_legacy_pad}

abbrev pub flag_enc_cbc : ℕ
flag_enc_cbc = 0x0001

abbrev pub flag_zlib : ℕ
flag_zlib = 0x0002

abbrev pub flag_snappy : ℕ
flag_snappy = 0x0004

abbrev pub flag_gcm : ℕ
flag_gcm = 0x0008

-- `p.Flags&bit != 0`
abbrev pub has_flag : ℕ → ℕ → Bool
has_flag flags bit = not (bit_and flags bit == 0)

abbrev pub gcm_tag_size : ℕ
gcm_tag_size = 16

-- crypto/aes, crypto/cipher and compress/zlib. `zlib_read b n` is what reading at most n bytes of
-- the inflated stream gives.
pub record Ciphers : Type 0 where
  pub cbc_encrypt : Bytes → Bytes → Bytes → Bytes  -- key, IV, text
  pub cbc_decrypt : Bytes → Bytes → Bytes → Bytes
  pub gcm_seal : Bytes → Bytes → Bytes → Bytes → Bytes  -- key, nonce, text, additional data
  pub gcm_open : Bytes → Bytes → Bytes → Bytes → Option Bytes
  pub zlib_read : Bytes → ℕ → Option Bytes

abbrev pub IsKeySize : ℕ → Type 0
IsKeySize n = (n ≡ 16) ⊎ ((n ≡ 24) ⊎ (n ≡ 32))

-- What Go's library documents of them.
pub record IsLawful (C : Ciphers) : Type 0 where
  pub cbc_round :
      (key iv text : Bytes)
      → IsKeySize (length key)
      → length iv ≡ block_size
      → length text % block_size ≡ 0
      → C.cbc_decrypt key iv (C.cbc_encrypt key iv text) ≡ text
  pub cbc_length : (key iv text : Bytes) → length (C.cbc_encrypt key iv text) ≡ length text
  pub gcm_round :
      (key nonce text aad : Bytes)
      → IsKeySize (length key)
      → C.gcm_open key nonce (C.gcm_seal key nonce text aad) aad ≡ some text
  pub gcm_length :
      (key nonce text aad : Bytes)
      → length (C.gcm_seal key nonce text aad) ≡ length text + gcm_tag_size

pub data CryptoError : Type 0 where
  bad_key_size : ℕ → CryptoError
  snappy_unsupported : CryptoError
  bad_iv_length : ℕ → CryptoError
  bad_block_length : ℕ → CryptoError
  short_gcm : CryptoError
  gcm_failed : CryptoError
  zlib_failed : CryptoError
  inflated_too_long : CryptoError
  iv_unavailable : CryptoError
  bad_frame : FrameError → CryptoError

abbrev frame {ℓ} : {A : Type ℓ} → Result FrameError A → Result CryptoError A
frame (ok a) = ok a
frame (err e) = err (bad_frame e)

-- The tests that guard a step.
abbrev require {ℓ} : {A : Type ℓ} → Bool → CryptoError → Result CryptoError A → Result CryptoError A
require b e k = if b then k else err e

unfoldable pub key_size_ok : ℕ → Bool
key_size_ok n = n == 16 || n == 24 || n == 32

unfoldable pub is_all_zero : Bytes → Bool
is_all_zero = every (λ c. c == 0)

-- `p.IV[0] = 1`
set_first : Bytes → Bytes
set_first [] = []
set_first (b ∷ bs) = 1 ∷ bs

unpadded : Option Bytes → Bytes → Bytes
unpadded (some plain) raw = plain
unpadded none raw = trim_legacy_pad raw

opened : Option Bytes → Result CryptoError Bytes
opened (some plain) = ok plain
opened none = err gcm_failed

inflated : Option Bytes → Result CryptoError Bytes
inflated none = err zlib_failed
inflated (some out) = if ltb max_body_size (length out) then err inflated_too_long else ok out

module _ (C : Ciphers) where
  unfoldable pub decrypt_cbc : Bytes → Bytes → Bytes → Result CryptoError Bytes
  unfolding unpadded
  decrypt_cbc key ciphertext iv =
      if not (length iv == block_size)
      then err (bad_iv_length (length iv))
      else if length ciphertext == 0 || not (length ciphertext % block_size == 0)
      then err (bad_block_length (length ciphertext))
      else let raw = C.cbc_decrypt key iv ciphertext in ok (unpadded (pkcs7_unpad raw) raw)

  unfoldable pub decrypt_gcm : Bytes → Bytes → Bytes → Bytes → Result CryptoError Bytes
  unfolding opened
  decrypt_gcm key payload nonce aad =
      if ltb (length payload) gcm_tag_size
      then err short_gcm
      else if not (length nonce == 16)
      then err (bad_iv_length (length nonce))
      else opened (C.gcm_open key nonce payload aad)

  unfoldable pub inflate_zlib : Bytes → Result CryptoError Bytes
  unfolding inflated
  inflate_zlib body = inflated (C.zlib_read body (max_body_size + 1))

  -- The `switch` on the encryption flags.
  unfoldable pub decrypt_body : Bytes → Packet → Result CryptoError Bytes
  unfolding decrypt_gcm decrypt_cbc
  decrypt_body key p =
      if has_flag p.flags flag_gcm
      then frame (header_bytes p (length p.payload % 2 ^ 32))
        >>= (λ aad. decrypt_gcm key p.payload p.iv aad)
      else if has_flag p.flags flag_enc_cbc
      then decrypt_cbc key p.payload p.iv
      else ok p.payload

  unfoldable pub decrypt_payload : Bytes → Packet → Result CryptoError Bytes
  unfolding key_size_ok inflate_zlib
  decrypt_payload key p = require (key_size_ok (length key)) (bad_key_size (length key)) (
      require (not (has_flag p.flags flag_snappy)) snappy_unsupported (
        decrypt_body key p >>= λ body.
        if has_flag p.flags flag_zlib then inflate_zlib body else ok body))

-- The IV of `EncryptPayload`: kept unless it is zero, then what `rand.Read` gives (`none` is its
-- failure), with the first byte set should that be zero too.
unfoldable pub choose_iv : Bytes → Option Bytes → Result CryptoError Bytes
unfolding is_all_zero set_first
choose_iv iv rand = if not (is_all_zero iv) then ok iv else elim rand [
  | none ↦ err iv_unavailable
  | some r ↦ ok (if is_all_zero r then set_first r else r)
]

module _ (C : Ciphers) where
  -- `EncryptPayload` once the IV stands.
  unfoldable pub seal_payload : Bytes → Bytes → Packet → Result CryptoError Packet
  seal_payload key plaintext p =
      if has_flag p.flags flag_gcm
      then frame (header_bytes p ((length plaintext + 16) % 2 ^ 32))
        >>= (λ aad. ok (record p { payload = C.gcm_seal key p.iv plaintext aad }))
      else ok (record p {
        flags = bit_or p.flags flag_enc_cbc;
        payload = C.cbc_encrypt key p.iv (pkcs7_pad plaintext);
      })

  unfoldable pub encrypt_payload : Bytes → Bytes → Option Bytes → Packet → Result CryptoError Packet
  unfolding seal_payload
  encrypt_payload key plaintext rand p =
      require (key_size_ok (length key)) (bad_key_size (length key))
        (choose_iv p.iv rand >>= λ iv. seal_payload key plaintext (record p { iv = iv }))

  -- internal/inform/codec.go: `Respond`. `fresh` is the response IV that `rand.Read` gives, and
  -- `again` what it gives to `EncryptPayload`, if that asks.
  unfoldable pub respond :
      Packet → Bytes → Bytes → Option Bytes → Option Bytes → Result CryptoError Bytes
  unfolding encrypt_payload
  respond p key plaintext fresh again =
      let flags' =
        if has_flag p.flags flag_gcm then bit_or flag_gcm flag_enc_cbc else flag_enc_cbc in
      elim fresh [
        | none ↦ err iv_unavailable
        | some iv ↦
            encrypt_payload key plaintext again (record p { flags = flags'; iv = iv }) >>= λ q.
            frame (serialize q)
      ]
