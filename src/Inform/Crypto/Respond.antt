-- ===== src/Inform/Crypto/Respond.antt =====
-- What the device reads from a response.
use open_unifi.Base.{
  ℕ, ◌+◌, ◌%◌, ◌^◌, ◌≡◌, ◌≤◌, ◌<◌, not-ltb, refl, ◌∙◌, Option, some, true, false, [], ◌∷◌, arith,
  length, Bool-cases, inl, inr, ◌==◌,
}
use open_unifi.Base.Results.{ok, passes_through}
use open_unifi.Inform.Bytes.{Bytes}
use open_unifi.Inform.Packet.{
  Packet, IsTyped, IsSendable, parse_packet, serialize, header_bytes, put_header,
}
use open_unifi.Inform.Packet.RoundTrip.{parse_packet-serialize}
use open_unifi.Inform.Pad.RoundTrip.{pkcs7_unpad-pad, length-pkcs7_pad, pkcs7_pad-le}
use open_unifi.Inform.Pad.{pkcs7_pad}
use open_unifi.Inform.Crypto.{
  decrypt_payload, decrypt_body, IsLawful, IsKeySize, key_size_ok, respond, has_flag, Ciphers,
  choose_iv, set_first, is_all_zero,
}

length-set_first : (b : Bytes) → length (set_first b) ≡ length b
unfolding set_first
length-set_first [] = refl
length-set_first (b ∷ bs) = refl

length-choose_iv :
    (iv r : Bytes)
    → length iv ≡ 16
    → length r ≡ 16
    → (v : Bytes) × (choose_iv iv (some r) ≡ ok v) × (length v ≡ 16)
unfolding choose_iv
length-choose_iv iv r h k = elim (Bool-cases (is_all_zero iv)) [
  | inr set ↦ (iv, rw set, h)
  | inl zero_iv ↦ elim (Bool-cases (is_all_zero r)) [
    | inr fine ↦ (r, rw (zero_iv, fine), k)
    | inl again ↦ (set_first r, rw (zero_iv, again), length-set_first r ∙ k)
  ]
]

key_size_ok-true : (n : ℕ) → IsKeySize n → key_size_ok n ≡ true
unfolding key_size_ok
key_size_ok-true n h = ground arith

nonzero : (n : ℕ) → 0 < n → (n == 0) ≡ false
nonzero n h = ground arith

module _ (C : Ciphers) (L : IsLawful C) (key : Bytes) (size : IsKeySize (length key))
    (plain : Bytes) where
  gcm_image : Packet → Packet
  gcm_image p = record p {
    payload = C.gcm_seal key p.iv plain (put_header p ((length plain + 16) % 2 ^ 32));
  }

  cbc_image : Packet → Packet
  cbc_image p = record p { payload = C.cbc_encrypt key p.iv (pkcs7_pad plain) }

  decrypt-gcm_image :
      (p : Packet)
      → length p.mac ≡ 6
      → length p.iv ≡ 16
      → p.flags ≡ 9
      → decrypt_payload C key (gcm_image p) ≡ ok plain
  unfolding decrypt_payload decrypt_body header_bytes put_header gcm_image
  decrypt-gcm_image p m i f = rw (
    f,
    i,
    m,
    L.gcm_length,
    L.gcm_round key p.iv plain _ size,
    key_size_ok-true (length key) size,
    not-ltb (length plain + 16) 16 (omega arith),
  )

  decrypt-cbc_image :
      (p : Packet) → length p.iv ≡ 16 → p.flags ≡ 1 → decrypt_payload C key (cbc_image p) ≡ ok plain
  unfolding decrypt_payload decrypt_body cbc_image
  decrypt-cbc_image p i f =
      let (whole, some_block) = length-pkcs7_pad plain in
      rw (
        f,
        i,
        L.cbc_round key p.iv (pkcs7_pad plain) size i whole,
        L.cbc_length,
        pkcs7_unpad-pad,
        key_size_ok-true (length key) size,
        whole,
        nonzero (length (pkcs7_pad plain)) some_block,
      )

-- The packet that `Respond` seals.
abbrev base_of : Packet → ℕ → Bytes → Packet
base_of p flags iv = record p { flags = flags; iv = iv }

-- What travels is read back as it was sent.
travels :
    (q : Packet) → IsSendable q → (out : Bytes) × (serialize q ≡ ok out) × (parse_packet out ≡ ok q)
travels q s = passes_through (serialize q) parse_packet (parse_packet-serialize q s)

module _ (C : Ciphers) (L : IsLawful C) (key : Bytes) (size : IsKeySize (length key))
    (plain : Bytes) (p : Packet) (t : IsTyped p) (m : length p.mac ≡ 6) (dv : p.data_version ≡ 1)
    (fits : length plain + 56 ≤ 10485760) where
  abbrev pub Answered : Option Bytes → Option Bytes → Type 0
  Answered fresh again =
      (out : Bytes) × (q : Packet) × (respond C p key plain fresh again ≡ ok out)
      × (parse_packet out ≡ ok q)
      × (decrypt_payload C key q ≡ ok plain)
      × (q.mac ≡ p.mac)

  respond-gcm :
      (r r' v : Bytes)
      → has_flag p.flags 8 ≡ true
      → choose_iv r (some r') ≡ ok v
      → (out : Bytes) → serialize (gcm_image C L key size plain (base_of p 9 v)) ≡ ok out
      → respond C p key plain (some r) (some r') ≡ ok out
  unfolding respond header_bytes gcm_image
  respond-gcm r r' v f ev out es = rw (f, ev, key_size_ok-true (length key) size, m, es)

  respond-cbc :
      (r r' v : Bytes)
      → has_flag p.flags 8 ≡ false
      → choose_iv r (some r') ≡ ok v
      → (out : Bytes) → serialize (cbc_image C L key size plain (base_of p 1 v)) ≡ ok out
      → respond C p key plain (some r) (some r') ≡ ok out
  unfolding respond cbc_image
  respond-cbc r r' v f ev out es = rw (f, ev, key_size_ok-true (length key) size, es)

  gcm_answer :
      (r r' : Bytes)
      → length r ≡ 16
      → length r' ≡ 16
      → has_flag p.flags 8 ≡ true
      → Answered (some r) (some r')
  gcm_answer r r' h h' f =
      let (v, ev, vl) = length-choose_iv r r' h h' in
      let b = base_of p 9 v in
      let q = gcm_image C L key size plain b in
      let sendable : IsSendable q =
        unfold gcm_image in
        record {
          typed = record {
            version_fits = t.version_fits;
            flags_fit = omega arith;
            data_version_fits = t.data_version_fits;
            iv_size = vl;
          };
          mac_size = m;
          supported = dv;
          within =
              omega (arith, L.gcm_length key v plain (put_header b ((length plain + 16) % 2 ^ 32)));
        } in
      let (out, es, ep) = travels q sendable in
      (
        out,
        q,
        respond-gcm r r' v f ev out es,
        ep,
        decrypt-gcm_image C L key size plain b m vl refl,
        unfold gcm_image in refl,
      )

  cbc_answer :
      (r r' : Bytes)
      → length r ≡ 16
      → length r' ≡ 16
      → has_flag p.flags 8 ≡ false
      → Answered (some r) (some r')
  cbc_answer r r' h h' f =
      let (v, ev, vl) = length-choose_iv r r' h h' in
      let b = base_of p 1 v in
      let q = cbc_image C L key size plain b in
      let sendable : IsSendable q =
        unfold cbc_image in
        record {
          typed = record {
            version_fits = t.version_fits;
            flags_fit = omega arith;
            data_version_fits = t.data_version_fits;
            iv_size = vl;
          };
          mac_size = m;
          supported = dv;
          within = omega (arith, L.cbc_length key v (pkcs7_pad plain), pkcs7_pad-le plain);
        } in
      let (out, es, ep) = travels q sendable in
      (
        out,
        q,
        respond-cbc r r' v f ev out es,
        ep,
        decrypt-cbc_image C L key size plain b vl refl,
        unfold cbc_image in refl,
      )

  -- `Respond` answers a parsed request, on the GCM and on the CBC branch, with bytes that the
  -- device parses and decrypts under the same key to the very plaintext, and that carry its MAC:
  -- for every key of 16, 24 or 32 bytes, every plaintext that fits the body limit, and every draw
  -- of the two IVs, zero ones included.
  pub respond_read : (r r' : Bytes) → length r ≡ 16 → length r' ≡ 16 → Answered (some r) (some r')
  respond_read r r' h h' = elim (Bool-cases (has_flag p.flags 8)) [
    | inl gcm ↦ gcm_answer r r' h h' gcm
    | inr cbc ↦ cbc_answer r r' h h' cbc
  ]
