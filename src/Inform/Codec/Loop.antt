-- ===== src/Inform/Codec/Loop.antt =====
-- What `Decode` returns: the first candidate that opens the packet, or the reason why none does.
use open_unifi.Base.{
  Bool, true, false, Option, none, some, List, [], ◌∷◌, ◌≡◌, ◌↔◌, ◌⊎◌, inl, inr, refl, ◌∙◌, arith,
  if◌then◌else◌,
}
use mathlib.Core.List.{Memᴰ}
use open_unifi.Base.Results.{Result, ok, err}
use open_unifi.Inform.Bytes.{Bytes}
use open_unifi.Inform.Packet.{Packet}
use open_unifi.Inform.Hex.{decode_key_hex}
use open_unifi.Inform.Crypto.{Ciphers, CryptoError, decrypt_payload}
use open_unifi.Inform.Codec.{
  Decoded, DecodeError, Attempt, skipped, failed, not_object, won, is_plain, attempt, try_key,
  try_payload, read_body, winner, round, give_up, decode_loop, decode,
}

-- A round that does not end the loop.
abbrev pub Loses : {J : Type 0} → Attempt J → Type 0
Loses (won d) = ⊥
Loses _ = Unit {0}

module _ {J : Type 0} (unmarshal : Bytes → Option J) (C : Ciphers) (p : Packet) where
  -- The candidates before the winner all lose.
  abbrev pub FirstWinner : List Bytes → Decoded J → Type 0
  FirstWinner [] d = ⊥
  FirstWinner (k ∷ ks) d =
      (attempt unmarshal C p k ≡ won d) ⊎ (Loses (attempt unmarshal C p k) × FirstWinner ks d)

  round-ok :
      (a : Attempt J) (b : Bool) (o : Option CryptoError) (W : Type 0) (d : Decoded J)
      (go_on : Bool → Option CryptoError → Result DecodeError (Decoded J))
      → ((b' : Bool) (o' : Option CryptoError) → (go_on b' o' ≡ ok d) ↔ W)
      → (round unmarshal C p a b o go_on ≡ ok d) ↔ ((a ≡ won d) ⊎ (Loses a × W))
  unfolding round
  round-ok skipped b o W d go_on h =
      (λ e. inr (tt, (h b o).0 e), λ e. elim e [ inl w ↦ cc | inr l ↦ (h b o).1 l.1 ])
  round-ok (failed x) b o W d go_on h =
      (λ e. inr (tt, (h b (some x)).0 e), λ e. elim e [ inl w ↦ cc | inr l ↦ (h b (some x)).1 l.1 ])
  round-ok not_object b o W d go_on h =
      (λ e. inr (tt, (h true o).0 e), λ e. elim e [ inl w ↦ cc | inr l ↦ (h true o).1 l.1 ])
  round-ok (won w) b o W d go_on h =
      (λ e. inl (ground arith), λ e. elim e [ inl g ↦ ground arith | inr l ↦ absurd l.0 ])

  give_up-not_ok :
      (b : Bool) (o : Option CryptoError) (d : Decoded J) → ¬ (give_up unmarshal C p b o ≡ ok d)
  unfolding give_up
  give_up-not_ok true o d h = cc
  give_up-not_ok false o d h = cc

  loop-ok :
      (b : Bool) (o : Option CryptoError) (keys : List Bytes) (d : Decoded J)
      → (decode_loop unmarshal C p b o keys ≡ ok d) ↔ FirstWinner keys d
  unfolding decode_loop
  loop-ok b o [] d = (λ h. absurd (give_up-not_ok b o d h), λ h. elim h [ ])
  loop-ok b o (k ∷ ks) d =
      round-ok (attempt unmarshal C p k) b o (FirstWinner ks d) d
        (λ b' o'. decode_loop unmarshal C p b' o' ks) (λ b' o'. loop-ok b' o' ks d)

  -- `Decode` returns the first candidate that opens the packet, all before it having failed in
  -- one of the three ways, and nothing else.
  pub decode-ok_iff :
      (keys : List Bytes) (d : Decoded J) → (decode unmarshal C p keys ≡ ok d) ↔ FirstWinner keys d
  unfolding decode
  decode-ok_iff keys d = loop-ok false none keys d

  -- The key that authenticated the packet, with everything that it opened on the way.
  pub record Opened (k : Bytes) (d : Decoded J) : Type 0 where
    pub key : Bytes
    pub text : Bytes
    pub decoded_key : decode_key_hex k ≡ some key
    pub decrypted : decrypt_payload C key p ≡ ok text
    pub parsed : unmarshal text ≡ some d.body
    pub reported_key : d.used_key ≡ (if is_plain p then [] else k)
    pub reported_bytes : d.key_bytes ≡ (if is_plain p then none else some key)

  won-key :
      (k : Bytes) (o : Option Bytes) (d : Decoded J)
      → try_key unmarshal C p k o ≡ won d
      → (kb : Bytes) × (o ≡ some kb)
        × (try_payload unmarshal C p k kb (decrypt_payload C kb p) ≡ won d)
  unfolding try_key
  won-key k none d h = cc
  won-key k (some kb) d h = (kb, refl, h)

  won-payload :
      (k kb : Bytes) (r : Result CryptoError Bytes) (d : Decoded J)
      → try_payload unmarshal C p k kb r ≡ won d
      → (text : Bytes) × (r ≡ ok text) × (read_body unmarshal C p k kb (unmarshal text) ≡ won d)
  unfolding try_payload
  won-payload k kb (err e) d h = cc
  won-payload k kb (ok text) d h = (text, refl, h)

  won-body :
      (k kb : Bytes) (o : Option J) (d : Decoded J)
      → read_body unmarshal C p k kb o ≡ won d
      → (body : J) × (o ≡ some body) × (winner unmarshal C p k kb body ≡ d)
  unfolding read_body
  won-body k kb none d h = cc
  won-body k kb (some body) d h = (body, refl, ground arith)

  attempt-won : (k : Bytes) (d : Decoded J) → attempt unmarshal C p k ≡ won d → Opened k d
  attempt-won k d h =
      let (kb, ek, h1) = won-key k (decode_key_hex k) d (unfold attempt in h) in
      let (text, et, h2) = won-payload k kb (decrypt_payload C kb p) d h1 in
      let (body, eb, h3) = won-body k kb (unmarshal text) d h2 in
      record {
        key = kb;
        text = text;
        decoded_key = ek;
        decrypted = et;
        parsed = eb ∙ unfold winner in ground arith;
        reported_key = unfold winner in ground arith;
        reported_bytes = unfold winner in ground arith;
      }

  -- What `Decode` returns was decrypted under one of the candidate keys, and that key is reported;
  -- for a packet with no encryption flag it reports no key, since nothing was authenticated.
  pub decode-Opened :
      (keys : List Bytes) (d : Decoded J)
      → decode unmarshal C p keys ≡ ok d
      → (k : Bytes) × Memᴰ k keys × Opened k d
  decode-Opened keys d h = find keys ((decode-ok_iff keys d).0 h)
    where
      find : (keys : List Bytes) → FirstWinner keys d → (k : Bytes) × Memᴰ k keys × Opened k d
      find [] w = elim w [ ]
      find (k ∷ ks) (inl w) = (k, Memᴰ.head refl, attempt-won k d w)
      find (k ∷ ks) (inr l) = let (k', m, o) = find ks l.1 in (k', Memᴰ.tail m, o)
