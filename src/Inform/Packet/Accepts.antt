-- ===== src/Inform/Packet/Accepts.antt =====
-- Which bodies `ParsePacket` accepts, and what it keeps of them.
use native.Mathlib.Nat.{mod-eq_of_lt}
use open_unifi.Base.{
  ℕ, ◌+◌, ◌-◌, ◌^◌, ◌≤◌, ◌<◌, ◌≡◌, ◌↔◌, sym, subst, ◌∙◌, ap, [], ◌∷◌, ◌++◌, arith, length, take,
  drop, length-take, length-drop, take-append_take, drop-drop, All, All-drop,
}
use open_unifi.Base.Results.{ok}
use open_unifi.Inform.Bytes.{
  Bytes, IsByte, put_uint16, put_uint32, be_value, slice, put_uint16-be_value, put_uint32-be_value,
}
use open_unifi.Inform.Packet.{
  Packet, IsAccepted, magic, parse_packet, frame_checks, serialize, put_header, read_packet,
}

frame_checks-ok_iff :
    (len first n dv : ℕ) (p q : Packet)
    → (frame_checks len first n dv p ≡ ok q)
      ↔ ((40 ≤ len) × (len ≤ 10485760) × (first ≡ magic) × (40 + n ≤ len) × (dv ≡ 1) × (p ≡ q))
unfolding frame_checks
frame_checks-ok_iff len first n dv p q = (λ h. ground arith, λ h. ground arith)

-- A body is parsed exactly when it is accepted, and the packet holds the fields at their offsets.
pub parse_packet-ok_iff :
    (body : Bytes) (p : Packet)
    → (parse_packet body ≡ ok p) ↔ (IsAccepted body × (read_packet body ≡ p))
parse_packet-ok_iff body p =
    let both =
      frame_checks-ok_iff (length body) (be_value 0 (slice body 0 4))
        (be_value 0 (slice body 36 40)) (be_value 0 (slice body 32 36)) (read_packet body) p in
    (
      λ h.
          unfold parse_packet in
          let (l, w, m, n, d, e) = both.0 h in
          (
            record {
              header_present = l;
              within = w;
              magic_matches = m;
              payload_present = n;
              supported = d;
            },
            e,
          ),
      λ (a, e).
          unfold parse_packet in
          both.1 (a.header_present, a.within, a.magic_matches, a.payload_present, a.supported, e),
    )

put_uint32-slice :
    (xs : Bytes) → 4 ≤ length xs → All IsByte xs → put_uint32 (be_value 0 (take 4 xs)) ≡ take 4 xs
put_uint32-slice (a ∷ b ∷ c ∷ d ∷ xs) h all =
    put_uint32-be_value a b c d all.0 all.1.0 all.1.1.0 all.1.1.1.0
put_uint32-slice [] h all = absurd (omega arith)
put_uint32-slice (a ∷ []) h all = absurd (omega arith)
put_uint32-slice (a ∷ b ∷ []) h all = absurd (omega arith)
put_uint32-slice (a ∷ b ∷ c ∷ []) h all = absurd (omega arith)

put_uint16-slice :
    (xs : Bytes) → 2 ≤ length xs → All IsByte xs → put_uint16 (be_value 0 (take 2 xs)) ≡ take 2 xs
put_uint16-slice (a ∷ b ∷ xs) h all = put_uint16-be_value a b all.0 all.1.0
put_uint16-slice [] h all = absurd (omega arith)
put_uint16-slice (a ∷ []) h all = absurd (omega arith)

module _ (body : Bytes) (long : 40 ≤ length body) (bytes : All IsByte body) where
  word :
      (k : ℕ) → k + 4 ≤ 40 → put_uint32 (be_value 0 (take 4 (drop k body))) ≡ take 4 (drop k body)
  word k h =
      put_uint32-slice (drop k body) (omega (arith, length-drop k body))
        (All-drop IsByte k body bytes)

  half : put_uint16 (be_value 0 (slice body 14 16)) ≡ slice body 14 16
  half =
      put_uint16-slice (drop 14 body) (omega (arith, length-drop 14 body))
        (All-drop IsByte 14 body bytes)

  join :
      (k a b : ℕ) → take a (drop k body) ++ take b (drop (k + a) body) ≡ take (a + b) (drop k body)
  join k a b = rw (← drop-drop k a body) (take-append_take a b (drop k body))

  joined :
      (k a b : ℕ) (rest : Bytes)
      → rest ≡ take b (drop (k + a) body)
      → take a (drop k body) ++ rest ≡ take (a + b) (drop k body)
  joined k a b rest h = rw h (join k a b)

  -- The slices of the header, one after the other.
  slices : Bytes
  slices =
      slice body 0 4
      ++ (slice body 4 8
          ++ (slice body 8 14
              ++ (slice body 14 16
                  ++ (slice body 16 32 ++ (slice body 32 36 ++ slice body 36 40)))))

  slices-eq-take : slices ≡ take 40 body
  unfolding slices
  slices-eq-take =
      joined 0 4 36 _
        (joined 4 4 32 _ (joined 8 6 26 _ (joined 14 2 24 _ (joined 16 16 8 _ (join 32 4 4)))))

  -- The header fields, written one after the other, are the first forty bytes.
  header-eq :
      be_value 0 (slice body 0 4) ≡ magic
      → put_header (read_packet body) (be_value 0 (slice body 36 40)) ≡ take 40 body
  unfolding put_header read_packet slices
  header-eq m =
      let magic_bytes : put_uint32 magic ≡ slice body 0 4 =
        ap put_uint32 (sym m) ∙ word 0 (omega arith) in
      let version : put_uint32 (be_value 0 (slice body 4 8)) ≡ slice body 4 8 =
        word 4 (omega arith) in
      let supported : put_uint32 (be_value 0 (slice body 32 36)) ≡ slice body 32 36 =
        word 32 (omega arith) in
      let count : put_uint32 (be_value 0 (slice body 36 40)) ≡ slice body 36 40 =
        word 36 (omega arith) in
      let assembled : put_header (read_packet body) (be_value 0 (slice body 36 40)) ≡ slices = λ i.
        magic_bytes i
        ++ (version i
            ++ (slice body 8 14 ++ (half i ++ (slice body 16 32 ++ (supported i ++ count i))))) in
      assembled ∙ slices-eq-take

serialize-shape :
    (p : Packet) (n : ℕ)
    → length p.mac ≡ 6
    → length p.payload ≡ n
    → n < 2 ^ 32
    → serialize p ≡ ok (put_header p n ++ p.payload)
unfolding serialize
serialize-shape p n m h b = ground (arith, mod-eq_of_lt b)

reserialize :
    (body : Bytes)
    → All IsByte body
    → IsAccepted body
    → serialize (read_packet body) ≡ ok (take (40 + length (read_packet body).payload) body)
reserialize body bytes a =
    let n = be_value 0 (slice body 36 40) in
    let mac_size : length (slice body 8 14) ≡ 6 =
      omega (arith, a.header_present, length-take 6 (drop 8 body), length-drop 8 body) in
    let size : length (read_packet body).payload ≡ n =
      unfold read_packet in
      omega
        (arith, a.payload_present, length-take (40 + n - 40) (drop 40 body), length-drop 40 body) in
    let image : serialize (read_packet body)
        ≡ ok (put_header (read_packet body) n ++ (read_packet body).payload) =
      unfold read_packet in
      serialize-shape (read_packet body) n mac_size size
        (omega (arith, a.within, a.payload_present)) in
    let joined_payload : take 40 body ++ take (40 + n - 40) (drop 40 body) ≡ take (40 + n) body =
      take-append_take 40 (40 + n - 40) body ∙ ap (λ k. take k body) (omega arith) in
    let bytes_eq : put_header (read_packet body) n ++ (read_packet body).payload
        ≡ take (40 + n) body =
      unfold read_packet in
      ap (λ h. h ++ take (40 + n - 40) (drop 40 body))
        (header-eq body a.header_present bytes a.magic_matches)
      ∙ joined_payload in
    image ∙ ap ok (bytes_eq ∙ ap (λ k. take (40 + k) body) (sym size))

-- What is accepted is kept: serializing the parsed packet gives back the header and the payload
-- that it announces, byte for byte; only bytes behind the announced payload are dropped.
pub serialize-parse_packet :
    (body : Bytes) (p : Packet)
    → All IsByte body
    → parse_packet body ≡ ok p
    → serialize p ≡ ok (take (40 + length p.payload) body)
serialize-parse_packet body p bytes h =
    let (a, e) = (parse_packet-ok_iff body p).0 h in
    subst (λ q. serialize q ≡ ok (take (40 + length q.payload) body)) e (reserialize body bytes a)
