-- ===== src/Inform/Packet/RoundTrip.antt =====
-- `ParsePacket` after `Packet.Serialize`.
use mathlib.Core.List.{append_assoc}
use open_unifi.Base.{
  ℕ, ◌+◌, ◌-◌, ◌^◌, ◌<◌, ◌≡◌, refl, ◌∙◌, ap, ◌++◌, arith, length, take, drop, take-append,
  drop-append, drop-append_add, length-append, take-all,
}
use native.Mathlib.Nat.{mod-eq_of_lt}
use open_unifi.Base.Results.{ok, ◌>>=◌}
use open_unifi.Inform.Bytes.{
  Bytes, put_uint16, put_uint32, be_value, slice, be_value-put_uint16, be_value-put_uint32,
}
use open_unifi.Inform.Packet.{
  Packet, IsTyped, IsSendable, magic, parse_packet, frame_checks, serialize, put_header,
  read_packet,
}

-- The wire image, its parts nested to the right.
abbrev wire : Packet → ℕ → Bytes → Bytes
wire p n rest =
    put_uint32 magic
    ++ (put_uint32 p.version
        ++ (p.mac
            ++ (put_uint16 p.flags
                ++ (p.iv ++ (put_uint32 p.data_version ++ (put_uint32 n ++ rest))))))

put_header-append : (p : Packet) (n : ℕ) (rest : Bytes) → put_header p n ++ rest ≡ wire p n rest
unfolding put_header
put_header-append p n rest = simp append_assoc

module _ (p : Packet) (n : ℕ) (rest : Bytes) (m : length p.mac ≡ 6) (i : length p.iv ≡ 16) where
  slice-mac : slice (wire p n rest) 8 14 ≡ p.mac
  slice-mac = take-append 6 p.mac _ m

  slice-flags : slice (wire p n rest) 14 16 ≡ put_uint16 p.flags
  slice-flags = ap (take 2) (drop-append 6 p.mac _ m)

  slice-iv : slice (wire p n rest) 16 32 ≡ p.iv
  slice-iv = ap (take 16) (drop-append_add 6 2 p.mac _ m) ∙ take-append 16 p.iv _ i

  slice-data_version : slice (wire p n rest) 32 36 ≡ put_uint32 p.data_version
  slice-data_version =
      ap (take 4) (drop-append_add 6 18 p.mac _ m) ∙ ap (take 4) (drop-append 16 p.iv _ i)

  slice-length : slice (wire p n rest) 36 40 ≡ put_uint32 n
  slice-length =
      ap (take 4) (drop-append_add 6 22 p.mac _ m) ∙ ap (take 4) (drop-append_add 16 4 p.iv _ i)

  drop-header : drop 40 (wire p n rest) ≡ rest
  drop-header = drop-append_add 6 26 p.mac _ m ∙ drop-append_add 16 8 p.iv _ i

  length-wire : length (wire p n rest) ≡ 40 + length rest
  length-wire = omega (arith, length-append p.mac _, length-append p.iv _)

module _ (p : Packet) (t : IsTyped p) (m : length p.mac ≡ 6) (n : ℕ) (b : n < 2 ^ 32) where
  read-data_version : (rest : Bytes) → be_value 0 (slice (wire p n rest) 32 36) ≡ p.data_version
  read-data_version rest =
      ap (be_value 0) (slice-data_version p n rest m t.iv_size)
      ∙ be_value-put_uint32 p.data_version t.data_version_fits

  read-length : (rest : Bytes) → be_value 0 (slice (wire p n rest) 36 40) ≡ n
  read-length rest = ap (be_value 0) (slice-length p n rest m t.iv_size) ∙ be_value-put_uint32 n b

  read-payload :
      (rest : Bytes)
      → length rest ≡ n
      → slice (wire p n rest) 40 (40 + be_value 0 (slice (wire p n rest) 36 40)) ≡ rest
  read-payload rest h =
      ap (λ k. take (40 + k - 40) (drop 40 (wire p n rest))) (read-length rest)
      ∙ (ap (take (40 + n - 40)) (drop-header p n rest m t.iv_size)
          ∙ take-all (40 + n - 40) rest (omega arith))

-- A wire image whose length field counts the rest of the body is read back field by field.
read-wire :
    (p : Packet)
    → IsTyped p
    → length p.mac ≡ 6
    → length p.payload < 2 ^ 32
    → read_packet (wire p (length p.payload) p.payload) ≡ p
unfolding read_packet
read-wire p t m b =
    let w = wire p (length p.payload) p.payload in
    let version : be_value 0 (slice w 4 8) ≡ p.version =
      be_value-put_uint32 p.version t.version_fits in
    let mac = slice-mac p (length p.payload) p.payload m t.iv_size in
    let flags : be_value 0 (slice w 14 16) ≡ p.flags =
      ap (be_value 0) (slice-flags p (length p.payload) p.payload m t.iv_size)
      ∙ be_value-put_uint16 p.flags t.flags_fit in
    let iv = slice-iv p (length p.payload) p.payload m t.iv_size in
    let dv = read-data_version p t m (length p.payload) b p.payload in
    let payload = read-payload p t m (length p.payload) b p.payload refl in
    λ i. record {
      version = version i;
      mac = mac i;
      flags = flags i;
      iv = iv i;
      data_version = dv i;
      payload = payload i;
    }

parse-wire : (p : Packet) → IsSendable p → parse_packet (wire p (length p.payload) p.payload) ≡ ok p
unfolding parse_packet frame_checks
parse-wire p s = ground (
  arith,
  length-wire p (length p.payload) p.payload s.mac_size s.typed.iv_size,
  read-length p s.typed s.mac_size (length p.payload) (omega arith) p.payload,
  read-data_version p s.typed s.mac_size (length p.payload) (omega arith) p.payload,
  read-wire p s.typed s.mac_size (omega arith),
)

serialize-eq :
    (p : Packet)
    → length p.mac ≡ 6
    → length p.payload < 2 ^ 32
    → serialize p ≡ ok (wire p (length p.payload) p.payload)
unfolding serialize
serialize-eq p m b =
    ground (arith, put_header-append p (length p.payload) p.payload, mod-eq_of_lt b)

-- A packet that may travel is serialized, and parsing the bytes gives the packet back, whatever
-- its MAC, flags, IV and payload hold.
pub parse_packet-serialize : (p : Packet) → IsSendable p → (serialize p >>= parse_packet) ≡ ok p
parse_packet-serialize p s = rw (serialize-eq p s.mac_size (omega arith)) (parse-wire p s)
