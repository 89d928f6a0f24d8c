-- ===== src/Inform/Hex/Mac.antt =====
-- `ParseMACString` after `MACString`.
use open_unifi.Base.{
  ℕ, ◌*◌, ◌/◌, ◌≡◌, refl, ap, ◌∙◌, Bool, true, false, not, ◌&&◌, Option, none, some, [], ◌∷◌, arith,
  ◌==◌, length, All, holds_up_to, holds_up_to_sound,
}
use Prim.Native.Nat.{bit_and}
use open_unifi.Inform.Bytes.{Bytes, IsByte}
use open_unifi.Inform.Hex.{
  digit, mac_string, colon_bytes, hex_val, strip_colons, pair_value, push, parse_pairs,
  parse_mac_string,
}

is_value : Option ℕ → ℕ → Bool
is_value none c = false
is_value (some d) c = d == c

-- The two digits of a byte are no colons, and read back as the byte.
byte_ok : ℕ → Bool
byte_ok c =
    not (digit (c / 16) == b':')
    && (not (digit (bit_and c 0x0f) == b':')
        && is_value (pair_value (hex_val (digit (c / 16))) (hex_val (digit (bit_and c 0x0f)))) c)

byte_table : holds_up_to byte_ok 256 ≡ true
unfolding holds_up_to byte_ok is_value pair_value hex_val
byte_table = refl

is_value-eq : (o : Option ℕ) (c : ℕ) → is_value o c ≡ true → o ≡ some c
unfolding is_value
is_value-eq none c h = cc
is_value-eq (some d) c h = ground arith

and3 : (p q r : Bool) → (not p && (not q && r)) ≡ true → (p ≡ false) × (q ≡ false) × (r ≡ true)
and3 p q r h = ground arith

module _ (c : ℕ) (b : IsByte c) where
  byte_facts :
      ((digit (c / 16) == b':') ≡ false)
      × ((digit (bit_and c 0x0f) == b':') ≡ false)
      × (pair_value (hex_val (digit (c / 16))) (hex_val (digit (bit_and c 0x0f))) ≡ some c)
  byte_facts =
      let (p, q, r) =
        and3 (digit (c / 16) == b':') (digit (bit_and c 0x0f) == b':')
          (is_value (pair_value (hex_val (digit (c / 16))) (hex_val (digit (bit_and c 0x0f)))) c)
          (unfold byte_ok in holds_up_to_sound byte_ok 256 byte_table c b) in
      (p, q, is_value-eq _ c r)

-- The digits of each byte, with no colons.
plain_digits : Bytes → Bytes
plain_digits [] = []
plain_digits (c ∷ cs) = digit (c / 16) ∷ digit (bit_and c 0x0f) ∷ plain_digits cs

length-plain_digits : (m : Bytes) → length (plain_digits m) ≡ 2 * length m
unfolding plain_digits
length-plain_digits [] = refl
length-plain_digits (c ∷ cs) = omega (arith, length-plain_digits cs)

parse_pairs-plain_digits : (m : Bytes) → All IsByte m → parse_pairs (plain_digits m) ≡ some m
unfolding plain_digits parse_pairs push
parse_pairs-plain_digits [] h = refl
parse_pairs-plain_digits (c ∷ cs) h = rw ((byte_facts c h.0).2, parse_pairs-plain_digits cs h.1)

strip-cons :
    (c : ℕ) (cs : Bytes) → (c == b':') ≡ false → strip_colons (c ∷ cs) ≡ c ∷ strip_colons cs
unfolding strip_colons
strip-cons c cs h = rw h

strip-digits :
    (c : ℕ) (cs : Bytes)
    → IsByte c
    → strip_colons (digit (c / 16) ∷ digit (bit_and c 0x0f) ∷ cs)
      ≡ digit (c / 16) ∷ digit (bit_and c 0x0f) ∷ strip_colons cs
strip-digits c cs b =
    let (p, q, r) = byte_facts c b in
    strip-cons (digit (c / 16)) _ p
    ∙ ap (λ t. digit (c / 16) ∷ t) (strip-cons (digit (bit_and c 0x0f)) cs q)

strip-colon_bytes : (m : Bytes) → All IsByte m → strip_colons (colon_bytes m) ≡ plain_digits m
unfolding colon_bytes plain_digits
strip-colon_bytes [] h = unfold strip_colons in refl
strip-colon_bytes (c ∷ cs) h =
    let first : strip_colons (colon_bytes (c ∷ cs))
        ≡ strip_colons (digit (c / 16) ∷ digit (bit_and c 0x0f) ∷ colon_bytes cs) =
      unfold strip_colons in refl in
    first
    ∙ (strip-digits c _ h.0
        ∙ ap (λ t. digit (c / 16) ∷ digit (bit_and c 0x0f) ∷ t) (strip-colon_bytes cs h.1))

strip-mac_string : (m : Bytes) → All IsByte m → strip_colons (mac_string m) ≡ plain_digits m
unfolding mac_string plain_digits
strip-mac_string [] h = unfold strip_colons in refl
strip-mac_string (c ∷ cs) h =
    strip-digits c _ h.0
    ∙ ap (λ t. digit (c / 16) ∷ digit (bit_and c 0x0f) ∷ t) (strip-colon_bytes cs h.1)

-- Every MAC of six bytes is printed and parsed back.
pub parse_mac_string-mac_string :
    (m : Bytes) → length m ≡ 6 → All IsByte m → parse_mac_string (mac_string m) ≡ some m
unfolding parse_mac_string
parse_mac_string-mac_string m n h =
    rw (strip-mac_string m h, length-plain_digits, n) (parse_pairs-plain_digits m h)
