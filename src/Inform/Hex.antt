-- ===== src/Inform/Hex.antt =====
-- internal/inform/inform.go: MAC strings and key strings. A Go string is the list of its bytes,
-- and `none` is a failed parse.
pub mod Mac
pub mod Key
use Prim.Native.Nat.{bit_or, bit_and}
use open_unifi.Base.{
  ℕ, zero, suc, ◌+◌, ◌-◌, ◌*◌, ◌/◌, ◌%◌, not, ◌&&◌, ◌||◌, Bool, Option, none, some, List, [], ◌∷◌,
  ◌++◌, ltb, leb, ◌==◌, if◌then◌else◌, length, every, get_or,
}
use open_unifi.Inform.Bytes.{Bytes}

-- `digits[n]` for the constant "0123456789abcdef".
abbrev pub digits : Bytes
digits =
    b'0' ∷ b'1' ∷ b'2' ∷ b'3' ∷ b'4' ∷ b'5' ∷ b'6' ∷ b'7' ∷ b'8' ∷ b'9' ∷ b'a' ∷ b'b' ∷ b'c' ∷ b'd'
    ∷ b'e' ∷ b'f' ∷ []

abbrev digit : ℕ → ℕ
digit n = get_or digits n 0

-- `out = append(out, digits[c>>4], digits[c&0x0f])`, with a colon before every byte but the first.
colon_bytes : Bytes → Bytes
colon_bytes [] = []
colon_bytes (c ∷ cs) = b':' ∷ digit (c / 16) ∷ digit (bit_and c 0x0f) ∷ colon_bytes cs

unfoldable pub mac_string : Bytes → Bytes
unfolding colon_bytes
mac_string [] = []
mac_string (c ∷ cs) = digit (c / 16) ∷ digit (bit_and c 0x0f) ∷ colon_bytes cs

unfoldable pub hex_val : ℕ → Option ℕ
hex_val c =
    if leb b'0' c && leb c b'9'
    then some (c - b'0')
    else if leb b'a' c && leb c b'f'
    then some (c - b'a' + 10)
    else if leb b'A' c && leb c b'F'
    then some (c - b'A' + 10)
    else none

-- The bytes of the text that are not colons.
unfoldable pub strip_colons : Bytes → Bytes
strip_colons [] = []
strip_colons (c ∷ cs) = if not (c == b':') then c ∷ strip_colons cs else strip_colons cs

-- `hi<<4 | lo` on bytes.
pair_value : Option ℕ → Option ℕ → Option ℕ
pair_value (some hi) (some lo) = some (bit_or (hi * 16 % 256) lo)
pair_value none _ = none
pair_value (some _) none = none

push : Option ℕ → Option Bytes → Option Bytes
push (some b) (some bs) = some (b ∷ bs)
push none _ = none
push (some _) none = none

-- The loop over the digits, two at a time.
unfoldable pub parse_pairs : Bytes → Option Bytes
unfolding hex_val pair_value push
parse_pairs (h ∷ l ∷ rest) = push (pair_value (hex_val h) (hex_val l)) (parse_pairs rest)
parse_pairs (h ∷ []) = none
parse_pairs [] = some []

unfoldable pub parse_mac_string : Bytes → Option Bytes
unfolding strip_colons parse_pairs
parse_mac_string s =
    let clean = strip_colons s in if not (length clean == 12) then none else parse_pairs clean

-- The test of `DecodeKeyHex` on one character, as Go groups it: `&&` binds tighter than `||`.
bad_key_char : ℕ → Bool
bad_key_char c = ltb c b'0' || ltb b'9' c && ltb c b'a' || ltb b'f' c

-- `hex.DecodeString` on the lowercase digits that passed the test is the loop of `parse_pairs`.
unfoldable pub decode_key_hex : Bytes → Option Bytes
unfolding bad_key_char parse_pairs
decode_key_hex key =
    if not (length key == 32)
    then none
    else if every (λ c. not (bad_key_char c)) key
    then parse_pairs key
    else none
