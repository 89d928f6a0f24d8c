-- ===== src/Store/Mac.antt =====
-- internal/store/store.go: `CanonicalMAC` and `ColonMAC`.
pub mod Canonical
use Prim.Native.Char.{Char, code}
use Prim.Native.String.{String}
use open_unifi.Base.{
  ℕ, suc, Bool, true, ◌&&◌, ◌||◌, Option, none, some, List, [], ◌∷◌, leb, ◌==◌, if◌then◌else◌,
}

-- The separators that `canonicalMAC` drops.
is_separator : ℕ → Bool
is_separator c = c == b':' || c == b'-' || c == b'.' || c == b' '

-- The capital letters by their codes, and the small ones.
abbrev letters : List (ℕ × Char)
letters =
    (b'A', "a")
    ∷ (b'B', "b")
    ∷ (b'C', "c")
    ∷ (b'D', "d")
    ∷ (b'E', "e")
    ∷ (b'F', "f")
    ∷ (b'G', "g")
    ∷ (b'H', "h")
    ∷ (b'I', "i")
    ∷ (b'J', "j")
    ∷ (b'K', "k")
    ∷ (b'L', "l")
    ∷ (b'M', "m")
    ∷ (b'N', "n")
    ∷ (b'O', "o")
    ∷ (b'P', "p")
    ∷ (b'Q', "q")
    ∷ (b'R', "r")
    ∷ (b'S', "s")
    ∷ (b'T', "t")
    ∷ (b'U', "u")
    ∷ (b'V', "v")
    ∷ (b'W', "w")
    ∷ (b'X', "x")
    ∷ (b'Y', "y")
    ∷ (b'Z', "z")
    ∷ []

look_up : Char → List (ℕ × Char) → Char
look_up c [] = c
look_up c ((n, small) ∷ rest) = if code c == n then small else look_up c rest

-- `strings.ToLower`, on ASCII.
lower_char : Char → Char
unfolding look_up
lower_char c = look_up c letters

unfoldable pub normalize : String → String
unfolding is_separator lower_char
normalize String.[] = String.[]
normalize (String.◌∷◌ c s) =
    if is_separator (code c) then normalize s else String.◌∷◌ (lower_char c) (normalize s)

is_hex : ℕ → Bool
is_hex c = leb b'0' c && leb c b'9' || leb b'a' c && leb c b'f'

all_hex : String → Bool
all_hex String.[] = true
all_hex (String.◌∷◌ c s) = is_hex (code c) && all_hex s

count_chars : String → ℕ
count_chars String.[] = 0
count_chars (String.◌∷◌ c s) = suc (count_chars s)

-- Twelve hexadecimal digits.
unfoldable pub is_canonical : String → Bool
unfolding is_hex all_hex count_chars
is_canonical s = count_chars s == 12 && all_hex s

-- `none` is a Go error.
unfoldable pub canonical_mac : String → Option String
unfolding normalize is_canonical
canonical_mac mac = if is_canonical (normalize mac) then some (normalize mac) else none

-- A colon before every second digit but the first.
colons : String → String
colons (String.◌∷◌ a (String.◌∷◌ b s)) = String.◌∷◌ ":" (String.◌∷◌ a (String.◌∷◌ b (colons s)))
colons s = String.[]

pairs : String → String
pairs (String.◌∷◌ a (String.◌∷◌ b s)) = String.◌∷◌ a (String.◌∷◌ b (colons s))
pairs s = String.[]

unfoldable pub lower_text : String → String
unfolding lower_char
lower_text String.[] = String.[]
lower_text (String.◌∷◌ c s) = String.◌∷◌ (lower_char c) (lower_text s)

-- On a canonical text; one of another length is returned lowered.
unfoldable pub colon_mac : String → String
unfolding count_chars pairs colons lower_char lower_text
colon_mac canonical =
    let low = lower_text canonical in if count_chars low == 12 then pairs low else low
