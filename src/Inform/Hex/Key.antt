-- ===== src/Inform/Hex/Key.antt =====
-- What `DecodeKeyHex` and `ParseMACString` accept.
use open_unifi.Base.{
  ℕ, zero, suc, ◌+◌, ◌-◌, ◌*◌, ◌%◌, ◌≡◌, ◌≤◌, refl, ◌⊎◌, true, not, some, [], ◌∷◌, arith, ◌==◌,
  length, every, All, and-true, ==_iff, Bool-cases, inl, inr, ◌↔◌,
}
use Prim.Native.Nat.{bit_or}
use mathlib.Core.Option.{none-ne-some}
use open_unifi.Inform.Bytes.{Bytes}
use open_unifi.Inform.Hex.{hex_val, pair_value, push, parse_pairs, bad_key_char, decode_key_hex}

-- A lowercase hexadecimal digit.
abbrev pub IsLowerHex : ℕ → Type 0
IsLowerHex c = ((b'0' ≤ c) × (c ≤ b'9')) ⊎ ((b'a' ≤ c) × (c ≤ b'f'))

bad_key_char_iff : (c : ℕ) → (not (bad_key_char c) ≡ true) ↔ IsLowerHex c
unfolding bad_key_char
bad_key_char_iff c = (λ h. ground arith, λ h. ground arith)

every-lower_iff : (s : Bytes) → (every (λ c. not (bad_key_char c)) s ≡ true) ↔ All IsLowerHex s
every-lower_iff [] = (λ h. tt, λ h. refl)
every-lower_iff (c ∷ cs) = (
  λ h.
      let (p, q) = and-true (not (bad_key_char c)) (every (λ c. not (bad_key_char c)) cs) h in
      ((bad_key_char_iff c).0 p, (every-lower_iff cs).0 q),
  λ (p, q). rw ((bad_key_char_iff c).1 p, (every-lower_iff cs).1 q),
)

hex_val-lower : (c : ℕ) → IsLowerHex c → (v : ℕ) × (hex_val c ≡ some v)
unfolding hex_val
hex_val-lower c (inl h) = (c - b'0', ground arith)
hex_val-lower c (inr h) = (c - b'a' + 10, ground arith)

-- An even number of lowercase digits is decoded, to half as many bytes.
parse_pairs-lower :
    (n : ℕ) (s : Bytes)
    → length s ≡ 2 * n
    → All IsLowerHex s
    → (m : Bytes) × (parse_pairs s ≡ some m) × (length m ≡ n)
unfolding parse_pairs pair_value push
parse_pairs-lower zero [] e h = ([], refl, refl)
parse_pairs-lower (suc n) [] e h = absurd (omega arith)
parse_pairs-lower n (a ∷ []) e h = absurd (omega arith)
parse_pairs-lower zero (a ∷ b ∷ s) e h = absurd (omega arith)
parse_pairs-lower (suc n) (a ∷ b ∷ s) e (p, (q, r)) =
    let (hi, ehi) = hex_val-lower a p in
    let (lo, elo) = hex_val-lower b q in
    let (m, em, en) = parse_pairs-lower n s (omega arith) r in
    (bit_or (hi * 16 % 256) lo ∷ m, rw (ehi, elo, em), omega arith)

abbrev pub IsKeyString : Bytes → Type 0
IsKeyString s = (length s ≡ 32) × All IsLowerHex s

decode_key_hex-some : (s : Bytes) → (k : Bytes) → decode_key_hex s ≡ some k → IsKeyString s
unfolding decode_key_hex
decode_key_hex-some s k h = elim (Bool-cases (length s == 32)) [
  | inr long ↦ absurd (none-ne-some _ (rw long at h))
  | inl fits ↦ elim (Bool-cases (every (λ c. not (bad_key_char c)) s)) [
    | inr bad ↦ absurd (none-ne-some _ (rw (fits, bad) at h))
    | inl good ↦ ((==_iff (length s) 32).0 fits, (every-lower_iff s).0 good)
  ]
]

decode_key_hex-lower :
    (s : Bytes) → IsKeyString s → (k : Bytes) × (decode_key_hex s ≡ some k) × (length k ≡ 16)
unfolding decode_key_hex
decode_key_hex-lower s (n, l) =
    let (k, e, size) = parse_pairs-lower 16 s n l in (k, rw (n, (every-lower_iff s).1 l) e, size)

-- `DecodeKeyHex` accepts exactly the strings of 32 lowercase hexadecimal digits, and what it
-- then returns is a key of 16 bytes.
pub decode_key_hex_lem :
    (s : Bytes) → IsKeyString s ↔ ((k : Bytes) × (decode_key_hex s ≡ some k) × (length k ≡ 16))
decode_key_hex_lem s = (decode_key_hex-lower s, λ (k, e, size). decode_key_hex-some s k e)
