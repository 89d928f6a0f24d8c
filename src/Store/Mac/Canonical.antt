-- ===== src/Store/Mac/Canonical.antt =====
-- Canonical texts stand for themselves.
use Prim.Native.Char.{Char, code}
use Prim.Native.String.{String}
use mathlib.Core.Option.{some-injective, none-ne-some}
use open_unifi.Base.{
  ℕ, ◌≤◌, ◌<◌, ◌⊎◌, All, List, [], ◌∷◌, true, false, some, ◌==◌, ◌≡◌, refl, ap, subst, Bool-cases,
  inl, inr, and-true, arith,
}
use open_unifi.Store.Mac.{
  is_separator, letters, look_up, lower_char, is_hex, all_hex, count_chars, normalize, is_canonical,
  canonical_mac,
}

is_hex-separator : (n : ℕ) → is_hex n ≡ true → is_separator n ≡ false
unfolding is_hex is_separator
is_hex-separator n h = ground arith

-- A character that is no capital letter stays.
look_up-other :
    (c : Char) (t : List (ℕ × Char))
    → All (λ e. (65 ≤ e.0) × (e.0 ≤ 90)) t
    → (code c < 65) ⊎ (90 < code c)
    → look_up c t ≡ c
unfolding look_up
look_up-other c [] range other = refl
look_up-other c ((n, small) ∷ t) (this, rest) other = elim (Bool-cases (code c == n)) [
  | inl e ↦ absurd (ground (arith, e, this, other))
  | inr e ↦ rw e (look_up-other c t rest other)
]

-- What a capital letter becomes is a small one.
look_up-small :
    (c : Char) (t : List (ℕ × Char))
    → All (λ e. 97 ≤ code e.1) t
    → (look_up c t ≡ c) ⊎ (97 ≤ code (look_up c t))
unfolding look_up
look_up-small c [] range = inl refl
look_up-small c ((n, small) ∷ t) (this, rest) = elim (Bool-cases (code c == n)) [
  | inl e ↦ rw e (inr this)
  | inr e ↦ rw e (look_up-small c t rest)
]

lower_char-other : (c : Char) → (code c < 65) ⊎ (90 < code c) → lower_char c ≡ c
unfolding lower_char
lower_char-other c other = look_up-other c letters (omega arith) other

lower_char-small : (c : Char) → (lower_char c ≡ c) ⊎ (97 ≤ code (lower_char c))
unfolding lower_char
lower_char-small c = look_up-small c letters (omega arith)

is_hex-lower_char : (c : Char) → is_hex (code c) ≡ true → lower_char c ≡ c
unfolding is_hex
is_hex-lower_char c h = lower_char-other c (ground (arith, h))

normalize-all_hex : (s : String) → all_hex s ≡ true → normalize s ≡ s
unfolding all_hex normalize
normalize-all_hex String.[] h = refl
normalize-all_hex (String.◌∷◌ c s) h =
    let (p, q) = and-true (is_hex (code c)) (all_hex s) h in
    rw (is_hex-separator (code c) p, is_hex-lower_char c p)
      (ap (λ t. String.◌∷◌ c t) (normalize-all_hex s q))

normalize-is_canonical : (s : String) → is_canonical s ≡ true → normalize s ≡ s
unfolding is_canonical
normalize-is_canonical s h = normalize-all_hex s (and-true (count_chars s == 12) (all_hex s) h).1

-- The canonical text of a MAC is its own canonical text.
pub canonical_mac-again : (mac c : String) → canonical_mac mac ≡ some c → canonical_mac c ≡ some c
unfolding canonical_mac
canonical_mac-again mac c h = elim (Bool-cases (is_canonical (normalize mac))) [
  | inr bad ↦ absurd (none-ne-some c (rw (bad, canonical_mac) at h))
  | inl good ↦
      let e = some-injective (normalize mac) c (rw (good, canonical_mac) at h) in
      let fine = subst (λ t. is_canonical t ≡ true) e good in
      rw (normalize-is_canonical c fine, fine)
]

lower_char-again : (c : Char) → lower_char (lower_char c) ≡ lower_char c
lower_char-again c = elim (lower_char-small c) [
  | inl same ↦ ap lower_char same
  | inr small ↦ lower_char-other (lower_char c) (inr (omega arith))
]

is_separator-lower_char :
    (c : Char) → is_separator (code c) ≡ false → is_separator (code (lower_char c)) ≡ false
unfolding is_separator
is_separator-lower_char c h = elim (lower_char-small c) [
  | inl same ↦ rw same h
  | inr small ↦ ground (arith, small)
]

-- A canonical spelling is its own.
pub normalize-again : (s : String) → normalize (normalize s) ≡ normalize s
unfolding normalize
normalize-again String.[] = refl
normalize-again (String.◌∷◌ c s) = elim (Bool-cases (is_separator (code c))) [
  | inl e ↦ rw e (normalize-again s)
  | inr e ↦
      rw (e, normalize, is_separator-lower_char c e, lower_char-again c)
        (ap (λ t. String.◌∷◌ (lower_char c) t) (normalize-again s))
]
