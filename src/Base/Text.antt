-- ===== src/Base/Text.antt =====
-- Go strings that are compared and joined whole, as the native `String`: strconv.Itoa, and
-- strings.EqualFold on ASCII text.
use Prim.Native.Nat.{ℕ, zero, suc, ◌+◌, ◌/◌, ◌%◌}
use Prim.Native.Char.{code}
use Prim.Native.String.{String, ◌++◌ as ◌<>◌}
use mathlib.Core.Path.{◌≡◌, refl, ap, ◌∙◌}
use mathlib.Core.Bool.{Bool, true, false, ◌&&◌}
use mathlib.Core.List.{List, [], ◌∷◌, map}
use native.Mathlib.Omega.{arith}
use text.Mathlib.Text.{◌==◌}
use open_unifi.Base.Tests.{ltb, leb, ◌==◌ as nat_eq, if◌then◌else◌}

abbrev pub str_eq : String → String → Bool
str_eq a b = a == b

abbrev pub codes : String → List ℕ
codes String.[] = []
codes (String.◌∷◌ c s) = code c ∷ codes s

abbrev pub lower_code : ℕ → ℕ
lower_code c = if leb b'A' c && leb c b'Z' then c + 32 else c

unfoldable pub codes_eq : List ℕ → List ℕ → Bool
codes_eq [] [] = true
codes_eq (a ∷ s) (b ∷ t) = nat_eq a b && codes_eq s t
codes_eq _ _ = false

unfoldable pub equal_fold : String → String → Bool
unfolding codes_eq
equal_fold a b = codes_eq (map lower_code (codes a)) (map lower_code (codes b))

codes_eq_self : (s : List ℕ) → codes_eq s s ≡ true
unfolding codes_eq
codes_eq_self [] = refl
codes_eq_self (a ∷ s) = ground (arith, codes_eq_self s)

heads_eq : (a b : ℕ) (c : Bool) → (nat_eq a b && c) ≡ true → a ≡ b
heads_eq a b c h = ground arith

tails_eq : (b c : Bool) → (b && c) ≡ true → c ≡ true
tails_eq b c h = ground arith

pub codes_eq_sound : (s t : List ℕ) → codes_eq s t ≡ true → s ≡ t
unfolding codes_eq
codes_eq_sound [] [] h = refl
codes_eq_sound [] (b ∷ t) h = cc
codes_eq_sound (a ∷ s) [] h = cc
codes_eq_sound (a ∷ s) (b ∷ t) h =
    ap (λ x. x ∷ s) (heads_eq a b (codes_eq s t) h)
    ∙ ap (λ r. b ∷ r) (codes_eq_sound s t (tails_eq (nat_eq a b) (codes_eq s t) h))

pub equal_fold_self : (s : String) → equal_fold s s ≡ true
unfolding equal_fold
equal_fold_self s = codes_eq_self (map lower_code (codes s))

-- The digit of a number below ten.
abbrev digit_text : ℕ → String
digit_text zero = "0"
digit_text (suc zero) = "1"
digit_text (suc (suc zero)) = "2"
digit_text (suc (suc (suc zero))) = "3"
digit_text (suc (suc (suc (suc zero)))) = "4"
digit_text (suc (suc (suc (suc (suc zero))))) = "5"
digit_text (suc (suc (suc (suc (suc (suc zero)))))) = "6"
digit_text (suc (suc (suc (suc (suc (suc (suc zero))))))) = "7"
digit_text (suc (suc (suc (suc (suc (suc (suc (suc zero)))))))) = "8"
digit_text _ = "9"

itoa_fuel : ℕ → ℕ → String
itoa_fuel zero n = ""
itoa_fuel (suc f) n =
    let rest = itoa_fuel f (n / 10) in
    if ltb n 10 then digit_text n else rest <> digit_text (n % 10)

-- A number has fewer digits than `n + 1`.
unfoldable pub itoa : ℕ → String
unfolding itoa_fuel
itoa n = itoa_fuel (suc n) n
