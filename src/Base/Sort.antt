-- ===== src/Base/Sort.antt =====
-- sort.Slice and sort.Strings: insertion by a strict order. Go's sort may order entries that the
-- test does not tell apart in any way; here they keep the order of the list.
use Prim.Native.String.{String}
use mathlib.Core.Bool.{Bool, true, false}
use mathlib.Core.List.{List, [], ◌∷◌}
use open_unifi.Base.Tests.{ltb, ◌==◌, if◌then◌else◌}
use open_unifi.Base.Text.{codes}
use Prim.Native.Nat.{ℕ}

module _ {ℓ} {A : Type ℓ} (before : A → A → Bool) where
  unfoldable pub insert_sorted : A → List A → List A
  insert_sorted a [] = a ∷ []
  insert_sorted a (b ∷ bs) = if before b a then b ∷ insert_sorted a bs else a ∷ b ∷ bs

  unfoldable pub sort : List A → List A
  unfolding insert_sorted
  sort [] = []
  sort (a ∷ xs) = insert_sorted a (sort xs)

-- `a < b` on texts, code point by code point.
unfoldable pub codes_lt : List ℕ → List ℕ → Bool
codes_lt _ [] = false
codes_lt [] (b ∷ t) = true
codes_lt (a ∷ s) (b ∷ t) = if ltb a b then true else if a == b then codes_lt s t else false

unfoldable pub str_lt : String → String → Bool
unfolding codes_lt
str_lt a b = codes_lt (codes a) (codes b)
