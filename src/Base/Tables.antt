-- ===== src/Base/Tables.antt =====
-- Go maps that are ranged over, as association lists: `m[k]`, `m[k] = v` and `delete(m, k)`. A Go
-- map has no order; a table's is that of its list, and the code that ranges over one sorts after.
pub mod Entries
use Prim.Native.String.{String}
use text.Mathlib.TextEquality.{eq_iff}
use mathlib.Core.Path.{◌≡◌, refl, sym, ap, ◌∙◌}
use mathlib.Core.Bool.{Bool, true, false}
use mathlib.Core.Option.{Option, none, some}
use mathlib.Core.List.{List, [], ◌∷◌}
use mathlib.Core.Logic.{◌≢◌, ◌↔◌, ◌⊎◌, inl, inr}
use native.Mathlib.Omega.{arith}
use open_unifi.Base.Tests.{if◌then◌else◌, Bool-cases, true-ne-false, false-ne-true}
use open_unifi.Base.Text.{str_eq}
use open_unifi.Base.Sort.{sort, insert_sorted}

pub str_eq_self : (a : String) → str_eq a a ≡ true
str_eq_self a = (eq_iff a a).1 refl

first_key : (k j i : String) → str_eq j i ≡ false → str_eq k i ≡ true → str_eq k j ≡ false
first_key k j i other this = ground (arith, eq_iff k j, eq_iff k i, eq_iff j i)

pub str_eq_sym : (a b : String) → str_eq a b ≡ false → str_eq b a ≡ false
str_eq_sym a b e = ground (arith, eq_iff a b, eq_iff b a)

pub some_ne_none {ℓ} : {A : Type ℓ} (a : A) → some a ≢ none
some_ne_none a e = cc

pub some_injective {ℓ} : {A : Type ℓ} (a b : A) → some a ≡ some b → a ≡ b
some_injective a b e = cc

module _ {ℓ} {A : Type ℓ} where
  abbrev pub find : String → List (String × A) → Option A
  find k [] = none
  find k ((j, a) ∷ t) = if str_eq k j then some a else find k t

  unfoldable pub without : String → List (String × A) → List (String × A)
  without k [] = []
  without k ((j, a) ∷ t) = let rest = without k t in if str_eq k j then rest else (j, a) ∷ rest

  unfoldable pub bind : String → A → List (String × A) → List (String × A)
  unfolding without
  bind k a t = (k, a) ∷ without k t

  -- The entries that pass a test: a loop that deletes the others.
  unfoldable pub keep_if : (String × A → Bool) → List (String × A) → List (String × A)
  keep_if p [] = []
  keep_if p (e ∷ t) = let rest = keep_if p t in if p e then e ∷ rest else rest

  -- No two entries have one key.
  abbrev pub IsKeyed : List (String × A) → Type ℓ
  IsKeyed [] = Unit
  IsKeyed ((k, a) ∷ t) = (find k t ≡ none) × IsKeyed t

  pub missed :
      (k i : String) (b : A) (t : List (String × A))
      → find k ((i, b) ∷ t) ≡ none
      → (str_eq k i ≡ false) × (find k t ≡ none)
  missed k i b t gone = elim (Bool-cases (str_eq k i)) [
    | inl e ↦ absurd (some_ne_none b (rw (find, e) at gone))
    | inr e ↦ (e, rw (find, e) at gone)
  ]

  misses :
      (k i : String) (b : A) (t : List (String × A))
      → str_eq k i ≡ false
      → find k t ≡ none
      → find k ((i, b) ∷ t) ≡ none
  misses k i b t e gone = rw (find, e) gone

  keyed :
      (k : String) (a : A) (t : List (String × A))
      → find k t ≡ none
      → IsKeyed t
      → IsKeyed ((k, a) ∷ t)
  keyed k a t new rest = (new, rest)

  pub find-without :
      (k j : String) (t : List (String × A))
      → find k (without j t) ≡ (if str_eq k j then none else find k t)
  unfolding without
  find-without k j [] = elim (Bool-cases (str_eq k j)) [ inl e ↦ rw e refl | inr e ↦ rw e refl ]
  find-without k j ((i, a) ∷ t) = elim (Bool-cases (str_eq j i)) [
    | inl e ↦
        rw (e, find-without k j t, ap (λ x. str_eq k x) ((eq_iff j i).0 e))
          (elim (Bool-cases (str_eq k i)) [ inl f ↦ rw f refl | inr f ↦ rw f refl ])
    | inr e ↦ elim (Bool-cases (str_eq k i)) [
      | inl f ↦ rw (e, find, f, first_key k j i e f) refl
      | inr f ↦ rw (e, find, f, find-without k j t) refl
    ]
  ]

  pub find-bind :
      (k j : String) (a : A) (t : List (String × A))
      → find k (bind j a t) ≡ (if str_eq k j then some a else find k t)
  unfolding bind
  find-bind k j a t = elim (Bool-cases (str_eq k j)) [
    | inl e ↦ rw e refl
    | inr e ↦ rw (e, find-without k j t, e) refl
  ]

  pub find-bind_self : (k : String) (a : A) (t : List (String × A)) → find k (bind k a t) ≡ some a
  find-bind_self k a t = find-bind k k a t ∙ rw (str_eq_self k) refl

  without-no_key :
      (k j : String) (t : List (String × A)) → find k t ≡ none → find k (without j t) ≡ none
  without-no_key k j t gone =
      find-without k j t
      ∙ elim (Bool-cases (str_eq k j)) [ inl e ↦ rw e refl | inr e ↦ rw (e, gone) refl ]

  pub without-IsKeyed : (k : String) (t : List (String × A)) → IsKeyed t → IsKeyed (without k t)
  unfolding without
  without-IsKeyed k [] keyed = tt
  without-IsKeyed k ((j, a) ∷ t) (new, old) = elim (Bool-cases (str_eq k j)) [
    | inl e ↦ rw e (without-IsKeyed k t old)
    | inr e ↦ rw e (keyed j a (without k t) (without-no_key j k t new) (without-IsKeyed k t old))
  ]

  pub bind-IsKeyed : (k : String) (a : A) (t : List (String × A)) → IsKeyed t → IsKeyed (bind k a t)
  unfolding bind
  bind-IsKeyed k a t keyed =
      (rw (find-without k k t, str_eq_self k) refl, without-IsKeyed k t keyed)

  -- A sorted table keeps its keys.
  module _ (before : String × A → String × A → Bool) where
    insert-no_key :
        (k j : String) (a : A) (t : List (String × A))
        → str_eq k j ≡ false
        → find k t ≡ none
        → find k (insert_sorted before (j, a) t) ≡ none
    unfolding insert_sorted
    insert-no_key k j a [] other gone = rw other refl
    insert-no_key k j a ((i, b) ∷ t) other gone =
        let (o, rest) = missed k i b t gone in
        elim (Bool-cases (before (i, b) (j, a))) [
          | inl e ↦
              rw e
                (misses k i b (insert_sorted before (j, a) t) o (insert-no_key k j a t other rest))
          | inr e ↦ rw e (misses k j a ((i, b) ∷ t) other gone)
        ]

    sort-no_key :
        (k : String) (t : List (String × A)) → find k t ≡ none → find k (sort before t) ≡ none
    unfolding sort
    sort-no_key k [] gone = refl
    sort-no_key k ((j, a) ∷ t) gone =
        let (o, rest) = missed k j a t gone in
        insert-no_key k j a (sort before t) o (sort-no_key k t rest)

    insert-IsKeyed :
        (j : String) (a : A) (t : List (String × A))
        → find j t ≡ none
        → IsKeyed t
        → IsKeyed (insert_sorted before (j, a) t)
    unfolding insert_sorted
    insert-IsKeyed j a [] new keyed = (refl, tt)
    insert-IsKeyed j a ((i, b) ∷ t) new old =
        let (o, rest) = missed j i b t new in
        elim (Bool-cases (before (i, b) (j, a))) [
          | inl e ↦ rw e (
              keyed i b (insert_sorted before (j, a) t)
                (insert-no_key i j a t (str_eq_sym j i o) old.0) (insert-IsKeyed j a t rest old.1))
          | inr e ↦ rw e (keyed j a ((i, b) ∷ t) new old)
        ]

    pub sort-IsKeyed : (t : List (String × A)) → IsKeyed t → IsKeyed (sort before t)
    unfolding sort
    sort-IsKeyed [] keyed = tt
    sort-IsKeyed ((j, a) ∷ t) (new, keyed) =
        insert-IsKeyed j a (sort before t) (sort-no_key j t new) (sort-IsKeyed t keyed)
