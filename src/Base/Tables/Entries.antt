-- ===== src/Base/Tables/Entries.antt =====
-- The entries of a table that are those of another: a part of it, sorted or filtered.
use Prim.Native.String.{String}
use Prim.Native.Nat.{◌≤◌, ◌<◌}
use native.Mathlib.Omega.{arith}
use text.Mathlib.TextEquality.{eq_iff}
use open_unifi.Base.Lists.{All, length}
use mathlib.Core.Path.{◌≡◌, refl, sym, ap, subst, ◌∙◌}
use mathlib.Core.Bool.{Bool, true}
use mathlib.Core.Option.{none, some}
use mathlib.Core.List.{List, [], ◌∷◌}
use mathlib.Core.Logic.{inl, inr}
use open_unifi.Base.Tests.{Bool-cases}
use open_unifi.Base.Text.{str_eq}
use open_unifi.Base.Sort.{sort, insert_sorted}
use open_unifi.Base.Tables.{
  find, without, bind, keep_if, find-without, IsKeyed, missed, str_eq_sym, str_eq_self,
  some_ne_none, some_injective,
}

module _ {ℓ κ} {A : Type ℓ} (P : A → Type κ) (before : A → A → Bool) where
  All-insert : (a : A) (xs : List A) → P a → All P xs → All P (insert_sorted before a xs)
  unfolding insert_sorted
  All-insert a [] p ps = (p, tt)
  All-insert a (b ∷ bs) p (q, qs) = elim (Bool-cases (before b a)) [
    | inl e ↦ rw (e, All) (q, All-insert a bs p qs)
    | inr e ↦ rw (e, All) (p, (q, qs))
  ]

  pub All-sort : (xs : List A) → All P xs → All P (sort before xs)
  unfolding sort
  All-sort [] ps = tt
  All-sort (a ∷ xs) (p, ps) = All-insert a (sort before xs) p (All-sort xs ps)

module _ {ℓ} {A : Type ℓ} where
  -- Each entry is what the table has under its key.
  abbrev pub IsIn : List (String × A) → String × A → Type ℓ
  IsIn t e = find e.0 t ≡ some e.1

  pub without-AllIn :
      (c : String) (due t : List (String × A))
      → find c due ≡ none
      → All (IsIn t) due
      → All (IsIn (without c t)) due
  without-AllIn c [] t other ins = tt
  without-AllIn c ((k, a) ∷ due) t other (in_t, ins) =
      let (ne, rest) = missed c k a due other in
      (rw (find-without k c t, str_eq_sym c k ne) in_t, without-AllIn c due t rest ins)

  cons-AllIn :
      (c : String) (b : A) (due t : List (String × A))
      → find c due ≡ none
      → All (IsIn t) due
      → All (IsIn ((c, b) ∷ t)) due
  cons-AllIn c b [] t other ins = tt
  cons-AllIn c b ((k, a) ∷ due) t other (in_t, ins) =
      let (ne, rest) = missed c k a due other in
      (rw (find, str_eq_sym c k ne) in_t, cons-AllIn c b due t rest ins)

  pub IsKeyed-IsIn : (t : List (String × A)) → IsKeyed t → All (IsIn t) t
  IsKeyed-IsIn [] keyed = tt
  IsKeyed-IsIn ((k, a) ∷ t) (new, keyed) =
      (rw (find, str_eq_self k) refl, cons-AllIn k a t t new (IsKeyed-IsIn t keyed))

  module _ {κ} (P : String × A → Type κ) where
    pub All-without : (k : String) (t : List (String × A)) → All P t → All P (without k t)
    unfolding without
    All-without k [] ps = tt
    All-without k ((j, a) ∷ t) (this, rest) = elim (Bool-cases (str_eq k j)) [
      | inl e ↦ rw e (All-without k t rest)
      | inr e ↦ rw (e, All) (this, All-without k t rest)
    ]

    pub All-bind :
        (k : String) (a : A) (t : List (String × A)) → P (k, a) → All P t → All P (bind k a t)
    unfolding bind
    All-bind k a t this rest = (this, All-without k t rest)

    pub All-keep_if :
        (p : String × A → Bool) (t : List (String × A)) → All P t → All P (keep_if p t)
    unfolding keep_if
    All-keep_if p [] ps = tt
    All-keep_if p (e ∷ t) (this, rest) = elim (Bool-cases (p e)) [
      | inl yes_it ↦ rw (yes_it, All) (this, All-keep_if p t rest)
      | inr no_it ↦ rw no_it (All-keep_if p t rest)
    ]

    pub All-find :
        (k : String) (a : A) (t : List (String × A)) → find k t ≡ some a → All P t → P (k, a)
    All-find k a [] found ps = absurd (some_ne_none a (sym found))
    All-find k a ((j, b) ∷ t) found (this, rest) = elim (Bool-cases (str_eq k j)) [
      | inl e ↦
          subst (λ x. P (k, x)) (some_injective b a (rw (find, e) at found))
            (subst (λ x. P (x, b)) (sym ((eq_iff k j).0 e)) this)
      | inr e ↦ All-find k a t (rw (find, e) at found) rest
    ]

  pub length-without : (k : String) (t : List (String × A)) → length (without k t) ≤ length t
  unfolding without
  length-without k [] = omega arith
  length-without k ((j, a) ∷ t) = elim (Bool-cases (str_eq k j)) [
    | inl e ↦ rw e (omega (arith, length-without k t))
    | inr e ↦ rw e (omega (arith, length-without k t))
  ]

  pub length-without_found :
      (k : String) (a : A) (t : List (String × A))
      → find k t ≡ some a
      → length (without k t) < length t
  unfolding without
  length-without_found k a [] found = absurd (some_ne_none a (sym found))
  length-without_found k a ((j, b) ∷ t) found = elim (Bool-cases (str_eq k j)) [
    | inl e ↦ rw e (omega (arith, length-without k t))
    | inr e ↦ rw e (omega (arith, length-without_found k a t (rw (find, e) at found)))
  ]

  module _ (p : String × A → Bool) where
    keep_if-no_key :
        (k : String) (t : List (String × A)) → find k t ≡ none → find k (keep_if p t) ≡ none
    unfolding keep_if
    keep_if-no_key k [] gone = refl
    keep_if-no_key k ((j, a) ∷ t) gone =
        let (ne, rest) = missed k j a t gone in
        elim (Bool-cases (p (j, a))) [
          | inl e ↦ rw (e, find, ne) (keep_if-no_key k t rest)
          | inr e ↦ rw e (keep_if-no_key k t rest)
        ]

    pub keep_if-IsKeyed : (t : List (String × A)) → IsKeyed t → IsKeyed (keep_if p t)
    unfolding keep_if
    keep_if-IsKeyed [] keyed = tt
    keep_if-IsKeyed ((j, a) ∷ t) (new, keyed) = elim (Bool-cases (p (j, a))) [
      | inl e ↦ rw (e, IsKeyed) (keep_if-no_key j t new, keep_if-IsKeyed t keyed)
      | inr e ↦ rw e (keep_if-IsKeyed t keyed)
    ]

    pub length-keep_if : (t : List (String × A)) → length (keep_if p t) ≤ length t
    unfolding keep_if
    length-keep_if [] = omega arith
    length-keep_if (x ∷ t) = elim (Bool-cases (p x)) [
      | inl e ↦ rw e (omega (arith, length-keep_if t))
      | inr e ↦ rw e (omega (arith, length-keep_if t))
    ]

    pub find-keep_if :
        (k : String) (a : A) (t : List (String × A))
        → p (k, a) ≡ true
        → find k t ≡ some a
        → find k (keep_if p t) ≡ some a
    unfolding keep_if
    find-keep_if k a [] good found = absurd (some_ne_none a (sym found))
    find-keep_if k a ((j, b) ∷ t) good found = elim (Bool-cases (str_eq k j)) [
      | inl e ↦
          let this =
            ap (λ x. p (x, b)) (sym ((eq_iff k j).0 e))
            ∙ ap (λ x. p (k, x)) (some_injective b a (rw (find, e) at found))
            ∙ good in
          rw (this, find, e) (rw (find, e) at found)
      | inr e ↦
          let rest = find-keep_if k a t good (rw (find, e) at found) in
          elim (Bool-cases (p (j, b))) [
            | inl in_it ↦ rw (in_it, find, e) rest
            | inr out ↦ rw out rest
          ]
    ]
