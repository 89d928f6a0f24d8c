-- ===== src/Store/Blocked/Reading.antt =====
-- What is read back of a set of blocked clients that was written.
use Prim.Native.String.{String}
use text.Mathlib.TextEquality.{eq_iff}
use open_unifi.Base.{
  Bool, true, false, not, ◌&&◌, ◌||◌, Option, none, some, List, [], ◌∷◌, ◌≡◌, refl, ap, ◌∙◌,
  Bool-cases, Option-cases, All, inl, inr, arith,
}
use open_unifi.Base.Text.{str_eq}
use open_unifi.Base.Sort.{sort, str_lt, insert_sorted}
use open_unifi.Store.Value.{Value, null, bool, str, int, int64, float64, arr, obj, JsonMap, to_list}
use open_unifi.Store.Keys.{blocked_sta_extra_key}
use open_unifi.Store.Mac.{canonical_mac}
use open_unifi.Store.Mac.Canonical.{canonical_mac-again}
use open_unifi.Store.Blocked.{
  contains, text_of, collect, texts, row_entries, blocked_clients, texts_row, write_blocked_clients,
}

swap : (a b c : Bool) → (a || (b || c)) ≡ (b || (a || c))
swap a b c = ground arith

contains-insert_sorted :
    (s a : String) (xs : List String)
    → contains s (insert_sorted str_lt a xs) ≡ (str_eq s a || contains s xs)
unfolding insert_sorted
contains-insert_sorted s a [] = refl
contains-insert_sorted s a (b ∷ bs) = elim (Bool-cases (str_lt b a)) [
  | inl less ↦
      rw (less, contains-insert_sorted s a bs) (swap (str_eq s b) (str_eq s a) (contains s bs))
  | inr more ↦ rw more
]

pub contains-sort : (s : String) (xs : List String) → contains s (sort str_lt xs) ≡ contains s xs
unfolding sort
contains-sort s [] = refl
contains-sort s (a ∷ xs) =
    contains-insert_sorted s a (sort str_lt xs) ∙ ap (λ b. str_eq s a || b) (contains-sort s xs)

-- The entries of the row that name the client.
abbrev names : String → List (Option String) → Bool
names s [] = false
names s (none ∷ vs) = names s vs
names s (some c ∷ vs) = str_eq s c || names s vs

kept_once :
    (e seen rest : Bool) → (e ≡ true → seen ≡ true) → (not seen && rest) ≡ (not seen && (e || rest))
kept_once true seen rest h = rw (h refl)
kept_once false seen rest h = refl

added_once :
    (e seen rest : Bool)
    → (e ≡ true → seen ≡ false)
    → (e || (not (e || seen) && rest)) ≡ (not seen && (e || rest))
added_once true seen rest h = rw (h refl)
added_once false seen rest h = refl

pub alike :
    (s c : String) (seen : List String) (b : Bool)
    → contains c seen ≡ b
    → str_eq s c ≡ true
    → contains s seen ≡ b
alike s c seen b h e = ap (λ x. contains x seen) ((eq_iff s c).0 e) ∙ h

contains-collect :
    (s : String) (seen : List String) (vs : List (Option String))
    → contains s (collect seen vs) ≡ (not (contains s seen) && names s vs)
unfolding collect
contains-collect s seen [] = ground arith
contains-collect s seen (none ∷ vs) = contains-collect s seen vs
contains-collect s seen (some c ∷ vs) = elim (Bool-cases (contains c seen)) [
  | inl again ↦
      rw (again, contains)
        (contains-collect s seen vs
          ∙ kept_once (str_eq s c) (contains s seen) (names s vs) (alike s c seen true again))
  | inr fresh ↦
      rw (fresh, contains)
        (ap (λ b. str_eq s c || b) (contains-collect s (c ∷ seen) vs)
          ∙ added_once (str_eq s c) (contains s seen) (names s vs) (alike s c seen false fresh))
]

-- A text that stands for itself.
abbrev pub IsOwn : String → Type 0
IsOwn c = canonical_mac c ≡ some c

names-row :
    (s : String) (cs : List String)
    → All IsOwn cs
    → names s (texts (to_list (texts_row cs))) ≡ contains s cs
unfolding texts text_of texts_row
names-row s [] own = refl
names-row s (c ∷ cs) (o, own) = rw o (ap (λ b. str_eq s c || b) (names-row s cs own))

entries-write :
    (cs : List String) (extra : JsonMap)
    → row_entries (write_blocked_clients cs extra blocked_sta_extra_key) ≡ to_list (texts_row cs)
unfolding row_entries write_blocked_clients texts_row
entries-write [] extra = refl
entries-write (c ∷ cs) extra = refl

pub contains-write :
    (s : String) (cs : List String) (extra : JsonMap)
    → All IsOwn cs
    → contains s (blocked_clients (write_blocked_clients cs extra)) ≡ contains s cs
unfolding blocked_clients
contains-write s cs extra own =
    contains-sort s
      (collect [] (texts (row_entries (write_blocked_clients cs extra blocked_sta_extra_key))))
    ∙ ap (λ vs. contains s (collect [] (texts vs))) (entries-write cs extra)
    ∙ contains-collect s [] (texts (to_list (texts_row cs)))
    ∙ names-row s cs own

All-insert_sorted :
    (a : String) (xs : List String) → IsOwn a → All IsOwn xs → All IsOwn (insert_sorted str_lt a xs)
unfolding insert_sorted
All-insert_sorted a [] o own = (o, tt)
All-insert_sorted a (b ∷ bs) o (p, own) = elim (Bool-cases (str_lt b a)) [
  | inl less ↦ rw (less, All) (p, All-insert_sorted a bs o own)
  | inr more ↦ rw (more, All) (o, (p, own))
]

pub All-sort : (xs : List String) → All IsOwn xs → All IsOwn (sort str_lt xs)
unfolding sort
All-sort [] own = tt
All-sort (a ∷ xs) (o, own) = All-insert_sorted a (sort str_lt xs) o (All-sort xs own)

text_of-IsOwn : (v : Value) (c : String) → text_of v ≡ some c → IsOwn c
unfolding text_of
text_of-IsOwn (str s) c e = canonical_mac-again s c e
text_of-IsOwn null c e = cc
text_of-IsOwn (bool b) c e = cc
text_of-IsOwn (int n) c e = cc
text_of-IsOwn (int64 n) c e = cc
text_of-IsOwn (float64 n) c e = cc
text_of-IsOwn (arr vs) c e = cc
text_of-IsOwn (obj fs) c e = cc

All-collect : (seen : List String) (vs : List Value) → All IsOwn (collect seen (texts vs))
unfolding collect texts
All-collect seen [] = tt
All-collect seen (v ∷ vs) = elim (Option-cases (text_of v)) [
  | inl odd ↦ rw (odd, All) (All-collect seen vs)
  | inr (c, e) ↦
      rw (e, All)
        (elim (Bool-cases (contains c seen)) [
          | inl again ↦ rw (again, All) (All-collect seen vs)
          | inr fresh ↦ rw (fresh, All) (text_of-IsOwn v c e, All-collect (c ∷ seen) vs)
        ])
]

pub blocked_clients-IsOwn : (extra : JsonMap) → All IsOwn (blocked_clients extra)
unfolding blocked_clients
blocked_clients-IsOwn extra =
    All-sort _ (All-collect [] (row_entries (extra blocked_sta_extra_key)))
