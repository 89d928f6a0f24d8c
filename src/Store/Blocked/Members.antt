-- ===== src/Store/Blocked/Members.antt =====
-- Who is in the set of blocked clients after the administrator's writes.
use Prim.Native.String.{String}
use text.Mathlib.TextEquality.{eq_iff}
use open_unifi.Base.{
  Bool, true, false, not, ◌&&◌, ◌||◌, some, List, [], ◌∷◌, ◌≡◌, refl, ap, ◌∙◌, Bool-cases, All, inl,
  inr, arith,
}
use open_unifi.Base.Text.{str_eq}
use open_unifi.Base.Sort.{sort, str_lt}
use open_unifi.Store.Value.{JsonMap}
use open_unifi.Store.Mac.{canonical_mac}
use open_unifi.Store.Mac.Canonical.{canonical_mac-again}
use open_unifi.Store.Blocked.{
  contains, blocked_clients, write_blocked_clients, remove, add_canonical, add_blocked_client,
  remove_canonical, remove_blocked_client,
}
use open_unifi.Store.Blocked.Reading.{
  IsOwn, contains-sort, contains-write, All-sort, alike, blocked_clients-IsOwn,
}

joined : (e b : Bool) → (e ≡ true → b ≡ true) → b ≡ (e || b)
joined true b h = h refl
joined false b h = refl

-- The set after `r` is the one before with the client `c` in it, or without it.
abbrev pub HasAdded : String → JsonMap → JsonMap × Bool → Type 0
HasAdded c extra r =
    (s : String)
    → contains s (blocked_clients r.0) ≡ (str_eq s c || contains s (blocked_clients extra))

abbrev pub HasRemoved : String → JsonMap → JsonMap × Bool → Type 0
HasRemoved c extra r =
    (s : String)
    → contains s (blocked_clients r.0) ≡ (not (str_eq s c) && contains s (blocked_clients extra))

-- Blocking a client whose MAC has the canonical form `c` succeeds, and the set that is read from
-- the record afterwards is the one before with `c` in it: nobody else enters it or leaves it.
pub add_blocked_client-HasAdded :
    (client c : String) (extra : JsonMap)
    → canonical_mac client ≡ some c
    → (r : JsonMap × Bool) × (add_blocked_client client extra ≡ some r) × HasAdded c extra r
unfolding add_blocked_client add_canonical
add_blocked_client-HasAdded client c extra h =
    let set = blocked_clients extra in
    rw h (elim (Bool-cases (contains c set)) [
      | inl there ↦ rw there (
        (extra, false),
        refl,
        λ s. joined (str_eq s c) (contains s set) (alike s c set true there),
      )
      | inr new ↦ rw new (
        (write_blocked_clients (sort str_lt (c ∷ set)) extra, true),
        refl,
        λ s.
            contains-write s (sort str_lt (c ∷ set)) extra
              (All-sort (c ∷ set) (canonical_mac-again client c h, blocked_clients-IsOwn extra))
            ∙ contains-sort s (c ∷ set),
      )
    ])

only_others : (e b : Bool) → (not e && b) ≡ (not e && (e || b))
only_others true b = refl
only_others false b = refl

passed_over : (e x b : Bool) → (e ≡ true → x ≡ false) → (x || (not e && b)) ≡ (not e && (x || b))
passed_over true x b h = rw (h refl)
passed_over false x b h = refl

contains-remove :
    (s c : String) (xs : List String)
    → contains s (remove c xs) ≡ (not (str_eq s c) && contains s xs)
unfolding remove
contains-remove s c [] = ground arith
contains-remove s c (x ∷ xs) = elim (Bool-cases (str_eq x c)) [
  | inl this ↦
      rw (this, contains-remove s c xs, ap (λ y. str_eq s y) ((eq_iff x c).0 this))
        (only_others (str_eq s c) (contains s xs))
  | inr other ↦
      rw (other, contains-remove s c xs)
        (passed_over (str_eq s c) (str_eq s x) (contains s xs)
          (λ e. ground (arith, eq_iff s c, eq_iff s x, eq_iff x c)))
]

All-remove : (c : String) (xs : List String) → All IsOwn xs → All IsOwn (remove c xs)
unfolding remove
All-remove c [] own = tt
All-remove c (x ∷ xs) (o, own) = elim (Bool-cases (str_eq x c)) [
  | inl this ↦ rw (this, All) (All-remove c xs own)
  | inr other ↦ rw (other, All) (o, All-remove c xs own)
]

absent : (e b : Bool) → (e ≡ true → b ≡ false) → b ≡ (not e && b)
absent true b h = h refl
absent false b h = refl

-- Unblocking a client whose MAC has the canonical form `c` succeeds, and the set that is read from
-- the record afterwards is the one before without `c`: nobody else enters it or leaves it.
pub remove_blocked_client-HasRemoved :
    (client c : String) (extra : JsonMap)
    → canonical_mac client ≡ some c
    → (r : JsonMap × Bool) × (remove_blocked_client client extra ≡ some r) × HasRemoved c extra r
unfolding remove_blocked_client remove_canonical
remove_blocked_client-HasRemoved client c extra h =
    let set = blocked_clients extra in
    rw h (elim (Bool-cases (contains c set)) [
      | inr gone ↦ rw gone (
        (extra, false),
        refl,
        λ s. absent (str_eq s c) (contains s set) (alike s c set false gone),
      )
      | inl there ↦ rw there (
        (write_blocked_clients (remove c set) extra, true),
        refl,
        λ s.
            contains-write s (remove c set) extra (All-remove c set (blocked_clients-IsOwn extra))
            ∙ contains-remove s c set,
      )
    ])
