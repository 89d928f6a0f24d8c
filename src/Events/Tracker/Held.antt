-- ===== src/Events/Tracker/Held.antt =====
-- A held disconnect is one of a client that the tracker still has on that access point.
use Prim.Native.String.{String}
use text.Mathlib.TextEquality.{eq_iff}
use open_unifi.Base.{
  false, Option, none, some, List, ◌≡◌, refl, sym, ap, ◌∙◌, if◌then◌else◌, Bool-cases, inl, inr,
}
use open_unifi.Base.Text.{str_eq}
use open_unifi.Base.Tables.{
  find, bind, without, find-bind, find-without, some_ne_none, some_injective, IsKeyed, bind-IsKeyed,
  without-IsKeyed,
}
use open_unifi.Events.Presence.{World, move, same_world}
use open_unifi.Events.Tracker.{Presence, PendingDisconnect, Tracker}

abbrev pub ap_of : Option Presence → Option String
ap_of none = none
ap_of (some p) = some p.ap

-- Where the tracker has each client.
abbrev pub where_is : List (String × Presence) → World
where_is current c = ap_of (find c current)

pub where_is-bind :
    (c : String) (p : Presence) (current : List (String × Presence))
    → where_is (bind c p current) ≡ move c (some p.ap) (where_is current)
where_is-bind c p current =
    same_world _ _
      (λ k. rw find-bind (elim (Bool-cases (str_eq k c)) [ inl e ↦ rw e refl | inr e ↦ rw e refl ]))

pub where_is-without :
    (c : String) (current : List (String × Presence))
    → where_is (without c current) ≡ move c none (where_is current)
where_is-without c current = same_world _ _ (λ k.
    rw find-without (elim (Bool-cases (str_eq k c)) [ inl e ↦ rw e refl | inr e ↦ rw e refl ]))

pub record IsHeld (t : Tracker) : Type 0 where
  pub keyed : IsKeyed t.pending
  pub here :
      (c : String) (p : PendingDisconnect)
      → find c t.pending ≡ some p
      → (where_is t.current c ≡ some p.ap) × (p.session.mac ≡ c)

-- The client that a table without `c` holds is another one.
pub other_client {ℓ} :
    {A : Type ℓ} (k c : String) (t : List (String × A)) (a : A)
    → find k (without c t) ≡ some a
    → (str_eq k c ≡ false) × (find k t ≡ some a)
other_client k c t a found = elim (Bool-cases (str_eq k c)) [
  | inl e ↦ absurd (some_ne_none a (sym found ∙ rw (find-without k c t, e) refl))
  | inr e ↦ (e, sym (rw (find-without k c t, e) refl) ∙ found)
]

another {ℓ} :
    {A : Type ℓ} (k c : String) (t : List (String × A)) (a : A)
    → find c t ≡ none
    → find k t ≡ some a
    → str_eq k c ≡ false
another k c t a nothing found = elim (Bool-cases (str_eq k c)) [
  | inl e ↦ absurd (some_ne_none a (sym found ∙ ap (λ x. find x t) ((eq_iff k c).0 e) ∙ nothing))
  | inr e ↦ e
]

-- A client moves, and what was held for it goes.
pub released :
    (c : String) (o : Option String) (t s : Tracker)
    → s.pending ≡ without c t.pending
    → where_is s.current ≡ move c o (where_is t.current)
    → IsHeld t
    → IsHeld s
released c o t s drop go held = record {
  keyed = rw drop (without-IsKeyed c t.pending held.keyed);
  here = λ k p found.
      let (other, found') = other_client k c t.pending p (rw drop at found) in
      let (at, own) = held.here k p found' in (ap (λ w. w k) go ∙ rw other at, own);
}

-- Nothing moves, and what is held stays.
pub kept :
    (t s : Tracker)
    → s.pending ≡ t.pending
    → where_is s.current ≡ where_is t.current
    → IsHeld t
    → IsHeld s
kept t s same go held = record {
  keyed = rw same held.keyed;
  here =
      λ k p found. let (at, own) = held.here k p (rw same at found) in (ap (λ w. w k) go ∙ at, own);
}

added_here :
    (c : String) (q : PendingDisconnect) (t : Tracker)
    → where_is t.current c ≡ some q.ap
    → q.session.mac ≡ c
    → IsHeld t
    → (k : String) (p : PendingDisconnect)
    → (if str_eq k c then some q else find k t.pending) ≡ some p
    → (where_is t.current k ≡ some p.ap) × (p.session.mac ≡ k)
added_here c q t there own held k p found = elim (Bool-cases (str_eq k c)) [
  | inl e ↦
      let found' = (rw e at found) in
      let same = some_injective q p found' in
      let here = (eq_iff k c).0 e in
      rw here (there ∙ ap (λ x. some x.ap) same, sym (ap (λ x. x.session.mac) same) ∙ own)
  | inr e ↦ held.here k p (rw e at found)
]

-- A disconnect is held of a client that is on the access point.
pub added :
    (c : String) (q : PendingDisconnect) (t s : Tracker)
    → s.pending ≡ bind c q t.pending
    → s.current ≡ t.current
    → where_is t.current c ≡ some q.ap
    → q.session.mac ≡ c
    → IsHeld t
    → IsHeld s
added c q t s put same there own held = record {
  keyed = rw put (bind-IsKeyed c q t.pending held.keyed);
  here = λ k p found. rw same (
      added_here c q t there own held k p
        (sym (find-bind k c q t.pending) ∙ sym (ap (λ x. find k x) put) ∙ found));
}

-- A client moves of which nothing is held.
pub free :
    (c : String) (o : Option String) (t s : Tracker)
    → s.pending ≡ t.pending
    → find c t.pending ≡ none
    → where_is s.current ≡ move c o (where_is t.current)
    → IsHeld t
    → IsHeld s
free c o t s same nothing go held = record {
  keyed = rw same held.keyed;
  here = λ k p found.
      let found' = (rw same at found) in
      let (at, own) = held.here k p found' in
      let other = another k c t.pending p nothing found' in (ap (λ w. w k) go ∙ rw other at, own);
}
