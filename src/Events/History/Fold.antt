-- ===== src/Events/History/Fold.antt =====
-- The intervals of a client's history against the presence of the client.
use Prim.Native.String.{String}
use open_unifi.Base.{
  ℕ, ◌≤◌, Option, none, some, List, [], ◌∷◌, ◌≡◌, refl, ◌∙◌, Bool-cases, inl, inr, All, All-append,
  arith,
}
use open_unifi.Base.Text.{str_eq}
use open_unifi.Events.Event.{Event, key_connected, key_disconnected, key_roam, key_roam_radio}
use open_unifi.Events.History.{
  Interval, Folded, ended, close_open, open_at, on_channel, fold_event, fold_events, unfolded,
}

-- The events of one client, oldest first: from where it is before them to where it is after them.
pub data Journey : Option String → List Event → Option String → Type 0 where
  journey_stay : {a : Option String} → Journey a [] a
  journey_connect :
      {a b : Option String} {e : Event} {es : List Event}
      → e.key ≡ key_connected
      → a ≡ none
      → Journey (some e.ap) es b
      → Journey a (e ∷ es) b
  journey_disconnect :
      {a b : Option String} {e : Event} {es : List Event}
      → e.key ≡ key_disconnected
      → a ≡ some e.ap
      → Journey none es b
      → Journey a (e ∷ es) b
  journey_roam :
      {a b : Option String} {e : Event} {es : List Event}
      → e.key ≡ key_roam
      → a ≡ some e.ap_from
      → Journey (some e.ap_to) es b
      → Journey a (e ∷ es) b
  journey_roam_radio :
      {a b : Option String} {e : Event} {es : List Event}
      → e.key ≡ key_roam_radio
      → a ≡ some e.ap
      → Journey a es b
      → Journey a (e ∷ es) b

-- The times of the events do not go back, from the given time on.
abbrev pub IsRising : ℕ → List Event → Type 0
IsRising t [] = Unit
IsRising t (e ∷ es) = (t ≤ e.time) × IsRising e.time es

-- Where the open interval is, and since when.
abbrev pub open_ap : Option Interval → Option String
open_ap none = none
open_ap (some i) = some i.ap

abbrev OpenedBy : ℕ → Option Interval → Type 0
OpenedBy t none = Unit
OpenedBy t (some i) = i.from ≤ t

abbrev pub IsSpan : Interval → Type 0
IsSpan i = i.from ≤ i.to

record IsFolded (t : ℕ) (a : Option String) (s : Folded) : Type 0 where
  at : open_ap s.open_one ≡ a
  since : OpenedBy t s.open_one
  spans : All IsSpan s.closed

ended-IsSpan : (t at : ℕ) (i : Option Interval) → t ≤ at → OpenedBy t i → All IsSpan (ended at i)
ended-IsSpan t at none le h = tt
ended-IsSpan t at (some i) le h = (omega (arith, le, h), tt)

later_opened : (t u : ℕ) (i : Option Interval) → t ≤ u → OpenedBy t i → OpenedBy u i
later_opened t u none le h = tt
later_opened t u (some i) le h = omega (arith, le, h)

closed-IsSpan :
    (t at : ℕ) (a : Option String) (s : Folded)
    → t ≤ at
    → IsFolded t a s
    → All IsSpan (close_open at s).closed
closed-IsSpan t at a s le good =
    All-append IsSpan s.closed (ended at s.open_one) good.spans
      (ended-IsSpan t at s.open_one le good.since)

opens :
    (t : ℕ) (a : Option String) (m name : String) (e : Event) (s : Folded)
    → t ≤ e.time
    → IsFolded t a s
    → IsFolded e.time (some m) (open_at m name e s)
opens t a m name e s le good = record {
  at = refl;
  since = omega arith;
  spans = closed-IsSpan t e.time a s le good;
}

retuned :
    (t u : ℕ) (m : String) (c : ℕ) (i : Option Interval)
    → t ≤ u
    → OpenedBy t i
    → (open_ap (on_channel m c i) ≡ open_ap i) × OpenedBy u (on_channel m c i)
retuned t u m c none le h = (refl, tt)
retuned t u m c (some i) le h = elim (Bool-cases (str_eq i.ap m)) [
  | inl e ↦ rw e (refl, omega (arith, le, h))
  | inr e ↦ rw e (refl, omega (arith, le, h))
]

fold_events-IsFolded :
    {a b : Option String} {es : List Event} (t : ℕ) (s : Folded)
    → Journey a es b
    → IsRising t es
    → IsFolded t a s
    → (u : ℕ) × IsFolded u b (fold_events es s)
unfolding fold_events fold_event
fold_events-IsFolded t s journey_stay rising good = (t, good)
fold_events-IsFolded {a} t s (journey_connect {e = e} key from rest) (le, rising) good =
    rw key (fold_events-IsFolded e.time _ rest rising (opens t a e.ap e.ap_name e s le good))
fold_events-IsFolded {a} t s (journey_roam {e = e} key from rest) (le, rising) good =
    rw key (fold_events-IsFolded e.time _ rest rising (opens t a e.ap_to e.ap_to_name e s le good))
fold_events-IsFolded {a} t s (journey_disconnect {e = e} key from rest) (le, rising) good = rw key (
    fold_events-IsFolded e.time _ rest rising
      (record { at = refl; since = tt; spans = closed-IsSpan t e.time a s le good }))
fold_events-IsFolded {a} t s (journey_roam_radio {e = e} key from rest) (le, rising) good =
    let (same, since) = retuned t e.time e.ap e.channel s.open_one le good.since in
    rw key (
      fold_events-IsFolded e.time _ rest rising
        (record { at = same ∙ good.at; since = since; spans = good.spans }))

-- The history of a client whose events are a journey between access points, in the order of their
-- times: the interval that is open at the end is on the access point where the client is, none is
-- open when it is on none, and every closed interval ends no earlier than it began.
pub fold_events-Journey :
    (b : Option String) (es : List Event)
    → Journey none es b
    → IsRising 0 es
    → (open_ap (fold_events es unfolded).open_one ≡ b) × All IsSpan (fold_events es unfolded).closed
fold_events-Journey b es journey rising =
    let start : IsFolded 0 none unfolded = record { at = refl; since = tt; spans = tt } in
    let (u, good) = fold_events-IsFolded 0 unfolded journey rising start in (good.at, good.spans)
