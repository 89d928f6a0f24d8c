-- ===== src/Examples/History.antt =====
-- The history of a client, and the pruning of a few events.
use open_unifi.Base.{
  ℕ, zero, suc, ◌+◌, ◌-◌, ◌≤◌, ◌<◌, ◌≡◌, refl, Bool, true, false, some, List, [], ◌∷◌,
  if◌then◌else◌, All, take, arith, Bool-cases, inl, inr, subst, ◌==◌, ==_iff,
}
use native.Mathlib.Nat.{zero-add, suc-add}
use open_unifi.Events.Event.{Event, bare, key_connected, key_roam}
use open_unifi.Events.History.{Search, FileSinkOptions, prune, unfolded, fold_events}
use open_unifi.Events.History.Order.{IsLawful, recent, prune-recent}
use open_unifi.Events.History.Fold.{
  journey_stay, journey_connect, journey_roam, open_ap, IsSpan, fold_events-Journey,
}

-- The first index, from the given one on, at which the test is true; the fuel counts the rest.
linear : ℕ → ℕ → (ℕ → Bool) → ℕ
linear zero i f = i
linear (suc fuel) i f = let rest = linear fuel (suc i) f in if f i then i else rest

Stays : (ℕ → Bool) → Type 0
Stays f = (i : ℕ) → f i ≡ true → f (suc i) ≡ true

linear-bounds : (fuel i : ℕ) (f : ℕ → Bool) → (i ≤ linear fuel i f) × (linear fuel i f ≤ i + fuel)
unfolding linear
linear-bounds zero i f = (omega arith, omega arith)
linear-bounds (suc fuel) i f =
    let (low, high) = linear-bounds fuel (suc i) f in
    elim (Bool-cases (f i)) [
      | inl e ↦ rw e (omega arith, omega arith)
      | inr e ↦ rw e (omega (arith, low), omega (arith, high))
    ]

linear-below : (fuel i j : ℕ) (f : ℕ → Bool) → i ≤ j → j < linear fuel i f → f j ≡ false
unfolding linear
linear-below zero i j f le lt = absurd (omega (arith, le, lt))
linear-below (suc fuel) i j f le lt = elim (Bool-cases (f i)) [
  | inl e ↦ absurd (omega (arith, le, rw e at lt))
  | inr e ↦ elim (Bool-cases (i == j)) [
    | inl same ↦ subst (λ x. f x ≡ false) ((==_iff i j).0 same) e
    | inr other ↦ linear-below fuel (suc i) j f (ground (arith, other, le)) (rw e at lt)
  ]
]

Stays-true : (f : ℕ → Bool) (i k : ℕ) → Stays f → f i ≡ true → f (k + i) ≡ true
unfolding Stays
Stays-true f i zero up e = rw zero-add e
Stays-true f i (suc k) up e = rw suc-add (up (k + i) (Stays-true f i k up e))

linear-above :
    (fuel i j : ℕ) (f : ℕ → Bool) → Stays f → linear fuel i f ≤ j → j < i + fuel → f j ≡ true
unfolding linear
linear-above zero i j f up le lt = absurd (omega (arith, le, lt))
linear-above (suc fuel) i j f up le lt = elim (Bool-cases (f i)) [
  | inl e ↦
      let reach : j - i + i ≡ j = omega (arith, rw e at le) in
      subst (λ x. f x ≡ true) reach (Stays-true f i (j - i) up e)
  | inr e ↦ linear-above fuel (suc i) j f up (rw e at le) (omega (arith, lt))
]

abbrev linear_search : Search
linear_search = record { search = λ n f. linear n 0 f }

linear_search-IsLawful : IsLawful linear_search
unfolding Stays
linear_search-IsLawful = record {
  bounded = λ n f up. omega (arith, linear-bounds n 0 f);
  below = λ n f j up lt. linear-below n 0 j f (omega arith) lt;
  above = λ n f j up le lt. linear-above n 0 j f up le (omega (arith, lt));
}

abbrev at_time : ℕ → Event
at_time t = record (bare key_connected) { time = t }

abbrev options : FileSinkOptions
options = record { retention = 100; max_events = 2 }

abbrev some_events : List Event
some_events = at_time 990 ∷ at_time 950 ∷ at_time 910 ∷ at_time 500 ∷ []

prune-recent_example :
    prune linear_search options 1000 some_events ≡ take 2 (recent 900 some_events)
prune-recent_example =
    prune-recent linear_search options 1000 some_events linear_search-IsLawful (omega arith)

-- A connect, and a roam to another access point.
abbrev first_seen : Event
first_seen = record (bare key_connected) { time = 10; ap = "hall" }

abbrev then_roamed : Event
then_roamed = record (bare key_roam) { time = 20; ap_from = "hall"; ap_to = "roof" }

fold_events-Journey_example :
    (open_ap (fold_events (first_seen ∷ then_roamed ∷ []) unfolded).open_one ≡ some "roof")
    × All IsSpan (fold_events (first_seen ∷ then_roamed ∷ []) unfolded).closed
fold_events-Journey_example =
    fold_events-Journey (some "roof") (first_seen ∷ then_roamed ∷ [])
      (journey_connect refl refl (journey_roam refl refl journey_stay)) (omega arith)
