-- ===== src/Events/History/Order.antt =====
-- The order of the events in memory, and what the pruning keeps.
use open_unifi.Base.{
  ℕ, zero, suc, ◌+◌, ◌-◌, ◌/◌, ◌≤◌, ◌<◌, Bool, true, false, List, [], ◌∷◌, ◌≡◌, refl, ap, ◌∙◌,
  subst, inl, inr, if◌then◌else◌, Bool-cases, ltb, leb, le→leb, leb→le, not-leb, length, take,
  length-take, get_or, All, All-take, arith,
}
use open_unifi.Base.Sort.{insert_sorted}
use open_unifi.Events.Event.{Event}
use open_unifi.Events.History.{
  FileSinkOptions, Search, is_later, place, emit, times, is_recent, prune,
}

-- Newest first: every event is no older than those after it.
abbrev pub IsOrdered : List Event → Type 0
IsOrdered [] = Unit
IsOrdered (e ∷ es) = All (λ x. x.time ≤ e.time) es × IsOrdered es

All-place :
    (t : ℕ) (e : Event) (es : List Event)
    → e.time ≤ t
    → All (λ x. x.time ≤ t) es
    → All (λ x. x.time ≤ t) (place e es)
unfolding insert_sorted
All-place t e [] h hs = (h, tt)
All-place t e (x ∷ es) h (hx, hs) = elim (Bool-cases (is_later x e)) [
  | inl y ↦ rw (y, All) (hx, All-place t e es h hs)
  | inr n ↦ rw (n, All) (h, (hx, hs))
]

All-older :
    (s t : ℕ) (es : List Event) → s ≤ t → All (λ x. x.time ≤ s) es → All (λ x. x.time ≤ t) es
All-older s t [] le hs = tt
All-older s t (e ∷ es) le (h, hs) = (omega (arith, le, h), All-older s t es le hs)

ordered :
    (e : Event) (es : List Event)
    → All (λ x. x.time ≤ e.time) es
    → IsOrdered es
    → IsOrdered (e ∷ es)
ordered e es first rest = (first, rest)

place-IsOrdered : (e : Event) (es : List Event) → IsOrdered es → IsOrdered (place e es)
unfolding insert_sorted
place-IsOrdered e [] o = (tt, tt)
place-IsOrdered e (x ∷ es) (first, rest) = elim (Bool-cases (is_later x e)) [
  | inl y ↦ rw y (
      ordered x (place e es) (All-place x.time e es (ground (arith, y)) first)
        (place-IsOrdered e es rest))
  | inr n ↦ rw n (
      ordered e (x ∷ es) (ground (arith, n), All-older x.time e.time es (ground (arith, n)) first)
        (first, rest))
]

take-IsOrdered : (n : ℕ) (es : List Event) → IsOrdered es → IsOrdered (take n es)
take-IsOrdered zero es o = tt
take-IsOrdered (suc n) [] o = tt
take-IsOrdered (suc n) (e ∷ es) (first, rest) =
    (All-take (λ x. x.time ≤ e.time) n es first, take-IsOrdered n es rest)

-- The events in memory stay in the order of their times, though a held disconnect is emitted after
-- later events, and there are never more than the cap and a tenth of it.
pub emit-IsOrdered :
    (o : FileSinkOptions) (e : Event) (events : List Event)
    → IsOrdered events
    → IsOrdered (emit o e events) × (length (emit o e events) ≤ o.max_events + o.max_events / 10)
unfolding emit
emit-IsOrdered o e events ord =
    elim (Bool-cases (ltb (o.max_events + o.max_events / 10) (length (place e events)))) [
      | inl many ↦ rw many (
        take-IsOrdered o.max_events (place e events) (place-IsOrdered e events ord),
        omega (arith, length-take o.max_events (place e events)),
      )
      | inr few ↦ rw few (place-IsOrdered e events ord, ground (arith, few))
    ]

-- The documented behaviour of `sort.Search` on a test that stays true from some index on: the
-- smallest index below the bound at which the test is true, and the bound where there is none.
pub record IsLawful (S : Search) : Type 0 where
  pub bounded :
      (n : ℕ) (f : ℕ → Bool) → ((i : ℕ) → f i ≡ true → f (suc i) ≡ true) → S.search n f ≤ n
  pub below :
      (n : ℕ) (f : ℕ → Bool) (j : ℕ)
      → ((i : ℕ) → f i ≡ true → f (suc i) ≡ true)
      → j < S.search n f
      → f j ≡ false
  pub above :
      (n : ℕ) (f : ℕ → Bool) (j : ℕ)
      → ((i : ℕ) → f i ≡ true → f (suc i) ≡ true)
      → S.search n f ≤ j
      → j < n
      → f j ≡ true

-- The events that are not older than the cutoff.
abbrev pub recent : ℕ → List Event → List Event
recent cutoff [] = []
recent cutoff (e ∷ es) = let rest = recent cutoff es in if leb cutoff e.time then e ∷ rest else rest

abbrev time_at : List Event → ℕ → ℕ
time_at es k = get_or (times es) k 0

time_at-bound : (t k : ℕ) (es : List Event) → All (λ x. x.time ≤ t) es → time_at es k ≤ t
time_at-bound t k [] hs = omega arith
time_at-bound t zero (e ∷ es) (h, hs) = h
time_at-bound t (suc k) (e ∷ es) (h, hs) = time_at-bound t k es hs

time_at-older : (k : ℕ) (es : List Event) → IsOrdered es → time_at es (suc k) ≤ time_at es k
time_at-older k [] o = omega arith
time_at-older zero (e ∷ es) (first, rest) = time_at-bound e.time zero es first
time_at-older (suc k) (e ∷ es) (first, rest) = time_at-older k es rest

dropped :
    (cutoff : ℕ) (e : Event) (es : List Event)
    → e.time < cutoff
    → recent cutoff es ≡ recent cutoff (e ∷ es)
dropped cutoff e es h = rw (recent, not-leb cutoff e.time h) refl

stays :
    (cutoff : ℕ) (e : Event) (es : List Event)
    → cutoff ≤ e.time
    → e ∷ recent cutoff es ≡ recent cutoff (e ∷ es)
stays cutoff e es h = rw (recent, le→leb cutoff e.time h) refl

not_recent : (a b : ℕ) → leb a b ≡ false → b < a
not_recent a b h = ground arith

is_recent-stays :
    (cutoff : ℕ) (events : List Event)
    → IsOrdered events
    → (i : ℕ) → is_recent cutoff events i ≡ true
    → is_recent cutoff events (suc i) ≡ true
is_recent-stays cutoff events ord i h =
    let n = length events in
    let k = n - suc (suc i) in
    let older = leb→le cutoff (time_at events (n - suc i)) h in
    le→leb cutoff (time_at events k) (elim (Bool-cases (ltb (suc i) n)) [
      | inl inside ↦
          let here : n - suc i ≡ suc k = ground (arith, inside) in
          omega
            (arith, time_at-older k events ord, subst (λ x. cutoff ≤ time_at events x) here older)
      | inr outside ↦
          let here : n - suc i ≡ k = ground (arith, outside) in
          subst (λ x. cutoff ≤ time_at events x) here older
    ])

recent-take :
    (cutoff m : ℕ) (es : List Event)
    → m ≤ length es
    → ((j : ℕ) → j < m → cutoff ≤ time_at es j)
    → ((j : ℕ) → m ≤ j → j < length es → time_at es j < cutoff)
    → take m es ≡ recent cutoff es
recent-take cutoff zero [] le new old = refl
recent-take cutoff (suc m) [] le new old = absurd (omega arith)
recent-take cutoff zero (e ∷ es) le new old =
    let this = old 0 (omega arith) (omega arith) in
    recent-take cutoff zero es (omega arith) (λ j h. absurd (omega (arith, h)))
      (λ j h g. old (suc j) (omega arith) (omega (arith, g)))
    ∙ dropped cutoff e es this
recent-take cutoff (suc m) (e ∷ es) le new old =
    ap (λ r. e ∷ r)
      (recent-take cutoff m es (omega (arith, le)) (λ j h. new (suc j) (omega (arith, h)))
        (λ j h g. old (suc j) (omega (arith, h)) (omega (arith, g))))
    ∙ stays cutoff e es (new 0 (omega arith))

-- Pruning keeps the events that are not older than the retention, and of them the newest up to the
-- cap, though it looks for the first of them by bisection. The conditions are that the events are in
-- the order of their times and that the bisection does what its documentation says.
pub prune-recent :
    (S : Search) (o : FileSinkOptions) (now : ℕ) (events : List Event)
    → IsLawful S
    → IsOrdered events
    → prune S o now events ≡ take o.max_events (recent (now - o.retention) events)
unfolding prune
prune-recent S o now events law ord =
    let cutoff = now - o.retention in
    let f = is_recent cutoff events in
    let n = length events in
    let up = is_recent-stays cutoff events ord in
    let low = law.bounded n f up in
    ap (λ r. take o.max_events r)
      (recent-take cutoff (n - S.search n f) events (omega arith)
        (λ j h.
          let i = n - suc j in
          let here : n - suc i ≡ j = omega (arith, h) in
          subst (λ x. cutoff ≤ time_at events x) here
            (leb→le cutoff (time_at events (n - suc i))
              (law.above n f i up (omega (arith, h, low)) (omega (arith, h)))))
        (λ j h g.
          let i = n - suc j in
          let here : n - suc i ≡ j = omega (arith, g) in
          subst (λ x. time_at events x < cutoff) here
            (not_recent cutoff (time_at events (n - suc i))
              (law.below n f i up (omega (arith, h, g, low))))))
