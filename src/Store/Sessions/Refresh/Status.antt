-- ===== src/Store/Sessions/Refresh/Status.antt =====
-- Who is connected after a refresh, and since when it was last seen.
use Prim.Native.String.{String}
use text.Mathlib.TextEquality.{eq_iff}
use open_unifi.Base.{
  ℕ, Bool, true, false, not, ◌&&◌, ◌||◌, Option, none, some, List, [], ◌∷◌, ◌≡◌, refl, sym, ap, ◌∙◌,
  if◌then◌else◌, Bool-cases, inl, inr, arith,
}
use open_unifi.Base.Text.{str_eq}
use open_unifi.Base.Tables.{find, bind, find-bind, IsKeyed, find-bind_self}
use open_unifi.Store.Mac.{canonical_mac}
use open_unifi.Store.Blocked.{contains}
use open_unifi.Store.Blocked.Reading.{alike}
use open_unifi.Store.Sessions.{StationInfo, SessionRow}
use open_unifi.Store.Sessions.Refresh.{
  Pass, next_row, see_station, see_stations, Leaving, leave_row, leave_rows, start, sweep,
}

-- Whether a row is connected, and when its client was last proved present.
abbrev pub status : Option SessionRow → Option (Bool × ℕ)
status none = none
status (some row) = some (row.connected, row.last_seen)

abbrev pub disconnected : Option (Bool × ℕ) → Option (Bool × ℕ)
disconnected none = none
disconnected (some r) = some (false, r.1)

-- The client is in the table under some spelling of its MAC.
abbrev is_named : String → Option String → Bool
is_named k none = false
is_named k (some c) = str_eq k c

unfoldable pub is_listed : String → List StationInfo → Bool
unfolding canonical_mac
is_listed k [] = false
is_listed k (st ∷ sts) = is_named k (canonical_mac st.mac) || is_listed k sts

-- Some connected client is not in the table.
unfoldable pub has_left : List StationInfo → List (String × SessionRow) → Bool
unfolding is_listed
has_left stations [] = false
has_left stations ((m, row) ∷ prev) =
    row.connected && not (is_listed m stations) || has_left stations prev

absorb_or : (b e : Bool) → (e ≡ true → b ≡ true) → b ≡ (b || e)
absorb_or b true h = rw (h refl)
absorb_or b false h = ground arith

or_assoc : (a b c : Bool) → ((a || b) || c) ≡ (a || (b || c))
or_assoc a b c = ground arith

status-next :
    (old : Option SessionRow) (st : StationInfo) (now : ℕ)
    → status (some (next_row old st now)) ≡ some (true, now)
status-next none st now = refl
status-next (some old) st now = elim (Bool-cases old.connected) [
  | inl e ↦ rw e refl
  | inr e ↦ rw e refl
]

module _ (now : ℕ) (prev : List (String × SessionRow)) where
  -- The rows of the clients that the loop has met are connected now; the others are as before.
  abbrev Saw : Pass → Type 0
  Saw p =
      (k : String)
      → status (find k p.rows)
        ≡ (if contains k p.present then some (true, now) else status (find k prev))

  seen_now :
      (k c : String) (st : StationInfo) (p : Pass)
      → status (find k p.rows)
        ≡ (if contains k p.present then some (true, now) else status (find k prev))
      → status (find k (bind c (next_row (find c prev) st now) p.rows))
        ≡ (if contains k (c ∷ p.present) then some (true, now) else status (find k prev))
  seen_now k c st p saw = elim (Bool-cases (str_eq k c)) [
    | inl e ↦ rw (find-bind k c _ p.rows, e) (status-next (find c prev) st now)
    | inr e ↦ rw (find-bind k c _ p.rows, e) saw
  ]

  see_station-Saw :
      (st : StationInfo) (c : Option String) (p : Pass)
      → Saw p
      → Saw (see_station now prev st c p)
        × ((k : String)
            → contains k (see_station now prev st c p).present
              ≡ (contains k p.present || is_named k c))
  unfolding see_station
  see_station-Saw st none p saw = (saw, λ k. ground arith)
  see_station-Saw st (some c) p saw = elim (Bool-cases (contains c p.present)) [
    | inl e ↦
        rw e (saw, λ k. absorb_or (contains k p.present) (str_eq k c) (alike k c p.present true e))
    | inr e ↦ rw e (λ k. seen_now k c st p (saw k), λ k. ground arith)
  ]

  see_stations-Saw :
      (sts : List StationInfo) (p : Pass)
      → Saw p
      → Saw (see_stations now prev sts p)
        × ((k : String)
            → contains k (see_stations now prev sts p).present
              ≡ (contains k p.present || is_listed k sts))
  unfolding see_stations is_listed
  see_stations-Saw [] p saw = (saw, λ k. ground arith)
  see_stations-Saw (st ∷ sts) p saw =
      let (saw', met) = see_station-Saw st (canonical_mac st.mac) p saw in
      let (saw_end, met') =
        see_stations-Saw sts (see_station now prev st (canonical_mac st.mac) p) saw' in
      (
        saw_end,
        λ k. met' k ∙ ap (λ b. b || is_listed k sts) (met k) ∙ or_assoc (contains k p.present) _ _,
      )

either {ℓ} : {A : Type ℓ} (b : Bool) (x : A) → x ≡ (if b then x else x)
either true x = refl
either false x = refl

-- What the loop over the rows from before makes of a status.
abbrev left_status : Option SessionRow → Option (Bool × ℕ) → Option (Bool × ℕ)
left_status none s = s
left_status (some row) s = if row.connected then some (false, row.last_seen) else s

module _ (now : ℕ) (present : List String) where
  leave_row-other :
      (k m : String) (row : SessionRow) (l : Leaving)
      → str_eq k m ≡ false
      → find k (leave_row now present m row l).rows ≡ find k l.rows
  unfolding leave_row
  leave_row-other k m row l other = elim (Bool-cases (row.connected && not (contains m present))) [
    | inl e ↦ rw e (find-bind k m _ l.rows ∙ rw other refl)
    | inr e ↦ rw e refl
  ]

  leave_row-same :
      (k m : String) (row : SessionRow) (l : Leaving)
      → str_eq k m ≡ true
      → status (find k (leave_row now present m row l).rows) ≡ (
          if contains k present
          then status (find k l.rows)
          else left_status (some row) (status (find k l.rows)))
  unfolding leave_row
  leave_row-same k m row l same = rw ((eq_iff k m).0 same) (elim (Bool-cases (contains m present)) [
    | inl p ↦ elim (Bool-cases row.connected) [ inl c ↦ rw (p, c) refl | inr c ↦ rw (p, c) refl ]
    | inr p ↦ elim (Bool-cases row.connected) [
      | inl c ↦ rw (p, c) (ap status (find-bind_self m (record row { connected = false }) l.rows))
      | inr c ↦ rw (p, c) refl
    ]
  ])

  leave_rows-status :
      (k : String) (prev : List (String × SessionRow)) (l : Leaving)
      → IsKeyed prev
      → status (find k (leave_rows now present prev l).rows) ≡ (
          if contains k present
          then status (find k l.rows)
          else left_status (find k prev) (status (find k l.rows)))
  unfolding leave_rows
  leave_rows-status k [] l keyed = either (contains k present) (status (find k l.rows))
  leave_rows-status k ((m, row) ∷ prev) l (new, keyed) = elim (Bool-cases (str_eq k m)) [
    | inl e ↦
        leave_rows-status k prev (leave_row now present m row l) keyed
        ∙ ap
            (λ r.
              if contains k present
              then status (find k (leave_row now present m row l).rows)
              else left_status r (status (find k (leave_row now present m row l).rows)))
            (ap (λ x. find x prev) ((eq_iff k m).0 e) ∙ new)
        ∙ sym (either (contains k present) (status (find k (leave_row now present m row l).rows)))
        ∙ leave_row-same k m row l e
        ∙ rw e refl
    | inr e ↦ rw e (
        leave_rows-status k prev (leave_row now present m row l) keyed
        ∙ rw (leave_row-other k m row l e) refl)
  ]

  leave_rows-armed :
      (stations : List StationInfo)
      → ((k : String) → contains k present ≡ is_listed k stations)
      → (prev : List (String × SessionRow)) (l : Leaving)
      → (leave_rows now present prev l).armed ≡ (l.armed || has_left stations prev)
  unfolding leave_rows leave_row has_left
  leave_rows-armed stations same [] l = ground arith
  leave_rows-armed stations same ((m, row) ∷ prev) l =
      leave_rows-armed stations same prev _
      ∙ rw (same m) (elim (Bool-cases (row.connected && not (is_listed m stations))) [
        | inl e ↦ rw e (ground arith)
        | inr e ↦ rw e (ground arith)
      ])

settled :
    (listed : Bool) (now : ℕ) (row : Option SessionRow)
    → (if listed
        then (if listed then some (true, now) else status row)
        else left_status row (if listed then some (true, now) else status row))
      ≡ (if listed then some (true, now) else disconnected (status row))
settled true now row = refl
settled false now none = refl
settled false now (some row) = elim (Bool-cases row.connected) [
  | inl e ↦ rw e refl
  | inr e ↦ rw e refl
]

-- After a station table, over rows with one entry for each key: a client of the table, under any
-- spelling of its MAC, is connected and last seen now; any other client that had a row is
-- disconnected and keeps its last proof; no row is new. The flag is armed when, and only when,
-- some connected client left the table.
pub sweep-status :
    (now : ℕ) (prev : List (String × SessionRow)) (stations : List StationInfo)
    → IsKeyed prev
    → ((k : String)
        → status (find k (sweep now prev stations).rows) ≡ (
            if is_listed k stations then some (true, now) else disconnected (status (find k prev))))
      × ((sweep now prev stations).armed ≡ has_left stations prev)
unfolding sweep
sweep-status now prev stations keyed =
    let p = see_stations now prev stations (start prev) in
    let (saw, met) = see_stations-Saw now prev stations (start prev) (λ k. refl) in
    (
      λ k.
          leave_rows-status now p.present k prev _ keyed
          ∙ rw (saw k, met k) (settled (is_listed k stations) now (find k prev)),
      leave_rows-armed now p.present stations met prev _,
    )
