-- ===== src/Events/Tracker/Flush.antt =====
-- The held disconnects that expire are a run of the presence of the clients.
use Prim.Native.String.{String}
use text.Mathlib.TextEquality.{eq_iff}
use open_unifi.Base.{ℕ, Option, none, some, List, [], ◌∷◌, ◌≡◌, refl, sym, subst, All, ltb, not}
use open_unifi.Base.Sort.{sort}
use open_unifi.Base.Tables.{keep_if, find, IsKeyed, sort-IsKeyed, some_ne_none, some_injective}
use open_unifi.Base.Tables.Entries.{
  All-keep_if, keep_if-IsKeyed, IsIn, All-sort, without-AllIn, IsKeyed-IsIn,
}
use open_unifi.Events.Presence.{move, Run, stay, next}
use open_unifi.Events.Tracker.{
  Config, Presence, PendingDisconnect, Tracker, is_before, overdue, leave, expire, expire_all,
  flush,
}
use open_unifi.Events.Tracker.Held.{ap_of, where_is, where_is-without, IsHeld, released}
use open_unifi.Events.Tracker.Steps.{IsStep, disconnects}

left :
    (c p_ap : String) (current : List (String × Presence)) (cur : Option Presence)
    → ap_of cur ≡ some p_ap
    → where_is (leave c cur p_ap current) ≡ move c none (where_is current)
left c p_ap current none at = absurd (some_ne_none p_ap (sym at))
left c p_ap current (some cur) at =
    rw ((eq_iff cur.ap p_ap).1 (some_injective cur.ap p_ap at)) (where_is-without c current)

pending_left :
    (c : String) (p : PendingDisconnect) (due : List (String × PendingDisconnect)) (t : Tracker)
    → find c due ≡ none
    → All (IsIn t.pending) due
    → All (IsIn (expire c p t).pending) due
unfolding expire
pending_left c p due t new ins = without-AllIn c due t.pending new ins

module _ (C : Config) where
  expire_lem :
      (c : String) (p : PendingDisconnect) (t : Tracker)
      → find c t.pending ≡ some p
      → IsHeld t
      → IsHeld (expire c p t) × (where_is (expire c p t).current ≡ move c none (where_is t.current))
  unfolding expire
  expire_lem c p t found held =
      let (at, own) = held.here c p found in
      let go = left c p.ap t.current (find c t.current) at in (released c none t _ refl go held, go)

  expire_all_lem :
      (due : List (String × PendingDisconnect)) (t : Tracker)
      → IsKeyed due
      → All (IsIn t.pending) due
      → IsHeld t
      → IsStep t (expire_all C due t)
  unfolding expire_all
  expire_all_lem [] t keyed ins held = (held, stay)
  expire_all_lem ((c, p) ∷ due) t (new, keyed) (found, ins) held =
      let (at, own) = held.here c p found in
      let (held', go) = expire_lem c p t found held in
      let (held_end, run) =
        expire_all_lem due (expire c p t) keyed (pending_left c p due t new ins) held' in
      (
        held_end,
        next (disconnects C (where_is t.current) c p own at) (
            subst
              (λ w.
                Run w (expire_all C due (expire c p t)).1
                  (where_is (expire_all C due (expire c p t)).0.current))
              go run),
      )

  pub flush_lem : (now : ℕ) (t : Tracker) → IsHeld t → IsStep t (flush C now t)
  unfolding flush overdue
  flush_lem now t held =
      let test = λ (e : String × PendingDisconnect). not (ltb now e.1.deadline) in
      let due = keep_if test t.pending in
      expire_all_lem (sort is_before due) t
        (sort-IsKeyed is_before due (keep_if-IsKeyed test t.pending held.keyed))
        (All-sort (IsIn t.pending) is_before due
          (All-keep_if (IsIn t.pending) test t.pending (IsKeyed-IsIn t.pending held.keyed)))
        held
