-- ===== src/Events/Tracker/Steps.antt =====
-- Each step of the tracker is a run of the presence of the clients.
use Prim.Native.String.{String}
use text.Mathlib.TextEquality.{eq_iff}
use open_unifi.Base.{
  ℕ, false, Option, none, some, List, [], ◌≡◌, refl, sym, ap, ◌∙◌, subst, Bool-cases, inl, inr,
}
use open_unifi.Base.Text.{str_eq}
use open_unifi.Base.Tables.{find, bind, str_eq_self}
use open_unifi.Store.Mac.{colon_mac}
use open_unifi.Store.Sessions.{ClientSession, Transition}
use open_unifi.Events.Event.{Event, finish}
use open_unifi.Events.Presence.{
  World, move, Moves, event_connected, event_disconnected, event_roamed, event_roamed_radio, Run,
  stay, next, one, move-move, move-stay,
}
use open_unifi.Events.Tracker.{
  Config, Presence, PendingDisconnect, Tracker, present_at, connect_event, disconnect_event,
  roam_event, roam_radio_event, connect, disconnect, radio_change,
}
use open_unifi.Events.Tracker.Held.{
  ap_of, where_is, where_is-bind, IsHeld, released, kept, added, free,
}

-- The transition's session is of its client.
abbrev pub IsOwn : Transition → Type 0
IsOwn tr = tr.session.mac ≡ tr.mac

-- What a step keeps, and the run that its events are.
abbrev pub IsStep : Tracker → Tracker × List Event → Type 0
IsStep t r = IsHeld r.0 × Run (where_is t.current) r.1 (where_is r.0.current)

gone : (c : String) (o : Option String) (w : World) → move c o w c ≡ o
gone c o w = rw (str_eq_self c) refl

-- What each event says.
module _ (C : Config) (w : World) where
  connects :
      (ap_mac : String) (tr : Transition)
      → w tr.mac ≡ none
      → Moves w (connect_event C ap_mac tr) (move tr.mac (some ap_mac) w)
  unfolding connect_event finish
  connects ap_mac tr away = event_connected tr.mac refl refl away

  pub disconnects :
      (c : String) (p : PendingDisconnect)
      → p.session.mac ≡ c
      → w c ≡ some p.ap
      → Moves w (disconnect_event C p) (move c none w)
  unfolding disconnect_event finish
  disconnects c p own at = event_disconnected c refl (ap colon_mac own) at

  roams :
      (from_ap : String) (old : ClientSession) (ap_mac : String) (tr : Transition)
      → w tr.mac ≡ some from_ap
      → str_eq from_ap ap_mac ≡ false
      → Moves w (roam_event C from_ap old ap_mac tr) (move tr.mac (some ap_mac) w)
  unfolding roam_event finish
  roams from_ap old ap_mac tr at other = event_roamed tr.mac refl refl at other

  changes_radio :
      (ap_mac : String) (tr : Transition)
      → w tr.mac ≡ some ap_mac
      → Moves w (roam_radio_event C ap_mac tr) w
  unfolding roam_radio_event finish
  changes_radio ap_mac tr at = event_roamed_radio tr.mac refl refl at

module _ (C : Config) (ap_mac : String) (tr : Transition) (t : Tracker) (held : IsHeld t) where
  abbrev here_now : Tracker
  here_now = record t { current = bind tr.mac (present_at ap_mac tr.session) t.current }

  arrived : where_is here_now.current ≡ move tr.mac (some ap_mac) (where_is t.current)
  arrived = where_is-bind tr.mac (present_at ap_mac tr.session) t.current

  -- It was there before.
  stayed : where_is t.current tr.mac ≡ some ap_mac → where_is t.current ≡ where_is here_now.current
  stayed at = sym (arrived ∙ move-stay tr.mac (some ap_mac) (where_is t.current) at)

  pub connect_lem :
      (pend : Option PendingDisconnect) (cur : Option Presence)
      → find tr.mac t.pending ≡ pend
      → find tr.mac t.current ≡ cur
      → IsStep t (connect C ap_mac tr pend cur t)
  unfolding connect
  connect_lem (some pend) cur hp hc =
      let (at, own) = held.here tr.mac pend hp in
      (
        released tr.mac (some ap_mac) t _ refl arrived held,
        elim (Bool-cases (str_eq pend.ap ap_mac)) [
          | inl e ↦ rw e (
              next (disconnects C (where_is t.current) tr.mac pend own at) (
                one
                  (connects C (move tr.mac none (where_is t.current)) ap_mac tr
                    (gone tr.mac none (where_is t.current)))
                  (move-move tr.mac (some ap_mac) none (where_is t.current) ∙ sym arrived)))
          | inr e ↦
              rw e (
                one (roams C (where_is t.current) pend.ap pend.session ap_mac tr at e)
                  (sym arrived))
        ],
      )
  connect_lem none (some cur) hp hc =
      let at = ap ap_of hc in
      (
        free tr.mac (some ap_mac) t _ refl hp arrived held,
        elim (Bool-cases (str_eq cur.ap ap_mac)) [
          | inl e ↦ rw e (
              subst (λ w. Run (where_is t.current) [] w)
                (stayed (at ∙ ap some ((eq_iff cur.ap ap_mac).0 e))) stay)
          | inr e ↦
              rw e
                (one (roams C (where_is t.current) cur.ap cur.session ap_mac tr at e) (sym arrived))
        ],
      )
  connect_lem none none hp hc = (
    free tr.mac (some ap_mac) t _ refl hp arrived held,
    one (connects C (where_is t.current) ap_mac tr (ap ap_of hc)) (sym arrived),
  )

  pub radio_change_lem :
      (pend : Option PendingDisconnect) (cur : Option Presence)
      → find tr.mac t.pending ≡ pend
      → find tr.mac t.current ≡ cur
      → IsStep t (radio_change C ap_mac tr pend cur t)
  unfolding radio_change
  radio_change_lem (some pend) cur hp hc = (held, stay)
  radio_change_lem none none hp hc = (held, stay)
  radio_change_lem none (some cur) hp hc = elim (Bool-cases (str_eq cur.ap ap_mac)) [
    | inr e ↦ rw e (held, stay)
    | inl e ↦
        let at = ap ap_of hc ∙ ap some ((eq_iff cur.ap ap_mac).0 e) in
        rw e (
          kept t here_now refl (sym (stayed at)) held,
          one (changes_radio C (where_is t.current) ap_mac tr at) (stayed at),
        )
  ]

  pub disconnect_lem :
      (now : ℕ) (pend : Option PendingDisconnect) (cur : Option Presence)
      → IsOwn tr
      → find tr.mac t.pending ≡ pend
      → find tr.mac t.current ≡ cur
      → IsStep t (disconnect C now ap_mac tr pend cur t, [])
  unfolding disconnect
  disconnect_lem now (some pend) cur own hp hc = (held, stay)
  disconnect_lem now none none own hp hc = (held, stay)
  disconnect_lem now none (some cur) own hp hc = elim (Bool-cases (str_eq cur.ap ap_mac)) [
    | inr e ↦ rw e (held, stay)
    | inl e ↦
        let at = ap ap_of hc ∙ ap some ((eq_iff cur.ap ap_mac).0 e) in
        rw e (added tr.mac _ t _ refl refl at own held, stay)
  ]
