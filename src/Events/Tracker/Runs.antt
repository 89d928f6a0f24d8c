-- ===== src/Events/Tracker/Runs.antt =====
-- The tracker over a whole life: what it emits is a run of the presence of the clients.
use Prim.Native.String.{String}
use open_unifi.Base.{ℕ, List, [], ◌∷◌, ◌++◌, refl, All}
use open_unifi.Store.Device.{Device}
use open_unifi.Store.Sessions.{
  Transition, TransitionKind, transition_connect, transition_disconnect, transition_radio_change,
}
use open_unifi.Events.Event.{Event}
use open_unifi.Events.Presence.{Run, stay, Run-append}
use open_unifi.Events.Tracker.{Config, Tracker, new_tracker, dispatch, observe, flush, seed}
use open_unifi.Events.Tracker.Held.{where_is, IsHeld}
use open_unifi.Events.Tracker.Steps.{IsOwn, IsStep, connect_lem, disconnect_lem, radio_change_lem}
use open_unifi.Events.Tracker.Flush.{flush_lem}

-- What happens to a tracker: an inform of an access point was committed, or the ticker fired. Each
-- holds what the clock shows.
pub data Action : Type 0 where
  observed : ℕ → String → List Transition → Action
  ticked : ℕ → Action

module _ (C : Config) where
  abbrev pub act : Action → Tracker → Tracker × List Event
  act (observed now ap trs) t = observe C now ap trs t
  act (ticked now) t = flush C now t

  -- The events of a life, in the order that the sinks get them.
  unfoldable pub play : List Action → Tracker → Tracker × List Event
  play [] t = (t, [])
  play (a ∷ acts) t =
      let first = act a t in let rest = play acts first.0 in (rest.0, first.1 ++ rest.1)

abbrev pub AreOwn : Action → Type 0
AreOwn (observed now ap trs) = All IsOwn trs
AreOwn (ticked now) = Unit

module _ (C : Config) where
  dispatch_lem :
      (k : TransitionKind) (now : ℕ) (ap : String) (tr : Transition) (t : Tracker)
      → IsOwn tr
      → IsHeld t
      → IsStep t (dispatch C k now ap tr t)
  dispatch_lem transition_connect now ap tr t own held = connect_lem C ap tr t held _ _ refl refl
  dispatch_lem transition_disconnect now ap tr t own held =
      disconnect_lem C ap tr t held now _ _ own refl refl
  dispatch_lem transition_radio_change now ap tr t own held =
      radio_change_lem C ap tr t held _ _ refl refl

  -- Two steps after each other.
  both :
      (t : Tracker) (first rest : Tracker × List Event)
      → IsStep t first
      → IsStep first.0 rest
      → IsStep t (rest.0, first.1 ++ rest.1)
  both t first rest (h, r) (h', r') = (h', Run-append r r')

  observe_lem :
      (now : ℕ) (ap : String) (trs : List Transition) (t : Tracker)
      → All IsOwn trs
      → IsHeld t
      → IsStep t (observe C now ap trs t)
  unfolding observe
  observe_lem now ap [] t own held = (held, stay)
  observe_lem now ap (tr ∷ trs) t (own, rest) held =
      let first = dispatch_lem tr.kind now ap tr t own held in
      both t _ _ first (observe_lem now ap trs (dispatch C tr.kind now ap tr t).0 rest first.0)

  act_lem : (a : Action) (t : Tracker) → AreOwn a → IsHeld t → IsStep t (act C a t)
  act_lem (observed now ap trs) t own held = observe_lem now ap trs t own held
  act_lem (ticked now) t own held = flush_lem C now t held

  play_lem :
      (acts : List Action) (t : Tracker) → All AreOwn acts → IsHeld t → IsStep t (play C acts t)
  unfolding play
  play_lem [] t own held = (held, stay)
  play_lem (a ∷ acts) t (own, rest) held =
      let first = act_lem a t own held in
      both t _ _ first (play_lem acts (act C a t).0 rest first.0)

  seeded : (ds : List Device) → IsHeld (seed ds new_tracker)
  unfolding seed
  seeded ds = record { keyed = tt; here = λ c p found. cc }

  -- A tracker that is seeded from the stored devices and then takes any sequence of commits and
  -- ticks emits a run of the clients' presence: from where the seed has the clients, each event is
  -- a connect of one that is away, a disconnect or a roam of one that is there, or a radio change
  -- that moves nobody, and the run ends where the tracker has them. The condition is that each
  -- transition's session carries its own client's MAC.
  pub play-Run :
      (ds : List Device) (acts : List Action)
      → All AreOwn acts
      → let t = seed ds new_tracker in
        Run (where_is t.current) (play C acts t).1 (where_is (play C acts t).0.current)
  play-Run ds acts own = (play_lem acts (seed ds new_tracker) own (seeded ds)).1
