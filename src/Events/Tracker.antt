-- ===== src/Events/Tracker.antt =====
-- internal/clientevents/tracker.go: where the tracker believes each client is, the disconnects that
-- it holds back, and the events of each step. A step returns what it emits, in order.
pub mod Held
pub mod Steps
pub mod Flush
pub mod Runs
use Prim.Native.String.{String}
use open_unifi.Base.{
  ℕ, ◌+◌, ◌-◌, Bool, true, false, not, ◌&&◌, Option, none, some, List, [], ◌∷◌, ◌++◌, ◌==◌, ltb,
  leb, if◌then◌else◌,
}
use open_unifi.Base.Text.{str_eq}
use open_unifi.Base.Sort.{sort, str_lt}
use open_unifi.Base.Tables.{find, bind, without, keep_if}
use open_unifi.Store.Device.{Device}
use open_unifi.Store.Mac.{colon_mac}
use open_unifi.Store.Sessions.{
  ClientSession, Transition, transition_connect, transition_disconnect, transition_radio_change,
  TransitionKind,
}
use open_unifi.Store.Sessions.Rows.{client_sessions}
use open_unifi.Events.Event.{
  Event, bare, key_connected, key_disconnected, key_roam, key_roam_radio, Printing, first_non_empty,
  finish,
}

-- Thirty seconds, in nanoseconds.
abbrev pub default_grace : ℕ
default_grace = 30000000000

-- The clock is an argument of the steps that read it, the sinks are the reader of the events.
pub record Config : Type 0 where
  pub grace : ℕ
  pub ap_name : String → String
  pub printing : Printing

pub record Presence : Type 0 where
  pub ap : String
  pub session : ClientSession

pub record PendingDisconnect : Type 0 where
  pub ap : String
  pub session : ClientSession
  pub at : ℕ
  pub deadline : ℕ

pub record Tracker : Type 0 where
  pub current : List (String × Presence)
  pub pending : List (String × PendingDisconnect)

-- `NewTracker` fills a grace that is not positive in.
abbrev pub with_default : Config → Config
with_default cfg = record cfg { grace = if cfg.grace == 0 then default_grace else cfg.grace }

abbrev pub new_tracker : Tracker
new_tracker = record { current = []; pending = [] }

abbrev pub present_at : String → ClientSession → Presence
present_at ap s = record { ap = ap; session = s }

-- The sessions of one device: a connected row is taken unless a row as fresh is there.
abbrev pub is_stale : Option Presence → ClientSession → Bool
is_stale none s = false
is_stale (some cur) s = leb s.last_seen cur.session.last_seen

unfoldable pub seed_sessions :
    String → List ClientSession → List (String × Presence) → List (String × Presence)
unfolding bind
seed_sessions ap [] current = current
seed_sessions ap (s ∷ ss) current = seed_sessions ap ss (
    if s.connected && not (is_stale (find s.mac current) s)
    then bind s.mac (present_at ap s) current
    else current)

unfoldable pub seed_devices : List Device → List (String × Presence) → List (String × Presence)
unfolding seed_sessions client_sessions colon_mac
seed_devices [] current = current
seed_devices (d ∷ ds) current =
    seed_devices ds (seed_sessions (colon_mac d.mac) (client_sessions d) current)

unfoldable pub seed : List Device → Tracker → Tracker
unfolding seed_devices
seed ds t = record t { current = seed_devices ds t.current }

abbrev pub is_before : String × PendingDisconnect → String × PendingDisconnect → Bool
is_before p q = if p.1.at == q.1.at then str_lt p.0 q.0 else ltb p.1.at q.1.at

-- The held disconnects whose deadline has come.
unfoldable pub overdue : ℕ → List (String × PendingDisconnect) → List (String × PendingDisconnect)
unfolding keep_if
overdue now held = keep_if (λ e. not (ltb now e.1.deadline)) held

abbrev pub leave :
    String → Option Presence → String → List (String × Presence) → List (String × Presence)
leave c none ap current = current
leave c (some cur) ap current = if str_eq cur.ap ap then without c current else current

unfoldable pub expire : String → PendingDisconnect → Tracker → Tracker
unfolding without
expire c p t = record {
  current = leave c (find c t.current) p.ap t.current;
  pending = without c t.pending;
}

module _ (C : Config) where
  unfoldable pub connect_event : String → Transition → Event
  unfolding finish colon_mac
  connect_event ap tr = finish C.printing tr.at (record (bare key_connected) {
    client = colon_mac tr.mac;
    hostname = tr.session.hostname;
    ip = tr.session.ip;
    ap = ap;
    ap_name = C.ap_name ap;
    ssid = tr.session.essid;
    radio = tr.session.radio;
    channel = tr.session.channel;
  })

  -- The age of the association, when its times are known.
  abbrev age : ClientSession → ℕ
  age s = if ltb 0 s.since && leb s.since s.last_seen then s.last_seen - s.since else 0

  unfoldable pub disconnect_event : PendingDisconnect → Event
  unfolding finish colon_mac
  disconnect_event p = finish C.printing p.at (record (bare key_disconnected) {
    client = colon_mac p.session.mac;
    hostname = p.session.hostname;
    ip = p.session.ip;
    ap = p.ap;
    ap_name = C.ap_name p.ap;
    ssid = p.session.essid;
    radio = p.session.radio;
    channel = p.session.channel;
    bytes = p.session.bytes;
    duration = age p.session;
  })

  unfoldable pub roam_event : String → ClientSession → String → Transition → Event
  unfolding finish colon_mac
  roam_event from_ap old to_ap tr = finish C.printing tr.at (record (bare key_roam) {
    client = colon_mac tr.mac;
    hostname = first_non_empty tr.session.hostname old.hostname;
    ip = first_non_empty tr.session.ip old.ip;
    ap_from = from_ap;
    ap_from_name = C.ap_name from_ap;
    ap_to = to_ap;
    ap_to_name = C.ap_name to_ap;
    ssid = first_non_empty tr.session.essid old.essid;
    radio = tr.session.radio;
    radio_from = old.radio;
    radio_to = tr.session.radio;
    channel = tr.session.channel;
    channel_from = old.channel;
    channel_to = tr.session.channel;
  })

  unfoldable pub roam_radio_event : String → Transition → Event
  unfolding finish colon_mac
  roam_radio_event ap tr = finish C.printing tr.at (record (bare key_roam_radio) {
    client = colon_mac tr.mac;
    hostname = tr.session.hostname;
    ip = tr.session.ip;
    ap = ap;
    ap_name = C.ap_name ap;
    ssid = tr.session.essid;
    radio = tr.session.radio;
    radio_from = tr.prev.radio;
    radio_to = tr.session.radio;
    channel = tr.session.channel;
    channel_from = tr.prev.channel;
    channel_to = tr.session.channel;
  })

  unfoldable pub connect :
      String
      → Transition
      → Option PendingDisconnect
      → Option Presence
      → Tracker
      → Tracker × List Event
  unfolding bind without connect_event disconnect_event roam_event
  connect ap tr (some pend) cur t = (
    record {
      current = bind tr.mac (present_at ap tr.session) t.current;
      pending = without tr.mac t.pending;
    },
    if str_eq pend.ap ap
        then disconnect_event pend ∷ connect_event ap tr ∷ []
        else roam_event pend.ap pend.session ap tr ∷ [],
  )
  connect ap tr none (some cur) t = (
    record t { current = bind tr.mac (present_at ap tr.session) t.current },
    if str_eq cur.ap ap then [] else roam_event cur.ap cur.session ap tr ∷ [],
  )
  connect ap tr none none t = (
    record t { current = bind tr.mac (present_at ap tr.session) t.current },
    connect_event ap tr ∷ [],
  )

  -- A client that is recorded on this access point, and no disconnect of it held.
  abbrev pub is_here : String → Option PendingDisconnect → Option Presence → Bool
  is_here ap none (some cur) = str_eq cur.ap ap
  is_here ap _ _ = false

  unfoldable pub disconnect :
      ℕ → String → Transition → Option PendingDisconnect → Option Presence → Tracker → Tracker
  unfolding bind
  disconnect now ap tr held cur t =
      if is_here ap held cur
      then record t {
        pending =
            bind tr.mac
              (record { ap = ap; session = tr.session; at = tr.at; deadline = now + C.grace })
              t.pending;
      }
      else t

  unfoldable pub radio_change :
      String
      → Transition
      → Option PendingDisconnect
      → Option Presence
      → Tracker
      → Tracker × List Event
  unfolding bind roam_radio_event
  radio_change ap tr held cur t =
      if is_here ap held cur
      then (
        record t { current = bind tr.mac (present_at ap tr.session) t.current },
        roam_radio_event ap tr ∷ [],
      )
      else (t, [])

  abbrev pub dispatch : TransitionKind → ℕ → String → Transition → Tracker → Tracker × List Event
  dispatch transition_connect now ap tr t =
      connect ap tr (find tr.mac t.pending) (find tr.mac t.current) t
  dispatch transition_disconnect now ap tr t =
      (disconnect now ap tr (find tr.mac t.pending) (find tr.mac t.current) t, [])
  dispatch transition_radio_change now ap tr t =
      radio_change ap tr (find tr.mac t.pending) (find tr.mac t.current) t

  unfoldable pub observe : ℕ → String → List Transition → Tracker → Tracker × List Event
  unfolding connect disconnect radio_change
  observe now ap [] t = (t, [])
  observe now ap (tr ∷ trs) t =
      let first = dispatch tr.kind now ap tr t in
      let rest = observe now ap trs first.0 in (rest.0, first.1 ++ rest.1)

  unfoldable pub expire_all : List (String × PendingDisconnect) → Tracker → Tracker × List Event
  unfolding expire disconnect_event
  expire_all [] t = (t, [])
  expire_all ((c, p) ∷ due) t =
      let rest = expire_all due (expire c p t) in (rest.0, disconnect_event p ∷ rest.1)

  unfoldable pub flush : ℕ → Tracker → Tracker × List Event
  unfolding expire_all overdue sort str_lt
  flush now t = expire_all (sort is_before (overdue now t.pending)) t
