-- ===== src/Server/Sessions/Life.antt =====
-- The informs of a site and the tracker that follows them.
use open_unifi.Base.{ℕ, Bool, true, false, List, [], ◌∷◌, map, All}
use open_unifi.Store.Value.{JsonMap}
use open_unifi.Store.Device.{Device}
use open_unifi.Store.Mac.{colon_mac}
use open_unifi.Store.Sessions.Refresh.Own.{refresh_session_stations-IsOwn}
use open_unifi.Inform.Stations.{Station, stations}
use open_unifi.Events.Presence.{Run}
use open_unifi.Events.Tracker.{Config, new_tracker, seed}
use open_unifi.Events.Tracker.Held.{where_is}
use open_unifi.Events.Tracker.Steps.{IsOwn}
use open_unifi.Events.Tracker.Runs.{Action, observed, ticked, AreOwn, play, play-Run}
use open_unifi.Server.Sessions.{refresh_from, refresh_client_sessions, station_info}

-- What reaches the server: an inform of the device with the given record, at a time of its clock and
-- a Unix time, or a tick of the tracker's timer.
pub data Happening : Type 0 where
  informed : ℕ → ℕ → Device → JsonMap → Happening
  ticking : ℕ → Happening

unfoldable pub action : Happening → Action
unfolding refresh_client_sessions colon_mac
action (informed clock now rec body) =
    observed clock (colon_mac rec.mac) (refresh_client_sessions rec body now).1
action (ticking clock) = ticked clock

refresh_from-IsOwn :
    (sts : List Station × Bool) (rec : Device) (now : ℕ) → All IsOwn (refresh_from sts rec now).1
refresh_from-IsOwn (sts, true) rec now =
    refresh_session_stations-IsOwn rec (map station_info sts) now
refresh_from-IsOwn (sts, false) rec now = tt

action-AreOwn : (h : Happening) → AreOwn (action h)
unfolding action refresh_client_sessions
action-AreOwn (informed clock now rec body) = refresh_from-IsOwn (stations body) rec now
action-AreOwn (ticking clock) = tt

actions-AreOwn : (hs : List Happening) → All AreOwn (map action hs)
actions-AreOwn [] = tt
actions-AreOwn (h ∷ hs) = (action-AreOwn h, actions-AreOwn hs)

module _ (C : Config) where
  -- Whatever informs and ticks reach the server, in any order, with any bodies, records and times,
  -- the client events that the tracker emits are a run of the clients' presence: from where the
  -- stored sessions have the clients, each event is a connect of a client that is on no access
  -- point, a disconnect of one that is on the access point named, a roam from the one to another,
  -- or a radio change that moves nobody; and the run ends where the tracker has the clients.
  pub life-Run :
      (ds : List Device) (hs : List Happening)
      → let t = seed ds new_tracker in
        let r = play C (map action hs) t in Run (where_is t.current) r.1 (where_is r.0.current)
  life-Run ds hs = play-Run C ds (map action hs) (actions-AreOwn hs)
