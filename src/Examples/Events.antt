-- ===== src/Examples/Events.antt =====
-- A client that roams between two access points.
use open_unifi.Base.{List, [], ◌∷◌, map}
use open_unifi.Store.Value.{JsonMap, str, float64, arr, cons, nil, obj, field, end, put, no_rows}
use open_unifi.Store.Device.{Device}
use open_unifi.Events.Presence.{Run}
use open_unifi.Events.Tracker.{Config, Tracker, new_tracker, seed}
use open_unifi.Events.Tracker.Held.{where_is}
use open_unifi.Events.Tracker.Runs.{play}
use open_unifi.Server.Sessions.Life.{Happening, informed, ticking, action, life-Run}
use open_unifi.Examples.Data.{access_point}

abbrev config : Config
config = record {
  grace = 30;
  ap_name = λ m. m;
  printing = record { utc = λ t. "then"; one_decimal = λ n d. "1.0" };
}

abbrev other_point : Device
other_point = record access_point { mac = "0418d6000002" }

-- A table with one station.
abbrev table : JsonMap
table =
    put "sta_table"
      (arr
        (cons (obj (field "mac" (str "aa:bb:cc:dd:ee:01") (field "channel" (float64 6) end))) nil))
      no_rows

abbrev site : List Happening
site =
    informed 10 1 access_point table
    ∷ informed 20 11 other_point table
    ∷ ticking 90
    ∷ informed 100 91 access_point table
    ∷ []

abbrev at_start : Tracker
at_start = seed (access_point ∷ []) new_tracker

life-Run_example :
    Run
      (where_is at_start.current)
      (play config (map action site) at_start).1
      (where_is (play config (map action site) at_start).0.current)
life-Run_example = life-Run config (access_point ∷ []) site
