-- ===== src/Events/History.antt =====
-- internal/clientevents/filesink.go: the events that the sink keeps in memory, the queries on them,
-- and the history of a client. The code keeps them oldest first and works from the end; here the
-- newest is the first. The file, its JSON lines and the locks are left out. `sort.Search` is library
-- code, the record `Search`.
pub mod Order
pub mod Fold
use Prim.Native.String.{String}
use open_unifi.Base.{
  ℕ, zero, suc, ◌+◌, ◌-◌, ◌/◌, ◌≤◌, ◌<◌, ◌≡◌, Bool, true, false, not, ◌&&◌, ◌||◌, Option, none,
  some, List, [], ◌∷◌, ◌++◌, ◌==◌, ltb, leb, if◌then◌else◌, length, take, get_or,
}
use open_unifi.Base.Text.{str_eq}
use open_unifi.Base.Sort.{sort, insert_sorted}
use open_unifi.Store.Mac.{canonical_mac, lower_text}
use open_unifi.Events.Event.{Event, key_connected, key_disconnected, key_roam, key_roam_radio}

-- Thirty days, in milliseconds.
abbrev pub default_retention : ℕ
default_retention = 2592000000

abbrev pub default_max_events : ℕ
default_max_events = 200000

pub record FileSinkOptions : Type 0 where
  pub retention : ℕ
  pub max_events : ℕ

-- `NewFileSink` fills in what is not positive.
abbrev pub with_defaults : FileSinkOptions → FileSinkOptions
with_defaults o = record {
  retention = if o.retention == 0 then default_retention else o.retention;
  max_events = if o.max_events == 0 then default_max_events else o.max_events;
}

pub record Search : Type 0 where
  pub search : ℕ → (ℕ → Bool) → ℕ

abbrev pub is_later : Event → Event → Bool
is_later a b = ltb b.time a.time

-- The event moves from the end past every later one.
abbrev pub place : Event → List Event → List Event
place e events = insert_sorted is_later e events

unfoldable pub oldest_last : List Event → List Event → List Event
oldest_last [] done = done
oldest_last (e ∷ es) done = oldest_last es (e ∷ done)

-- The lines of a file that are events, in the order of the file.
abbrev pub is_event : Event → Bool
is_event e = not (str_eq e.key "") && not (e.time == 0)

unfoldable pub valid : List Event → List Event
valid [] = []
valid (e ∷ es) = let rest = valid es in if is_event e then e ∷ rest else rest

unfoldable pub load : List Event → List Event
unfolding sort oldest_last valid
load lines = sort is_later (oldest_last (valid lines) [])

unfoldable pub emit : FileSinkOptions → Event → List Event → List Event
unfolding insert_sorted
emit o e events =
    let more = place e events in
    if ltb (o.max_events + o.max_events / 10) (length more) then take o.max_events more else more

abbrev pub times : List Event → List ℕ
times [] = []
times (e ∷ es) = e.time ∷ times es

-- The event at an index of the code's slice is not older than the cutoff.
abbrev pub is_recent : ℕ → List Event → ℕ → Bool
is_recent cutoff events i = leb cutoff (get_or (times events) (length events - suc i) 0)

unfoldable pub prune : Search → FileSinkOptions → ℕ → List Event → List Event
prune S o now events =
    let i = S.search (length events) (is_recent (now - o.retention) events) in
    take o.max_events (take (length events - i) events)

-- The times of a filter are `none` when they are not set.
pub record Filter : Type 0 where
  pub client : String
  pub ap : String
  pub key : String
  pub since : Option ℕ
  pub until : Option ℕ
  pub limit : ℕ

abbrev pub or_lower : String → Option String → String
or_lower mac none = lower_text mac
or_lower mac (some c) = c

unfoldable pub canon_or_raw : String → String
unfolding canonical_mac lower_text
canon_or_raw mac = if str_eq mac "" then "" else or_lower mac (canonical_mac mac)

abbrev pub not_before : Option ℕ → ℕ → Bool
not_before none t = true
not_before (some since) t = not (ltb t since)

abbrev pub not_after : Option ℕ → ℕ → Bool
not_after none t = true
not_after (some until) t = not (ltb until t)

unfoldable pub match : Filter → String → String → Event → Bool
unfolding canon_or_raw
match f client ap e =
    (str_eq client "" || str_eq (canon_or_raw e.client) client)
    && (str_eq ap ""
        || (str_eq (canon_or_raw e.ap) ap
            || (str_eq (canon_or_raw e.ap_from) ap || str_eq (canon_or_raw e.ap_to) ap)))
    && (str_eq f.key "" || str_eq e.key f.key)
    && not_before f.since e.time
    && not_after f.until e.time

-- The loop of `Query`, from the newest event; it stops at the limit.
unfoldable pub collect : Filter → String → String → List Event → List Event → List Event
unfolding match
collect f client ap [] out = out
collect f client ap (e ∷ es) out =
    let passed = collect f client ap es out in
    let taken = out ++ (e ∷ []) in
    let on = collect f client ap es taken in
    if match f client ap e
    then (if ltb 0 f.limit && leb f.limit (length taken) then taken else on)
    else passed

unfoldable pub query : Filter → List Event → List Event
unfolding collect canon_or_raw
query f events = collect f (canon_or_raw f.client) (canon_or_raw f.ap) events []

-- A stretch on one access point; `to` is zero while it goes on.
pub record Interval : Type 0 where
  pub ap : String
  pub ap_name : String
  pub ssid : String
  pub channel : ℕ
  pub from : ℕ
  pub to : ℕ

-- The intervals of the loop: the open one is the last of the code's slice.
pub record Folded : Type 0 where
  pub closed : List Interval
  pub open_one : Option Interval

abbrev pub ended : ℕ → Option Interval → List Interval
ended at none = []
ended at (some i) = record i { to = at } ∷ []

abbrev pub close_open : ℕ → Folded → Folded
close_open at s = record { closed = s.closed ++ ended at s.open_one; open_one = none }

-- `closeOpen` and `openAt`
abbrev pub open_at : String → String → Event → Folded → Folded
open_at m name e s = record (close_open e.time s) {
  open_one = some (record {
    ap = m;
    ap_name = name;
    ssid = e.ssid;
    channel = e.channel;
    from = e.time;
    to = 0;
  });
}

abbrev pub on_channel : String → ℕ → Option Interval → Option Interval
on_channel m channel none = none
on_channel m channel (some i) = some (if str_eq i.ap m then record i { channel = channel } else i)

unfoldable pub fold_event : Event → Folded → Folded
fold_event e s =
    if str_eq e.key key_connected
    then open_at e.ap e.ap_name e s
    else if str_eq e.key key_roam
    then open_at e.ap_to e.ap_to_name e s
    else if str_eq e.key key_roam_radio
    then record s { open_one = on_channel e.ap e.channel s.open_one }
    else if str_eq e.key key_disconnected
    then close_open e.time s
    else s

-- Oldest event first.
unfoldable pub fold_events : List Event → Folded → Folded
unfolding fold_event
fold_events [] s = s
fold_events (e ∷ es) s = fold_events es (fold_event e s)

abbrev pub unfolded : Folded
unfolded = record { closed = []; open_one = none }

abbrev pub the_open : Option Interval → List Interval
the_open none = []
the_open (some i) = i ∷ []

unfoldable pub fold_history : List Event → List Interval
unfolding fold_events
fold_history events = let s = fold_events events unfolded in s.closed ++ the_open s.open_one

unfoldable pub of_client : String → List Event → List Event
unfolding canon_or_raw
of_client c [] = []
of_client c (e ∷ es) =
    let rest = of_client c es in if str_eq (canon_or_raw e.client) c then e ∷ rest else rest

unfoldable pub history : String → List Event → List Interval
unfolding canon_or_raw of_client oldest_last fold_history
history client events = fold_history (oldest_last (of_client (canon_or_raw client) events) [])
