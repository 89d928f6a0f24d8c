-- ===== src/Store/Db.antt =====
-- internal/store/store.go: the device store in memory (`db`) and in its file (`jsonStore`). Each
-- operation runs under the locks of its MAC and of the maps, so it is one step here; a note is the
-- list of its bytes. encoding/json is the record `StoreJson`, and whether the file system takes a
-- save is an argument.
pub mod Sound
pub mod Outcome
pub mod Reopen
use Prim.Native.String.{String}
use open_unifi.Base.{
  ℕ, ◌-◌, Bool, true, false, not, Option, none, some, List, [], ◌∷◌, map, length, ltb, leb,
  if◌then◌else◌,
}
use open_unifi.Base.Text.{str_eq, codes_eq}
use open_unifi.Base.Results.{Result, ok, err, ◌>>=◌}
use open_unifi.Base.Sort.{sort, str_lt}
use open_unifi.Base.Tables.{find, bind, without, keep_if}
use open_unifi.Store.Value.{no_rows}
use open_unifi.Store.Device.{Device}
use open_unifi.Store.Mac.{normalize}

pub data StoreError : Type 0 where
  empty_mac not_found pending_full aborted save_failed : StoreError

pub record PendingEntry : Type 0 where
  pub note : List ℕ
  pub seen_at : ℕ

pub record Db : Type 0 where
  pub devices : List (String × Device)
  pub pending : List (String × PendingEntry)

abbrev pub new_db : Db
new_db = record { devices = []; pending = [] }

-- `Device{MAC: mac}`
abbrev pub bare_device : String → Device
bare_device m = record {
  mac = m;
  name = "";
  model = "";
  firmware = "";
  serial = "";
  site_id = "";
  state = 0;
  ip = "";
  inform_url = "";
  last_seen = 0;
  first_seen = 0;
  cfg_version = "";
  applied_cfg = "";
  authkeys = [];
  x_authkey = "";
  aes_gcm = false;
  key_confirmed = false;
  last_ups = no_rows;
  extra = no_rows;
  led_override = "";
  disabled = false;
  led_override_color_brightness = none;
  led_override_color = "";
  ssh_password = "";
  regulatory_country_code = 0;
  ssh_public_keys = [];
}

abbrev pub or_not_found {ℓ} : {A : Type ℓ} → Option A → Result StoreError A
or_not_found none = err not_found
or_not_found (some a) = ok a

unfoldable pub get : String → Db → Result StoreError Device
unfolding normalize
get m db = or_not_found (find (normalize m) db.devices)

unfoldable pub put_device : Device → Db → Result StoreError Db
unfolding normalize bind
put_device d db =
    let m = normalize d.mac in
    if str_eq m ""
    then err empty_mac
    else ok (record db { devices = bind m (record d { mac = m }) db.devices })

-- The record that a cycle starts from.
abbrev pub seed : Bool → String → Option Device → Result StoreError Device
seed upsert m (some d) = ok d
seed true m none = ok (bare_device m)
seed false m none = err not_found

-- `fn`; `none` is its error.
abbrev pub or_aborted : Option Device → Result StoreError Device
or_aborted none = err aborted
or_aborted (some d) = ok d

unfoldable pub update : Bool → String → (Device → Option Device) → Db → Result StoreError Db
unfolding normalize put_device
update upsert mac fn db =
    let m = normalize mac in
    let cycle =
      seed upsert m (find (normalize m) db.devices)
      >>= (λ d. or_aborted (fn d))
      >>= (λ d. put_device d db) in
    if str_eq m "" then err empty_mac else cycle

abbrev pub deleted : String → Option Device → Db → Result StoreError Db
deleted m none db = err not_found
deleted m (some d) db = ok (record db { devices = without m db.devices })

unfoldable pub delete : String → Db → Result StoreError Db
unfolding normalize without
delete mac db = deleted (normalize mac) (find (normalize mac) db.devices) db

unfoldable pub list : Db → List Device
unfolding sort str_lt
list db = sort (λ a b. str_lt a.mac b.mac) (map (λ e. e.1) db.devices)

abbrev pub max_pending : ℕ
max_pending = 100

-- Twenty-four hours, in seconds.
abbrev pub pending_ttl : ℕ
pending_ttl = 86400

unfoldable pub evict_expired : ℕ → List (String × PendingEntry) → List (String × PendingEntry)
unfolding keep_if
evict_expired now entries = keep_if (λ e. not (ltb e.1.seen_at (now - pending_ttl))) entries

-- The sightings, after the eviction.
unfoldable pub pending : ℕ → Db → Db × List (String × List ℕ)
unfolding evict_expired
pending now db =
    let left = evict_expired now db.pending in
    (record db { pending = left }, map (λ e. (e.0, e.1.note)) left)

-- The sightings after one more of a client that is there or not, and whether they changed.
unfoldable pub mark : ℕ → String → List ℕ → Option PendingEntry → Db → Db × Result StoreError Bool
unfolding bind codes_eq
mark now m note (some old) db = if codes_eq old.note note then (db, ok false) else (
  record db { pending = bind m (record { note = note; seen_at = old.seen_at }) db.pending },
  ok true,
)
mark now m note none db = if leb max_pending (length db.pending) then (db, err pending_full) else (
  record db { pending = bind m (record { note = note; seen_at = now }) db.pending },
  ok true,
)

unfoldable pub mark_pending : ℕ → String → List ℕ → Db → Db × Result StoreError Bool
unfolding normalize evict_expired mark
mark_pending now mac note db =
    let m = normalize mac in
    let left = record db { pending = evict_expired now db.pending } in
    if str_eq m "" then (db, err empty_mac) else mark now m note (find m left.pending) left

pub record PersistedFile : Type 0 where
  pub version : ℕ
  pub saved_at : ℕ
  pub devices : List (String × Device)
  pub pending : List (String × List ℕ)

-- encoding/json on the store's file: `json.MarshalIndent`, and `json.Unmarshal` with an error as
-- `none`.
pub record StoreJson : Type 0 where
  pub marshal_indent : PersistedFile → List ℕ
  pub unmarshal : List ℕ → Option PersistedFile

-- The store and the bytes of its file; a missing file is `none`.
pub record JsonStore : Type 0 where
  pub db : Db
  pub file : Option (List ℕ)

abbrev pub snapshot : ℕ → Db → PersistedFile
snapshot now db = record {
  version = 1;
  saved_at = now;
  devices = db.devices;
  pending = map (λ e. (e.0, e.1.note)) db.pending;
}

unfoldable pub load_devices : List (String × Device) → List (String × Device)
unfolding bind normalize
load_devices [] = []
load_devices ((k, d) ∷ rest) =
    bind (normalize k) (record d { mac = normalize d.mac }) (load_devices rest)

unfoldable pub load_pending : ℕ → List (String × List ℕ) → List (String × PendingEntry)
unfolding bind normalize
load_pending now [] = []
load_pending now ((k, note) ∷ rest) =
    bind (normalize k) (record { note = note; seen_at = now }) (load_pending now rest)

-- A missing file starts an empty store, and one that is no store's file is an error.
abbrev pub opened : ℕ → List ℕ → Option PersistedFile → Option JsonStore
opened now text none = none
opened now text (some pf) = some (record {
  db = record { devices = load_devices pf.devices; pending = load_pending now pf.pending };
  file = some text;
})

unfoldable pub open_store : StoreJson → ℕ → Option (List ℕ) → Option JsonStore
unfolding load_devices load_pending
open_store J now none = some (record { db = new_db; file = none })
open_store J now (some text) = opened now text (J.unmarshal text)

module _ (J : StoreJson) where
  -- The save after a change: the memory keeps the change when the file system refuses it.
  abbrev pub save : Bool → ℕ → Db → JsonStore → JsonStore × Option StoreError
  save true now db s = (record { db = db; file = some (J.marshal_indent (snapshot now db)) }, none)
  save false now db s = (record s { db = db }, some save_failed)

  abbrev pub and_save : Bool → ℕ → Result StoreError Db → JsonStore → JsonStore × Option StoreError
  and_save disk now (err e) s = (s, some e)
  and_save disk now (ok db) s = save disk now db s

  -- A sighting is saved only when it changed something; the eviction before it is not undone.
  abbrev pub and_save_marked :
      Bool → ℕ → Db × Result StoreError Bool → JsonStore → JsonStore × Option StoreError
  and_save_marked disk now (db, err e) s = (record s { db = db }, some e)
  and_save_marked disk now (db, ok false) s = (record s { db = db }, none)
  and_save_marked disk now (db, ok true) s = save disk now db s

-- The operations that change the store.
pub data Mutation : Type 0 where
  putting : Device → Mutation
  deleting : String → Mutation
  updating : Bool → String → (Device → Option Device) → Mutation
  marking : String → List ℕ → Mutation

unfoldable pub mutate : StoreJson → Bool → ℕ → Mutation → JsonStore → JsonStore × Option StoreError
unfolding put_device delete update mark_pending
mutate J disk now (putting d) s = and_save J disk now (put_device d s.db) s
mutate J disk now (deleting mac) s = and_save J disk now (delete mac s.db) s
mutate J disk now (updating upsert mac fn) s = and_save J disk now (update upsert mac fn s.db) s
mutate J disk now (marking mac note) s =
    and_save_marked J disk now (mark_pending now mac note s.db) s
