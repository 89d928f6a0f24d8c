-- ===== src/Store/Db/Outcome.antt =====
-- What an operation on the store reports, and what it has done by then.
use Prim.Native.String.{String}
use open_unifi.Base.{
  ℕ, ◌≢◌, Bool, true, false, Option, none, some, List, ◌≡◌, refl, ap, ◌∙◌, if◌then◌else◌,
}
use open_unifi.Base.Text.{str_eq}
use open_unifi.Base.Results.{Result, ok, err}
use open_unifi.Base.Tables.{find, bind, find-bind}
use open_unifi.Store.Device.{Device}
use open_unifi.Store.Mac.{normalize}
use open_unifi.Store.Mac.Canonical.{normalize-again}
use open_unifi.Store.Db.{
  StoreError, save_failed, StoreJson, seed, PendingEntry, Db, or_not_found, get, put_device, update,
  evict_expired, JsonStore, snapshot, Mutation, putting, deleting, updating, marking,
}

-- The note is in memory under the MAC already, and has not expired.
abbrev pub IsNoted : ℕ → Mutation → Db → Type 0
IsNoted now op db =
    (mac : String) × (note : List ℕ) × (e : PendingEntry) × (op ≡ marking mac note)
    × (find (normalize mac) (evict_expired now db.pending) ≡ some e)
    × (e.note ≡ note)

-- What an operation that goes through makes of the memory: the device that was put or updated reads
-- back under its canonical MAC, a deleted one is gone, and a sighting has its note.
abbrev pub HasEffect : Mutation → Db → Db → Type 0
HasEffect (putting d) before after =
    find (normalize d.mac) after.devices ≡ some (record d { mac = normalize d.mac })
HasEffect (deleting mac) before after = find (normalize mac) after.devices ≡ none
HasEffect (updating upsert mac fn) before after =
    (d e : Device) × (seed upsert (normalize mac) (find (normalize mac) before.devices) ≡ ok d)
    × (fn d ≡ some e)
    × (find (normalize e.mac) after.devices ≡ some (record e { mac = normalize e.mac }))
HasEffect (marking mac note) before after =
    (e : PendingEntry) × (find (normalize mac) after.pending ≡ some e) × (e.note ≡ note)

-- What is reported of an operation, and what is then in memory and in the file.
pub data IsReported (J : StoreJson) (disk : Bool) (now : ℕ) (op : Mutation) (s : JsonStore)
    : JsonStore × Option StoreError → Type 0 where
  saved :
      (db : Db)
      → HasEffect op s.db db
      → disk ≡ true
      → IsReported J disk now op s
          (record { db = db; file = some (J.marshal_indent (snapshot now db)) }, none)
  unsaved :
      (db : Db)
      → HasEffect op s.db db
      → disk ≡ false
      → IsReported J disk now op s (record s { db = db }, some save_failed)
  refused :
      (db : Db) (e : StoreError)
      → e ≢ save_failed
      → db.devices ≡ s.db.devices
      → IsReported J disk now op s (record s { db = db }, some e)
  unchanged :
      (db : Db)
      → IsNoted now op s.db
      → db ≡ record s.db { pending = evict_expired now s.db.pending }
      → IsReported J disk now op s (record s { db = db }, none)

-- An operation in memory has its effect, or an error that is not the file system's.
abbrev IsDone : Mutation → Db → Result StoreError Db → Type 0
IsDone op before (ok after) = HasEffect op before after
IsDone op before (err e) = e ≢ save_failed

module _ (upsert : Bool) (mac : String) (fn : Device → Option Device) (db : Db) where
  abbrev start : Result StoreError Device
  start = seed upsert (normalize mac) (find (normalize mac) db.devices)

-- What a sighting comes to in memory, and what it reports.
data IsMarked (now : ℕ) (op : Mutation) (db : Db) : Db × Result StoreError Bool → Type 0 where
  full :
      (after : Db) (e : StoreError)
      → e ≢ save_failed
      → after.devices ≡ db.devices
      → IsMarked now op db (after, err e)
  known :
      (after : Db)
      → IsNoted now op db
      → after ≡ record db { pending = evict_expired now db.pending }
      → IsMarked now op db (after, ok false)
  marked : (after : Db) → HasEffect op db after → IsMarked now op db (after, ok true)

pub found_ok : (o : Option Device) (d : Device) → or_not_found o ≡ ok d → o ≡ some d
found_ok none d h = cc
found_ok (some e) d h = cc

looked_up :
    (b : Bool) (d : Device) (o : Option Device)
    → or_not_found (if b then some d else o) ≡ (if b then ok d else or_not_found o)
looked_up true d o = refl
looked_up false d o = refl

-- An update of a device that is there, with a function that succeeds on it and keeps its MAC,
-- succeeds; after it, the device reads as the function made it, under its canonical MAC, in any
-- spelling, and every other device reads as before.
pub update-get :
    (mac : String) (fn : Device → Option Device) (db : Db) (d e : Device)
    → str_eq (normalize mac) "" ≡ false
    → get mac db ≡ ok d
    → fn d ≡ some e
    → normalize e.mac ≡ normalize mac
    → (after : Db) × (update false mac fn db ≡ ok after)
      × ((k : String)
          → get k after ≡ (
              if str_eq (normalize k) (normalize mac)
              then ok (record e { mac = normalize mac })
              else get k db))
unfolding update get put_device
update-get mac fn db d e nonempty there works same =
    let m = normalize mac in
    let now_there = found_ok (find m db.devices) d there in
    (
      record db { devices = bind m (record e { mac = m }) db.devices },
      rw (normalize-again mac, now_there, works, same, nonempty) refl,
      λ k.
          ap or_not_found (find-bind (normalize k) m (record e { mac = m }) db.devices)
          ∙ looked_up (str_eq (normalize k) m) (record e { mac = m })
              (find (normalize k) db.devices),
    )
