-- ===== src/Store/Db/Sound.antt =====
-- What every operation of the store keeps, and what a failed one leaves.
use Prim.Native.String.{String}
use open_unifi.Base.{
  ℕ, ◌-◌, ◌≤◌, ◌<◌, Bool, true, false, not, Option, none, some, List, ◌≡◌, refl, inl, inr,
  Bool-cases, All, length, ltb, leb, arith,
}
use open_unifi.Base.Text.{str_eq, codes_eq}
use open_unifi.Base.Results.{Result, ok, err, ◌>>=◌}
use open_unifi.Base.Tables.{find, bind, without, keep_if, IsKeyed, bind-IsKeyed, without-IsKeyed}
use open_unifi.Base.Tables.Entries.{
  All-without, All-bind, All-keep_if, length-without, length-without_found, keep_if-IsKeyed,
  length-keep_if,
}
use open_unifi.Store.Device.{Device}
use open_unifi.Store.Mac.{normalize}
use open_unifi.Store.Mac.Canonical.{normalize-again}
use open_unifi.Store.Db.{
  StoreError, PendingEntry, Db, new_db, put_device, seed, or_aborted, update, deleted, delete,
  max_pending, pending_ttl, evict_expired, mark, mark_pending, JsonStore, StoreJson, and_save,
  and_save_marked, Mutation, putting, deleting, updating, marking, mutate,
}

-- A device under its own canonical MAC.
abbrev pub IsPlaced : String × Device → Type 0
IsPlaced e = (e.1.mac ≡ e.0) × (normalize e.0 ≡ e.0)

abbrev pub IsSighting : String × PendingEntry → Type 0
IsSighting e = normalize e.0 ≡ e.0

-- One record for each MAC, each under its own canonical MAC, and no more than 100 sightings.
pub record IsSound (db : Db) : Type 0 where
  pub devices_keyed : IsKeyed db.devices
  pub devices_placed : All IsPlaced db.devices
  pub pending_keyed : IsKeyed db.pending
  pub pending_plain : All IsSighting db.pending
  pub few : length db.pending ≤ max_pending

pub new_db-IsSound : IsSound new_db
new_db-IsSound = record {
  devices_keyed = tt;
  devices_placed = tt;
  pending_keyed = tt;
  pending_plain = tt;
  few = omega arith;
}

-- A result that, if it is a store, is sound.
abbrev IsFine : Result StoreError Db → Type 0
IsFine (ok db) = IsSound db
IsFine (err e) = Unit

-- The devices of a sound store are replaced by others.
with_devices :
    (db : Db) (t : List (String × Device))
    → IsSound db
    → IsKeyed t
    → All IsPlaced t
    → IsSound (record db { devices = t })
with_devices db t sound keyed placed = record {
  devices_keyed = keyed;
  devices_placed = placed;
  pending_keyed = sound.pending_keyed;
  pending_plain = sound.pending_plain;
  few = sound.few;
}

put_device-IsFine : (d : Device) (db : Db) → IsSound db → IsFine (put_device d db)
unfolding put_device
put_device-IsFine d db sound = elim (Bool-cases (str_eq (normalize d.mac) "")) [
  | inl e ↦ rw e tt
  | inr e ↦ rw e (
      let m = normalize d.mac in
      let own = record d { mac = m } in
      with_devices db (bind m own db.devices) sound
        (bind-IsKeyed m own db.devices sound.devices_keyed)
        (All-bind IsPlaced m own db.devices (refl, normalize-again d.mac) sound.devices_placed))
]

bound-IsFine :
    {A : Type 0} (r : Result StoreError A) (next : A → Result StoreError Db)
    → ((a : A) → IsFine (next a))
    → IsFine (r >>= next)
bound-IsFine (ok a) next fine = fine a
bound-IsFine (err e) next fine = tt

update-IsFine :
    (upsert : Bool) (mac : String) (fn : Device → Option Device) (db : Db)
    → IsSound db
    → IsFine (update upsert mac fn db)
unfolding update
update-IsFine upsert mac fn db sound = elim (Bool-cases (str_eq (normalize mac) "")) [
  | inl e ↦ rw e tt
  | inr e ↦ rw e (
      bound-IsFine
        (seed upsert (normalize mac) (find (normalize (normalize mac)) db.devices)
          >>= (λ d. or_aborted (fn d)))
        (λ d. put_device d db) (λ d. put_device-IsFine d db sound))
]

deleted-IsFine :
    (m : String) (found : Option Device) (db : Db) → IsSound db → IsFine (deleted m found db)
deleted-IsFine m none db sound = tt
deleted-IsFine m (some d) db sound =
    with_devices db (without m db.devices) sound (without-IsKeyed m db.devices sound.devices_keyed)
      (All-without IsPlaced m db.devices sound.devices_placed)

delete-IsFine : (mac : String) (db : Db) → IsSound db → IsFine (delete mac db)
unfolding delete
delete-IsFine mac db sound =
    deleted-IsFine (normalize mac) (find (normalize mac) db.devices) db sound

-- The sightings of a sound store are replaced by others.
with_pending :
    (db : Db) (t : List (String × PendingEntry))
    → IsSound db
    → IsKeyed t
    → All IsSighting t
    → length t ≤ max_pending
    → IsSound (record db { pending = t })
with_pending db t sound keyed plain few = record {
  devices_keyed = sound.devices_keyed;
  devices_placed = sound.devices_placed;
  pending_keyed = keyed;
  pending_plain = plain;
  few = few;
}

evicted :
    (now : ℕ) (db : Db)
    → IsSound db
    → IsSound (record db { pending = evict_expired now db.pending })
unfolding evict_expired
evicted now db sound =
    let test = λ (e : String × PendingEntry). not (ltb e.1.seen_at (now - pending_ttl)) in
    with_pending db (keep_if test db.pending) sound
      (keep_if-IsKeyed test db.pending sound.pending_keyed)
      (All-keep_if IsSighting test db.pending sound.pending_plain)
      (omega (arith, length-keep_if test db.pending, sound.few))

noted :
    (m : String) (e : PendingEntry) (db : Db)
    → normalize m ≡ m
    → length (without m db.pending) < max_pending
    → IsSound db
    → IsSound (record db { pending = bind m e db.pending })
unfolding bind
noted m e db plain room sound =
    with_pending db (bind m e db.pending) sound (bind-IsKeyed m e db.pending sound.pending_keyed)
      (All-bind IsSighting m e db.pending plain sound.pending_plain) room

mark-IsSound :
    (now : ℕ) (m : String) (note : List ℕ) (found : Option PendingEntry) (db : Db)
    → normalize m ≡ m
    → find m db.pending ≡ found
    → IsSound db
    → IsSound (mark now m note found db).0
unfolding mark
mark-IsSound now m note (some old) db plain there sound =
    elim (Bool-cases (codes_eq old.note note)) [
      | inl e ↦ rw e sound
      | inr e ↦ rw e (
          noted m (record { note = note; seen_at = old.seen_at }) db plain
            (omega (arith, length-without_found m old db.pending there, sound.few)) sound)
    ]
mark-IsSound now m note none db plain there sound =
    elim (Bool-cases (leb max_pending (length db.pending))) [
      | inl e ↦ rw e sound
      | inr e ↦ rw e (
          noted m (record { note = note; seen_at = now }) db plain
            (ground (arith, e, length-without m db.pending)) sound)
    ]

mark_pending-IsSound :
    (now : ℕ) (mac : String) (note : List ℕ) (db : Db)
    → IsSound db
    → IsSound (mark_pending now mac note db).0
unfolding mark_pending
mark_pending-IsSound now mac note db sound = elim (Bool-cases (str_eq (normalize mac) "")) [
  | inl e ↦ rw e sound
  | inr e ↦ rw e (
      mark-IsSound now (normalize mac) note _ (record db { pending = evict_expired now db.pending })
        (normalize-again mac) refl (evicted now db sound))
]

and_save-IsSound :
    (J : StoreJson) (disk : Bool) (now : ℕ) (r : Result StoreError Db) (s : JsonStore)
    → IsSound s.db
    → IsFine r
    → IsSound (and_save J disk now r s).0.db
and_save-IsSound J disk now (err e) s sound fine = sound
and_save-IsSound J true now (ok db) s sound fine = fine
and_save-IsSound J false now (ok db) s sound fine = fine

and_save_marked-IsSound :
    (J : StoreJson) (disk : Bool) (now : ℕ) (r : Db × Result StoreError Bool) (s : JsonStore)
    → IsSound r.0
    → IsSound (and_save_marked J disk now r s).0.db
and_save_marked-IsSound J disk now (db, err e) s sound = sound
and_save_marked-IsSound J disk now (db, ok false) s sound = sound
and_save_marked-IsSound J true now (db, ok true) s sound = sound
and_save_marked-IsSound J false now (db, ok true) s sound = sound

-- Every operation that changes the store keeps it sound, whether it succeeds, fails or is not saved:
-- one record for each MAC, each under its own canonical MAC whatever the caller's function made of
-- it, and no more than 100 sightings of devices that are not adopted.
pub mutate-IsSound :
    (J : StoreJson) (disk : Bool) (now : ℕ) (op : Mutation) (s : JsonStore)
    → IsSound s.db
    → IsSound (mutate J disk now op s).0.db
unfolding mutate
mutate-IsSound J disk now (putting d) s sound =
    and_save-IsSound J disk now _ s sound (put_device-IsFine d s.db sound)
mutate-IsSound J disk now (deleting mac) s sound =
    and_save-IsSound J disk now _ s sound (delete-IsFine mac s.db sound)
mutate-IsSound J disk now (updating upsert mac fn) s sound =
    and_save-IsSound J disk now _ s sound (update-IsFine upsert mac fn s.db sound)
mutate-IsSound J disk now (marking mac note) s sound =
    and_save_marked-IsSound J disk now _ s (mark_pending-IsSound now mac note s.db sound)
