-- ===== src/Store/Db/Reopen.antt =====
-- A store that is opened again.
use Prim.Native.String.{String}
use open_unifi.Base.{
  ℕ, Bool, Option, none, some, List, [], ◌∷◌, map, ◌≡◌, refl, sym, ap, ◌∙◌, if◌then◌else◌,
  Bool-cases, inl, inr, All,
}
use open_unifi.Base.Text.{str_eq}
use open_unifi.Base.Tables.{find, find-bind}
use open_unifi.Store.Value.{
  Value, null, bool, str, int, int64, float64, arr, obj, Values, nil, cons, Fields, end, field,
}
use open_unifi.Store.Sessions.Rows.{to_float64}
use open_unifi.Store.Device.{Device}
use open_unifi.Store.Mac.{normalize}
use open_unifi.Store.Db.{
  PendingEntry, PersistedFile, StoreJson, new_db, opened, JsonStore, snapshot, load_devices,
  load_pending, open_store, Mutation, mutate,
}
use open_unifi.Store.Db.Sound.{IsPlaced, IsSighting, IsSound, new_db-IsSound, mutate-IsSound}

load_devices-find :
    (k : String) (t : List (String × Device)) → All IsPlaced t → find k (load_devices t) ≡ find k t
unfolding load_devices
load_devices-find k [] placed = refl
load_devices-find k ((m, d) ∷ t) ((own, plain), placed) =
    find-bind k (normalize m) (record d { mac = normalize d.mac }) (load_devices t)
    ∙ ap
        (λ x.
          if str_eq k x then some (record d { mac = normalize d.mac }) else find k (load_devices t))
        plain
    ∙ ap (λ x. if str_eq k m then some (record d { mac = x }) else find k (load_devices t))
        (ap normalize own ∙ plain ∙ sym own)
    ∙ ap (λ o. if str_eq k m then some d else o) (load_devices-find k t placed)

-- What a JSON document keeps of a value: a number is a float64 afterwards.
mutual
  pub kept : Value → Value
  kept null = null
  kept (bool b) = bool b
  kept (str s) = str s
  kept (int n) = float64 (to_float64 n)
  kept (int64 n) = float64 (to_float64 n)
  kept (float64 n) = float64 n
  kept (arr vs) = arr (kept_all vs)
  kept (obj fs) = obj (kept_fields fs)

  pub kept_all : Values → Values
  kept_all nil = nil
  kept_all (cons v vs) = cons (kept v) (kept_all vs)

  pub kept_fields : Fields → Fields
  kept_fields end = end
  kept_fields (field k v fs) = field k (kept v) (kept_fields fs)

abbrev pub kept_row : Option Value → Option Value
kept_row none = none
kept_row (some v) = some (kept v)

-- The typed fields of a device come back as they were; the rows are dynamic.
abbrev pub kept_device : Device → Device
kept_device d = record d {
  last_ups = λ k. kept_row (d.last_ups k);
  extra = λ k. kept_row (d.extra k);
}

abbrev pub kept_file : PersistedFile → PersistedFile
kept_file pf = record pf { devices = map (λ e. (e.0, kept_device e.1)) pf.devices }

-- The documented behaviour of encoding/json on a document whose texts are UTF-8 and whose numbers
-- are integers: it is read back, with each dynamic number as a float64.
abbrev pub ReadsBack : StoreJson → PersistedFile → Type 0
ReadsBack J pf = J.unmarshal (J.marshal_indent pf) ≡ some (kept_file pf)

abbrev pub kept_found : Option Device → Option Device
kept_found none = none
kept_found (some d) = some (kept_device d)

find-kept :
    (k : String) (t : List (String × Device))
    → find k (map (λ e. (e.0, kept_device e.1)) t) ≡ kept_found (find k t)
find-kept k [] = refl
find-kept k ((m, d) ∷ t) = elim (Bool-cases (str_eq k m)) [
  | inl e ↦ rw e refl
  | inr e ↦ rw e (find-kept k t)
]

kept-IsPlaced :
    (t : List (String × Device))
    → All IsPlaced t
    → All IsPlaced (map (λ e. (e.0, kept_device e.1)) t)
kept-IsPlaced [] placed = tt
kept-IsPlaced ((m, d) ∷ t) (here, placed) = (here, kept-IsPlaced t placed)

abbrev pub note_of : Option PendingEntry → Option (List ℕ)
note_of none = none
note_of (some e) = some e.note

load_pending-find :
    (now : ℕ) (k : String) (t : List (String × PendingEntry))
    → All IsSighting t
    → note_of (find k (load_pending now (map (λ e. (e.0, e.1.note)) t))) ≡ note_of (find k t)
unfolding load_pending
load_pending-find now k [] plain = refl
load_pending-find now k ((m, e) ∷ t) (this, plain) =
    ap note_of (find-bind k (normalize m) _ (load_pending now (map (λ x. (x.0, x.1.note)) t)))
    ∙ rw this (elim (Bool-cases (str_eq k m)) [
      | inl same ↦ rw same refl
      | inr other ↦ rw other (load_pending-find now k t plain)
    ])

-- One run of the program: operations, each with its time and with whether its save is taken.
abbrev pub run : StoreJson → List (Bool × (ℕ × Mutation)) → JsonStore → JsonStore
run J [] s = s
run J (op ∷ ops) s = run J ops (mutate J op.0 op.1.0 op.1.1 s).0

abbrev pub fresh_store : JsonStore
fresh_store = record { db = new_db; file = none }

run-IsSound :
    (J : StoreJson) (ops : List (Bool × (ℕ × Mutation))) (s : JsonStore)
    → IsSound s.db
    → IsSound (run J ops s).db
run-IsSound J [] s sound = sound
run-IsSound J (op ∷ ops) s sound =
    run-IsSound J ops (mutate J op.0 op.1.0 op.1.1 s).0
      (mutate-IsSound J op.0 op.1.0 op.1.1 s sound)

-- After any run of operations from a fresh start, with any saves refused in between: if the file
-- holds the last state, and encoding/json reads this document back, then a store opens on the file,
-- under every MAC it has the same device, but for the numbers of its dynamic rows, which are float64
-- ones now, and it has the same note of every sighting; nothing is lost, renamed or added.
pub open_store-run :
    (J : StoreJson) (saved later : ℕ) (ops : List (Bool × (ℕ × Mutation)))
    → (run J ops fresh_store).file
      ≡ some (J.marshal_indent (snapshot saved (run J ops fresh_store).db))
    → ReadsBack J (snapshot saved (run J ops fresh_store).db)
    → let s = run J ops fresh_store in
      (again : JsonStore) × (open_store J later s.file ≡ some again)
      × ((k : String)
          → (find k again.db.devices ≡ kept_found (find k s.db.devices))
            × (note_of (find k again.db.pending) ≡ note_of (find k s.db.pending)))
unfolding open_store
open_store-run J saved later ops written reads =
    let s = run J ops fresh_store in
    let pf = kept_file (snapshot saved s.db) in
    let sound = run-IsSound J ops fresh_store new_db-IsSound in
    (
      record {
        db = record { devices = load_devices pf.devices; pending = load_pending later pf.pending };
        file = some (J.marshal_indent (snapshot saved s.db));
      },
      ap (open_store J later) written
          ∙ ap (opened later (J.marshal_indent (snapshot saved s.db))) reads,
      λ k. (
        load_devices-find k pf.devices (kept-IsPlaced s.db.devices sound.devices_placed)
            ∙ find-kept k s.db.devices,
        load_pending-find later k s.db.pending sound.pending_plain,
      ),
    )
