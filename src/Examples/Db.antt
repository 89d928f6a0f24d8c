-- ===== src/Examples/Db.antt =====
-- The store over a few operations.
use Prim.Native.String.{String}
use open_unifi.Base.{ℕ, ◌≡◌, refl, Bool, true, false, Option, none, some, List, [], ◌∷◌}
use open_unifi.Base.Tables.{find}
use open_unifi.Store.Device.{Device}
use open_unifi.Store.Db.{
  PersistedFile, StoreJson, JsonStore, Mutation, putting, updating, marking, mutate, snapshot,
  open_store, new_db,
}
use open_unifi.Store.Db.Sound.{IsSound, new_db-IsSound, mutate-IsSound}
use open_unifi.Store.Db.Reopen.{
  run, fresh_store, kept_file, kept_found, ReadsBack, note_of, open_store-run,
}
use open_unifi.Examples.Data.{access_point}

abbrev empty_store : JsonStore
empty_store = record { db = new_db; file = none }

abbrev spelled : Device
spelled = record access_point { mac = "AA-BB-CC-DD-EE-01" }

-- A put whose save is refused, a sighting, and an update that renames the device and is saved.
abbrev rename : Device → Option Device
rename d = some (record d { name = "roof" })

abbrev ops : List (Bool × (ℕ × Mutation))
ops =
    (false, (1, putting spelled))
    ∷ (true, (2, marking "AABBCCDDEE02" (b'n' ∷ [])))
    ∷ (true, (3, updating false "aabbccddee01" rename))
    ∷ []

-- The run's last document, for a format that knows no other.
abbrev last_document : PersistedFile
last_document =
    snapshot 3
      (run (record { marshal_indent = λ pf. []; unmarshal = λ text. none }) ops empty_store).db

abbrev json : StoreJson
json = record {
  marshal_indent = λ pf. b'{' ∷ pf.saved_at ∷ b'}' ∷ [];
  unmarshal = λ text. some (kept_file last_document);
}

mutate-IsSound_example : IsSound (mutate json false 5 (putting spelled) empty_store).0.db
mutate-IsSound_example = mutate-IsSound json false 5 (putting spelled) empty_store new_db-IsSound

saved_last :
    (run json ops fresh_store).file
    ≡ some (json.marshal_indent (snapshot 3 (run json ops fresh_store).db))
unfolding mutate
saved_last = refl

reads_last : ReadsBack json (snapshot 3 (run json ops fresh_store).db)
unfolding mutate
reads_last = refl

open_store-run_example :
    let s = run json ops fresh_store in
    (again : JsonStore) × (open_store json 9 s.file ≡ some again)
    × ((k : String)
        → (find k again.db.devices ≡ kept_found (find k s.db.devices))
          × (note_of (find k again.db.pending) ≡ note_of (find k s.db.pending)))
open_store-run_example = open_store-run json 3 9 ops saved_last reads_last
