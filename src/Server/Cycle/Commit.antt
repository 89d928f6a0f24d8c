-- ===== src/Server/Cycle/Commit.antt =====
-- What a cycle leaves in the store.
use Prim.Native.String.{String}
use open_unifi.Base.{ℕ, false, ◌≡◌, refl, ap, ◌∙◌, if◌then◌else◌}
use open_unifi.Base.Text.{str_eq}
use open_unifi.Base.Results.{ok, err}
use open_unifi.Base.Tables.{find}
use open_unifi.Store.Value.{JsonMap}
use open_unifi.Store.Device.{Device}
use open_unifi.Store.Mac.{normalize}
use open_unifi.Store.Mac.Canonical.{normalize-again}
use open_unifi.Store.Db.{Db, aborted, get, update}
use open_unifi.Store.Db.Outcome.{found_ok, update-get}
use open_unifi.Adoption.Types.{Deps, EngineError}
use open_unifi.Server.Cycle.{
  InformLane, AdvanceResult, decided, answer_of, device_of, ended, advance, cycle_answer,
  run_inform_cycle,
}

module _ (D : Deps) (draw : ℕ) (l : InformLane) (body : JsonMap) (now target : ℕ) where
  -- A cycle on a device that is there, whose decision goes through and whose record keeps its MAC,
  -- answers with the decision; afterwards the device reads as the absorption, the sessions and the
  -- outcome made it, in any spelling of its MAC, and every other device reads as before.
  pub run_inform_cycle-commits :
      (mac : String) (db : Db) (rec next : Device) (r : AdvanceResult)
      → str_eq (normalize mac) "" ≡ false
      → get mac db ≡ ok rec
      → advance D draw l body now target rec ≡ ok (next, r)
      → normalize next.mac ≡ normalize mac
      → (after : Db) × (run_inform_cycle D draw l body now target mac db ≡ (after, decided r))
        × ((k : String)
            → get k after ≡ (
                if str_eq (normalize k) (normalize mac)
                then ok (record next { mac = normalize mac })
                else get k db))
  unfolding run_inform_cycle
  run_inform_cycle-commits mac db rec next r nonempty there went same =
      let fn = λ (d : Device). device_of (advance D draw l body now target d) in
      let (after, updated, reads) =
        update-get mac fn db rec next nonempty there (ap device_of went) same in
      (
        after,
        ap (λ u. ended db (cycle_answer D draw l body now target (get mac db)) u) updated
            ∙ ap (λ g. (after, cycle_answer D draw l body now target g)) there
            ∙ ap (λ a. (after, answer_of a)) went,
        reads,
      )

  update-aborted :
      (mac : String) (db : Db) (rec : Device) (e : EngineError)
      → str_eq (normalize mac) "" ≡ false
      → get mac db ≡ ok rec
      → advance D draw l body now target rec ≡ err e
      → update false mac (λ d. device_of (advance D draw l body now target d)) db ≡ err aborted
  unfolding update get
  update-aborted mac db rec e nonempty there failed =
      rw
        (
          nonempty,
          normalize-again mac,
          found_ok (find (normalize mac) db.devices) rec there,
          failed,
        )
        refl

  pub run_inform_cycle-aborts :
      (mac : String) (db : Db) (rec : Device) (e : EngineError)
      → str_eq (normalize mac) "" ≡ false
      → get mac db ≡ ok rec
      → advance D draw l body now target rec ≡ err e
      → run_inform_cycle D draw l body now target mac db ≡ (db, answer_of (err e))
  unfolding run_inform_cycle
  run_inform_cycle-aborts mac db rec e nonempty there failed =
      ap (λ u. ended db (cycle_answer D draw l body now target (get mac db)) u)
        (update-aborted mac db rec e nonempty there failed)
      ∙ ap (λ g. (db, cycle_answer D draw l body now target g)) there
      ∙ ap (λ a. (db, answer_of a)) failed
