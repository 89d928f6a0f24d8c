-- ===== src/Adoption/Lifecycle/OneShot.antt =====
-- The armed commands are answered once each, and the factory reset leaves a pending candidate.
use Prim.Native.String.{String}
use open_unifi.Base.{
  true, false, none, some, inl, inr, List, [], ◌∷◌, if◌then◌else◌, ◌≡◌, refl, ap, ◌∙◌, Bool-cases,
}
use open_unifi.Base.Text.{str_eq}
use open_unifi.Store.Value.{JsonMap, Fields, erase, erase_all, truthy}
use open_unifi.Store.Keys.{
  cmd_task_key, flag_reboot_on_connect, flag_setdefault_armed, factory_reset_sweep_keys,
}
use open_unifi.Store.Device.{Device, state_pending}
use open_unifi.Store.CmdTask.{armed_cmd_task}
use open_unifi.Store.TrustPolicy.{contains}
use open_unifi.Wireless.Delivery.Watch.{clear_watchdog_counters}
use open_unifi.Adoption.Types.{setdefault, reboot, cmd, outcome}
use open_unifi.Adoption.Lifecycle.{demote, take_reboot, replay, armed_lifecycle}

erase_all-row :
    (ks : List String) (m : JsonMap) (j : String)
    → erase_all ks m j ≡ (if contains j ks then none else m j)
unfolding erase_all
erase_all-row [] m j = refl
erase_all-row (k ∷ ks) m j = erase_all-row ks (erase k m) j ∙ elim (Bool-cases (str_eq j k)) [
  | inr other ↦ rw other
  | inl this ↦ elim (Bool-cases (contains j ks)) [
    | inl again ↦ rw (this, again)
    | inr once ↦ rw (this, once)
  ]
]

module _ (d : Device) where
  pub when_reset :
      truthy (d.extra flag_setdefault_armed) ≡ true
      → armed_lifecycle d ≡ (some (outcome setdefault), demote d)
  unfolding armed_lifecycle
  when_reset h = rw h

  when_reboot :
      truthy (d.extra flag_setdefault_armed) ≡ false
      → truthy (d.extra flag_reboot_on_connect) ≡ true
      → armed_lifecycle d ≡ (some (outcome reboot), take_reboot d)
  unfolding armed_lifecycle
  when_reboot h g = rw (h, g)

  when_neither :
      truthy (d.extra flag_setdefault_armed) ≡ false
      → truthy (d.extra flag_reboot_on_connect) ≡ false
      → armed_lifecycle d ≡ replay (armed_cmd_task d.extra) d
  unfolding armed_lifecycle
  when_neither h g = rw (h, g)

-- No flag is set and no task is stored.
abbrev pub Idle : Device → Type 0
Idle d =
    (truthy (d.extra flag_setdefault_armed) ≡ false)
    × (truthy (d.extra flag_reboot_on_connect) ≡ false)
    × (armed_cmd_task d.extra ≡ none)

Idle-answer : (d : Device) → Idle d → armed_lifecycle d ≡ (none, d)
unfolding replay
Idle-answer d (h, g, t) = when_neither d h g ∙ rw t

-- The rows that a factory reset deletes.
abbrev pub reset_keys : List String
reset_keys =
    cmd_task_key ∷ flag_reboot_on_connect ∷ flag_setdefault_armed ∷ factory_reset_sweep_keys

-- A record that the factory reset left: a pending candidate without a key, of which only the rows
-- of the sweep, the flags and the task are gone.
pub record IsDemoted (d after : Device) : Type 0 where
  pub pending : after.state ≡ state_pending
  pub no_key : after.x_authkey ≡ ""
  pub no_history : after.authkeys ≡ []
  pub unconfirmed : after.key_confirmed ≡ false
  pub no_version : (after.cfg_version ≡ "") × (after.applied_cfg ≡ "")
  pub identity : after.mac ≡ d.mac
  pub rows : (j : String) → after.extra j ≡ (if contains j reset_keys then none else d.extra j)

demoted-row :
    (d : Device) (j : String)
    → (demote d).extra j ≡ (if contains j reset_keys then none else d.extra j)
unfolding demote
demoted-row d j =
    let swept = erase_all-row factory_reset_sweep_keys d.extra j in
    elim (Bool-cases (str_eq j cmd_task_key)) [
      | inl task ↦ rw task
      | inr a ↦ rw a (elim (Bool-cases (str_eq j flag_reboot_on_connect)) [
        | inl flag ↦ rw flag
        | inr b ↦ rw b (elim (Bool-cases (str_eq j flag_setdefault_armed)) [
          | inl flag ↦ rw flag
          | inr c ↦ rw c swept
        ])
      ])
    ]

-- An armed factory reset outranks whatever else is armed: it is the answer, and the record becomes
-- a pending candidate with no key, no key history and no confirmation, of which exactly the rows of
-- the sweep, both flags and the stored task are deleted.
pub armed_lifecycle-setdefault :
    (d : Device)
    → truthy (d.extra flag_setdefault_armed) ≡ true
    → ((armed_lifecycle d).0 ≡ some (outcome setdefault)) × IsDemoted d (armed_lifecycle d).1
armed_lifecycle-setdefault d armed = rw (when_reset d armed) (
  refl,
  unfold demote in
      record {
        pending = refl;
        no_key = refl;
        no_history = refl;
        unconfirmed = refl;
        no_version = (refl, refl);
        identity = refl;
        rows = demoted-row d;
      },
)

when_task :
    (d : Device) (task : Fields)
    → truthy (d.extra flag_setdefault_armed) ≡ false
    → truthy (d.extra flag_reboot_on_connect) ≡ false
    → armed_cmd_task d.extra ≡ some task
    → armed_lifecycle d ≡ (
      some (record (outcome cmd) { cmd_task = some task }),
      record d { extra = erase cmd_task_key d.extra },
    )
unfolding replay
when_task d task h g stored = when_neither d h g ∙ rw stored

reboot-unflagged : (d : Device) → truthy ((take_reboot d).extra flag_reboot_on_connect) ≡ false
unfolding take_reboot clear_watchdog_counters
reboot-unflagged d = refl

reboot-task : (d : Device) → armed_cmd_task (take_reboot d).extra ≡ armed_cmd_task d.extra
unfolding take_reboot clear_watchdog_counters armed_cmd_task
reboot-task d = refl

idle_after :
    (d : Device)
    → truthy (d.extra flag_setdefault_armed) ≡ false
    → truthy (d.extra flag_reboot_on_connect) ≡ false
    → (armed_lifecycle (record d { extra = erase cmd_task_key d.extra })).0 ≡ none
unfolding armed_cmd_task
idle_after d h g =
    ap (λ r. r.0) (Idle-answer (record d { extra = erase cmd_task_key d.extra }) (h, g, refl))

reboot-second :
    (d : Device) (task : Fields)
    → truthy (d.extra flag_setdefault_armed) ≡ false
    → armed_cmd_task d.extra ≡ some task
    → let second = armed_lifecycle (take_reboot d) in
      (second.0 ≡ some (record (outcome cmd) { cmd_task = some task }))
      × ((armed_lifecycle second.1).0 ≡ none)
unfolding take_reboot clear_watchdog_counters
reboot-second d task kept stored =
    let rest = take_reboot d in
    rw (when_task rest task kept (reboot-unflagged d) (reboot-task d ∙ stored))
      (refl, idle_after rest kept (reboot-unflagged d))

-- A reboot does not consume a stored task: where both are armed and no reset is, the reboot is the
-- answer, the inform after it answers with the task as it was stored, and the one after that is not
-- answered with a command.
pub armed_lifecycle-reboot_then_task :
    (d : Device) (task : Fields)
    → truthy (d.extra flag_setdefault_armed) ≡ false
    → truthy (d.extra flag_reboot_on_connect) ≡ true
    → armed_cmd_task d.extra ≡ some task
    → let first = armed_lifecycle d in
      let second = armed_lifecycle first.1 in
      (first.0 ≡ some (outcome reboot))
      × (second.0 ≡ some (record (outcome cmd) { cmd_task = some task }))
      × ((armed_lifecycle second.1).0 ≡ none)
armed_lifecycle-reboot_then_task d task kept flag stored =
    let (answer, quiet) = reboot-second d task kept stored in
    rw (when_reboot d kept flag) (refl, answer, quiet)
