-- ===== src/Adoption/Lifecycle.antt =====
-- internal/server/adoption/engine.go: `armedLifecycle`, the commands that an administrator arms and
-- that the next status inform answers with, once. The record is passed in and returned.
pub mod OneShot
use open_unifi.Base.{ℕ, Bool, true, false, Option, none, some, List, [], if◌then◌else◌}
use open_unifi.Store.Value.{JsonMap, Fields, erase, erase_all, truthy}
use open_unifi.Store.Keys.{
  cmd_task_key, flag_reboot_on_connect, flag_setdefault_armed, factory_reset_sweep_keys,
}
use open_unifi.Store.Device.{Device, state_pending}
use open_unifi.Store.CmdTask.{armed_cmd_task}
use open_unifi.Wireless.Delivery.Watch.{clear_watchdog_counters}
use open_unifi.Adoption.Types.{Outcome, Kind, setdefault, reboot, cmd, outcome}

-- The demotion to a pending candidate that goes with the factory reset.
unfoldable pub demote : Device → Device
demote d = record d {
  state = state_pending;
  x_authkey = "";
  cfg_version = "";
  applied_cfg = "";
  authkeys = [];
  key_confirmed = false;
  extra = erase cmd_task_key (
      erase flag_reboot_on_connect
        (erase flag_setdefault_armed (erase_all factory_reset_sweep_keys d.extra)));
}

unfoldable pub take_reboot : Device → Device
take_reboot d = record d { extra = clear_watchdog_counters (erase flag_reboot_on_connect d.extra) }

-- The last link of the chain: the stored task, if there is one.
unfoldable pub replay : Option Fields → Device → Option Outcome × Device
replay none d = (none, d)
replay (some task) d = (
  some (record (outcome cmd) { cmd_task = some task }),
  record d { extra = erase cmd_task_key d.extra },
)

-- `none` is the Go result false.
unfoldable pub armed_lifecycle : Device → Option Outcome × Device
unfolding demote take_reboot replay
armed_lifecycle d =
    if truthy (d.extra flag_setdefault_armed)
    then (some (outcome setdefault), demote d)
    else if truthy (d.extra flag_reboot_on_connect)
    then (some (outcome reboot), take_reboot d)
    else replay (armed_cmd_task d.extra) d
