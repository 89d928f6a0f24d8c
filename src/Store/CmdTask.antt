-- ===== src/Store/CmdTask.antt =====
-- internal/store/cmdtask.go: the stored task, at most one for a device.
use Prim.Native.String.{String}
use open_unifi.Base.{Option, none, some, if◌then◌else◌}
use open_unifi.Base.Text.{str_eq}
use open_unifi.Store.Value.{
  Value, str, obj, Fields, end, field, get_field, JsonMap, put, as_string, or_empty,
}
use open_unifi.Store.Keys.{cmd_task_key}

unfoldable pub arm_cmd_task : String → String → JsonMap → JsonMap
arm_cmd_task mac cmd extra =
    put cmd_task_key (obj (field "cmd" (str cmd) (field "mac" (str mac) end))) extra

task_row : Option Value → Option Fields
task_row (some (obj row)) =
    if str_eq (or_empty (as_string (get_field "cmd" row))) "" then none else some row
task_row _ = none

-- The armed row; the copy that the Go function makes is the row itself here.
unfoldable pub armed_cmd_task : JsonMap → Option Fields
unfolding task_row
armed_cmd_task extra = task_row (extra cmd_task_key)

cmd_of : Option Fields → String
cmd_of none = ""
cmd_of (some row) = or_empty (as_string (get_field "cmd" row))

unfoldable pub cmd_task_cmd : JsonMap → String
unfolding cmd_of armed_cmd_task
cmd_task_cmd extra = cmd_of (armed_cmd_task extra)
