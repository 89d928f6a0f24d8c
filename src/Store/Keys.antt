-- ===== src/Store/Keys.antt =====
-- internal/store/trustpolicy.go, sessions.go, blockedsta.go, cmdtask.go: the names of the rows, and
-- the lists that class them.
use Prim.Native.String.{String}
use mathlib.Core.List.{List, [], ◌∷◌, ◌++◌}
use open_unifi.Base.{if◌then◌else◌}
use open_unifi.Base.Text.{str_eq}

abbrev pub wlan_cfg_sha_key : String
wlan_cfg_sha_key = "wlan_cfg_sha"

abbrev pub wlan_cfg_pending_sha_key : String
wlan_cfg_pending_sha_key = "wlan_cfg_pending_sha"

abbrev pub wlan_cfg_pending_wlans_key : String
wlan_cfg_pending_wlans_key = "wlan_cfg_pending_wlans"

abbrev pub wlan_cfg_pending_old_wlans_key : String
wlan_cfg_pending_old_wlans_key = "wlan_cfg_pending_old_wlans"

abbrev pub wlan_cfg_applied_wlans_key : String
wlan_cfg_applied_wlans_key = "wlan_cfg_applied_wlans"

abbrev pub wlan_cfg_pending_placements_key : String
wlan_cfg_pending_placements_key = "wlan_cfg_pending_placements"

abbrev pub wlan_cfg_attempt_sha_key : String
wlan_cfg_attempt_sha_key = "wlan_cfg_attempt_sha"

abbrev pub wlan_cfg_attempts_key : String
wlan_cfg_attempts_key = "wlan_cfg_attempts"

abbrev pub wlan_cfg_last_attempt_key : String
wlan_cfg_last_attempt_key = "wlan_cfg_last_attempt"

abbrev pub wlan_cfg_delivery_status_key : String
wlan_cfg_delivery_status_key = "wlan_cfg_delivery_status"

abbrev pub wlan_cfg_not_running_misses_key : String
wlan_cfg_not_running_misses_key = "wlan_cfg_not_running_misses"

abbrev pub wlan_cfg_offered_cfgversion_key : String
wlan_cfg_offered_cfgversion_key = "wlan_cfg_offered_cfgversion"

abbrev pub wlan_cfg_vap_not_running_misses_key : String
wlan_cfg_vap_not_running_misses_key = "wlan_cfg_vap_not_running_misses"

abbrev pub wlan_cfg_materialization_reboot_key : String
wlan_cfg_materialization_reboot_key = "wlan_cfg_materialization_reboot"

abbrev pub sessions_extra_key : String
sessions_extra_key = "client_sessions"

abbrev pub session_disconnect_event_extra_key : String
session_disconnect_event_extra_key = "client_disconnect_pending"

abbrev pub blocked_sta_extra_key : String
blocked_sta_extra_key = "blocked_sta"

abbrev pub blocked_sta_sha_extra_key : String
blocked_sta_sha_extra_key = "blocked_sta_sha"

abbrev pub cmd_task_key : String
cmd_task_key = "cmd_task"

abbrev pub flag_reboot_on_connect : String
flag_reboot_on_connect = "reboot_on_connect"

abbrev pub flag_setdefault_armed : String
flag_setdefault_armed = "setdefault_armed"

abbrev pub ssh_sha512_passwd_key : String
ssh_sha512_passwd_key = "ssh_sha512passwd"

abbrev pub ssh_md5_passwd_key : String
ssh_md5_passwd_key = "ssh_md5passwd"

abbrev pub system_cfg_extra_lines_key : String
system_cfg_extra_lines_key = "system_cfg_extra_lines"

abbrev pub mgmt_dev_key : String
mgmt_dev_key = "mgmt_dev"

abbrev pub anonymous_controller_id_key : String
anonymous_controller_id_key = "anonymous_controller_id"

abbrev pub anonymous_site_id_key : String
anonymous_site_id_key = "anonymous_site_id"

abbrev pub radio_intent_extra_key : String
radio_intent_extra_key = "radio_intent"

abbrev pub device_wlans_extra_key : String
device_wlans_extra_key = "device_wlans"

abbrev pub controller_owned_keys : List String
controller_owned_keys =
    wlan_cfg_sha_key ∷ wlan_cfg_pending_sha_key ∷ wlan_cfg_pending_wlans_key
    ∷ wlan_cfg_pending_old_wlans_key ∷ wlan_cfg_applied_wlans_key ∷ wlan_cfg_pending_placements_key
    ∷ wlan_cfg_attempt_sha_key ∷ wlan_cfg_attempts_key ∷ wlan_cfg_last_attempt_key
    ∷ wlan_cfg_delivery_status_key ∷ wlan_cfg_not_running_misses_key
    ∷ wlan_cfg_offered_cfgversion_key ∷ sessions_extra_key ∷ session_disconnect_event_extra_key ∷ []

abbrev pub device_refreshable_keys : List String
device_refreshable_keys =
    "radio_table" ∷ "wifi_caps" ∷ "fw_caps" ∷ "if_table" ∷ "ethernet_table" ∷ "uplink" ∷ "has_eth1"
    ∷ []

abbrev pub admin_owned_keys : List String
admin_owned_keys =
    system_cfg_extra_lines_key ∷ mgmt_dev_key ∷ anonymous_controller_id_key ∷ anonymous_site_id_key
    ∷ flag_reboot_on_connect ∷ flag_setdefault_armed ∷ blocked_sta_extra_key
    ∷ blocked_sta_sha_extra_key ∷ wlan_cfg_vap_not_running_misses_key
    ∷ wlan_cfg_materialization_reboot_key ∷ ssh_sha512_passwd_key ∷ ssh_md5_passwd_key
    ∷ "led_override" ∷ "disabled" ∷ "led_override_color_brightness" ∷ "led_override_color"
    ∷ "ssh_password" ∷ "regulatory_country_code" ∷ "ssh_public_keys" ∷ radio_intent_extra_key
    ∷ device_wlans_extra_key ∷ cmd_task_key ∷ []

unfoldable pub exclude_key : List String → String → List String
exclude_key [] skip = []
exclude_key (k ∷ ks) skip = if str_eq k skip then exclude_key ks skip else k ∷ exclude_key ks skip

unfoldable pub factory_reset_sweep_keys : List String
unfolding exclude_key
factory_reset_sweep_keys =
    exclude_key controller_owned_keys ssh_sha512_passwd_key
    ++ (wlan_cfg_vap_not_running_misses_key ∷ wlan_cfg_materialization_reboot_key ∷ [])
