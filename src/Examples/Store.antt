-- ===== src/Examples/Store.antt =====
-- The trust policy at a concrete body.
use open_unifi.Base.{◌≡◌, refl, true, none}
use open_unifi.Store.Value.{JsonMap, bool, str, put, no_rows}
use open_unifi.Store.Keys.{flag_reboot_on_connect, flag_setdefault_armed}
use open_unifi.Store.Device.{Device}
use open_unifi.Store.TrustPolicy.{absorb}
use open_unifi.Store.TrustPolicy.Classes.{policy, absorb-policy}
use open_unifi.Store.Value.{arr, cons, nil}
use open_unifi.Base.{Bool, some}
use open_unifi.Store.Keys.{blocked_sta_extra_key}
use open_unifi.Store.Mac.{canonical_mac}
use open_unifi.Store.Blocked.{add_blocked_client, remove_blocked_client}
use open_unifi.Store.Blocked.Members.{
  HasAdded, HasRemoved, add_blocked_client-HasAdded, remove_blocked_client-HasRemoved,
}
use open_unifi.Examples.Data.{access_point}

-- A record with an armed reboot, and a body that would arm a factory reset.
abbrev armed : Device
armed = record access_point { extra = put flag_reboot_on_connect (bool true) no_rows }

abbrev forged : JsonMap
forged = put flag_setdefault_armed (bool true) (put "ip" (str "192.0.2.9") no_rows)

absorb-policy_example :
    (absorb forged 1000 true armed).extra flag_setdefault_armed
    ≡ policy flag_setdefault_armed
        (armed.extra flag_setdefault_armed)
        (forged flag_setdefault_armed)
absorb-policy_example = absorb-policy armed forged 1000 true flag_setdefault_armed

refused :
    policy flag_setdefault_armed (armed.extra flag_setdefault_armed) (forged flag_setdefault_armed)
    ≡ none
refused = refl

-- A record with one blocked client.
abbrev blocked : JsonMap
blocked = put blocked_sta_extra_key (arr (cons (str "aabbccddeeff") nil)) no_rows

canonical : canonical_mac "11-22-33-44-55-66" ≡ some "112233445566"
unfolding canonical_mac
canonical = refl

add_blocked_client-HasAdded_example :
    (r : JsonMap × Bool) × (add_blocked_client "11-22-33-44-55-66" blocked ≡ some r)
    × HasAdded "112233445566" blocked r
add_blocked_client-HasAdded_example =
    add_blocked_client-HasAdded "11-22-33-44-55-66" "112233445566" blocked canonical

remove_blocked_client-HasRemoved_example :
    (r : JsonMap × Bool) × (remove_blocked_client "11-22-33-44-55-66" blocked ≡ some r)
    × HasRemoved "112233445566" blocked r
remove_blocked_client-HasRemoved_example =
    remove_blocked_client-HasRemoved "11-22-33-44-55-66" "112233445566" blocked canonical
