-- ===== src/Examples/Adoption.antt =====
-- Decisions on a concrete device.
use Prim.Native.String.{String}
use open_unifi.Base.{inr, ◌≡◌, ◌↔◌, refl, true, false, none, some, [], ◌∷◌, arith}
use open_unifi.Base.Results.{ok, err}
use open_unifi.Base.Text.{equal_fold}
use open_unifi.Store.Value.{Fields, end, field, str, obj, bool, put, no_rows}
use open_unifi.Store.Keys.{flag_reboot_on_connect, flag_setdefault_armed, cmd_task_key}
use open_unifi.Store.Device.{Device}
use open_unifi.Wireless.Plan.{plan_provisioning}
use open_unifi.Adoption.Types.{
  Request, encrypted, plaintext, reboot, cmd, Outcome, noop, setdefault, outcome,
  default_key_rejected, default_key_hex,
}
use open_unifi.Adoption.Noop.{noop_for}
use open_unifi.Adoption.Noop.Bounds.{Scheduled, noop_for-Scheduled}
use open_unifi.Adoption.Lifecycle.{armed_lifecycle}
use open_unifi.Adoption.Lifecycle.OneShot.{
  IsDemoted, armed_lifecycle-reboot_then_task, armed_lifecycle-setdefault,
}
use open_unifi.Adoption.Provision.{rotate_keys}
use open_unifi.Adoption.Provision.Keys.{IsRotated, rotate_keys-IsRotated}
use open_unifi.Adoption.Plain.{claims, inform_type_gentle_noop, request_type}
use open_unifi.Adoption.Plain.Claim.{Harmless}
use open_unifi.Adoption.Encrypted.{rejects_default_key}
use open_unifi.Adoption.Decide.{decide, deltas}
use open_unifi.Adoption.Decide.Unclaimed.{stamped, decide-unclaimed}
use open_unifi.Store.CmdTask.{armed_cmd_task}
use open_unifi.Adoption.Decide.Gate.{
  Locked, IsRecovered, decide-rejected_iff, decide-setdefault_recovers,
}
use open_unifi.Adoption.Provision.{full_push}
use open_unifi.Adoption.Provision.Push.{IsPushed, full_push-IsPushed}
use open_unifi.Adoption.Decide.Keys.{decide-KeepsKeys}
use open_unifi.Adoption.Decide.Keys.Steps.{Post, KeepsKeys}
use open_unifi.Examples.Data.{
  reads_home, hundredths, hundredths-IsLawful, access_point, deps, request_of, home,
}

abbrev own_key : String
own_key = "0123456789abcdef0123456789abcdef"

noop_for-Scheduled_example :
    Scheduled hundredths hundredths-IsLawful 1000 1080
      (noop_for hundredths 50 access_point 1000 1080 noop)
noop_for-Scheduled_example =
    noop_for-Scheduled hundredths hundredths-IsLawful 50 access_point 1000 1080 noop

abbrev to_reset : Device
to_reset = record access_point {
  extra = put flag_setdefault_armed (bool true) (put flag_reboot_on_connect (bool true) no_rows);
}

abbrev task : Fields
task = field "cmd" (str "restart") (field "mac" (str "aabbccddeeff") end)

abbrev to_reboot : Device
to_reboot = record access_point {
  extra = put cmd_task_key (obj task) (put flag_reboot_on_connect (bool true) no_rows);
}

to_reboot-task : armed_cmd_task to_reboot.extra ≡ some task
unfolding armed_cmd_task
to_reboot-task = refl

armed_lifecycle-reboot_then_task_example :
    let first = armed_lifecycle to_reboot in
    let second = armed_lifecycle first.1 in
    (first.0 ≡ some (outcome reboot))
    × (second.0 ≡ some (record (outcome cmd) { cmd_task = some task }))
    × ((armed_lifecycle second.1).0 ≡ none)
armed_lifecycle-reboot_then_task_example =
    armed_lifecycle-reboot_then_task to_reboot task refl refl to_reboot-task

armed_lifecycle-setdefault_example :
    ((armed_lifecycle to_reset).0 ≡ some (outcome setdefault))
    × IsDemoted to_reset (armed_lifecycle to_reset).1
armed_lifecycle-setdefault_example = armed_lifecycle-setdefault to_reset refl

rotate_keys-IsRotated_example :
    (after : Device) × (rotate_keys deps access_point 0 ≡ ok (after, 2))
    × IsRotated access_point "fedcba9876543210fedcba9876543210" "fedcba9876543210" after
rotate_keys-IsRotated_example =
    rotate_keys-IsRotated deps access_point 0 "fedcba9876543210fedcba9876543210" "fedcba9876543210"
      refl refl (omega arith)

abbrev forged : Request
forged = record (request_of to_reset default_key_hex) { transport = plaintext }

forged-unclaimed : claims to_reset default_key_hex ≡ false
unfolding equal_fold
forged-unclaimed = refl

decide-unclaimed_example :
    let wls = deps.wireless forged.device in
    let plan = plan_provisioning deps.sha256_24 deps.hash_rows forged.device wls in
    (out : Outcome) × (decide deps forged 0
      ≡ ok ((deltas forged.device (stamped forged) out, stamped forged), 0))
    × Harmless deps forged wls plan forged.device out
decide-unclaimed_example = decide-unclaimed deps forged 0 refl forged-unclaimed

decide-rejected_iff_example :
    (decide deps (request_of to_reset default_key_hex) 0 ≡ err default_key_rejected)
    ↔ ((encrypted ≡ encrypted) × Locked to_reset default_key_hex)
decide-rejected_iff_example = decide-rejected_iff deps (request_of to_reset default_key_hex) 0

own_key-admitted : rejects_default_key to_reset own_key ≡ false
unfolding rejects_default_key equal_fold
own_key-admitted = refl

status-not_gentle : inform_type_gentle_noop (request_type (request_of to_reset own_key)) ≡ false
unfolding inform_type_gentle_noop request_type
status-not_gentle = refl

decide-setdefault_recovers_example :
    (r : Outcome × Device) × (decide deps (request_of to_reset own_key) 0 ≡ ok (r, 0))
    × IsRecovered (request_of to_reset own_key) r
decide-setdefault_recovers_example =
    decide-setdefault_recovers deps (request_of to_reset own_key) 0 refl own_key-admitted
      status-not_gentle refl

decide-KeepsKeys_example : Post (KeepsKeys to_reset) (decide deps (request_of to_reset own_key) 0)
decide-KeepsKeys_example = decide-KeepsKeys deps (request_of to_reset own_key) 0 (inr refl)

full_push-IsPushed_example :
    let plan = plan_provisioning deps.sha256_24 deps.hash_rows access_point (home ∷ []) in
    IsPushed deps 1000
      (home ∷ [])
      plan
      access_point
      (full_push deps 1000 (home ∷ []) plan access_point ("sshd.status=enabled\n", []))
full_push-IsPushed_example =
    full_push-IsPushed deps 1000 (home ∷ [])
      (plan_provisioning deps.sha256_24 deps.hash_rows access_point (home ∷ [])) access_point
      ("sshd.status=enabled\n", []) reads_home
