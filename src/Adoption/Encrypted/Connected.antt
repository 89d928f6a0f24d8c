-- ===== src/Adoption/Encrypted/Connected.antt =====
-- internal/server/adoption/engine.go: the arm of `decideEncrypted` for a device that runs the
-- version of its record, with both watchdogs.
use Prim.Native.String.{String}
use open_unifi.Base.{Bool, true, false, Option, none, some, List, [], ◌∷◌, ltb, if◌then◌else◌}
use open_unifi.Base.Text.{str_eq}
use open_unifi.Store.Value.{bool, put, truthy}
use open_unifi.Store.Keys.{flag_reboot_on_connect}
use open_unifi.Store.Device.{Device, state_adopted}
use open_unifi.Wireless.Plan.{ProvisioningPlan, missing_vaps}
use open_unifi.Wireless.Delivery.{
  DeliveryState, materialization_reboot_armed_for, set_materialization_reboot_armed,
  clear_materialization_reboot,
}
use open_unifi.Wireless.Delivery.Watch.{
  NotRunningClass, not_running_unknown, not_running_run, not_running_miss, not_running_evidence,
  record_not_running_miss, clear_not_running_misses, record_vap_not_running_miss,
  clear_vap_not_running_misses,
}
use open_unifi.Adoption.Types.{
  Deps, Request, Outcome, noop, noop_pending_wlan, M, ◌>>=◌, pure, key_chars,
}
use open_unifi.Adoption.Provision.{blocked_sta_reconnect_push}
use open_unifi.Adoption.Plain.{noop_answer}

-- `d.CfgVersion = nv` with a fresh version.
unfoldable pub mint : Deps → Device → M Device
mint D d = key_chars D 16 >>= (λ nv. pure (record d { cfg_version = nv }))

abbrev pub names_version : Option String → String → Bool
names_version none cv = false
names_version (some armed) cv = str_eq armed cv

module _ (D : Deps) (req : Request) (plan : ProvisioningPlan) where
  abbrev pub answer_noop : Device → M (Outcome × Device)
  answer_noop d = pure (noop_answer D req noop d, d)

  abbrev pub connected_noop : Device → M (Outcome × Device)
  connected_noop d =
      let d' = record d { state = state_adopted } in pure (noop_answer D req noop d', d')

  -- A planned devname is missing, no reboot is pending and none was armed for this version.
  unfoldable pub vap_miss : DeliveryState → Device → M (Outcome × Device)
  vap_miss st d =
      let (extra, misses) = record_vap_not_running_miss st.vap_not_running_misses d.extra in
      if ltb misses 2
      then connected_noop (record d { extra = extra })
      else answer_noop (record d {
        extra =
            set_materialization_reboot_armed d.cfg_version
              (put flag_reboot_on_connect (bool true) (clear_vap_not_running_misses extra));
      })

  -- The devname watchdog.
  unfoldable pub vap_watch : DeliveryState → List String → Device → M (Outcome × Device)
  unfolding vap_miss
  vap_watch st [] d =
      connected_noop
        (record d { extra = clear_materialization_reboot (clear_vap_not_running_misses d.extra) })
  vap_watch st (_ ∷ _) d =
      if truthy (d.extra flag_reboot_on_connect)
      then connected_noop d
      else if names_version (materialization_reboot_armed_for d.extra) d.cfg_version
      then connected_noop (record d { extra = clear_vap_not_running_misses d.extra })
      else vap_miss st d

  unfoldable pub ssid_miss : DeliveryState → Device → M (Outcome × Device)
  ssid_miss st d =
      let (extra, misses) = record_not_running_miss st.not_running_misses d.extra in
      if ltb misses 2
      then connected_noop (record d { extra = extra })
      else mint D (record d { extra = clear_not_running_misses extra }) >>= (λ d'. answer_noop d')

  -- The SSID watchdog.
  unfoldable pub watch : DeliveryState → NotRunningClass → Device → M (Outcome × Device)
  unfolding vap_watch ssid_miss
  watch st not_running_unknown d = connected_noop d
  watch st not_running_miss d = ssid_miss st d
  watch st not_running_run d =
      let d' = record d { extra = clear_not_running_misses d.extra } in
      vap_watch st (missing_vaps plan.vaps (d'.extra "vap_table")) d'

  unfoldable pub after_push : DeliveryState → Option Outcome × Device → M (Outcome × Device)
  unfolding watch
  after_push st (some out, d) = pure (out, record d { state = state_adopted })
  after_push st (none, d) = watch st (not_running_evidence D.formats d.extra) d

  unfoldable pub connected : DeliveryState → Device → M (Outcome × Device)
  unfolding after_push
  connected st d =
      if str_eq st.sha ""
      then mint D d >>= (λ d'. answer_noop d')
      else if st.pending_present
      then pure (noop_answer D req noop_pending_wlan d, d)
      else after_push st (blocked_sta_reconnect_push d)
