-- ===== src/Examples/Wireless.antt =====
-- The delivery bookkeeping at concrete rows.
use open_unifi.Store.Device.{Device}
use open_unifi.Base.{List, length, ◌≡◌, ◌↔◌, ◌⊎◌, refl, true, false, some, [], ◌∷◌}
use open_unifi.Store.Value.{Value, str, arr, obj, nil, cons, end, field, JsonMap, put, no_rows}
use open_unifi.Store.Keys.{wlan_cfg_sha_key, wlan_cfg_pending_sha_key, wlan_cfg_pending_wlans_key}
use open_unifi.Wireless.Stored.{as_stored, stored_record, decode_stored_wlans}
use open_unifi.Wireless.Wlan.{ssid_of}
use open_unifi.Wireless.Evidence.{read_vap_evidence}
use open_unifi.Wireless.Delivery.{DeliveryState, load_delivery_state, settles, settle}
use open_unifi.Wireless.Delivery.Settle.{IsProof, settles-IsProof, settle-sha}
use open_unifi.Wireless.Delivery.Retry.{offer, IsOffered, offer-IsOffered}
use open_unifi.Wireless.Delivery.Watch.{
  not_running_evidence, not_running_miss, Disproved, not_running_evidence-miss_iff,
}
use open_unifi.Wireless.Plan.{VapPlan, plan_vaps}
use open_unifi.Wireless.Plan.Counter.{IsCounted, plan_vaps-IsCounted}
use open_unifi.Examples.Data.{access_point, home, home_text, formats, reads_home}

-- A record with a pending delivery, whose one WLAN the table shows running.
abbrev table : Value
table = arr (
    cons
      (obj (field "essid" (str "home") (field "state" (str "RUN") (field "radio" (str "na") end))))
      nil)

abbrev pending : JsonMap
pending = put "vap_table" table (
    put wlan_cfg_pending_wlans_key (str home_text)
      (put wlan_cfg_pending_sha_key (str "new") no_rows))

abbrev state : DeliveryState
state = load_delivery_state formats pending

settles-found :
    settles (load_delivery_state formats pending) (read_vap_evidence (some table)) ≡ true
unfolding settles load_delivery_state read_vap_evidence decode_stored_wlans as_stored stored_record
    ssid_of
settles-found = refl

settles-IsProof_example :
    IsProof (load_delivery_state formats pending) (read_vap_evidence (some table))
settles-IsProof_example =
    settles-IsProof (load_delivery_state formats pending) (read_vap_evidence (some table))
      settles-found

settle-sha_example :
    let st = load_delivery_state formats pending in
    ((settle st "v1" pending ≡ (pending, st)))
    ⊎ (IsProof st (read_vap_evidence (pending "vap_table"))
        × ((settle st "v1" pending).1.sha ≡ st.pending_sha)
        × ((settle st "v1" pending).1.pending_present ≡ false)
        × ((settle st "v1" pending).0 wlan_cfg_sha_key ≡ some (str st.pending_sha)))
settle-sha_example = settle-sha formats pending "v1"

offer-IsOffered_example :
    let st = load_delivery_state formats pending in
    IsOffered st "new" "v2" 1000
      (home ∷ [])
      (load_delivery_state formats (offer formats "new" 1000 (home ∷ []) [] "v2" st pending))
offer-IsOffered_example = offer-IsOffered formats "new" 1000 (home ∷ []) [] "v2" pending reads_home

not_running_evidence-miss_iff_example :
    (not_running_evidence formats pending ≡ not_running_miss) ↔ Disproved formats pending
not_running_evidence-miss_iff_example = not_running_evidence-miss_iff formats pending

abbrev planned : List VapPlan
planned =
    record { wlan = home; id = "0"; radio_n = 1; phyname = "wifi0"; ath_n = 0; vid = 10 }
    ∷ record { wlan = home; id = "0"; radio_n = 2; phyname = "wifi1"; ath_n = 1; vid = 10 }
    ∷ []

-- A device with a radio on each band.
abbrev two_radios : Device
two_radios = record access_point {
  extra =
      put "radio_table"
        (arr (
          cons (obj (field "name" (str "wifi0") (field "radio" (str "ng") end)))
            (cons (obj (field "name" (str "wifi1") (field "radio" (str "na") end))) nil)))
        no_rows;
}

plan_vaps-IsCounted_example : IsCounted 0 (plan_vaps (λ s. s) two_radios (home ∷ []))
plan_vaps-IsCounted_example = plan_vaps-IsCounted (λ s. s) two_radios (home ∷ [])

two_vaps : length (plan_vaps (λ s. s) two_radios (home ∷ [])) ≡ 2
unfolding plan_vaps
two_vaps = refl
