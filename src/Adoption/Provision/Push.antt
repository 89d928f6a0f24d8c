-- ===== src/Adoption/Provision/Push.antt =====
-- What a full provisioning leaves for the next inform.
use Prim.Native.String.{String}
use text.Mathlib.TextPositions.{eq_refl}
use open_unifi.Base.{ℕ, true, false, List, map, ◌≡◌, refl, sym, subst}
use open_unifi.Store.Value.{JsonMap, truthy}
use open_unifi.Store.Keys.{blocked_sta_extra_key, session_disconnect_event_extra_key}
use open_unifi.Store.Device.{Device}
use open_unifi.Store.Blocked.{blocked_clients}
use open_unifi.Wireless.Wlan.{Wlan}
use open_unifi.Wireless.Stored.{ReadsStored, stored_record}
use open_unifi.Wireless.Plan.{ProvisioningPlan}
use open_unifi.Wireless.Delivery.{load_delivery_state}
use open_unifi.Wireless.Delivery.Retry.{offer, offer-blocked, IsOffered, offer-IsOffered}
use open_unifi.Adoption.Types.{Deps, Outcome, setparam}
use open_unifi.Adoption.Provision.{
  blocked_sta_wire, blocked_sta_drift, stamp_blocked_sta, consume_session_disconnect_event, drifts,
  offered_rows, full_push,
}

wire-row :
    (e e' : JsonMap)
    → e blocked_sta_extra_key ≡ e' blocked_sta_extra_key
    → blocked_sta_wire e ≡ blocked_sta_wire e'
unfolding blocked_sta_wire blocked_clients
wire-row e e' h = rw h

-- The rows of the record after the push: the baseline is stamped and the event is consumed.
abbrev closed : Deps → JsonMap → JsonMap
closed D e = consume_session_disconnect_event (stamp_blocked_sta D (blocked_sta_wire e) e)

closed-drift : (D : Deps) (e : JsonMap) → blocked_sta_drift D (closed D e) ≡ false
unfolding blocked_sta_drift drifts consume_session_disconnect_event stamp_blocked_sta
closed-drift D e = rw (wire-row (closed D e) e refl, eq_refl)

closed-quiet :
    (D : Deps) (e : JsonMap) → truthy (closed D e session_disconnect_event_extra_key) ≡ false
unfolding consume_session_disconnect_event
closed-quiet D e = refl

closed-view :
    (D : Deps) (e : JsonMap)
    → load_delivery_state D.formats (closed D e) ≡ load_delivery_state D.formats e
unfolding load_delivery_state consume_session_disconnect_event stamp_blocked_sta
closed-view D e = refl

-- What the push `out` and the record after it promise of the record `d`.
abbrev pub IsPushed : Deps → ℕ → List Wlan → ProvisioningPlan → Device → Outcome × Device → Type 0
IsPushed D now wls plan d (out, after) =
    (out.kind ≡ setparam)
    × (out.full_provision ≡ true)
    × (out.cfg_version ≡ after.cfg_version)
    × (blocked_sta_drift D after.extra ≡ false)
    × (truthy (after.extra session_disconnect_event_extra_key) ≡ false)
    × (out.blocked_sta ≡ blocked_sta_wire d.extra)
    × IsOffered (load_delivery_state D.formats d.extra) plan.drift_hash out.cfg_version now wls
        (load_delivery_state D.formats after.extra)

-- A full provisioning answers with a full setparam under the version of the record; the next inform
-- finds the WLAN list pending under that version, no drift of the blocked clients and no disconnect
-- event, so that none of them asks for a fresh version again; and the push carries the blocked set
-- of the record. The condition is that encoding/json reads the stored list that it wrote.
pub full_push-IsPushed :
    (D : Deps) (now : ℕ) (wls : List Wlan) (plan : ProvisioningPlan) (d : Device)
    (r : String × List (String × String))
    → ReadsStored D.formats.wlans (map stored_record wls)
    → IsPushed D now wls plan d (full_push D now wls plan d r)
unfolding full_push offered_rows
full_push-IsPushed D now wls plan d (text, credentials) law =
    let st = load_delivery_state D.formats d.extra in
    let offered =
      offer D.formats plan.drift_hash now wls plan.placements d.cfg_version st d.extra in
    (
      refl,
      refl,
      refl,
      closed-drift D offered,
      closed-quiet D offered,
      wire-row offered d.extra (
          offer-blocked D.formats plan.drift_hash now wls plan.placements d.cfg_version st d.extra),
      subst (λ v. IsOffered st plan.drift_hash d.cfg_version now wls v)
          (sym (closed-view D offered))
          (offer-IsOffered D.formats plan.drift_hash now wls plan.placements d.cfg_version d.extra
            law),
    )
