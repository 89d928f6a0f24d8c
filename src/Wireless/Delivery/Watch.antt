-- ===== src/Wireless/Delivery/Watch.antt =====
-- internal/wireless/delivery_state.go: the watchdogs' reading of the table (`NotRunningEvidence`),
-- their miss counters, and the admin view (`RuntimeInSync`).
use Prim.Native.String.{String}
use mathlib.Core.Option.{some-injective}
use open_unifi.Base.{
  ℕ, ◌+◌, ◌≡◌, ◌↔◌, ◌⊎◌, inl, inr, refl, subst, Bool, true, false, not, ◌&&◌, ◌||◌, Option, none,
  some, List, [], ◌∷◌, ltb, ◌==◌, length, if◌then◌else◌, arith, Bool-cases, ◌≢◌, false-ne-true,
}
use open_unifi.Base.Text.{str_eq}
use open_unifi.Store.Value.{int, JsonMap, put, erase, as_string, or_empty}
use open_unifi.Store.Keys.{
  wlan_cfg_applied_wlans_key, wlan_cfg_not_running_misses_key, wlan_cfg_vap_not_running_misses_key,
}
use open_unifi.Wireless.Wlan.{Wlan, ssid_of}
use open_unifi.Wireless.Stored.{decode_stored_wlans}
use open_unifi.Wireless.Evidence.{
  VapRun, VapEvidence, read_vap_evidence, is_known, runs_ssid, ssid_running,
}
use open_unifi.Wireless.Delivery.{Formats, load_delivery_state}

pub data NotRunningClass : Type 0 where
  not_running_unknown not_running_run not_running_miss : NotRunningClass

-- `need`: the SSIDs of the enabled WLANs.
unfoldable pub enabled_ssids : List Wlan → List String
enabled_ssids [] = []
enabled_ssids (w ∷ ws) = let rest = enabled_ssids ws in if w.enabled then ssid_of w ∷ rest else rest

-- What `delete(need, r.SSID)` over the running rows leaves of `need`.
unfoldable pub silent : List VapRun → List String → List String
silent runs [] = []
silent runs (s ∷ ss) = let rest = silent runs ss in if runs_ssid s runs then rest else s ∷ rest

classify : List VapRun → List String → NotRunningClass
classify runs need =
    if length need == 0
    then not_running_unknown
    else if ltb 0 (length (silent runs need))
    then not_running_miss
    else not_running_run

-- The WLANs of the applied row, if it is a text that is not empty and decodes.
unfoldable pub applied_wlans : Formats → JsonMap → Option (List Wlan)
applied_wlans F extra =
    let raw = or_empty (as_string (extra wlan_cfg_applied_wlans_key)) in
    if str_eq raw "" then none else decode_stored_wlans F.wlans raw

class_of : List VapRun → Option (List Wlan) → NotRunningClass
class_of runs none = not_running_unknown
class_of runs (some ws) = classify runs (enabled_ssids ws)

unfoldable pub not_running_evidence : Formats → JsonMap → NotRunningClass
unfolding enabled_ssids silent classify class_of applied_wlans
not_running_evidence F extra =
    let ev = read_vap_evidence (extra "vap_table") in
    if is_known ev then class_of ev.running (applied_wlans F extra) else not_running_unknown

-- The counters, each with the map's row: `RecordNotRunningMiss` and its three companions.
unfoldable pub record_not_running_miss : ℕ → JsonMap → JsonMap × ℕ
record_not_running_miss misses extra =
    (put wlan_cfg_not_running_misses_key (int (misses + 1)) extra, misses + 1)

unfoldable pub clear_not_running_misses : JsonMap → JsonMap
clear_not_running_misses = erase wlan_cfg_not_running_misses_key

unfoldable pub record_vap_not_running_miss : ℕ → JsonMap → JsonMap × ℕ
record_vap_not_running_miss misses extra =
    (put wlan_cfg_vap_not_running_misses_key (int (misses + 1)) extra, misses + 1)

unfoldable pub clear_vap_not_running_misses : JsonMap → JsonMap
clear_vap_not_running_misses = erase wlan_cfg_vap_not_running_misses_key

unfoldable pub clear_watchdog_counters : JsonMap → JsonMap
clear_watchdog_counters extra =
    erase wlan_cfg_vap_not_running_misses_key (erase wlan_cfg_not_running_misses_key extra)

-- `want[w.SSID] = true`
wanted : List Wlan → List String
wanted [] = []
wanted (w ∷ ws) = let rest = wanted ws in if w.enabled then w.ssid ∷ rest else rest

all_running : VapEvidence → List String → Bool
all_running ev [] = true
all_running ev (s ∷ ss) = ssid_running ev s && all_running ev ss

-- `nil`, or the answer.
unfoldable pub runtime_in_sync : Formats → JsonMap → List Wlan → Option Bool
unfolding wanted all_running
runtime_in_sync F extra desired =
    let ev = read_vap_evidence (extra "vap_table") in
    if (load_delivery_state F extra).pending_present
    then some false
    else if not (is_known ev) || length (wanted desired) == 0
    then none
    else some (all_running ev (wanted desired))

-- Every enabled WLAN of the list has a running VAP.
abbrev pub AllRun : List VapRun → List Wlan → Type 0
AllRun runs [] = Unit {0}
AllRun runs (w ∷ ws) = ((w.enabled ≡ false) ⊎ (runs_ssid (ssid_of w) runs ≡ true)) × AllRun runs ws

neither : ¬ ((true ≡ false) ⊎ (false ≡ true))
neither (inl h) = cc
neither (inr h) = cc

silent-AllRun :
    (runs : List VapRun) (ws : List Wlan)
    → (length (silent runs (enabled_ssids ws)) ≡ 0) ↔ AllRun runs ws
unfolding silent enabled_ssids ssid_of
silent-AllRun runs [] = (λ h. tt, λ h. refl)
silent-AllRun runs (w ∷ ws) =
    let ih = silent-AllRun runs ws in
    elim (Bool-cases w.enabled) [
      | inr off ↦ rw off (λ h. (inl refl, ih.0 h), λ h. ih.1 h.1)
      | inl on ↦ elim (Bool-cases (runs_ssid (ssid_of w) runs)) [
        | inl up ↦ rw (on, up) (λ h. (inr refl, ih.0 h), λ h. ih.1 h.1)
        | inr down ↦ rw (on, down) (λ h. absurd (omega arith), λ h. absurd (neither h.0))
      ]
    ]

silent-nil :
    (runs : List VapRun) (need : List String) → length need ≡ 0 → length (silent runs need) ≡ 0
unfolding silent
silent-nil runs [] h = refl
silent-nil runs (s ∷ ss) h = absurd (omega arith)

classify-miss_iff :
    (runs : List VapRun) (need : List String)
    → (classify runs need ≡ not_running_miss) ↔ (length (silent runs need) ≢ 0)
unfolding classify
classify-miss_iff runs need = (λ h. ground arith, λ h. ground (arith, silent-nil runs need))

class_of-miss_iff :
    (runs : List VapRun) (o : Option (List Wlan))
    → (class_of runs o ≡ not_running_miss) ↔ ((ws : List Wlan) × (o ≡ some ws) × ¬ AllRun runs ws)
unfolding class_of
class_of-miss_iff runs none = (λ h. cc, λ (ws, e, h). cc)
class_of-miss_iff runs (some ws) =
    let both = classify-miss_iff runs (enabled_ssids ws) in
    let gone = silent-AllRun runs ws in
    (
      λ h. (ws, refl, λ all. both.0 h (gone.1 all)),
      λ (ws', e, h). both.1 (λ z. h (subst (AllRun runs) (some-injective ws ws' e) (gone.0 z))),
    )

module _ (F : Formats) (extra : JsonMap) where
  -- The applied WLANs, as the record keeps them, and the table shows one of them not running.
  abbrev pub Disproved : Type 0
  Disproved =
      let ev = read_vap_evidence (extra "vap_table") in
      (is_known ev ≡ true)
      × ((ws : List Wlan) × (applied_wlans F extra ≡ some ws) × ¬ AllRun ev.running ws)

  -- The watchdog counts a miss exactly when a table with rows disproves the applied set: it decodes
  -- and one of its enabled WLANs has no running VAP. Absent, empty and undecodable say nothing.
  pub not_running_evidence-miss_iff : (not_running_evidence F extra ≡ not_running_miss) ↔ Disproved
  unfolding not_running_evidence
  not_running_evidence-miss_iff =
      let ev = read_vap_evidence (extra "vap_table") in
      let both = class_of-miss_iff ev.running (applied_wlans F extra) in
      elim (Bool-cases (is_known ev)) [
        | inl known ↦ rw known (λ h. (refl, both.0 h), λ h. both.1 h.1)
        | inr unknown ↦ rw unknown (λ h. cc, λ h. absurd (false-ne-true h.0))
      ]
