-- ===== src/Wireless/Delivery/Retry.antt =====
-- internal/wireless/delivery_state.go: the retry budget (`RetryDue`) and the bookkeeping of one
-- delivery attempt (`Offer`).
use Prim.Native.String.{String}
use open_unifi.Base.{
  ℕ, zero, suc, ◌+◌, ◌-◌, ◌*◌, ◌^◌, ◌≤◌, ◌<◌, ◌≡◌, ◌⊎◌, refl, ap, ◌∙◌, Bool, true, false, ◌||◌,
  Option, none, some, List, map, ltb, leb, ◌==◌, if◌then◌else◌, arith,
}
use open_unifi.Base.Text.{str_eq}
use open_unifi.Store.Value.{Value, str, int, int64, JsonMap, put, as_string, or_empty}
use open_unifi.Store.Keys.{
  wlan_cfg_sha_key, blocked_sta_extra_key, wlan_cfg_pending_sha_key, wlan_cfg_pending_wlans_key,
  wlan_cfg_pending_old_wlans_key, wlan_cfg_pending_placements_key, wlan_cfg_attempt_sha_key,
  wlan_cfg_attempts_key, wlan_cfg_last_attempt_key, wlan_cfg_delivery_status_key,
  wlan_cfg_offered_cfgversion_key,
}
use open_unifi.Wireless.Wlan.{Wlan}
use open_unifi.Wireless.Plan.{Placements}
use native.Mathlib.Nat.{pow-suc}
use open_unifi.Wireless.Stored.{encode_stored_wlans, ReadsStored, stored_record}
use open_unifi.Wireless.Stored.RoundTrip.{decode_stored_wlans-encode}
use open_unifi.Wireless.Delivery.{
  Formats, DeliveryState, load_delivery_state, is_present, count_row, time_row, or_none, wlans_row,
}

abbrev pub wlan_retry_base : ℕ
wlan_retry_base = 2

abbrev pub wlan_retry_max : ℕ
wlan_retry_max = 60

abbrev pub wlan_max_attempts : ℕ
wlan_max_attempts = 6

-- The delay in seconds. `n - 1` stops at 0, as `max(0, n-1)` does.
unfoldable pub retry_delay : ℕ → ℕ
retry_delay attempts =
    let delay = wlan_retry_base * 2 ^ (attempts - 1) in
    if ltb wlan_retry_max delay then wlan_retry_max else delay

unfoldable pub retry_due : DeliveryState → ℕ → JsonMap → JsonMap × Bool
unfolding retry_delay
retry_due st now extra =
    if leb wlan_max_attempts st.attempts
    then (put wlan_cfg_delivery_status_key (str "exhausted") extra, false)
    else (extra, st.last_attempt == 0 || leb (st.last_attempt + retry_delay st.attempts) now)

-- The same on the state that the map holds.
unfoldable pub wlan_retry_due : Formats → JsonMap → ℕ → JsonMap × Bool
unfolding retry_due
wlan_retry_due F extra now = retry_due (load_delivery_state F extra) now extra

keep_applied : Option Value → JsonMap → JsonMap
keep_applied none extra = extra
keep_applied (some v) extra = put wlan_cfg_pending_old_wlans_key v extra

-- Replacing the hash starts a fresh budget, and offering the same one again spends of it.
count_attempt : Bool → String → ℕ → JsonMap → JsonMap
count_attempt true cur n extra = put wlan_cfg_attempts_key (int (n + 1)) extra
count_attempt false cur n extra =
    put wlan_cfg_attempts_key (int 1) (put wlan_cfg_attempt_sha_key (str cur) extra)

module _ (F : Formats) (cur : String) (now : ℕ) (ws : List Wlan) (pl : Placements)
    (cv : String) where
  -- The writes of `Offer` in order, over the applied row and the test of the hash.
  offer_rows : Option Value → Bool → ℕ → JsonMap → JsonMap
  unfolding keep_applied count_attempt
  offer_rows applied same n extra =
      put wlan_cfg_pending_placements_key (str (F.write_placements pl)) (
        put wlan_cfg_pending_wlans_key (str (encode_stored_wlans F.wlans ws)) (
          keep_applied applied (
            put wlan_cfg_offered_cfgversion_key (str cv) (
              put wlan_cfg_delivery_status_key (str "pending") (
                put wlan_cfg_last_attempt_key (int64 now)
                  (count_attempt same cur n (put wlan_cfg_pending_sha_key (str cur) extra)))))))

  unfoldable pub offer : DeliveryState → JsonMap → JsonMap
  unfolding offer_rows
  offer st extra = offer_rows st.applied (str_eq st.attempt_sha cur) st.attempts extra

module _ (st : DeliveryState) (now : ℕ) (extra : JsonMap) where
  abbrev pub Due : Type 0
  Due =
      (st.attempts < 6)
      × ((st.last_attempt ≡ 0) ⊎ (st.last_attempt + retry_delay st.attempts ≤ now))

two_power_pos : (n : ℕ) → 1 ≤ 2 ^ n
two_power_pos zero = omega arith
two_power_pos (suc n) = rw pow-suc (omega (arith, two_power_pos n))

-- The delay is between two seconds and a minute.
pub retry_delay_bounds : (attempts : ℕ) → (2 ≤ retry_delay attempts) × (retry_delay attempts ≤ 60)
unfolding retry_delay
retry_delay_bounds attempts = ground (arith, two_power_pos (attempts - 1))

-- What the next inform loads after an offer.
pub record IsOffered (st : DeliveryState) (cur cv : String) (now : ℕ) (ws : List Wlan)
    (next : DeliveryState) : Type 0 where
  pub pending : next.pending_present ≡ true
  pub pending_text : next.pending_is_string ≡ true
  pub hash : next.pending_sha ≡ cur
  pub snapshot : next.pending_wlans ≡ ws
  pub budget : next.attempts ≡ (if str_eq st.attempt_sha cur then st.attempts + 1 else 1)
  pub stamped : next.last_attempt ≡ now
  pub version : next.offered_cfgversion ≡ some cv
  pub baseline : next.sha ≡ st.sha

module _ (F : Formats) (cur : String) (now : ℕ) (ws : List Wlan) (pl : Placements)
    (cv : String) where
  abbrev Rows : ℕ → Bool → JsonMap → JsonMap → Type 0
  Rows n same extra e =
      (e wlan_cfg_pending_sha_key ≡ some (str cur))
      × (e wlan_cfg_pending_wlans_key ≡ some (str (encode_stored_wlans F.wlans ws)))
      × (e wlan_cfg_attempts_key ≡ some (int (if same then n + 1 else 1)))
      × (e wlan_cfg_last_attempt_key ≡ some (int64 now))
      × (e wlan_cfg_offered_cfgversion_key ≡ some (str cv))
      × (e wlan_cfg_sha_key ≡ extra wlan_cfg_sha_key)

  offer_rows_lem :
      (o : Option Value) (same : Bool) (n : ℕ) (extra : JsonMap)
      → Rows n same extra (offer_rows F cur now ws pl cv o same n extra)
  unfolding offer_rows
  offer_rows_lem none true n extra = (refl, refl, refl, refl, refl, refl)
  offer_rows_lem none false n extra = (refl, refl, refl, refl, refl, refl)
  offer_rows_lem (some v) true n extra = (refl, refl, refl, refl, refl, refl)
  offer_rows_lem (some v) false n extra = (refl, refl, refl, refl, refl, refl)

  offer_rows-blocked :
      (o : Option Value) (same : Bool) (n : ℕ) (extra : JsonMap)
      → offer_rows F cur now ws pl cv o same n extra blocked_sta_extra_key
        ≡ extra blocked_sta_extra_key
  unfolding offer_rows
  offer_rows-blocked none true n extra = refl
  offer_rows-blocked none false n extra = refl
  offer_rows-blocked (some v) true n extra = refl
  offer_rows-blocked (some v) false n extra = refl

  -- An offer leaves the set of blocked clients alone.
  pub offer-blocked :
      (st : DeliveryState) (extra : JsonMap)
      → offer F cur now ws pl cv st extra blocked_sta_extra_key ≡ extra blocked_sta_extra_key
  unfolding offer
  offer-blocked st extra =
      offer_rows-blocked st.applied (str_eq st.attempt_sha cur) st.attempts extra

  -- After an offer the next inform finds the delivery pending, with the hash, the version, the time
  -- and the very WLAN list that were offered, on a budget that starts again exactly when the hash is
  -- new; the confirmed baseline stays.
  pub offer-IsOffered :
      (extra : JsonMap)
      → ReadsStored F.wlans (map stored_record ws)
      → let st = load_delivery_state F extra in
        IsOffered st cur cv now ws (load_delivery_state F (offer F cur now ws pl cv st extra))
  offer-IsOffered extra law =
      let st = load_delivery_state F extra in
      let (sha, wlans, attempts, time, version, base) =
        offer_rows_lem st.applied (str_eq st.attempt_sha cur) st.attempts extra in
      let next = offer F cur now ws pl cv st extra in
      record {
        pending = unfold load_delivery_state offer in ap is_present sha;
        pending_text = unfold load_delivery_state offer in ap (λ o. is_present (as_string o)) sha;
        hash = unfold load_delivery_state offer in ap (λ o. or_empty (as_string o)) sha;
        snapshot =
            unfold load_delivery_state offer in
            ap (λ o. wlans_row F (as_string o)) wlans
            ∙ ap or_none (decode_stored_wlans-encode F.wlans ws law);
        budget = unfold load_delivery_state offer in ap count_row attempts;
        stamped = unfold load_delivery_state offer in ap time_row time;
        version = unfold load_delivery_state offer in ap as_string version;
        baseline = unfold load_delivery_state offer in ap (λ o. or_empty (as_string o)) base;
      }
