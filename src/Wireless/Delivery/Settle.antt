-- ===== src/Wireless/Delivery/Settle.antt =====
-- What `Settle` takes for proof, and what it leaves.
use Prim.Native.String.{String}
use mathlib.Core.List.{Memᴰ}
use mathlib.Core.Option.{none-ne-some}
use text.Mathlib.TextEquality.{eq_iff}
use text.Mathlib.TextPositions.{eq_refl}
use open_unifi.Base.{
  All, ℕ, ◌<◌, ◌≡◌, ◌≢◌, ◌⊎◌, inl, inr, refl, sym, subst, ◌∙◌, Bool, true, false, not, ◌&&◌, Option,
  none, some, List, [], ◌∷◌, ltb, ◌==◌, length, arith, Bool-cases, and-true, or-false,
  true-ne-false,
}
use open_unifi.Base.Text.{str_eq}
use open_unifi.Store.Value.{JsonMap, as_string, or_empty, str}
use open_unifi.Store.Keys.{
  wlan_cfg_sha_key, wlan_cfg_materialization_reboot_key, wlan_cfg_pending_old_wlans_key,
  wlan_cfg_attempt_sha_key, wlan_cfg_attempts_key, wlan_cfg_last_attempt_key,
  wlan_cfg_not_running_misses_key, wlan_cfg_vap_not_running_misses_key, wlan_cfg_applied_wlans_key,
}
use open_unifi.Wireless.Wlan.{Wlan, ssid_of}
use open_unifi.Wireless.Plan.{Placements, placement_key}
use open_unifi.Wireless.Evidence.{VapRun, VapEvidence, read_vap_evidence, runs_ssid}
use open_unifi.Wireless.Delivery.{
  Formats, DeliveryState, load_delivery_state, materialization_reboot_armed_for, retire_marker,
  wlans_row, count_row, time_row, is_removed, count_enabled, placed, spend, spend_all, all_met,
  proven, settles, promote, settle,
}

str_eq-false_sym : (a b : String) → str_eq a b ≡ false → str_eq b a ≡ false
str_eq-false_sym a b h = ground (arith, eq_iff a b, eq_iff b a)

-- A row touches the need of its own SSID only.
spend-other :
    (r : VapRun) (need : String → ℕ) (pl : Placements) (s : String)
    → str_eq r.ssid s ≡ false
    → (spend r need pl).0 s ≡ need s
unfolding spend
spend-other r need pl s h =
    let key = placement_key r.ssid r.radio in
    let low = str_eq-false_sym r.ssid s h in
    elim (Bool-cases (str_eq r.ssid "")) [
      | inl unnamed ↦ rw unnamed
      | inr named ↦ elim (Bool-cases (ltb 0 (placed key pl))) [
        | inl spent ↦ rw (named, spent, low)
        | inr free ↦ elim (Bool-cases (ltb 0 (need r.ssid) && length pl == 0)) [
          | inl loose ↦ rw (named, free, loose, low)
          | inr kept ↦ rw (named, free, kept)
        ]
      ]
    ]

-- An SSID that no running row carries is still needed as often.
spend_all-other :
    (removed : String → Bool) (rs : List VapRun) (need : String → ℕ) (pl : Placements)
    (need' : String → ℕ) (s : String)
    → spend_all removed rs need pl ≡ some need'
    → runs_ssid s rs ≡ false
    → need' s ≡ need s
unfolding spend_all
spend_all-other removed [] need pl need' s h absent = ground arith
spend_all-other removed (r ∷ rs) need pl need' s h absent =
    let (other, rest) = or-false (str_eq r.ssid s) (runs_ssid s rs) absent in
    elim (Bool-cases (not (str_eq r.ssid "") && removed r.ssid)) [
      | inl stopped ↦ absurd (none-ne-some need' (rw (stopped, spend_all) at h))
      | inr goes ↦
          spend_all-other removed rs (spend r need pl).0 (spend r need pl).1 need' s
            (rw (goes, spend_all) at h) rest
          ∙ spend-other r need pl s other
    ]

-- The loop came to its end past no removed SSID.
spend_all-removed :
    (removed : String → Bool) (rs : List VapRun) (need : String → ℕ) (pl : Placements)
    (need' : String → ℕ) (s : String)
    → spend_all removed rs need pl ≡ some need'
    → s ≢ ""
    → runs_ssid s rs ≡ true
    → removed s ≡ false
unfolding spend_all
spend_all-removed removed [] need pl need' s h named running = cc
spend_all-removed removed (r ∷ rs) need pl need' s h named running =
    elim (Bool-cases (not (str_eq r.ssid "") && removed r.ssid)) [
      | inl stopped ↦ absurd (none-ne-some need' (rw (stopped, spend_all) at h))
      | inr goes ↦ elim (Bool-cases (str_eq r.ssid s)) [
        | inl this ↦ ground (arith, eq_iff r.ssid s, eq_iff r.ssid "")
        | inr other ↦
            spend_all-removed removed rs (spend r need pl).0 (spend r need pl).1 need' s
              (rw (goes, spend_all) at h) named (rw other at running)
      ]
    ]

met : (b : Bool) (n : ℕ) → b ≡ true → not (b && ltb 0 n) ≡ true → n ≡ 0
met b n on h = ground arith

all_met-enabled :
    (ws : List Wlan) (need : String → ℕ) (w : Wlan)
    → all_met ws need ≡ true
    → Memᴰ w ws
    → w.enabled ≡ true
    → need (ssid_of w) ≡ 0
unfolding all_met
all_met-enabled [] need w h m on = elim m [ ]
all_met-enabled (x ∷ ws) need w h (Memᴰ.head e) on =
    let (mine, rest) = and-true (not (x.enabled && ltb 0 (need (ssid_of x)))) (all_met ws need) h in
    subst (λ v. v.enabled ≡ true → need (ssid_of v) ≡ 0) (sym e)
      (λ on'. met x.enabled (need (ssid_of x)) on' mine) on
all_met-enabled (x ∷ ws) need w h (Memᴰ.tail m) on =
    let (mine, rest) = and-true (not (x.enabled && ltb 0 (need (ssid_of x)))) (all_met ws need) h in
    all_met-enabled ws need w rest m on

count_enabled-pos :
    (ws : List Wlan) (w : Wlan) → Memᴰ w ws → w.enabled ≡ true → 0 < count_enabled ws (ssid_of w)
unfolding count_enabled
count_enabled-pos [] w m on = elim m [ ]
count_enabled-pos (x ∷ ws) w (Memᴰ.head e) on =
    subst (λ v. v.enabled ≡ true → 0 < count_enabled (x ∷ ws) (ssid_of v)) (sym e)
      (λ on'. rw (on', eq_refl) (omega arith)) on
count_enabled-pos (x ∷ ws) w (Memᴰ.tail m) on =
    let more = count_enabled-pos ws w m on in
    elim (Bool-cases (x.enabled && str_eq (ssid_of x) (ssid_of w))) [
      | inl also ↦ rw also (omega arith)
      | inr other ↦ rw other more
    ]

-- What a table must show for a delivery to be confirmed.
pub record IsProof (st : DeliveryState) (ev : VapEvidence) : Type 0 where
  pub pending : st.pending_is_string ≡ true
  pub reported : ev.present ≡ true
  pub desired_run :
      All (λ w. (w.enabled ≡ false) ⊎ (runs_ssid (ssid_of w) ev.running ≡ true)) st.pending_wlans
  pub removed_gone :
      (s : String)
      → (s ≡ "")
        ⊎ ((is_removed st.old_wlans st.pending_wlans s ≡ false) ⊎ (runs_ssid s ev.running ≡ false))

All-members {ℓ κ} :
    {A : Type ℓ} {P : A → Type κ} (xs : List A) → ((x : A) → Memᴰ x xs → P x) → All P xs
All-members [] f = tt
All-members (x ∷ xs) f = (f x (Memᴰ.head refl), All-members xs (λ y m. f y (Memᴰ.tail m)))

and3-true : (a b c : Bool) → (a && (b && c)) ≡ true → (a ≡ true) × (b ≡ true) × (c ≡ true)
and3-true a b c h = ground arith

proven-some :
    (ws : List Wlan) (o : Option (String → ℕ))
    → proven ws o ≡ true
    → (need : String → ℕ) × (o ≡ some need) × (all_met ws need ≡ true)
proven-some ws none h = cc
proven-some ws (some need) h = (need, refl, h)

-- A delivery is confirmed only on proof: a text-typed pending hash, a reported table, a running
-- VAP for the SSID of every enabled WLAN that was offered, and none for a removed SSID.
pub settles-IsProof : (st : DeliveryState) (ev : VapEvidence) → settles st ev ≡ true → IsProof st ev
unfolding settles
settles-IsProof st ev h =
    let gone = is_removed st.old_wlans st.pending_wlans in
    let start = count_enabled st.pending_wlans in
    let (text, present, proof) =
      and3-true st.pending_is_string ev.present
        (proven st.pending_wlans (spend_all gone ev.running start st.placements)) h in
    let (need, walked, met_all) = proven-some st.pending_wlans _ proof in
    record {
      pending = text;
      reported = present;
      desired_run = All-members st.pending_wlans (λ w m. elim (Bool-cases w.enabled) [
        | inr off ↦ inl off
        | inl on ↦ elim (Bool-cases (runs_ssid (ssid_of w) ev.running)) [
          | inl runs ↦ inr runs
          | inr silent ↦ absurd (
              omega (
                arith,
                count_enabled-pos st.pending_wlans w m on,
                all_met-enabled st.pending_wlans need w met_all m on,
                spend_all-other gone ev.running start st.placements need (ssid_of w) walked silent,
              ))
        ]
      ]);
      removed_gone = λ s. elim (Bool-cases (str_eq s "")) [
        | inl unnamed ↦ inl ((eq_iff s "").0 unnamed)
        | inr named ↦ inr (elim (Bool-cases (runs_ssid s ev.running)) [
          | inr silent ↦ inr silent
          | inl runs ↦ inl (
              spend_all-removed gone ev.running start st.placements need s walked
                (λ e. true-ne-false (sym ((eq_iff s "").1 e) ∙ named)) runs)
        ])
      ];
    }

retire_marker-other :
    (o : Option String) (cv : String) (extra : JsonMap) (k : String)
    → str_eq k wlan_cfg_materialization_reboot_key ≡ false
    → retire_marker o cv extra k ≡ extra k
unfolding retire_marker
retire_marker-other none cv extra k h = refl
retire_marker-other (some v) cv extra k h = elim (Bool-cases (str_eq v cv)) [
  | inl same ↦ rw same
  | inr stale ↦ rw (stale, h)
]

module _ (F : Formats) (extra : JsonMap) (cv : String) where
  promote-mirrors :
      let r = promote (load_delivery_state F extra) cv extra in
      load_delivery_state F r.0 ≡ record r.1 { applied = r.0 wlan_cfg_applied_wlans_key }
  unfolding promote load_delivery_state
  promote-mirrors =
      let same = retire_marker-other (materialization_reboot_armed_for extra) cv extra in
      λ i. record (promote (load_delivery_state F extra) cv extra).1 {
        old_wlans = wlans_row F (as_string (same wlan_cfg_pending_old_wlans_key refl i));
        applied = (promote (load_delivery_state F extra) cv extra).0 wlan_cfg_applied_wlans_key;
        attempt_sha = or_empty (as_string (same wlan_cfg_attempt_sha_key refl i));
        attempts = count_row (same wlan_cfg_attempts_key refl i);
        last_attempt = time_row (same wlan_cfg_last_attempt_key refl i);
        not_running_misses = count_row (same wlan_cfg_not_running_misses_key refl i);
        vap_not_running_misses = count_row (same wlan_cfg_vap_not_running_misses_key refl i);
      }

  -- The typed view that `Settle` leaves is what the next load would read from the map, on both
  -- branches and in every field but the verbatim applied row, which the view does not follow.
  pub settle-mirrors :
      let r = settle (load_delivery_state F extra) cv extra in
      load_delivery_state F r.0 ≡ record r.1 { applied = r.0 wlan_cfg_applied_wlans_key }
  unfolding settle
  settle-mirrors =
      elim (Bool-cases
        (settles (load_delivery_state F extra) (read_vap_evidence (extra "vap_table")))) [
          | inl proof ↦ rw proof promote-mirrors
          | inr no_proof ↦ rw no_proof (unfold load_delivery_state in refl)
        ]

  -- The baseline moves only on proof, and then to the hash that was pending.
  pub settle-sha :
      let st = load_delivery_state F extra in
      ((settle st cv extra ≡ (extra, st)))
      ⊎ (IsProof st (read_vap_evidence (extra "vap_table"))
          × ((settle st cv extra).1.sha ≡ st.pending_sha)
          × ((settle st cv extra).1.pending_present ≡ false)
          × ((settle st cv extra).0 wlan_cfg_sha_key ≡ some (str st.pending_sha)))
  unfolding settle
  settle-sha =
      let st = load_delivery_state F extra in
      elim (Bool-cases (settles st (read_vap_evidence (extra "vap_table")))) [
        | inr no_proof ↦ inl (rw no_proof)
        | inl proof ↦ inr (
          settles-IsProof st (read_vap_evidence (extra "vap_table")) proof,
          rw proof (unfold promote in refl),
          rw proof (unfold promote in refl),
          rw proof (unfold promote in refl),
        )
      ]
