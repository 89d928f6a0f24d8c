-- ===== src/Wireless/Plan/Counter.antt =====
-- The devnames of a plan, and the placements that it counts.
use Prim.Native.String.{String}
use text.Mathlib.TextEquality.{eq_iff}
use open_unifi.Base.{
  ℕ, suc, ◌+◌, ◌≤◌, ◌≡◌, ◌⊎◌, inl, inr, refl, ap, subst, ◌∙◌, Bool, true, false, List, [], ◌∷◌,
  ◌++◌, length, if◌then◌else◌, Bool-cases, and-true, arith,
}
use open_unifi.Base.Text.{str_eq}
use open_unifi.Store.Device.{Device}
use open_unifi.Wireless.Wlan.{Wlan, ssid_of}
use open_unifi.Wireless.Delivery.{placed}
use open_unifi.Wireless.Plan.{
  RadioRow, VapPlan, wrap_vid, skips, serves, vap, radio_vaps, table_vaps, stored_radios, plan_vaps,
  Placements, placement_key, bump, vap_placements,
}

-- Untagged, or one of the tags 2 to 4094.
abbrev pub IsVid : ℕ → Type 0
IsVid vid = (vid ≡ 0) ⊎ ((2 ≤ vid) × (vid ≤ 4094))

-- The VAPs are numbered in order from `k`, of enabled WLANs, with tags within the range.
abbrev pub IsCounted : ℕ → List VapPlan → Type 0
IsCounted k [] = Unit {0}
IsCounted k (v ∷ vs) = (v.ath_n ≡ k) × (v.wlan.enabled ≡ true) × IsVid v.vid × IsCounted (k + 1) vs

wrap_vid-IsVid : (vid : ℕ) → IsVid (wrap_vid vid)
unfolding wrap_vid
wrap_vid-IsVid vid = ground arith

serves-enabled : (r : RadioRow) (w : Wlan) → serves r w ≡ true → w.enabled ≡ true
unfolding serves
serves-enabled r w h = (and-true w.enabled _ h).0

add_nothing : (k : ℕ) → k + 0 ≡ k
add_nothing k = omega arith

shift : (k n : ℕ) → k + suc n ≡ k + 1 + n
shift k n = omega arith

IsCounted-append :
    (k : ℕ) (vs us : List VapPlan)
    → IsCounted k vs
    → IsCounted (k + length vs) us
    → IsCounted k (vs ++ us)
IsCounted-append k [] us p q = subst (λ j. IsCounted j us) (add_nothing k) q
IsCounted-append k (v ∷ vs) us (n, e, t, p) q = (
  n,
  e,
  t,
  IsCounted-append (k + 1) vs us p (subst (λ j. IsCounted j us) (shift k (length vs)) q),
)

module _ (h : String → String) where
  radio_vaps-IsCounted :
      (r : RadioRow) (radio_n k : ℕ) (ws : List Wlan) → IsCounted k (radio_vaps h r radio_n k ws)
  unfolding radio_vaps vap
  radio_vaps-IsCounted r radio_n k [] = tt
  radio_vaps-IsCounted r radio_n k (w ∷ ws) = elim (Bool-cases (serves r w)) [
    | inl on ↦
        rw (on, IsCounted)
          (
            refl,
            serves-enabled r w on,
            wrap_vid-IsVid w.vlan,
            radio_vaps-IsCounted r radio_n (k + 1) ws,
          )
    | inr off ↦ rw (off, IsCounted) (radio_vaps-IsCounted r radio_n k ws)
  ]

  some_vaps-IsCounted :
      (b : Bool) (k : ℕ) (vs : List VapPlan) → IsCounted k vs → IsCounted k (if b then [] else vs)
  some_vaps-IsCounted true k vs p = tt
  some_vaps-IsCounted false k vs p = p

  table_vaps-IsCounted :
      (ws : List Wlan) (radio_n k : ℕ) (rs : List RadioRow)
      → IsCounted k (table_vaps h ws radio_n k rs)
  unfolding table_vaps
  table_vaps-IsCounted ws radio_n k [] = tt
  table_vaps-IsCounted ws radio_n k (r ∷ rs) =
      IsCounted-append k _ _
        (some_vaps-IsCounted (skips r) k _ (radio_vaps-IsCounted r radio_n k ws))
        (table_vaps-IsCounted ws (radio_n + 1) _ rs)

  -- The planned VAPs are numbered 0, 1, 2 and so on in the order of the plan, so that no two share a
  -- devname; each is of an enabled WLAN, and untagged or tagged 2 to 4094.
  pub plan_vaps-IsCounted : (d : Device) (ws : List Wlan) → IsCounted 0 (plan_vaps h d ws)
  unfolding plan_vaps
  plan_vaps-IsCounted d ws = table_vaps-IsCounted ws 1 0 (stored_radios d)

-- How many planned VAPs have the placement key.
abbrev pub count_placed : String → List VapPlan → ℕ
count_placed key [] = 0
count_placed key (v ∷ vs) =
    let rest = count_placed key vs in
    if str_eq (placement_key (ssid_of v.wlan) v.phyname) key then rest + 1 else rest

apart : (j k key : String) → str_eq j k ≡ false → str_eq j key ≡ true → str_eq k key ≡ false
apart j k key other here = ground (arith, eq_iff j k, eq_iff j key, eq_iff k key)

bump-placed :
    (k key : String) (m : Placements)
    → placed key (bump k m) ≡ (if str_eq k key then placed key m + 1 else placed key m)
unfolding bump
bump-placed k key [] = refl
bump-placed k key ((j, n) ∷ m) = elim (Bool-cases (str_eq j k)) [
  | inl same ↦
      rw (same, ap (λ s. str_eq s key) ((eq_iff j k).0 same))
        (elim (Bool-cases (str_eq k key)) [ inl here ↦ rw here | inr there ↦ rw there ])
  | inr other ↦ rw other (elim (Bool-cases (str_eq j key)) [
    | inl here ↦ rw (here, apart j k key other here)
    | inr there ↦ rw there (bump-placed k key m)
  ])
]

placements-from :
    (key : String) (m : Placements) (vs : List VapPlan)
    → placed key (vap_placements m vs) ≡ placed key m + count_placed key vs
unfolding vap_placements ssid_of
placements-from key m [] = omega arith
placements-from key m (v ∷ vs) =
    let k = placement_key (ssid_of v.wlan) v.phyname in
    placements-from key (bump k m) vs ∙ elim (Bool-cases (str_eq k key)) [
      | inl same ↦ rw (bump-placed k key m, same) (omega arith)
      | inr other ↦ rw (bump-placed k key m, other)
    ]

-- The placements that an offer carries count, for every SSID and radio, the VAPs that the plan has
-- there.
pub vap_placements-count :
    (key : String) (vs : List VapPlan) → placed key (vap_placements [] vs) ≡ count_placed key vs
vap_placements-count key vs = placements-from key [] vs ∙ omega arith
