-- ===== src/Store/TrustPolicy/Classes.antt =====
-- The three classes of rows under absorption.
use Prim.Native.String.{String}
use text.Mathlib.TextEquality.{eq_iff}
use open_unifi.Base.{
  ℕ, Bool, true, false, Option, none, some, List, [], ◌∷◌, ◌≡◌, refl, sym, subst, ◌∙◌, Bool-cases,
  true-ne-false, false-ne-true, inl, inr, if◌then◌else◌,
}
use open_unifi.Base.Text.{str_eq}
use open_unifi.Store.Value.{Value, JsonMap}
use open_unifi.Store.Keys.{controller_owned_keys, device_refreshable_keys, admin_owned_keys}
use open_unifi.Store.Device.{Device}
use open_unifi.Store.TrustPolicy.{
  contains, restore, fill, restore_controller, restore_caps, restore_admin, absorb_rows, absorb,
}

restore-twice : (o now : Option Value) → restore o (restore o now) ≡ restore o now
restore-twice none now = refl
restore-twice (some v) now = refl

fill-twice : (now o : Option Value) → fill (fill now o) o ≡ fill now o
fill-twice none none = refl
fill-twice none (some v) = refl
fill-twice (some v) o = refl

module _ (prev : JsonMap) (j : String) where
  controller-row :
      (ks : List String) (m : JsonMap)
      → restore_controller ks prev m j ≡ (if contains j ks then restore (prev j) (m j) else m j)
  unfolding restore_controller
  controller-row [] m = refl
  controller-row (k ∷ ks) m =
      controller-row ks (λ i. if str_eq i k then restore (prev i) (m i) else m i)
      ∙ elim (Bool-cases (str_eq j k)) [
        | inr other ↦ rw other
        | inl this ↦ elim (Bool-cases (contains j ks)) [
          | inl again ↦ rw (this, again) (restore-twice (prev j) (m j))
          | inr once ↦ rw (this, once)
        ]
      ]

  caps-row :
      (ks : List String) (m : JsonMap)
      → restore_caps ks prev m j ≡ (if contains j ks then fill (m j) (prev j) else m j)
  unfolding restore_caps
  caps-row [] m = refl
  caps-row (k ∷ ks) m =
      caps-row ks (λ i. if str_eq i k then fill (m i) (prev i) else m i)
      ∙ elim (Bool-cases (str_eq j k)) [
        | inr other ↦ rw other
        | inl this ↦ elim (Bool-cases (contains j ks)) [
          | inl again ↦ rw (this, again) (fill-twice (m j) (prev j))
          | inr once ↦ rw (this, once)
        ]
      ]

  admin-row :
      (ks : List String) (m : JsonMap)
      → restore_admin ks prev m j ≡ (if contains j ks then prev j else m j)
  unfolding restore_admin
  admin-row [] m = refl
  admin-row (k ∷ ks) m =
      admin-row ks (λ i. if str_eq i k then prev i else m i) ∙ elim (Bool-cases (str_eq j k)) [
        | inr other ↦ rw other
        | inl this ↦ elim (Bool-cases (contains j ks)) [
          | inl again ↦ rw (this, again)
          | inr once ↦ rw (this, once)
        ]
      ]

  layers :
      (admin caps controller : List String) (body : JsonMap)
      → restore_admin admin prev
          (restore_caps caps prev (restore_controller controller prev body))
          j
        ≡ (if contains j admin
            then prev j
            else if contains j caps
            then fill (if contains j controller then restore (prev j) (body j) else body j) (prev j)
            else if contains j controller
            then restore (prev j) (body j)
            else body j)
  layers admin caps controller body =
      admin-row admin _ ∙ rw (caps-row caps, controller-row controller)

-- What the policy promises of the row of `j`, from the record's value and the body's.
abbrev pub policy : String → Option Value → Option Value → Option Value
policy j old reported =
    if contains j admin_owned_keys
    then old
    else if contains j controller_owned_keys
    then restore old reported
    else if contains j device_refreshable_keys
    then fill reported old
    else reported

-- No key is both controller-owned and device-refreshable.
Exclusive : (ks : List String) → Type 0
Exclusive [] = Unit {0}
Exclusive (k ∷ ks) = (contains k device_refreshable_keys ≡ false) × Exclusive ks

Exclusive-contains :
    (ks : List String) (j : String)
    → Exclusive ks
    → contains j ks ≡ true
    → contains j device_refreshable_keys ≡ false
unfolding Exclusive
Exclusive-contains [] j x h = absurd (false-ne-true h)
Exclusive-contains (k ∷ ks) j x h = elim (Bool-cases (str_eq j k)) [
  | inl this ↦
      subst (λ i. contains i device_refreshable_keys ≡ false) (sym ((eq_iff j k).0 this)) x.0
  | inr other ↦ Exclusive-contains ks j x.1 (rw other at h)
]

controller-Exclusive : Exclusive controller_owned_keys
unfolding Exclusive
controller-Exclusive = (
  refl,
  (
    refl,
    (
      refl,
      (refl, (refl, (refl, (refl, (refl, (refl, (refl, (refl, (refl, (refl, (refl, tt))))))))))),
    ),
  ),
)

reorder :
    (admin caps controller : Bool) (old reported : Option Value)
    → (controller ≡ true → caps ≡ false)
    → (if admin
        then old
        else if caps
        then fill (if controller then restore old reported else reported) old
        else if controller
        then restore old reported
        else reported)
      ≡ (if admin
          then old
          else if controller
          then restore old reported
          else if caps
          then fill reported old
          else reported)
reorder true caps controller old reported h = refl
reorder false true true old reported h = absurd (true-ne-false (h refl))
reorder false true false old reported h = refl
reorder false false true old reported h = refl
reorder false false false old reported h = refl

-- Absorption follows the policy in every row: an admin-owned row is the record's, present or
-- absent, so that no device writes, changes, removes or introduces one; a controller-owned row is
-- the record's where it has one; a refreshable row is the body's where it has one, and else the
-- record's; any other row is the body's.
pub absorb-policy :
    (d : Device) (body : JsonMap) (now : ℕ) (gcm : Bool) (j : String)
    → (absorb body now gcm d).extra j ≡ policy j (d.extra j) (body j)
unfolding absorb absorb_rows
absorb-policy d body now gcm j =
    layers d.extra j admin_owned_keys device_refreshable_keys controller_owned_keys body
    ∙ reorder (contains j admin_owned_keys) (contains j device_refreshable_keys)
        (contains j controller_owned_keys) (d.extra j) (body j)
        (Exclusive-contains controller_owned_keys j controller-Exclusive)
