-- ===== src/Adoption/Plain/Claim.antt =====
-- A plaintext inform whose claim is not the record's key.
use open_unifi.Base.{
  List, ◌⊎◌, arith, ℕ, Bool, true, false, not, ◌&&◌, none, some, inl, inr, if◌then◌else◌, ◌≡◌, refl,
  ◌∙◌, Bool-cases,
}
use open_unifi.Base.Results.{ok}
use open_unifi.Base.Text.{str_eq, equal_fold, equal_fold_self}
use open_unifi.Store.Device.{Device}
use open_unifi.Wireless.Wlan.{Wlan}
use open_unifi.Wireless.Plan.{ProvisioningPlan}
use open_unifi.Adoption.Types.{Deps, Request, Outcome, noop}
use open_unifi.Adoption.Mgmt.{mgmt_rows}
use open_unifi.Adoption.Mgmt.Authkey.{find_row, mgmt_rows-authkey}
use open_unifi.Adoption.Provision.{adoption_push}
use open_unifi.Adoption.Plain.{
  claims, noop_answer, plain_answer, decide_plain, inform_type_gentle_noop, request_type,
}

never {ℓ} : {A : Type ℓ} (b : Bool) (x : A) → (if b && false then some x else none) ≡ none
never true x = refl
never false x = refl

right_false : (a b : Bool) → a ≡ false → (not a && b) ≡ false → b ≡ false
right_false a b h g = ground arith

module _ (D : Deps) (req : Request) (wls : List Wlan) (plan : ProvisioningPlan) (d : Device) where
  -- An answer that carries no provisioning, no command and no key: a noop, or the configuration
  -- rows without an authkey row.
  abbrev pub Harmless : Outcome → Type 0
  Harmless out =
      (out ≡ noop_answer D req noop d)
      ⊎ ((out ≡ adoption_push D d d.x_authkey)
          × (find_row "authkey" (mgmt_rows D d d.x_authkey) ≡ none))

  own_rows : find_row "authkey" (mgmt_rows D d d.x_authkey) ≡ none
  own_rows =
      mgmt_rows-authkey D d d.x_authkey
      ∙ rw (equal_fold_self d.x_authkey) (never (not (str_eq d.x_authkey "")) d.x_authkey)

  plain_unclaimed :
      (n : ℕ)
      → claims d req.used_key ≡ false
      → (out : Outcome) × (plain_answer D req wls plan d n ≡ ok ((out, d), n)) × Harmless out
  unfolding plain_answer
  plain_unclaimed n h = elim (Bool-cases (str_eq d.x_authkey "")) [
    | inl unset ↦ (noop_answer D req noop d, rw unset, inl refl)
    | inr held ↦ (
      adoption_push D d d.x_authkey,
      rw (held, right_false (str_eq d.x_authkey "") (equal_fold d.x_authkey req.used_key) held h),
      inr (refl, own_rows),
    )
  ]

  -- In the lane itself, ahead of the confirmation that `decide` adds, a claim that is not the
  -- record's key moves nothing: no draw is taken, the record stays as it is, an armed command stays
  -- armed, and the answer is a noop or a push of the configuration rows that has no authkey row.
  pub decide_plain-unclaimed :
      (n : ℕ)
      → claims d req.used_key ≡ false
      → (out : Outcome) × (decide_plain D req wls plan d n ≡ ok ((out, d), n)) × Harmless out
  unfolding decide_plain
  decide_plain-unclaimed n h = elim (Bool-cases (inform_type_gentle_noop (request_type req))) [
    | inl gentle ↦ (noop_answer D req noop d, rw gentle, inl refl)
    | inr status ↦ rw (status, h) (plain_unclaimed n h)
  ]
