-- ===== src/Server/Cycle/Deltas.antt =====
-- The deltas of a decision, as the cycle applies them.
use Prim.Native.String.{String}
use text.Mathlib.TextEquality.{eq_iff}
use open_unifi.Base.{
  Bool, true, false, not, List, [], ◌∷◌, ◌≡◌, refl, sym, ap, ◌∙◌, inl, inr, Bool-cases, ◌==◌,
  ==_iff, if◌then◌else◌,
}
use open_unifi.Base.Text.{str_eq}
use open_unifi.Store.Device.{Device}
use open_unifi.Adoption.Types.{Outcome}
use open_unifi.Adoption.Decide.{equal_strings, equal_bools, deltas}
use open_unifi.Server.Cycle.{apply_outcome, put_all}

-- No delta is set ahead of the comparison.
pub record IsUnset (out : Outcome) : Type 0 where
  pub state : out.set_state ≡ false
  pub key : out.set_x_authkey ≡ false
  pub version : out.set_cfg_version ≡ false
  pub applied : out.set_applied_cfg ≡ false
  pub keys : out.set_authkeys ≡ false
  pub confirmed : out.set_key_confirmed ≡ false

-- The record is the working record in all that a decision may change, with the credentials of the
-- renderer in its rows.
pub record IsCarried (work : Device) (out : Outcome) (after : Device) : Type 0 where
  pub state : after.state ≡ work.state
  pub key : after.x_authkey ≡ work.x_authkey
  pub version : after.cfg_version ≡ work.cfg_version
  pub applied : after.applied_cfg ≡ work.applied_cfg
  pub keys : after.authkeys ≡ work.authkeys
  pub confirmed : after.key_confirmed ≡ work.key_confirmed
  pub extra : after.extra ≡ put_all out.credential_deltas work.extra

carried :
    {A : Type 0} (same set : Bool) (w d o : A)
    → (same ≡ true → w ≡ d)
    → set ≡ false
    → (if (if not same then true else set) then (if not same then w else o) else d) ≡ w
carried true set w d o eq unset = rw unset (sym (eq refl))
carried false set w d o eq unset = refl

false_true : {A : Type 0} → false ≡ true → A
false_true h = cc

equal_strings_sound : (s t : List String) → equal_strings s t ≡ true → s ≡ t
equal_strings_sound [] [] h = refl
equal_strings_sound [] (b ∷ t) h = cc
equal_strings_sound (a ∷ s) [] h = cc
equal_strings_sound (a ∷ s) (b ∷ t) h = elim (Bool-cases (str_eq a b)) [
  | inl e ↦
      ap (λ x. x ∷ s) ((eq_iff a b).0 e) ∙ ap (λ y. b ∷ y) (equal_strings_sound s t (rw e at h))
  | inr e ↦ false_true (rw e at h)
]

equal_bools_sound : (a b : Bool) → equal_bools a b ≡ true → a ≡ b
equal_bools_sound true true h = refl
equal_bools_sound true false h = cc
equal_bools_sound false true h = cc
equal_bools_sound false false h = refl

-- The deltas lose nothing: whatever the working record of a decision, applying its outcome to the
-- record that it started from gives the working record's state, keys, versions, confirmation and
-- rows, the rows with the credentials of the renderer put in, where no branch has set a delta ahead
-- of the comparison.
pub apply_outcome-deltas :
    (d work : Device) (out : Outcome)
    → IsUnset out
    → IsCarried work out (apply_outcome (deltas d work out) d)
unfolding apply_outcome deltas
apply_outcome-deltas d work out unset = record {
  state =
      carried (work.state == d.state) out.set_state work.state d.state out.state
        (==_iff work.state d.state).0 unset.state;
  key =
      carried (str_eq work.x_authkey d.x_authkey) out.set_x_authkey work.x_authkey d.x_authkey
        out.x_authkey (eq_iff work.x_authkey d.x_authkey).0 unset.key;
  version =
      carried (str_eq work.cfg_version d.cfg_version) out.set_cfg_version work.cfg_version
        d.cfg_version out.cfg_version (eq_iff work.cfg_version d.cfg_version).0 unset.version;
  applied =
      carried (str_eq work.applied_cfg d.applied_cfg) out.set_applied_cfg work.applied_cfg
        d.applied_cfg out.applied_cfg (eq_iff work.applied_cfg d.applied_cfg).0 unset.applied;
  keys =
      carried (equal_strings work.authkeys d.authkeys) out.set_authkeys work.authkeys d.authkeys
        out.authkeys (equal_strings_sound work.authkeys d.authkeys) unset.keys;
  confirmed =
      carried (equal_bools work.key_confirmed d.key_confirmed) out.set_key_confirmed
        work.key_confirmed d.key_confirmed out.key_confirmed
        (equal_bools_sound work.key_confirmed d.key_confirmed) unset.confirmed;
  extra = refl;
}
