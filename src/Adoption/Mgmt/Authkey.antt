-- ===== src/Adoption/Mgmt/Authkey.antt =====
-- The authkey row of the blob: when a key is sent to the device.
use Prim.Native.String.{String}
use open_unifi.Base.{
  Bool, true, false, not, ◌&&◌, Option, none, some, List, [], ◌∷◌, ◌++◌, if◌then◌else◌, ◌≡◌, refl,
}
use open_unifi.Base.Text.{str_eq, equal_fold}
use open_unifi.Store.Device.{Device}
use open_unifi.Adoption.Types.{Deps}
use open_unifi.Adoption.Mgmt.{Row, when, announces, mgmt_rows}

-- The value of the first row of the name.
abbrev pub find_row : String → List Row → Option String
find_row key [] = none
find_row key ((k, v) ∷ rows) = if str_eq k key then some v else find_row key rows

optional_rows :
    (b c : Bool) (v w : String)
    → find_row "authkey" (
        when b ("authkey", v)
        ++ (when c ("inform_url", w) ++ (("use_aes_gcm", "true") ∷ ("report_crash", "true") ∷ [])))
      ≡ (if b then some v else none)
optional_rows true c v w = refl
optional_rows false true v w = refl
optional_rows false false v w = refl

-- The blob has an authkey row exactly where the record holds a key and the device used another,
-- letter case aside; and the row carries the record's key.
pub mgmt_rows-authkey :
    (D : Deps) (d : Device) (used : String)
    → find_row "authkey" (mgmt_rows D d used) ≡ (
        if not (str_eq d.x_authkey "") && not (equal_fold used d.x_authkey)
        then some d.x_authkey
        else none)
unfolding mgmt_rows announces
mgmt_rows-authkey D d used = optional_rows (announces d used) _ d.x_authkey _
