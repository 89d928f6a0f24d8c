-- ===== src/Adoption/Mgmt.antt =====
-- internal/server/adoption/mgmtcfg.go and internal/configtext/configtext.go: the mgmt_cfg blob. It
-- is a list of rows here, and the text is the rows written out.
pub mod Authkey
use Prim.Native.Char.{code}
use Prim.Native.String.{String, ◌++◌ as ◌<>◌}
use open_unifi.Base.{Bool, true, false, not, ◌&&◌, ◌||◌, List, [], ◌∷◌, ◌++◌, ◌==◌, if◌then◌else◌}
use open_unifi.Base.Text.{str_eq, equal_fold}
use open_unifi.Store.Device.{Device}
use open_unifi.Adoption.Types.{Deps, Urls}

abbrev pub Row : Type 0
Row = String × String

abbrev pub has_newline : String → Bool
has_newline String.[] = false
has_newline (String.◌∷◌ c s) = code c == 10 || code c == 13 || has_newline s

-- The line writer: a value with a line break is skipped.
unfoldable pub write_lines : List Row → String
write_lines [] = ""
write_lines ((k, v) ∷ rows) =
    let rest = write_lines rows in if has_newline v then rest else k <> "=" <> v <> "\n" <> rest

unfoldable pub site_ref : Device → String
site_ref d = if str_eq d.site_id "" then "default" else d.site_id

unfoldable pub led_enabled_value : Device → String
led_enabled_value d =
    let override = if str_eq d.led_override "" then "default" else d.led_override in
    if not d.disabled && (str_eq override "on" || str_eq override "default")
    then "true"
    else "false"

unfoldable pub advert_host : Deps → Device → String
advert_host D d =
    if not (str_eq (D.urls.host D.controller_url) "")
    then D.urls.host D.controller_url
    else if not (str_eq (D.urls.host d.inform_url) "")
    then D.urls.host d.inform_url
    else d.ip

unfoldable pub inform_url_port_for : Urls → String → String → String
inform_url_port_for U controller_url inform_listen_addr =
    if not (str_eq (U.port controller_url) "")
    then U.port controller_url
    else if not (str_eq (U.listen_port inform_listen_addr) "")
    then U.listen_port inform_listen_addr
    else "8080"

unfoldable pub inform_url_for : Urls → String → String → String
inform_url_for U controller_url inform_listen_addr =
    let host = U.host controller_url in
    if str_eq host ""
    then ""
    else "http://"
      <> host
      <> ":"
      <> inform_url_port_for U controller_url inform_listen_addr
      <> "/inform"

unfoldable pub mgmt_port : Deps → String
mgmt_port D =
    if not (D.urls.is_https D.controller_url)
    then "8443"
    else if str_eq (D.urls.port D.controller_url) ""
    then "443"
    else D.urls.port D.controller_url

abbrev when : Bool → Row → List Row
when b row = if b then row ∷ [] else []

-- The device holds an assignment, and the key it used is another.
unfoldable pub announces : Device → String → Bool
announces d used = not (str_eq d.x_authkey "") && not (equal_fold used d.x_authkey)

unfoldable pub mgmt_rows : Deps → Device → String → List Row
unfolding site_ref led_enabled_value announces
mgmt_rows D d used =
    let host = advert_host D d in
    let authority = if str_eq (mgmt_port D) "443" then host else host <> ":" <> mgmt_port D in
    ("capability", "notif,notif-assoc-stat")
    ∷ ("selfrun_guest_mode", "pass")
    ∷ ("cfgversion", d.cfg_version)
    ∷ ("led_enabled", led_enabled_value d)
    ∷ ("stun_url", "stun://" <> host <> ":3478/")
    ∷ ("mgmt_url", "https://" <> authority <> "/manage/site/" <> site_ref d)
    ∷ (when (announces d used) ("authkey", d.x_authkey)
        ++ (when (not (str_eq D.controller_url "") && not (str_eq host "")) (
          "inform_url",
          "http://"
              <> host
              <> ":"
              <> inform_url_port_for D.urls D.controller_url D.inform_listen_addr
              <> "/inform",
        )
            ++ (("use_aes_gcm", "true") ∷ ("report_crash", "true") ∷ [])))

unfoldable pub build_mgmt_cfg : Deps → Device → String → String
unfolding write_lines
build_mgmt_cfg D d used = write_lines (mgmt_rows D d used)
