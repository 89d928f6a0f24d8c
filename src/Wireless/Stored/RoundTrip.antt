-- ===== src/Wireless/Stored/RoundTrip.antt =====
-- `DecodeStoredWlans` after `EncodeStoredWlans`.
use open_unifi.Base.{List, [], ◌∷◌, map, ◌≡◌, refl, ap, some, ◌∙◌}
use open_unifi.Wireless.Wlan.{Wlan, RadiusServer, RadiusAcctServer}
use open_unifi.Wireless.Stored.{
  WlanJson, ReadsStored, stored_auth, stored_acct, auth_row, acct_row, stored_record, as_stored,
  merge_spellings, encode_stored_wlans, decode_stored_wlans, merged,
}

auth-round : (ss : List RadiusServer) → map auth_row (map stored_auth ss) ≡ ss
unfolding auth_row stored_auth
auth-round [] = refl
auth-round (s ∷ ss) = ap (λ r. s ∷ r) (auth-round ss)

acct-round : (ss : List RadiusAcctServer) → map acct_row (map stored_acct ss) ≡ ss
unfolding acct_row stored_acct
acct-round [] = refl
acct-round (s ∷ ss) = ap (λ r. s ∷ r) (acct-round ss)

wlan-round : (w : Wlan) → merge_spellings (as_stored (stored_record w)) ≡ w
wlan-round w =
    unfold merge_spellings as_stored stored_record in
    λ i. record w {
      radius_servers = auth-round w.radius_servers i;
      acct_servers = acct-round w.acct_servers i;
    }

wlans-round : (ws : List Wlan) → map merge_spellings (map as_stored (map stored_record ws)) ≡ ws
wlans-round [] = refl
wlans-round (w ∷ ws) = λ i. wlan-round w i ∷ wlans-round ws i

-- A stored WLAN list is read back whole, where encoding/json reads what it wrote: no field of any WLAN is lost between the two spellings.
pub decode_stored_wlans-encode :
    (J : WlanJson) (ws : List Wlan)
    → ReadsStored J (map stored_record ws)
    → decode_stored_wlans J (encode_stored_wlans J ws) ≡ some ws
unfolding decode_stored_wlans encode_stored_wlans
decode_stored_wlans-encode J ws law = ap (merged J) law ∙ ap some (wlans-round ws)
