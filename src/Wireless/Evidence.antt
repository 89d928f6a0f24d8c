-- ===== src/Wireless/Evidence.antt =====
-- internal/wireless/vap_evidence.go: the reading of the VAP table that an inform reports.
use Prim.Native.String.{String}
use open_unifi.Base.{
  ℕ, Bool, true, false, ◌||◌, Option, none, some, List, [], ◌∷◌, ltb, length, if◌then◌else◌,
}
use open_unifi.Base.Text.{str_eq, equal_fold}
use open_unifi.Store.Value.{Value, arr, obj, to_list}
use open_unifi.Wireless.Json.{json_str}

pub record VapRun : Type 0 where
  pub name : String
  pub ssid : String
  pub radio : String

pub record VapEvidence : Type 0 where
  pub present : Bool
  pub rows : ℕ
  pub running : List VapRun

-- One row of the table, if it is an object in the state RUN.
unfoldable pub read_run : Value → Option VapRun
unfolding equal_fold json_str
read_run (obj m) =
    if equal_fold (json_str m "state" (json_str m "status" "")) "RUN"
    then some (record {
      name = json_str m "name" "";
      ssid = json_str m "essid" (json_str m "ssid" "");
      radio = json_str m "radio_name" (json_str m "parent" "");
    })
    else none
read_run _ = none

keep : Option VapRun → List VapRun → List VapRun
keep none rest = rest
keep (some r) rest = r ∷ rest

unfoldable pub read_runs : List Value → List VapRun
unfolding read_run keep
read_runs [] = []
read_runs (v ∷ vs) = keep (read_run v) (read_runs vs)

abbrev no_evidence : VapEvidence
no_evidence = record { present = false; rows = 0; running = [] }

unfoldable pub read_vap_evidence : Option Value → VapEvidence
unfolding read_runs
read_vap_evidence (some (arr vs)) = record {
  present = true;
  rows = length (to_list vs);
  running = read_runs (to_list vs);
}
read_vap_evidence _ = no_evidence

abbrev pub is_known : VapEvidence → Bool
is_known e = ltb 0 e.rows

-- Some running row carries the SSID.
abbrev pub runs_ssid : String → List VapRun → Bool
runs_ssid s [] = false
runs_ssid s (r ∷ rs) = str_eq r.ssid s || runs_ssid s rs

abbrev pub runs_name : String → List VapRun → Bool
runs_name s [] = false
runs_name s (r ∷ rs) = str_eq r.name s || runs_name s rs

unfoldable pub ssid_running : VapEvidence → String → Bool
ssid_running e s = if str_eq s "" then false else runs_ssid s e.running

unfoldable pub devname_running : VapEvidence → String → Bool
devname_running e s = if str_eq s "" then false else runs_name s e.running
