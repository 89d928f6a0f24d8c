-- ===== src/Adoption/Types.antt =====
-- internal/server/adoption/engine.go: requests, outcomes, the injected dependencies, and the monad
-- of a decision.
use Prim.Native.String.{String}
use open_unifi.Base.{ℕ, suc, ◌≤◌, ◌≡◌, Bool, false, Option, none, some, List, []}
use open_unifi.Base.Results.{Result, ok, err}
use open_unifi.Store.Value.{JsonMap, Fields, no_rows}
use open_unifi.Store.Device.{Device}
use open_unifi.Wireless.Wlan.{Wlan}
use open_unifi.Wireless.Plan.{ProvisioningPlan}
use open_unifi.Wireless.Plan.Hash.{HashRow}
use open_unifi.Wireless.Delivery.{Formats}

-- "ba86f2bbe107c7c57eb5f2690775c712"
abbrev pub default_key_hex : String
default_key_hex = "ba86f2bbe107c7c57eb5f2690775c712"

pub data Transport : Type 0 where
  encrypted plaintext : Transport

pub record Request : Type 0 where
  pub transport : Transport
  pub device : Device
  pub body : JsonMap
  pub used_key : String
  pub now : ℕ
  pub prev_noop_target : ℕ

pub data Kind : Type 0 where
  noop noop_pending_wlan setparam reboot setdefault cmd blocked_sta_reconnect : Kind

pub record Outcome : Type 0 where
  pub kind : Kind
  pub interval : ℕ
  pub new_noop_target : ℕ
  pub persist_noop_target : Bool
  pub full_provision : Bool
  pub system_cfg : String
  pub blocked_sta : String
  pub mgmt_cfg : String
  pub credential_deltas : List (String × String)
  pub set_state : Bool
  pub state : ℕ
  pub set_x_authkey : Bool
  pub x_authkey : String
  pub set_cfg_version : Bool
  pub cfg_version : String
  pub set_applied_cfg : Bool
  pub applied_cfg : String
  pub set_authkeys : Bool
  pub authkeys : List String
  pub set_key_confirmed : Bool
  pub key_confirmed : Bool
  pub extra : JsonMap
  pub cmd_task : Option Fields

-- `Outcome{Kind: kind}`
abbrev pub outcome : Kind → Outcome
outcome kind = record {
  kind = kind;
  interval = 0;
  new_noop_target = 0;
  persist_noop_target = false;
  full_provision = false;
  system_cfg = "";
  blocked_sta = "";
  mgmt_cfg = "";
  credential_deltas = [];
  set_state = false;
  state = 0;
  set_x_authkey = false;
  x_authkey = "";
  set_cfg_version = false;
  cfg_version = "";
  set_applied_cfg = false;
  applied_cfg = "";
  set_authkeys = false;
  authkeys = [];
  set_key_confirmed = false;
  key_confirmed = false;
  extra = no_rows;
  cmd_task = none;
}

pub data EngineError : Type 0 where
  default_key_rejected : EngineError
  key_chars_failed : EngineError
  render_failed : String → EngineError

abbrev pub M : Type 0 → Type 0
M A = ℕ → Result EngineError (A × ℕ)

abbrev pub bound :
    {A B : Type 0} → Result EngineError (A × ℕ) → (A → M B) → Result EngineError (B × ℕ)
bound (ok (a, n)) f = f a n
bound (err e) f = err e

infixl 5 ◌>>=◌
abbrev pub ◌>>=◌ : {A B : Type 0} → M A → (A → M B) → M B
◌>>=◌ m f n = bound (m n) f

abbrev pub pure : {A : Type 0} → A → M A
pure a n = ok (a, n)

abbrev pub raise : {A : Type 0} → EngineError → M A
raise e n = err e

-- The floating-point steps of the noop scheduler: the draw, the clamp's tests and constants, and
-- the two whole numbers that are computed from a clamped draw.
pub record Jitter : Type 1 where
  pub Float : Type 0
  pub is_negative : Float → Bool  -- r < 0
  pub is_one_or_more : Float → Bool  -- r >= 1
  pub zero_float : Float
  pub below_one : Float  -- math.Nextafter(1, 0)
  pub floor_times_five : Float → ℕ  -- int64(math.Floor(r * 5))
  pub floor_cap : Float → ℕ  -- int64(math.Floor(90 * (1 - 0.7 * r)))

-- What IEEE arithmetic gives for a draw in [0, 1).
pub record IsLawful (J : Jitter) : Type 0 where
  pub zero_in : (J.is_negative J.zero_float ≡ false) × (J.is_one_or_more J.zero_float ≡ false)
  pub below_one_in : (J.is_negative J.below_one ≡ false) × (J.is_one_or_more J.below_one ≡ false)
  pub five_bound :
      (r : J.Float)
      → J.is_negative r ≡ false
      → J.is_one_or_more r ≡ false
      → J.floor_times_five r ≤ 4
  pub cap_bounds :
      (r : J.Float)
      → J.is_negative r ≡ false
      → J.is_one_or_more r ≡ false
      → (27 ≤ J.floor_cap r) × (J.floor_cap r ≤ 90)

-- net/url and net: the parts of an address that the builder reads; "" where Go fails or has none.
pub record Urls : Type 0 where
  pub host : String → String
  pub port : String → String
  pub is_https : String → Bool
  pub listen_port : String → String

-- `Deps`. `key_chars k n` is what the `k`-th draw of `n` characters gives, `none` being its
-- failure; `render` is `SystemCfg`: the text and the credential deltas, or the error's text.
pub record Deps : Type 1 where
  pub jitter : Jitter
  pub random : jitter.Float
  pub key_chars : ℕ → ℕ → Option String
  pub wireless : Device → List Wlan
  pub render :
      Device → List Wlan → ProvisioningPlan → Result String (String × List (String × String))
  pub controller_url : String
  pub inform_listen_addr : String
  pub urls : Urls
  pub formats : Formats
  pub sha256_hex : String → String
  pub sha256_24 : String → String
  pub hash_rows : List HashRow → String

-- `e.keyChars(n)`, the next draw.
unfoldable pub drawn : Option String → M String
drawn none = raise key_chars_failed
drawn (some s) = pure s

unfoldable pub key_chars : Deps → ℕ → M String
unfolding drawn
key_chars D n k = drawn (D.key_chars k n) (suc k)
