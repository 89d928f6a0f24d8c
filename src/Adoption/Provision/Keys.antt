-- ===== src/Adoption/Provision/Keys.antt =====
-- The key history of a record.
use Prim.Native.String.{String}
use open_unifi.Base.{
  ℕ, suc, ◌-◌, ◌≤◌, drop, if◌then◌else◌, some, inl, inr, List, [], ◌∷◌, ◌++◌, length, ◌≡◌, refl,
  Bool-cases, arith,
}
use open_unifi.Base.Results.{ok}
use open_unifi.Store.Mac.{lower_text}
use open_unifi.Store.Device.{Device, state_adopting}
use open_unifi.Adoption.Types.{Deps, key_chars, drawn}
use open_unifi.Adoption.Provision.{lists_key, add_key, newest_two, rotate_keys}

-- The newest key of a history, where it has one.
abbrev pub newest : List String → List String
newest keys = drop (length keys - 1) keys

newest_two-short : (keys : List String) → length keys ≤ 2 → newest_two keys ≡ keys
unfolding newest_two
newest_two-short [] h = refl
newest_two-short (a ∷ []) h = refl
newest_two-short (a ∷ b ∷ []) h = refl
newest_two-short (a ∷ b ∷ c ∷ ks) h = absurd (omega arith)

newest_two-appended :
    (keys : List String) (key : String)
    → length keys ≤ 2
    → newest_two (keys ++ (key ∷ [])) ≡ newest keys ++ (key ∷ [])
unfolding newest_two
newest_two-appended [] key h = refl
newest_two-appended (a ∷ []) key h = refl
newest_two-appended (a ∷ b ∷ []) key h = refl
newest_two-appended (a ∷ b ∷ c ∷ ks) key h = absurd (omega arith)

added :
    (keys : List String) (key : String)
    → length keys ≤ 2
    → newest_two (add_key keys key)
      ≡ (if lists_key (lower_text key) keys then keys else newest keys ++ (lower_text key ∷ []))
unfolding add_key
added keys key h = elim (Bool-cases (lists_key (lower_text key) keys)) [
  | inl held ↦ rw (held, newest_two-short keys h) refl
  | inr fresh ↦ rw (fresh, newest_two-appended keys (lower_text key) h) refl
]

rotated :
    (D : Deps) (d : Device) (n : ℕ) (xk cv : String)
    → D.key_chars n 32 ≡ some xk
    → D.key_chars (suc n) 16 ≡ some cv
    → rotate_keys D d n
      ≡ ok (
        record d {
          x_authkey = xk;
          cfg_version = cv;
          authkeys = newest_two (add_key d.authkeys xk);
          state = state_adopting;
        },
        suc (suc n),
      )
unfolding rotate_keys key_chars drawn
rotated D d n xk cv h g = rw (h, g)

-- What a rotation leaves of the record `d`, the new key being `xk` and the new version `cv`: all
-- else is as it was.
abbrev pub IsRotated : Device → String → String → Device → Type 0
IsRotated d xk cv after =
    (after.authkeys ≡ (
      if lists_key (lower_text xk) d.authkeys
      then d.authkeys
      else newest d.authkeys ++ (lower_text xk ∷ [])))
    × (after ≡ record d {
      x_authkey = xk;
      cfg_version = cv;
      state = state_adopting;
      authkeys = after.authkeys;
    })

-- A rotation of a record with at most two keys in its history succeeds where both draws do, and
-- takes two: the record is adopting with the drawn key and version, its history is the newest key
-- that it had, for the rotation window, and after it the new one in lower case, or stays as it is
-- where it holds the new one already, in any case; and nothing else of the record changes.
pub rotate_keys-IsRotated :
    (D : Deps) (d : Device) (n : ℕ) (xk cv : String)
    → D.key_chars n 32 ≡ some xk
    → D.key_chars (suc n) 16 ≡ some cv
    → length d.authkeys ≤ 2
    → (after : Device) × (rotate_keys D d n ≡ ok (after, suc (suc n))) × IsRotated d xk cv after
rotate_keys-IsRotated D d n xk cv h g short = (
  record d {
    x_authkey = xk;
    cfg_version = cv;
    authkeys = newest_two (add_key d.authkeys xk);
    state = state_adopting;
  },
  rotated D d n xk cv h g,
  (added d.authkeys xk short, refl),
)
