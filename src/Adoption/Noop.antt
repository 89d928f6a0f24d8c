-- ===== src/Adoption/Noop.antt =====
-- internal/server/adoption/engine.go: `noopFor`, the noop scheduler. Times are Unix seconds, far
-- from the bounds of int64; a draw and what is computed from it are those of the record `Jitter`.
pub mod Bounds
use Prim.Native.String.{String}
use open_unifi.Base.{
  ℕ, ◌+◌, ◌-◌, Bool, true, false, ◌&&◌, ◌||◌, List, [], ◌∷◌, map, ltb, leb, ◌==◌, if◌then◌else◌,
}
use open_unifi.Base.Text.{codes}
use open_unifi.Store.Value.{JsonMap, truthy}
use open_unifi.Store.Device.{Device}
use open_unifi.Adoption.Types.{Jitter, Outcome, Kind, outcome}

-- `strings.ToUpper` on ASCII; no other rune has an upper case among the letters searched for.
upper_code : ℕ → ℕ
upper_code c = if leb b'a' c && leb c b'z' then c - 32 else c

starts : List ℕ → List ℕ → Bool
starts [] s = true
starts (a ∷ p) [] = false
starts (a ∷ p) (b ∷ s) = a == b && starts p s

holds : List ℕ → List ℕ → Bool
holds p [] = starts p []
holds p (b ∷ s) = starts p (b ∷ s) || holds p s

unfoldable pub is_ubios : String → Bool
unfolding upper_code starts holds
is_ubios model =
    let m = map upper_code (codes model) in holds (codes "UDM") m || holds (codes "UXG") m

unfoldable pub max_int64 : ℕ → ℕ → ℕ
max_int64 a b = if ltb b a then a else b

module _ (J : Jitter) where
  -- The clamp of a draw to [0, 1).
  unfoldable pub clamp : J.Float → J.Float
  clamp r = if J.is_negative r then J.zero_float else if J.is_one_or_more r then J.below_one else r

  unfoldable pub noop_target : J.Float → ℕ → ℕ → ℕ
  unfolding max_int64
  noop_target r now prev =
      let previous = if prev == 0 then now else prev in
      max_int64 (previous + 5) (now + 10) + J.floor_times_five r

  -- The branch without a watcher, on a clamped draw. The target is after `now`, so the difference
  -- does not stop at 0.
  unfoldable pub jittered : J.Float → ℕ → ℕ → Kind → Outcome
  unfolding noop_target
  jittered r now prev kind =
      let target = noop_target r now prev in
      if ltb (target - now) 90
      then record (outcome kind) {
        interval = target - now;
        new_noop_target = target;
        persist_noop_target = true;
      }
      else record (outcome kind) { interval = J.floor_cap r }

  unfoldable pub noop_for : J.Float → Device → ℕ → ℕ → Kind → Outcome
  unfolding is_ubios clamp jittered
  noop_for draw d now prev kind =
      if is_ubios d.model
      then record (outcome kind) { interval = 10 }
      else if truthy (d.extra "watching")
      then record (outcome kind) { interval = 5 }
      else jittered (clamp draw) now prev kind
