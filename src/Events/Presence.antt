-- ===== src/Events/Presence.antt =====
-- What the client events mean: each client is on one access point or on none, and an event is a
-- step of that. This is the view of a reader of the event log (internal/clientevents).
use Prim.Native.String.{String}
use text.Mathlib.TextEquality.{eq_iff}
use open_unifi.Base.{
  false, Option, none, some, List, [], ◌∷◌, ◌++◌, ◌≡◌, refl, sym, ap, ◌∙◌, subst, if◌then◌else◌,
  Bool-cases, inl, inr,
}
use open_unifi.Base.Text.{str_eq}
use open_unifi.Store.Mac.{colon_mac}
use open_unifi.Events.Event.{Event, key_connected, key_disconnected, key_roam, key_roam_radio}

-- Where each client is.
abbrev pub World : Type 0
World = String → Option String

abbrev pub move : String → Option String → World → World
move c o w k = if str_eq k c then o else w k

-- An event about the client with the canonical MAC `c`, and what it makes of the world.
pub data Moves : World → Event → World → Type 0 where
  event_connected :
      {w : World} {e : Event} (c : String)
      → e.key ≡ key_connected
      → e.client ≡ colon_mac c
      → w c ≡ none
      → Moves w e (move c (some e.ap) w)
  event_disconnected :
      {w : World} {e : Event} (c : String)
      → e.key ≡ key_disconnected
      → e.client ≡ colon_mac c
      → w c ≡ some e.ap
      → Moves w e (move c none w)
  event_roamed :
      {w : World} {e : Event} (c : String)
      → e.key ≡ key_roam
      → e.client ≡ colon_mac c
      → w c ≡ some e.ap_from
      → str_eq e.ap_from e.ap_to ≡ false
      → Moves w e (move c (some e.ap_to) w)
  event_roamed_radio :
      {w : World} {e : Event} (c : String)
      → e.key ≡ key_roam_radio
      → e.client ≡ colon_mac c
      → w c ≡ some e.ap
      → Moves w e w

-- A list of events, each a step from where the one before left off.
pub data Run : World → List Event → World → Type 0 where
  stay : {w : World} → Run w [] w
  next : {u v w : World} {e : Event} {es : List Event} → Moves u e v → Run v es w → Run u (e ∷ es) w

pub Run-append : {u v w : World} {es fs : List Event} → Run u es v → Run v fs w → Run u (es ++ fs) w
Run-append stay r = r
Run-append (next m q) r = next m (Run-append q r)

pub same_world : (v w : World) → ((k : String) → v k ≡ w k) → v ≡ w
same_world v w h = λ i k. h k i

pub one : {u v w : World} {e : Event} → Moves u e v → v ≡ w → Run u (e ∷ []) w
one {u} {e = e} m same = subst (λ x. Run u (e ∷ []) x) same (next m stay)

pub move-move : (c : String) (o p : Option String) (w : World) → move c o (move c p w) ≡ move c o w
move-move c o p w =
    same_world _ _ (λ k. elim (Bool-cases (str_eq k c)) [ inl e ↦ rw e refl | inr e ↦ rw e refl ])

pub move-stay : (c : String) (o : Option String) (w : World) → w c ≡ o → move c o w ≡ w
move-stay c o w at = same_world _ _ (λ k. elim (Bool-cases (str_eq k c)) [
  | inl e ↦ rw e (sym at ∙ ap w (sym ((eq_iff k c).0 e)))
  | inr e ↦ rw e refl
])
