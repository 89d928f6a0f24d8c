-- ===== src/Server/Discovery/Listener/Replay.antt =====
-- The memory against replays over one packet: it stays guarded by a packet that was taken.
use Prim.Native.String.{String}
use text.Mathlib.TextEquality.{eq_iff}
use open_unifi.Base.{
  ℕ, ◌+◌, ◌-◌, ◌≤◌, ◌<◌, Bool, true, false, not, Option, none, some, List, ◌≡◌, refl, sym, ap, ◌∙◌,
  subst, if◌then◌else◌, Bool-cases, inl, inr, ltb, leb, length, arith,
}
use open_unifi.Base.Text.{str_eq}
use open_unifi.Base.Tables.{find, bind, find-bind, find-bind_self, some_injective, some_ne_none}
use open_unifi.Base.Tables.Entries.{find-keep_if}
use open_unifi.Server.Discovery.Listener.{
  discovery_dedup_window, discovery_prune_threshold, DiscoverySighting, is_repeat, prune, pruned,
  see_discovery,
}

-- A packet as the memory sees it.
pub record Sighted : Type 0 where
  pub now : ℕ
  pub key : String
  pub seq : ℕ

abbrev sighting : Sighted → DiscoverySighting
sighting p = record { last_seq = p.seq; last_seen = p.now }

abbrev pub or_kept {ℓ} : {A : Type ℓ} → Option A → A → A
or_kept none old = old
or_kept (some new) old = new

find-prune :
    (now : ℕ) (k : String) (v : DiscoverySighting) (t : List (String × DiscoverySighting))
    → leb discovery_dedup_window (now - v.last_seen) ≡ false
    → find k t ≡ some v
    → find k (prune now t) ≡ some v
unfolding prune
find-prune now k v t fresh found =
    find-keep_if (λ e. not (leb discovery_dedup_window (now - e.1.last_seen))) k v t (rw fresh refl)
      found

find-pruned :
    (now : ℕ) (k : String) (v : DiscoverySighting) (t : List (String × DiscoverySighting))
    → leb discovery_dedup_window (now - v.last_seen) ≡ false
    → find k t ≡ some v
    → find k (pruned now t) ≡ some v
find-pruned now k v t fresh found = elim (Bool-cases (ltb discovery_prune_threshold (length t))) [
  | inl many ↦ rw many (find-prune now k v t fresh found)
  | inr few ↦ rw few found
]

passed_over {ℓ} : {A : Type ℓ} (b : Bool) (x : Option A) → b ≡ true → (if b then none else x) ≡ none
passed_over b x e = rw e refl

module _ (k : String) (s₀ t₀ : ℕ) where
  -- The memory has the sender with a number and a time no lower than these.
  abbrev pub IsGuarded : List (String × DiscoverySighting) → Type 0
  IsGuarded seen =
      (v : DiscoverySighting) × (find k seen ≡ some v) × (s₀ ≤ v.last_seq) × (t₀ ≤ v.last_seen)

  later_seq :
      (now seq : ℕ) (v : DiscoverySighting)
      → now < t₀ + discovery_dedup_window
      → t₀ ≤ v.last_seen
      → is_repeat now seq (some v) ≡ false
      → v.last_seq < seq
  later_seq now seq v soon since new = ground arith

  pub see-IsGuarded :
      (p : Sighted) (seen : List (String × DiscoverySighting))
      → t₀ ≤ p.now
      → p.now < t₀ + discovery_dedup_window
      → IsGuarded seen
      → IsGuarded (or_kept (see_discovery p.now p.key p.seq seen) seen)
  unfolding see_discovery
  see-IsGuarded p seen from_ soon (v, found, s, t) =
      elim (Bool-cases (is_repeat p.now p.seq (find p.key seen))) [
        | inl again ↦ rw again (v, found, s, t)
        | inr new ↦ rw new (elim (Bool-cases (str_eq k p.key)) [
          | inl e ↦
              let now_seen = sighting p in
              let here = ap (λ x. find x seen) (sym ((eq_iff k p.key).0 e)) ∙ found in
              let higher = later_seq p.now p.seq v soon t (rw here at new) in
              (
                now_seen,
                find-pruned p.now k now_seen (bind p.key now_seen seen) (ground arith)
                    (find-bind k p.key now_seen seen ∙ rw e refl),
                omega (arith, higher, s),
                from_,
              )
          | inr e ↦
              let now_seen = sighting p in
              (
                v,
                find-pruned p.now k v (bind p.key now_seen seen) (ground (arith, soon, t))
                    (find-bind k p.key now_seen seen ∙ rw e found),
                s,
                t,
              )
        ])
      ]

  pub first-IsGuarded :
      (seen after : List (String × DiscoverySighting))
      → see_discovery t₀ k s₀ seen ≡ some after
      → IsGuarded after
  unfolding see_discovery
  first-IsGuarded seen after done =
      let now_seen = sighting (record { now = t₀; key = k; seq = s₀ }) in
      elim (Bool-cases (is_repeat t₀ s₀ (find k seen))) [
        | inl again ↦ absurd (some_ne_none after (sym (rw again at done)))
        | inr new ↦
            subst IsGuarded
              (some_injective (pruned t₀ (bind k now_seen seen)) after (rw new at done))
              (
                now_seen,
                find-pruned t₀ k now_seen (bind k now_seen seen) (ground arith)
                    (find-bind_self k now_seen seen),
                omega arith,
                omega arith,
              )
      ]

  still_repeat :
      (now seq : ℕ) (v : DiscoverySighting)
      → now < t₀ + discovery_dedup_window
      → seq ≤ s₀
      → s₀ ≤ v.last_seq
      → t₀ ≤ v.last_seen
      → is_repeat now seq (some v) ≡ true
  still_repeat now seq v soon low s t = ground arith

  pub guarded_repeat :
      (now seq : ℕ) (seen : List (String × DiscoverySighting))
      → now < t₀ + discovery_dedup_window
      → seq ≤ s₀
      → IsGuarded seen
      → see_discovery now k seq seen ≡ none
  unfolding see_discovery
  guarded_repeat now seq seen soon low (v, found, s, t) =
      rw found (passed_over _ _ (still_repeat now seq v soon low s t))
