-- ===== src/Adoption/Noop/Bounds.antt =====
-- Bounds of what the noop scheduler answers, and the target that it asks to keep.
use open_unifi.Base.{
  ℕ, ◌+◌, ◌-◌, ◌≤◌, ◌≡◌, ◌⊎◌, inl, inr, refl, false, ltb, ◌==◌, if◌then◌else◌, arith, Bool-cases,
}
use open_unifi.Store.Value.{truthy}
use open_unifi.Store.Device.{Device}
use open_unifi.Adoption.Types.{Jitter, IsLawful, Outcome, Kind}
use open_unifi.Adoption.Noop.{is_ubios, max_int64, clamp, noop_target, jittered, noop_for}

module _ (J : Jitter) (law : IsLawful J) where
  clamp_in :
      (r : J.Float) → (J.is_negative (clamp J r) ≡ false) × (J.is_one_or_more (clamp J r) ≡ false)
  unfolding clamp
  clamp_in r = elim (Bool-cases (J.is_negative r)) [
    | inl neg ↦ rw neg law.zero_in
    | inr pos ↦ rw pos (elim (Bool-cases (J.is_one_or_more r)) [
      | inl big ↦ rw big law.below_one_in
      | inr low ↦ rw low (pos, low)
    ])
  ]

  target_bounds :
      (five now prev : ℕ)
      → let target = max_int64 ((if prev == 0 then now else prev) + 5) (now + 10) + five in
        (now + 10 ≤ target) × (prev + 5 ≤ target)
  unfolding max_int64
  target_bounds five now prev = ground arith

  -- What the scheduler promises of an answer at `now` with the kept target `prev`.
  abbrev pub Scheduled : ℕ → ℕ → Outcome → Type 0
  Scheduled now prev out =
      (5 ≤ out.interval)
      × (out.interval ≤ 90)
      × ((out.persist_noop_target ≡ false)
          ⊎ ((out.new_noop_target ≡ now + out.interval) × (prev + 5 ≤ out.new_noop_target)))

  jittered-Scheduled :
      (r : J.Float) (now prev : ℕ) (kind : Kind)
      → J.is_negative r ≡ false
      → J.is_one_or_more r ≡ false
      → Scheduled now prev (jittered J r now prev kind)
  unfolding jittered noop_target
  jittered-Scheduled r now prev kind low high =
      let target = noop_target J r now prev in
      let (after, far) = target_bounds (J.floor_times_five r) now prev in
      elim (Bool-cases (ltb (target - now) 90)) [
        | inl near ↦ rw near (omega arith, ground arith, inr (omega arith, far))
        | inr over ↦
            rw over (
              omega (arith, (law.cap_bounds r low high).0),
              (law.cap_bounds r low high).1,
              inl refl,
            )
      ]

  -- Every noop interval lies between 5 and 90 seconds, whatever the draw, the model, the watcher
  -- and the kept target are; and where the answer asks to keep a new target, that target is the
  -- moment the interval ends, at least 5 seconds after the one kept before.
  pub noop_for-Scheduled :
      (draw : J.Float) (d : Device) (now prev : ℕ) (kind : Kind)
      → Scheduled now prev (noop_for J draw d now prev kind)
  unfolding noop_for
  noop_for-Scheduled draw d now prev kind = elim (Bool-cases (is_ubios d.model)) [
    | inl ubios ↦ rw ubios (omega arith, omega arith, inl refl)
    | inr other ↦ rw other (elim (Bool-cases (truthy (d.extra "watching"))) [
      | inl watched ↦ rw watched (omega arith, omega arith, inl refl)
      | inr idle ↦
          rw idle
            (jittered-Scheduled (clamp J draw) now prev kind (clamp_in draw).0 (clamp_in draw).1)
    ])
  ]
