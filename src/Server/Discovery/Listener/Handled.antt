-- ===== src/Server/Discovery/Listener/Handled.antt =====
-- The listener over a sequence of datagrams, and the repeats among them.
use Prim.Native.String.{String}
use open_unifi.Base.{
  ℕ, ◌+◌, ◌≤◌, ◌<◌, false, not, ◌&&◌, ◌||◌, Option, none, some, List, [], ◌∷◌, ◌≡◌, refl, sym, ap,
  ◌∙◌, subst, ◌==◌, ◌⊎◌, inl, inr, Bool-cases, All,
}
use open_unifi.Base.Results.{Result, ok, err}
use open_unifi.Inform.Bytes.{Bytes}
use open_unifi.Server.Discovery.{
  DiscoveryInfo, discovery_mac_string, read_modern, parse_discovery_v0,
}
use open_unifi.Server.Discovery.Listener.{
  Host, DiscoverySighting, DiscoverySightings, discovery_dedup_window, see_discovery,
  discovery_self_guard, discovery_model_blocked, valid_seq, after_repeat_gate, gates, gate_modern,
  or_version, parse_discovery, nothing, answer_query, react, handle_discovery_packet,
  discovery_site_local_ipv4, discovery_reply_enabled,
}
use open_unifi.Server.Discovery.Listener.Replay.{
  or_kept, IsGuarded, see-IsGuarded, first-IsGuarded, guarded_repeat,
}

pub record Datagram : Type 0 where
  pub now : ℕ
  pub src : Option Bytes
  pub packet : Bytes

-- The listener's state after the datagrams.
abbrev pub handle_all : Host → List Datagram → DiscoverySightings → DiscoverySightings
handle_all h [] st = st
handle_all h (g ∷ gs) st = handle_all h gs (handle_discovery_packet h g.now g.src g.packet st).1

-- A datagram leaves the memory against replays as it is, or as one packet makes it.
abbrev Sees : ℕ → DiscoverySightings → DiscoverySightings → Type 0
Sees now st after =
    (after.by_mac ≡ st.by_mac)
    ⊎ ((key : String) × (seq : ℕ) × (see_discovery now key seq st.by_mac ≡ some after.by_mac))

module _ (h : Host) (now : ℕ) (st : DiscoverySightings) where
  after_repeat_gate-Sees :
      (info : DiscoveryInfo) (key : String) (seq : ℕ)
      (r : Option (List (String × DiscoverySighting)))
      → see_discovery now key seq st.by_mac ≡ r
      → Sees now st (after_repeat_gate info st r).1
  after_repeat_gate-Sees info key seq none e = inl refl
  after_repeat_gate-Sees info key seq (some seen) e = inr (key, seq, e)

  gates-Sees :
      (info : DiscoveryInfo) (v : Option (Bytes × ℕ)) → Sees now st (gates h now info v st).1
  unfolding gates
  gates-Sees info none = inl refl
  gates-Sees info (some (mac, seq)) =
      elim (Bool-cases (discovery_self_guard h info || discovery_model_blocked info.model)) [
        | inl e ↦ rw e (inl refl)
        | inr e ↦ rw e (after_repeat_gate-Sees info (discovery_mac_string mac) seq _ refl)
      ]

  gate_modern-Sees : (o : Option DiscoveryInfo) → Sees now st (gate_modern h now o st).1
  unfolding gate_modern
  gate_modern-Sees none = inl refl
  gate_modern-Sees (some info) = elim (Bool-cases (info.ver == 2 && not (info.cmd == 8))) [
    | inl e ↦ rw e (gates-Sees info (valid_seq info))
    | inr e ↦ rw e (inl refl)
  ]

  or_version-state :
      (ver : ℕ) (r : Option DiscoveryInfo × DiscoverySightings) → (or_version ver r).1 ≡ r.1
  or_version-state ver (none, s) = refl
  or_version-state ver (some info, s) = refl

  parse_discovery-Sees :
      (src : Option Bytes) (b : Bytes) → Sees now st (parse_discovery h now src b st).1
  unfolding parse_discovery
  parse_discovery-Sees src [] = inl refl
  parse_discovery-Sees src (ver ∷ rest) = elim (Bool-cases (ver == 0)) [
    | inl e ↦ rw e (
        subst (Sees now st) (sym (or_version-state 0 (parse_discovery_v0 h.net (ver ∷ rest), st)))
          (inl refl))
    | inr e ↦ elim (Bool-cases (ver == 1 || ver == 2)) [
      | inl f ↦
          rw (e, f)
            (subst (Sees now st)
              (sym
                (or_version-state ver (gate_modern h now (read_modern h.net src (ver ∷ rest)) st)))
              (gate_modern-Sees (read_modern h.net src (ver ∷ rest))))
      | inr f ↦ rw (e, f) (inl refl)
    ]
  ]

  answer_query-memory :
      (src : Option Bytes) (info : DiscoveryInfo) (s : DiscoverySightings)
      → (answer_query h src info s).1.by_mac ≡ s.by_mac
  unfolding answer_query
  answer_query-memory src info s =
      elim (Bool-cases (
        discovery_site_local_ipv4 h.net src
        && not (discovery_self_guard h info)
        && discovery_reply_enabled h)) [ inl e ↦ rw e refl | inr e ↦ rw e refl ]

  react-memory :
      (src : Option Bytes) (r : Result ℕ DiscoveryInfo × DiscoverySightings)
      → (react h src r).1.by_mac ≡ r.1.by_mac
  react-memory src (err ver, s) = refl
  react-memory src (ok info, s) = elim (Bool-cases (info.ver == 2 && info.cmd == 8)) [
    | inl e ↦ rw e (answer_query-memory src info s)
    | inr e ↦ rw e refl
  ]

  -- What the listener leaves in its memory, guarded by a packet that came before.
  handled-IsGuarded :
      (k : String) (s₀ t₀ : ℕ) (src : Option Bytes) (b : Bytes)
      → t₀ ≤ now
      → now < t₀ + discovery_dedup_window
      → IsGuarded k s₀ t₀ st.by_mac
      → IsGuarded k s₀ t₀ (handle_discovery_packet h now src b st).1.by_mac
  unfolding handle_discovery_packet
  handled-IsGuarded k s₀ t₀ src b from_ soon guarded =
      subst (IsGuarded k s₀ t₀) (sym (react-memory src (parse_discovery h now src b st)))
        (elim (parse_discovery-Sees src b) [
          | inl same ↦ subst (IsGuarded k s₀ t₀) (sym same) guarded
          | inr (key, seq, seen) ↦ subst (IsGuarded k s₀ t₀) (ap (λ o. or_kept o st.by_mac) seen) (
              see-IsGuarded k s₀ t₀ (record { now = now; key = key; seq = seq }) st.by_mac from_
                soon guarded)
        ])

handle_all-IsGuarded :
    (h : Host) (k : String) (s₀ t₀ : ℕ) (gs : List Datagram) (st : DiscoverySightings)
    → All (λ g. (t₀ ≤ g.now) × (g.now < t₀ + discovery_dedup_window)) gs
    → IsGuarded k s₀ t₀ st.by_mac
    → IsGuarded k s₀ t₀ (handle_all h gs st).by_mac
handle_all-IsGuarded h k s₀ t₀ [] st times guarded = guarded
handle_all-IsGuarded h k s₀ t₀ (g ∷ gs) st ((from_, soon), times) guarded =
    handle_all-IsGuarded h k s₀ t₀ gs _ times
      (handled-IsGuarded h g.now st k s₀ t₀ g.src g.packet from_ soon guarded)

-- The datagram is a version 2 packet other than a query, which the parser reads with this MAC and
-- this number.
pub record IsNumbered (h : Host) (src : Option Bytes) (b : Bytes) (key : String) (seq : ℕ)
    : Type 0 where
  pub rest : Bytes
  pub begins : b ≡ 2 ∷ rest
  pub info : DiscoveryInfo
  pub reads : read_modern h.net src (2 ∷ rest) ≡ some info
  pub version : info.ver ≡ 2
  pub no_query : (info.cmd == 8) ≡ false
  pub mac : Bytes
  pub numbered : valid_seq info ≡ some (mac, seq)
  pub named : discovery_mac_string mac ≡ key

-- The parser's answer on such a packet is that of the gates.
gated :
    (h : Host) (now : ℕ) (src : Option Bytes) (b : Bytes) (key : String) (seq : ℕ)
    (st : DiscoverySightings) (p : IsNumbered h src b key seq)
    → parse_discovery h now src b st ≡ or_version 2 (gates h now p.info (some (p.mac, seq)) st)
unfolding parse_discovery gate_modern
gated h now src b key seq st p =
    ap (λ x. parse_discovery h now src x st) p.begins
    ∙ rw (p.reads, p.version, p.no_query, p.numbered) refl

not_taken :
    {A B : Type 0} {e : ℕ} {i : DiscoveryInfo} {s t : A}
    → ◌≡◌ {A = Result ℕ DiscoveryInfo × A} (err e, s) (ok i, t)
    → B
not_taken h = cc

opened :
    (info : DiscoveryInfo) (st after : DiscoverySightings)
    (r : Option (List (String × DiscoverySighting))) (heard : DiscoveryInfo)
    → or_version 2 (after_repeat_gate info st r) ≡ (ok heard, after)
    → r ≡ some after.by_mac
opened info st after none heard e = cc
opened info st after (some seen) heard e = ap (λ r. some r.1.by_mac) e

module _ (h : Host) (now : ℕ) (info : DiscoveryInfo) (mac : Bytes) (seq : ℕ)
    (st : DiscoverySightings) where
  gates-taken :
      (heard : DiscoveryInfo) (after : DiscoverySightings)
      → or_version 2 (gates h now info (some (mac, seq)) st) ≡ (ok heard, after)
      → see_discovery now (discovery_mac_string mac) seq st.by_mac ≡ some after.by_mac
  unfolding gates
  gates-taken heard after e =
      elim (Bool-cases (discovery_self_guard h info || discovery_model_blocked info.model)) [
        | inl shut ↦ absurd (not_taken (rw shut at e))
        | inr pass ↦ opened info st after _ heard (rw pass at e)
      ]

  gates-repeat :
      see_discovery now (discovery_mac_string mac) seq st.by_mac ≡ none
      → gates h now info (some (mac, seq)) st ≡ (none, st)
  unfolding gates
  gates-repeat e =
      elim (Bool-cases (discovery_self_guard h info || discovery_model_blocked info.model)) [
        | inl shut ↦ rw shut refl
        | inr pass ↦ rw (pass, e) refl
      ]

-- A version 2 packet other than a query that the listener has accepted is not accepted again:
-- whatever datagrams come within five seconds of it, none of them before it, a datagram with the
-- same MAC and the same number or a lower one, still within the five seconds, makes the listener do
-- nothing, and leaves its state as it was.
pub handle_discovery_packet-no_replay :
    (h : Host) (t₀ : ℕ) (src : Option Bytes) (b : Bytes) (key : String) (s₀ : ℕ)
    (st after : DiscoverySightings) (info : DiscoveryInfo)
    → IsNumbered h src b key s₀
    → parse_discovery h t₀ src b st ≡ (ok info, after)
    → (gs : List Datagram) → All (λ g. (t₀ ≤ g.now) × (g.now < t₀ + discovery_dedup_window)) gs
    → (now seq : ℕ) (from_ : Option Bytes) (again : Bytes) → IsNumbered h from_ again key seq
    → now < t₀ + discovery_dedup_window
    → seq ≤ s₀
    → handle_discovery_packet h now from_ again (handle_all h gs after)
      ≡ (nothing, handle_all h gs after)
unfolding handle_discovery_packet
handle_discovery_packet-no_replay h t₀ src b key s₀ st after info p taken gs times now seq from_
      again q soon low =
    let later = handle_all h gs after in
    let seen =
      gates-taken h t₀ p.info p.mac s₀ st info after (sym (gated h t₀ src b key s₀ st p) ∙ taken) in
    let guarded = handle_all-IsGuarded h key s₀ t₀ gs after times (
      first-IsGuarded key s₀ t₀ st.by_mac after.by_mac
        (ap (λ x. see_discovery t₀ x s₀ st.by_mac) (sym p.named) ∙ seen)) in
    let repeat =
      ap (λ x. see_discovery now x seq later.by_mac) q.named
      ∙ guarded_repeat key s₀ t₀ now seq later.by_mac soon low guarded in
    ap (react h from_) (
      gated h now from_ again key seq later q
      ∙ ap (or_version 2) (gates-repeat h now q.info q.mac seq later repeat))
