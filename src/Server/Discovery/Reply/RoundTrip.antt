-- ===== src/Server/Discovery/Reply/RoundTrip.antt =====
-- A reply of one host, read by another.
use mathlib.Core.List.{append_assoc, append-nil}
use open_unifi.Base.{
  ℕ, suc, ◌+◌, ◌-◌, ◌<◌, ◌^◌, ◌%◌, Bool, true, false, Option, none, some, List, [], ◌∷◌, ◌++◌, ◌≡◌,
  refl, sym, ap, ◌∙◌, not-ltb, All, length, length-append, take-all, take-append, drop-append,
  arith,
}
use open_unifi.Inform.Bytes.{Bytes, put_uint32, be_value-put_uint16, be_value-put_uint32}
use open_unifi.Server.Discovery.{
  NetText, DiscoveryAlias, DiscoveryInfo, blank, set_field, walk, first_ip, found_at, read_modern,
}
use open_unifi.Server.Discovery.Reply.{
  ReplyMetadata, entry, factory_byte, alias_entries, reply_body, identity_bytes, framed, reply_of,
  discovery_encode_reply,
}
use open_unifi.Server.Discovery.Walk.{walk_all, walk_all-entry}

-- An alias has six bytes of MAC and four of address.
abbrev pub IsAlias : DiscoveryAlias → Type 0
IsAlias a = (length a.mac ≡ 6) × (length a.ip ≡ 4)

-- What a reader has of the host.
abbrev pub heard : NetText → Option Bytes → ReplyMetadata → ℕ → Bytes → DiscoveryInfo
heard N src m seq mac = record (blank 2 9) {
  seq = some seq;
  sender_mac = some mac;
  mac = some mac;
  aliases = m.aliases;
  version = N.trim_space m.firmware;
  model = N.trim_space m.board;
  short_ver = N.trim_space m.version;
  factory = m.setup;
  has_factory = true;
  ip = first_ip N m.aliases src;
}

same_length : (n : ℕ) → 4 + n - 4 ≡ n
same_length n = omega arith

replied :
    (m : ReplyMetadata) (seq : ℕ) (mac : Bytes)
    → length mac ≡ 6
    → reply_of m seq (some mac) ≡ framed (reply_body m seq mac)
replied m seq mac six = rw six refl

module _ (N : NetText) where
  read_modern-framed :
      (src : Option Bytes) (body : Bytes)
      → length body < 2 ^ 16
      → read_modern N src (framed body) ≡ found_at N src (walk_all N body (blank 2 9))
  unfolding read_modern
  read_modern-framed src body small =
      rw
        (
          be_value-put_uint16 (length body) small,
          same_length (length body),
          take-all (length body) body (omega arith),
          not-ltb (suc (suc (suc (suc (length body))))) 4 (omega arith),
        )
        (rw (not-ltb (suc (suc (suc (suc (length body))))) (4 + length body) (omega arith)) refl)

  alias_field :
      (a : DiscoveryAlias) (info : DiscoveryInfo)
      → IsAlias a
      → set_field N 2 (a.mac ++ a.ip) info ≡ record info { aliases = info.aliases ++ (a ∷ []) }
  unfolding set_field
  alias_field a info (six, four) =
      rw
        (
          length-append a.mac a.ip,
          six,
          four,
          take-append 6 a.mac a.ip six,
          drop-append 6 a.mac a.ip six,
        )
        refl

  walk_all-aliases :
      (aliases : List DiscoveryAlias) (rest : Bytes) (info : DiscoveryInfo)
      → All IsAlias aliases
      → walk_all N (alias_entries aliases ++ rest) info
        ≡ walk_all N rest (record info { aliases = info.aliases ++ aliases })
  unfolding alias_entries
  walk_all-aliases [] rest info whole =
      ap (λ x. walk_all N rest (record info { aliases = x })) (sym (append-nil info.aliases))
  walk_all-aliases (a ∷ aliases) rest info (this, whole) =
      ap (λ b. walk_all N b info)
        (append_assoc (entry 2 (a.mac ++ a.ip)) (alias_entries aliases) rest)
      ∙ walk_all-entry N 2 (a.mac ++ a.ip) (alias_entries aliases ++ rest) info
          (omega (arith, length-append a.mac a.ip, this))
      ∙ ap (λ x. walk_all N (alias_entries aliases ++ rest) x) (alias_field a info this)
      ∙ walk_all-aliases aliases rest (record info { aliases = info.aliases ++ (a ∷ []) }) whole
      ∙ ap (λ x. walk_all N rest (record info { aliases = x }))
          (append_assoc info.aliases (a ∷ []) aliases)

  step :
      (typ : ℕ) (val rest : Bytes) (info next : DiscoveryInfo)
      → length val < 2 ^ 16
      → set_field N typ val info ≡ next
      → walk_all N (entry typ val ++ rest) info ≡ walk_all N rest next
  step typ val rest info next small field =
      walk_all-entry N typ val rest info small ∙ ap (λ x. walk_all N rest x) field

  seq_field :
      (seq : ℕ) (info : DiscoveryInfo)
      → seq < 2 ^ 32
      → set_field N 18 (put_uint32 seq) info ≡ record info { seq = some seq }
  unfolding set_field
  seq_field seq info small = rw (be_value-put_uint32 seq small) refl

  sender_field :
      (mac : Bytes) (info : DiscoveryInfo)
      → length mac ≡ 6
      → set_field N 19 mac info ≡ record info { sender_mac = some mac }
  unfolding set_field
  sender_field mac info six = rw six refl

  mac_field :
      (mac : Bytes) (info : DiscoveryInfo)
      → length mac ≡ 6
      → set_field N 1 mac info ≡ record info { mac = some mac }
  unfolding set_field
  mac_field mac info six = rw six refl

  factory_field :
      (setup : Bool) (info : DiscoveryInfo)
      → set_field N 23 (factory_byte setup) info
        ≡ record info { factory = setup; has_factory = true }
  unfolding set_field
  factory_field true info = refl
  factory_field false info = refl

  one_byte : (setup : Bool) → length (factory_byte setup) < 2 ^ 16
  one_byte true = omega arith
  one_byte false = omega arith

  walk_all-reply_body :
      (m : ReplyMetadata) (seq : ℕ) (mac : Bytes)
      → length mac ≡ 6
      → seq < 2 ^ 32
      → All IsAlias m.aliases
      → length m.firmware < 2 ^ 16
      → length m.board < 2 ^ 16
      → length m.version < 2 ^ 16
      → walk_all N (reply_body m seq mac) (blank 2 9)
        ≡ some (record (heard N none m seq mac) { ip = [] })
  unfolding reply_body walk set_field
  walk_all-reply_body m seq mac six small whole fw bd vs =
      let flag = factory_byte m.setup in
      let r7 = entry 23 flag in
      let r6 = entry 22 m.version ++ r7 in
      let r5 = entry 21 m.board ++ r6 in
      let r4 = entry 3 m.firmware ++ r5 in
      let r3 = alias_entries m.aliases ++ r4 in
      let r2 = entry 1 mac ++ r3 in
      let r1 = entry 19 mac ++ r2 in
      let i1 = record (blank 2 9) { seq = some seq } in
      let i2 = record i1 { sender_mac = some mac } in
      let i3 = record i2 { mac = some mac } in
      let i4 = record i3 { aliases = m.aliases } in
      let i5 = record i4 { version = N.trim_space m.firmware } in
      let i6 = record i5 { model = N.trim_space m.board } in
      let i7 = record i6 { short_ver = N.trim_space m.version } in
      step 18 (put_uint32 seq) r1 (blank 2 9) i1 (omega arith) (seq_field seq (blank 2 9) small)
      ∙ step 19 mac r2 i1 i2 (omega arith) (sender_field mac i1 six)
      ∙ step 1 mac r3 i2 i3 (omega arith) (mac_field mac i2 six)
      ∙ walk_all-aliases m.aliases r4 i3 whole
      ∙ step 3 m.firmware r5 i4 i5 fw refl
      ∙ step 21 m.board r6 i5 i6 bd refl
      ∙ step 22 m.version r7 i6 i7 vs refl
      ∙ ap (λ b. walk_all N b i7) (sym (append-nil r7))
      ∙ step 23 flag [] i7 _ (one_byte m.setup) (factory_field m.setup i7)

  -- What a host sends in answer to a query is read by another as the host's: number, MAC, aliases,
  -- texts (trimmed) and factory state, and the address of the first alias or else of the sender.
  -- The conditions are that the identity is six bytes, the aliases are whole, and the texts and
  -- the whole body fit in their two-byte lengths.
  pub read_modern-discovery_encode_reply :
      (src : Option Bytes) (m : ReplyMetadata) (seq : ℕ) (mac : Bytes)
      → identity_bytes m.identity ≡ some mac
      → length mac ≡ 6
      → All IsAlias m.aliases
      → length m.firmware < 2 ^ 16
      → length m.board < 2 ^ 16
      → length m.version < 2 ^ 16
      → length (reply_body m (seq % 2 ^ 32) mac) < 2 ^ 16
      → read_modern N src (discovery_encode_reply m seq) ≡ some (heard N src m (seq % 2 ^ 32) mac)
  unfolding discovery_encode_reply
  read_modern-discovery_encode_reply src m seq mac own six whole fw bd vs small =
      ap (λ o. read_modern N src (reply_of m (seq % 2 ^ 32) o)) own
      ∙ ap (λ b. read_modern N src b) (replied m (seq % 2 ^ 32) mac six)
      ∙ (read_modern-framed src (reply_body m (seq % 2 ^ 32) mac) small
          ∙ ap (λ o. found_at N src o)
              (walk_all-reply_body m (seq % 2 ^ 32) mac six (omega arith) whole fw bd vs))
