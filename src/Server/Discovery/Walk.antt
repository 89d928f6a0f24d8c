-- ===== src/Server/Discovery/Walk.antt =====
-- The loop over the entries of a packet against the format: a packet is read exactly when its data
-- is a row of entries, and each entry sets its field in turn.
use Prim.Native.Nat.{min}
use open_unifi.Base.{
  ℕ, zero, suc, ◌≤◌, ◌<◌, ◌^◌, Option, none, some, List, [], ◌∷◌, ◌++◌, ◌≡◌, refl, sym, ap, ◌∙◌,
  ◌↔◌, Bool-cases, inl, inr, ltb, not-ltb, All, length, take, drop, length-append, length-take,
  length-drop, take-append, drop-append, take-append-drop, All-drop, arith,
}
use open_unifi.Base.Tables.{some_ne_none, some_injective}
use open_unifi.Inform.Bytes.{
  Bytes, IsByte, be_value, put_uint16, be_value-put_uint16, put_uint16-be_value,
}
use open_unifi.Server.Discovery.{NetText, DiscoveryInfo, set_field, walk}
use open_unifi.Server.Discovery.Reply.{entry}

-- Entries in a row; the length of a value fits in two bytes.
abbrev pub flat : List (ℕ × Bytes) → Bytes
flat [] = []
flat (e ∷ es) = entry e.0 e.1 ++ flat es

abbrev pub IsSmall : ℕ × Bytes → Type 0
IsSmall e = length e.1 < 2 ^ 16

fits : (l n : ℕ) → l ≤ n → min l n ≡ l
fits l n h = ground arith

module _ (N : NetText) where
  abbrev pub set_all : List (ℕ × Bytes) → DiscoveryInfo → DiscoveryInfo
  set_all [] info = info
  set_all (e ∷ es) info = set_all es (set_field N e.0 e.1 info)

  pub walk-entry :
      (fuel typ : ℕ) (val rest : Bytes) (info : DiscoveryInfo)
      → length val < 2 ^ 16
      → walk N (suc fuel) (entry typ val ++ rest) info ≡ walk N fuel rest (set_field N typ val info)
  unfolding walk
  walk-entry fuel typ val rest info small =
      rw
        (
          be_value-put_uint16 (length val) small,
          take-append (length val) val rest refl,
          drop-append (length val) val rest refl,
          not-ltb (length (val ++ rest)) (length val) (omega (arith, length-append val rest)),
          not-ltb (suc (suc (length (val ++ rest)))) 2 (omega arith),
        )
        refl

  -- What is left after an entry is shorter than its data.
  shorter : (l f : ℕ) (rest : Bytes) → length rest ≤ f → length (drop l (drop 2 rest)) ≤ f
  shorter l f rest p = omega (arith, length-drop l (drop 2 rest), length-drop 2 rest)

  -- The loop ends with the data: any fuel that is no less than its length gives the same result, so
  -- a packet is never dropped for want of fuel.
  pub walk-fuel :
      (f g : ℕ) (body : Bytes) (info : DiscoveryInfo)
      → length body ≤ f
      → length body ≤ g
      → walk N f body info ≡ walk N g body info
  unfolding walk
  walk-fuel zero zero [] info p q = refl
  walk-fuel zero (suc g) [] info p q = refl
  walk-fuel (suc f) zero [] info p q = refl
  walk-fuel (suc f) (suc g) [] info p q = refl
  walk-fuel zero g (t ∷ rest) info p q = absurd (omega arith)
  walk-fuel (suc f) zero (t ∷ rest) info p q = absurd (omega arith)
  walk-fuel (suc f) (suc g) (t ∷ rest) info p q =
      let l = be_value 0 (take 2 rest) in
      rw
        (walk-fuel f g (drop l (drop 2 rest)) (set_field N t (take l (drop 2 rest)) info)
          (shorter l f rest (omega arith)) (shorter l g rest (omega arith)))
        refl

  -- The loop with fuel for all of the data.
  abbrev pub walk_all : Bytes → DiscoveryInfo → Option DiscoveryInfo
  walk_all body info = walk N (length body) body info

  pub walk_all-entry :
      (typ : ℕ) (val rest : Bytes) (info : DiscoveryInfo)
      → length val < 2 ^ 16
      → walk_all (entry typ val ++ rest) info ≡ walk_all rest (set_field N typ val info)
  walk_all-entry typ val rest info small =
      walk-entry (suc (suc (length (val ++ rest)))) typ val rest info small
      ∙ walk-fuel (suc (suc (length (val ++ rest)))) (length rest) rest (set_field N typ val info)
          (omega (arith, length-append val rest)) (omega arith)

  pub walk_all-flat :
      (es : List (ℕ × Bytes)) (info : DiscoveryInfo)
      → All IsSmall es
      → walk_all (flat es) info ≡ some (set_all es info)
  unfolding walk
  walk_all-flat [] info small = refl
  walk_all-flat (e ∷ es) info (this, small) =
      walk_all-entry e.0 e.1 (flat es) info this ∙ walk_all-flat es (set_field N e.0 e.1 info) small

  -- The entries that data is made of, and what they make of the record.
  abbrev pub Entries : Bytes → DiscoveryInfo → DiscoveryInfo → Type 0
  Entries body info out =
      (es : List (ℕ × Bytes)) × All IsSmall es × (body ≡ flat es) × (out ≡ set_all es info)

  first_entry :
      (typ a b : ℕ) (rest : Bytes)
      → IsByte a
      → IsByte b
      → be_value 0 (a ∷ b ∷ []) ≤ length rest
      → (length (take (be_value 0 (a ∷ b ∷ [])) rest) ≡ be_value 0 (a ∷ b ∷ []))
        × (typ ∷ a ∷ b ∷ rest
            ≡ entry typ (take (be_value 0 (a ∷ b ∷ [])) rest)
              ++ drop (be_value 0 (a ∷ b ∷ [])) rest)
  first_entry typ a b rest byte_a byte_b enough =
      let l = be_value 0 (a ∷ b ∷ []) in
      let len = length-take l rest ∙ fits l (length rest) enough in
      (
        len,
        sym (
            ap (λ n. typ ∷ put_uint16 n ++ (take l rest ++ drop l rest)) len
            ∙ ap (λ h. typ ∷ h ++ (take l rest ++ drop l rest))
                (put_uint16-be_value a b byte_a byte_b)
            ∙ ap (λ r. typ ∷ a ∷ b ∷ r) (take-append-drop l rest)),
      )

  refused : (body : Bytes) (info out : DiscoveryInfo) → none ≡ some out → Entries body info out
  refused body info out e = absurd (some_ne_none out (sym e))

  walk-Entries :
      (fuel : ℕ) (body : Bytes) (info out : DiscoveryInfo)
      → All IsByte body
      → walk N fuel body info ≡ some out
      → Entries body info out
  unfolding walk
  walk-Entries zero [] info out bytes done = ([], tt, refl, sym (some_injective info out done))
  walk-Entries (suc fuel) [] info out bytes done =
      ([], tt, refl, sym (some_injective info out done))
  walk-Entries zero (t ∷ rest) info out bytes done = refused (t ∷ rest) info out done
  walk-Entries (suc fuel) (t ∷ []) info out bytes done = refused _ info out done
  walk-Entries (suc fuel) (t ∷ a ∷ []) info out bytes done = refused _ info out done
  walk-Entries (suc fuel) (t ∷ a ∷ b ∷ rest) info out (bt, (ba, (bb, bytes))) done =
      let l = be_value 0 (a ∷ b ∷ []) in
      let done' = (rw (not-ltb (suc (suc (length rest))) 2 (omega arith)) at done) in
      elim (Bool-cases (ltb (length rest) l)) [
        | inl short ↦ refused _ info out (rw short at done')
        | inr long ↦
            let (es, small, same, made) =
              walk-Entries fuel (drop l rest) (set_field N t (take l rest) info) out
                (All-drop IsByte l rest bytes) (rw long at done') in
            let (len, first) = first_entry t a b rest ba bb (ground (arith, long)) in
            (
              (t, take l rest) ∷ es,
              (ground (arith, len, ba, bb), small),
              first ∙ ap (λ r. entry t (take l rest) ++ r) same,
              made,
            )
      ]

  -- A packet is read exactly when its data is a row of whole entries, and then the record is the
  -- one that the entries make, in their order. The condition is that the data consists of bytes.
  pub walk_iff :
      (body : Bytes) (info out : DiscoveryInfo)
      → All IsByte body
      → (walk_all body info ≡ some out) ↔ Entries body info out
  walk_iff body info out bytes = (
    walk-Entries (length body) body info out bytes,
    λ (es, small, same, made).
        ap (λ b. walk_all b info) same ∙ walk_all-flat es info small ∙ ap some (sym made),
  )
