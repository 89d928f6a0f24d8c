-- ===== src/Inform/Pad/Trim.antt =====
-- The lenient path for zero-padded plaintext.
use open_unifi.Base.{ℕ, zero, suc, ◌≡◌, ◌≢◌, refl, ap, ◌∙◌, [], ◌∷◌, ◌++◌, arith, replicate}
use open_unifi.Inform.Bytes.{Bytes}
use open_unifi.Inform.Pad.{stay, trim_legacy_pad}

-- A slice is empty or ends in a byte that is not zero.
abbrev pub EndsNonzero : Bytes → Type 0
EndsNonzero [] = Unit
EndsNonzero (b ∷ []) = b ≢ 0
EndsNonzero (b ∷ c ∷ bs) = EndsNonzero (c ∷ bs)

stay-EndsNonzero : (b : ℕ) (bs : Bytes) → EndsNonzero bs → EndsNonzero (stay b bs)
unfolding stay
stay-EndsNonzero b (c ∷ cs) h = h
stay-EndsNonzero zero [] h = tt
stay-EndsNonzero (suc b) [] h = omega arith

stay-append :
    (b k : ℕ) (bs : Bytes) → (j : ℕ) × (stay b bs ++ replicate j 0 ≡ b ∷ bs ++ replicate k 0)
unfolding stay
stay-append b k (c ∷ cs) = (k, refl)
stay-append zero k [] = (suc k, refl)
stay-append (suc b) k [] = (k, refl)

-- Trimming removes a block of zero bytes from the end, and leaves no zero byte there.
pub trim_legacy_pad_lem :
    (b : Bytes)
    → EndsNonzero (trim_legacy_pad b) × ((k : ℕ) × (trim_legacy_pad b ++ replicate k 0 ≡ b))
unfolding trim_legacy_pad
trim_legacy_pad_lem [] = (tt, (0, refl))
trim_legacy_pad_lem (b ∷ bs) =
    let (e, (k, h)) = trim_legacy_pad_lem bs in
    let (j, g) = stay-append b k (trim_legacy_pad bs) in
    (stay-EndsNonzero b (trim_legacy_pad bs) e, (j, g ∙ ap (λ r. b ∷ r) h))
