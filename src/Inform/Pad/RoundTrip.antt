-- ===== src/Inform/Pad/RoundTrip.antt =====
-- Padding and its removal.
use open_unifi.Base.{
  ℕ, ◌+◌, ◌-◌, ◌%◌, ◌≤◌, ◌<◌, ◌≡◌, ap, ◌∙◌, some, ◌++◌, arith, ◌==◌, ==_self, length, get_or, take,
  drop, replicate, length-append, length-replicate, get_or-append, get_or-replicate, take-append,
  drop-append, every-replicate,
}
use open_unifi.Inform.Bytes.{Bytes}
use open_unifi.Inform.Pad.{pkcs7_pad, pkcs7_unpad}

module _ (plain : Bytes) (n : ℕ) (low : 0 < n) (high : n ≤ 16) where
  padded : Bytes
  padded = plain ++ replicate n n

  length-padded : length padded ≡ length plain + n
  unfolding padded
  length-padded = omega (arith, length-append plain (replicate n n), length-replicate n n)

  last-padded : get_or padded (length padded - 1) 0 ≡ n
  unfolding padded
  last-padded =
      let at : length padded - 1 ≡ length plain + (n - 1) = omega (arith, length-padded) in
      ap (λ i. get_or padded i 0) at
      ∙ (get_or-append plain (replicate n n) (n - 1) 0
          ∙ get_or-replicate n (n - 1) n 0 (omega arith))

  prefix-padded : take (length padded - n) padded ≡ plain
  unfolding padded
  prefix-padded = take-append (length padded - n) plain _ (omega (arith, length-padded))

  suffix-padded : drop (length padded - n) padded ≡ replicate n n
  unfolding padded
  suffix-padded = drop-append (length padded - n) plain _ (omega (arith, length-padded))

  unpad-padded : (length plain + n) % 16 ≡ 0 → pkcs7_unpad padded ≡ some plain
  unfolding pkcs7_unpad
  unpad-padded whole =
      rw
        (
          last-padded,
          suffix-padded,
          prefix-padded,
          length-padded,
          every-replicate (λ c. n == c) n n (==_self n),
        )
        (ground arith)

pad-eq-padded :
    (plain : Bytes)
    → pkcs7_pad plain ≡ padded plain (16 - length plain % 16) (omega arith) (omega arith)
unfolding pkcs7_pad padded
pad-eq-padded plain = ap (λ k. plain ++ replicate (16 - length plain % 16) k) (omega arith)

-- A padded plaintext is a whole number of blocks, at least one.
pub length-pkcs7_pad :
    (plain : Bytes) → (length (pkcs7_pad plain) % 16 ≡ 0) × (0 < length (pkcs7_pad plain))
length-pkcs7_pad plain =
    rw (pad-eq-padded plain)
      (omega (arith, length-padded plain (16 - length plain % 16) (omega arith) (omega arith)))

-- Padding adds one to sixteen bytes.
pub pkcs7_pad-le : (plain : Bytes) → length (pkcs7_pad plain) ≤ length plain + 16
pkcs7_pad-le plain =
    rw (pad-eq-padded plain)
      (omega (arith, length-padded plain (16 - length plain % 16) (omega arith) (omega arith)))

-- Padding is undone, whatever the plaintext.
pub pkcs7_unpad-pad : (plain : Bytes) → pkcs7_unpad (pkcs7_pad plain) ≡ some plain
pkcs7_unpad-pad plain =
    rw (pad-eq-padded plain)
      (unpad-padded plain (16 - length plain % 16) (omega arith) (omega arith) (omega arith))
