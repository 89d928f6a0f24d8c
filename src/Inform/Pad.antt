-- ===== src/Inform/Pad.antt =====
-- internal/inform/crypto_cbc.go: the padding of the CBC path.
pub mod RoundTrip
pub mod Trim
use open_unifi.Base.{
  ℕ, zero, suc, ◌+◌, ◌-◌, ◌%◌, Bool, true, false, not, ◌&&◌, ◌||◌, Option, none, some, List, [],
  ◌∷◌, ◌++◌, ltb, ◌==◌, if◌then◌else◌, length, get_or, take, drop, replicate, every,
}
use open_unifi.Inform.Bytes.{Bytes}

abbrev pub block_size : ℕ
block_size = 16

unfoldable pub pkcs7_pad : Bytes → Bytes
pkcs7_pad plain = let n = block_size - length plain % block_size in plain ++ replicate n (n % 256)

-- `none` is the Go result `nil, false`.
unfoldable pub pkcs7_unpad : Bytes → Option Bytes
pkcs7_unpad b =
    let n = get_or b (length b - 1) 0 in
    if length b == 0 || not (length b % block_size == 0)
    then none
    else if ltb n 1 || ltb block_size n || ltb (length b) n
    then none
    else if every (λ c. n == c) (drop (length b - n) b)
    then some (take (length b - n) b)
    else none

-- One step of the loop seen from the front: a byte stays unless it is zero and nothing behind it
-- stayed. So the slice ends at the last byte that is not zero, where the Go loop stops.
stay : ℕ → Bytes → Bytes
stay b (c ∷ cs) = b ∷ c ∷ cs
stay zero [] = []
stay (suc b) [] = suc b ∷ []

unfoldable pub trim_legacy_pad : Bytes → Bytes
unfolding stay
trim_legacy_pad [] = []
trim_legacy_pad (b ∷ bs) = stay b (trim_legacy_pad bs)
