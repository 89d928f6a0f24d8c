-- ===== src/Inform/Bytes.antt =====
-- encoding/binary as the codec uses it: big-endian words over lists of bytes, and the predicate
-- that a list holds bytes. A `uint16` or `uint32` is a number, its range is a hypothesis.
use open_unifi.Base.{
  ℕ, ◌+◌, ◌*◌, ◌/◌, ◌%◌, ◌^◌, ◌<◌, ◌-◌, ◌≡◌, List, [], ◌∷◌, arith, take, drop, All,
}

abbrev pub Bytes : Type 0
Bytes = List ℕ

abbrev pub IsByte : ℕ → Type 0
IsByte b = b < 256

-- `binary.BigEndian.PutUint16` and `PutUint32`.
abbrev pub put_uint16 : ℕ → Bytes
put_uint16 v = (v / 256 % 256) ∷ (v % 256) ∷ []

abbrev pub put_uint32 : ℕ → Bytes
put_uint32 v = (v / 16777216 % 256) ∷ (v / 65536 % 256) ∷ (v / 256 % 256) ∷ (v % 256) ∷ []

-- The number that the bytes read as, most significant first.
abbrev pub be_value : ℕ → Bytes → ℕ
be_value acc [] = acc
be_value acc (b ∷ bs) = be_value (acc * 256 + b) bs

-- The slice `b[lo:hi]`.
abbrev pub slice : Bytes → ℕ → ℕ → Bytes
slice b lo hi = take (hi - lo) (drop lo b)

pub be_value-put_uint16 : (v : ℕ) → v < 2 ^ 16 → be_value 0 (put_uint16 v) ≡ v
be_value-put_uint16 v h = omega arith

pub be_value-put_uint32 : (v : ℕ) → v < 2 ^ 32 → be_value 0 (put_uint32 v) ≡ v
be_value-put_uint32 v h = omega arith

pub put_uint32-All : (v : ℕ) → All IsByte (put_uint32 v)
put_uint32-All v = omega arith

pub put_uint16-be_value :
    (a b : ℕ) → IsByte a → IsByte b → put_uint16 (be_value 0 (a ∷ b ∷ [])) ≡ a ∷ b ∷ []
put_uint16-be_value a b p q = ground arith

pub put_uint32-be_value :
    (a b c d : ℕ)
    → IsByte a
    → IsByte b
    → IsByte c
    → IsByte d
    → put_uint32 (be_value 0 (a ∷ b ∷ c ∷ d ∷ [])) ≡ a ∷ b ∷ c ∷ d ∷ []
put_uint32-be_value a b c d p q r s = ground arith
