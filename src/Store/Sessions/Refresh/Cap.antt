-- ===== src/Store/Sessions/Refresh/Cap.antt =====
-- The cap on the rows of a device.
use Prim.Native.Nat.{min}
use Prim.Native.String.{String}
use open_unifi.Base.{
  suc, ◌-◌, ◌≤◌, Bool, List, [], ◌∷◌, ◌≡◌, refl, ap, ◌==◌, Bool-cases, inl, inr, arith, length,
  length-drop,
}
use open_unifi.Base.Sort.{sort, insert_sorted}
use open_unifi.Store.Sessions.{SessionRow}
use open_unifi.Store.Sessions.Refresh.{session_row_cap, staler, enforce_session_row_cap}

module _ {ℓ} {A : Type ℓ} (earlier : A → A → Bool) where
  length-insert : (a : A) (xs : List A) → length (insert_sorted earlier a xs) ≡ suc (length xs)
  unfolding insert_sorted
  length-insert a [] = refl
  length-insert a (b ∷ bs) = elim (Bool-cases (earlier b a)) [
    | inl e ↦ rw e (ap suc (length-insert a bs))
    | inr e ↦ rw e refl
  ]

  length-sort : (xs : List A) → length (sort earlier xs) ≡ length xs
  unfolding sort
  length-sort [] = refl
  length-sort (a ∷ xs) = rw (length-insert a (sort earlier xs), length-sort xs) refl

-- The cap keeps every row of a device with no more than 2048 of them, and 2048 rows of any other.
pub enforce_session_row_cap-length :
    (rows : List (String × SessionRow))
    → length (enforce_session_row_cap rows) ≡ min (length rows) session_row_cap
unfolding enforce_session_row_cap
enforce_session_row_cap-length rows = elim (Bool-cases ((length rows - session_row_cap) == 0)) [
  | inl e ↦ rw e (ground arith)
  | inr e ↦ rw (e, length-drop _ (sort staler rows), length-sort staler rows) (ground arith)
]

pub enforce_session_row_cap-few :
    (rows : List (String × SessionRow))
    → length rows ≤ session_row_cap
    → enforce_session_row_cap rows ≡ rows
unfolding enforce_session_row_cap
enforce_session_row_cap-few rows few = elim (Bool-cases ((length rows - session_row_cap) == 0)) [
  | inl e ↦ rw e refl
  | inr e ↦ absurd (ground arith)
]
