-- ===== src/Store/Blocked.antt =====
-- internal/store/blockedsta.go: the admin-owned set of blocked clients.
pub mod Reading
pub mod Members
use Prim.Native.String.{String}
use open_unifi.Base.{Bool, true, false, ◌||◌, Option, none, some, List, [], ◌∷◌, if◌then◌else◌}
use open_unifi.Base.Text.{str_eq}
use open_unifi.Base.Sort.{sort, str_lt}
use open_unifi.Store.Value.{Value, str, arr, Values, nil, cons, to_list, JsonMap, put, erase}
use open_unifi.Store.Keys.{blocked_sta_extra_key}
use open_unifi.Store.Mac.{canonical_mac}

abbrev pub contains : String → List String → Bool
contains s [] = false
contains s (x ∷ xs) = str_eq s x || contains s xs

text_of : Value → Option String
text_of (str s) = canonical_mac s
text_of _ = none

-- The loop of `BlockedClients`: odd entries and repeated ones are passed over.
collect : List String → List (Option String) → List String
collect seen [] = []
collect seen (none ∷ vs) = collect seen vs
collect seen (some c ∷ vs) = elim (contains c seen) [
  | true ↦ collect seen vs
  | false ↦ c ∷ collect (c ∷ seen) vs
]

texts : List Value → List (Option String)
texts [] = []
texts (v ∷ vs) = text_of v ∷ texts vs

row_entries : Option Value → List Value
row_entries (some (arr vs)) = to_list vs
row_entries _ = []

unfoldable pub blocked_clients : JsonMap → List String
unfolding text_of collect texts row_entries canonical_mac sort str_lt
blocked_clients extra = sort str_lt (collect [] (texts (row_entries (extra blocked_sta_extra_key))))

texts_row : List String → Values
texts_row [] = nil
texts_row (s ∷ ss) = cons (str s) (texts_row ss)

unfoldable pub write_blocked_clients : List String → JsonMap → JsonMap
unfolding texts_row
write_blocked_clients [] extra = erase blocked_sta_extra_key extra
write_blocked_clients (s ∷ ss) extra = put blocked_sta_extra_key (arr (texts_row (s ∷ ss))) extra

-- `none` is the error of a client that is no MAC; the flag tells whether the set changed.
add_canonical : Option String → JsonMap → Option (JsonMap × Bool)
add_canonical none extra = none
add_canonical (some c) extra =
    let set = blocked_clients extra in
    if contains c set
    then some (extra, false)
    else some (write_blocked_clients (sort str_lt (c ∷ set)) extra, true)

unfoldable pub add_blocked_client : String → JsonMap → Option (JsonMap × Bool)
unfolding add_canonical blocked_clients write_blocked_clients
add_blocked_client client extra = add_canonical (canonical_mac client) extra

unfoldable pub remove : String → List String → List String
remove c [] = []
remove c (x ∷ xs) = let rest = remove c xs in if str_eq x c then rest else x ∷ rest

remove_canonical : Option String → JsonMap → Option (JsonMap × Bool)
remove_canonical none extra = none
remove_canonical (some c) extra =
    let set = blocked_clients extra in
    if contains c set
    then some (write_blocked_clients (remove c set) extra, true)
    else some (extra, false)

unfoldable pub remove_blocked_client : String → JsonMap → Option (JsonMap × Bool)
unfolding remove_canonical blocked_clients write_blocked_clients remove
remove_blocked_client client extra = remove_canonical (canonical_mac client) extra
