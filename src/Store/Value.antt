-- ===== src/Store/Value.antt =====
-- The dynamic values of a record's `Extra` map (Go's `any` over decoded JSON and the controller's
-- own writes) and the map itself. A number is a natural one: the rows that the model reads are
-- counters and Unix times. The three Go types that carry them stay apart.
use Prim.Native.String.{String}
use open_unifi.Base.{
  ℕ, Bool, true, false, not, Option, none, some, List, [], ◌∷◌, ◌==◌, if◌then◌else◌, ◌&&◌,
}
use open_unifi.Base.Text.{str_eq}

mutual
  pub data Value : Type 0 where
    null : Value
    bool : Bool → Value
    str : String → Value
    int : ℕ → Value
    int64 : ℕ → Value
    float64 : ℕ → Value
    arr : Values → Value
    obj : Fields → Value

  pub data Values : Type 0 where
    nil : Values
    cons : Value → Values → Values

  pub data Fields : Type 0 where
    end : Fields
    field : String → Value → Fields → Fields

-- `m[k]` of a JSON object.
abbrev pub get_field : String → Fields → Option Value
get_field k end = none
get_field k (field j v fs) = if str_eq k j then some v else get_field k fs

abbrev pub to_list : Values → List Value
to_list nil = []
to_list (cons v vs) = v ∷ to_list vs

-- `store.JSONMap` as the record's `Extra`: a map from keys.
abbrev pub JsonMap : Type 0
JsonMap = String → Option Value

-- A nil map, and `JSONMap{}`.
abbrev pub no_rows : JsonMap
no_rows k = none

-- `m[k] = v` and `delete(m, k)`
abbrev pub put : String → Value → JsonMap → JsonMap
put k v m j = if str_eq j k then some v else m j

abbrev pub erase : String → JsonMap → JsonMap
erase k m j = if str_eq j k then none else m j

-- Every key of the list deleted in turn.
unfoldable pub erase_all : List String → JsonMap → JsonMap
erase_all [] m = m
erase_all (k ∷ ks) m = erase_all ks (erase k m)

-- `v, ok := x.(string)`
abbrev pub as_string : Option Value → Option String
as_string (some (str s)) = some s
as_string _ = none

abbrev pub or_empty : Option String → String
or_empty none = ""
or_empty (some s) = s

-- internal/server/adoption/engine.go: `truthy`. A missing row is the nil interface.
abbrev pub truthy : Option Value → Bool
truthy none = false
truthy (some null) = false
truthy (some (bool b)) = b
truthy (some (str s)) = not (str_eq s "") && (not (str_eq s "false") && not (str_eq s "0"))
truthy (some (float64 n)) = not (n == 0)
truthy (some _) = true
