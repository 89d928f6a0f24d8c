-- ===== src/Inform/Stations/Distinct.antt =====
-- The stations of a body: which MACs they have, and when there is a table.
use Prim.Native.String.{String}
use open_unifi.Base.{
  Bool, true, false, ◌||◌, Option, none, some, List, [], ◌∷◌, ◌++◌, ◌≡◌, refl, ap, ◌∙◌, map,
  Bool-cases, inl, inr, or-false, arith,
}
use open_unifi.Base.Text.{str_eq}
use open_unifi.Base.Tables.{str_eq_sym}
use open_unifi.Store.Value.{Value, Fields, get_field, JsonMap, as_string}
use open_unifi.Store.Blocked.{contains}
use open_unifi.Inform.Stations.{
  Station, station, context, Table, as_object, add_named, add_row, add_rows, rows_at, add_table,
  add_vap, add_vaps, elements, empty_table, station_table, stations, station_macs,
}

-- No MAC stands twice.
abbrev pub AreDistinct : List String → Type 0
AreDistinct [] = Unit
AreDistinct (m ∷ ms) = (contains m ms ≡ false) × AreDistinct ms

abbrev macs : List Station → List String
macs sts = map (λ st. st.mac) sts

swapped : (a b c : Bool) → (a || (b || c)) ≡ (b || (a || c))
swapped a b c = ground arith

contains-snoc :
    (s : String) (sts : List Station) (st : Station)
    → contains s (macs (sts ++ (st ∷ []))) ≡ (str_eq s st.mac || contains s (macs sts))
contains-snoc s [] st = refl
contains-snoc s (x ∷ sts) st =
    ap (λ b. str_eq s x.mac || b) (contains-snoc s sts st)
    ∙ swapped (str_eq s x.mac) (str_eq s st.mac) (contains s (macs sts))

distinct_snoc :
    (sts : List Station) (st : Station)
    → contains st.mac (macs sts) ≡ false
    → AreDistinct (macs sts)
    → AreDistinct (macs (sts ++ (st ∷ [])))
distinct_snoc [] st new distinct = (refl, tt)
distinct_snoc (x ∷ sts) st new (first, distinct) =
    let (other, rest) = or-false (str_eq st.mac x.mac) (contains st.mac (macs sts)) new in
    (
      contains-snoc x.mac sts st ∙ rw (str_eq_sym st.mac x.mac other, first) refl,
      distinct_snoc sts st rest distinct,
    )

-- What the loops keep.
record IsClean (t : Table) : Type 0 where
  distinct : AreDistinct (macs t.stations)
  named : contains "" (macs t.stations) ≡ false
  seen : (s : String) → contains s (macs t.stations) ≡ contains s t.seen

add_named-IsClean :
    (vap : Option Fields) (m : Fields) (mac : Option String) (t : Table)
    → IsClean t
    → IsClean (add_named vap m mac t)
unfolding add_named
add_named-IsClean vap m none t clean = clean
add_named-IsClean vap m (some mac) t clean =
    elim (Bool-cases (str_eq mac "" || contains mac t.seen)) [
      | inl f ↦ rw f clean
      | inr f ↦
          let (named, new) = or-false (str_eq mac "") (contains mac t.seen) f in
          let st = station mac m (context vap m) in
          rw f (record {
            distinct = distinct_snoc t.stations st (clean.seen mac ∙ new) clean.distinct;
            named = contains-snoc "" t.stations st ∙ rw (str_eq_sym mac "" named) clean.named;
            seen = λ s. contains-snoc s t.stations st ∙ ap (λ b. str_eq s mac || b) (clean.seen s);
          })
    ]

add_row-IsClean : (vap m : Option Fields) (t : Table) → IsClean t → IsClean (add_row vap m t)
unfolding add_row
add_row-IsClean vap none t clean = clean
add_row-IsClean vap (some m) t clean =
    add_named-IsClean vap m (as_string (get_field "mac" m)) t clean

add_rows-IsClean :
    (vap : Option Fields) (vs : List Value) (t : Table) → IsClean t → IsClean (add_rows vap vs t)
unfolding add_rows
add_rows-IsClean vap [] t clean = clean
add_rows-IsClean vap (v ∷ vs) t clean =
    add_rows-IsClean vap vs (add_row vap (as_object v) t)
      (add_row-IsClean vap (as_object v) t clean)

-- Whether a place holds a table, and whether some VAP row does.
abbrev pub is_table : Option (List Value) → Bool
is_table none = false
is_table (some vs) = true

abbrev pub has_table : Option Fields → Bool
has_table none = false
has_table (some vm) = is_table (rows_at (get_field "sta_table" vm))

abbrev pub some_vap : List Value → Bool
some_vap [] = false
some_vap (v ∷ vs) = has_table (as_object v) || some_vap vs

add_table_lem :
    (vap : Option Fields) (rows : Option (List Value)) (r : Table × Bool)
    → IsClean r.0
    → IsClean (add_table vap rows r).0 × ((add_table vap rows r).1 ≡ (r.1 || is_table rows))
unfolding add_table
add_table_lem vap none r clean = (clean, ground arith)
add_table_lem vap (some vs) r clean = (add_rows-IsClean vap vs r.0 clean, ground arith)

add_vap_lem :
    (vm : Option Fields) (r : Table × Bool)
    → IsClean r.0
    → IsClean (add_vap vm r).0 × ((add_vap vm r).1 ≡ (r.1 || has_table vm))
unfolding add_vap
add_vap_lem none r clean = (clean, ground arith)
add_vap_lem (some vm) r clean = add_table_lem (some vm) (rows_at (get_field "sta_table" vm)) r clean

grouped : (a b c : Bool) → ((a || b) || c) ≡ (a || (b || c))
grouped a b c = ground arith

add_vaps_lem :
    (vs : List Value) (r : Table × Bool)
    → IsClean r.0
    → IsClean (add_vaps vs r).0 × ((add_vaps vs r).1 ≡ (r.1 || some_vap vs))
unfolding add_vaps
add_vaps_lem [] r clean = (clean, ground arith)
add_vaps_lem (v ∷ vs) r clean =
    let first = add_vap_lem (as_object v) r clean in
    let rest = add_vaps_lem vs (add_vap (as_object v) r) first.0 in
    (
      rest.0,
      rest.1
          ∙ ap (λ b. b || some_vap vs) first.1
          ∙ grouped r.1 (has_table (as_object v)) (some_vap vs),
    )

empty-IsClean : IsClean empty_table
empty-IsClean = record { distinct = tt; named = refl; seen = λ s. refl }

-- Whatever a device puts in its inform: the MACs that are read of the station tables are not empty
-- and no MAC stands twice, and the tables count as present exactly when the body holds one, at the
-- top or in a VAP row.
pub station_macs-AreDistinct :
    (body : JsonMap)
    → AreDistinct (station_macs body).0
      × (contains "" (station_macs body).0 ≡ false)
      × ((station_macs body).1 ≡ (
          is_table (rows_at (body "sta_table"))
          || some_vap (elements (rows_at (body "vap_table")))))
unfolding station_macs stations station_table
station_macs-AreDistinct body =
    let top = add_table_lem none (rows_at (body "sta_table")) (empty_table, false) empty-IsClean in
    let all =
      add_vaps_lem (elements (rows_at (body "vap_table")))
        (add_table none (rows_at (body "sta_table")) (empty_table, false)) top.0 in
    (
      all.0.distinct,
      all.0.named,
      all.1 ∙ ap (λ b. b || some_vap (elements (rows_at (body "vap_table")))) top.1,
    )
