-- ===== src/Store/Sessions/Refresh/Own.antt =====
-- The transitions of a refresh are each of their own client.
use Prim.Native.String.{String}
use open_unifi.Base.{
  ℕ, not, ◌&&◌, Option, none, some, List, [], ◌∷◌, ◌≡◌, refl, Bool-cases, inl, inr, All, All-append,
}
use open_unifi.Base.Tables.{find}
use open_unifi.Base.Tables.Entries.{All-sort}
use open_unifi.Store.Device.{Device}
use open_unifi.Store.Mac.{canonical_mac}
use open_unifi.Store.Blocked.{contains}
use open_unifi.Store.Sessions.{StationInfo, Transition, SessionRow}
use open_unifi.Store.Sessions.Rows.{read_session_rows}
use open_unifi.Store.Sessions.Refresh.{
  Pass, is_fresh, row_or_zero, next_row, moved, seen_transition, see_station, see_stations, Leaving,
  leave_row, leave_rows, start, sweep, before, refresh_session_stations,
}

abbrev pub IsOwn : Transition → Type 0
IsOwn tr = tr.session.mac ≡ tr.mac

seen_transition-IsOwn :
    (c : String) (old : Option SessionRow) (next : SessionRow) (now : ℕ)
    → All IsOwn (seen_transition c old next now)
seen_transition-IsOwn c old next now = elim (Bool-cases (is_fresh old)) [
  | inl e ↦ rw e (refl, tt)
  | inr e ↦ elim (Bool-cases (moved (row_or_zero old) next)) [
    | inl f ↦ rw (e, f) (refl, tt)
    | inr f ↦ rw (e, f) tt
  ]
]

module _ (now : ℕ) (prev : List (String × SessionRow)) where
  see_station-IsOwn :
      (st : StationInfo) (c : Option String) (p : Pass)
      → All IsOwn p.out
      → All IsOwn (see_station now prev st c p).out
  unfolding see_station
  see_station-IsOwn st none p own = own
  see_station-IsOwn st (some c) p own = elim (Bool-cases (contains c p.present)) [
    | inl e ↦ rw e own
    | inr e ↦ rw e (
        All-append IsOwn p.out _ own
          (seen_transition-IsOwn c (find c prev) (next_row (find c prev) st now) now))
  ]

  see_stations-IsOwn :
      (sts : List StationInfo) (p : Pass)
      → All IsOwn p.out
      → All IsOwn (see_stations now prev sts p).out
  unfolding see_stations
  see_stations-IsOwn [] p own = own
  see_stations-IsOwn (st ∷ sts) p own =
      see_stations-IsOwn sts _ (see_station-IsOwn st (canonical_mac st.mac) p own)

module _ (now : ℕ) (present : List String) where
  leave_row-IsOwn :
      (m : String) (row : SessionRow) (l : Leaving)
      → All IsOwn l.out
      → All IsOwn (leave_row now present m row l).out
  unfolding leave_row
  leave_row-IsOwn m row l own = elim (Bool-cases (row.connected && not (contains m present))) [
    | inl e ↦ rw e (All-append IsOwn l.out _ own (refl, tt))
    | inr e ↦ rw e own
  ]

  leave_rows-IsOwn :
      (prev : List (String × SessionRow)) (l : Leaving)
      → All IsOwn l.out
      → All IsOwn (leave_rows now present prev l).out
  unfolding leave_rows
  leave_rows-IsOwn [] l own = own
  leave_rows-IsOwn ((m, row) ∷ prev) l own = leave_rows-IsOwn prev _ (leave_row-IsOwn m row l own)

pub refresh_session_stations-IsOwn :
    (d : Device) (stations : List StationInfo) (now : ℕ)
    → All IsOwn (refresh_session_stations d stations now).1
unfolding refresh_session_stations sweep
refresh_session_stations-IsOwn d stations now =
    let prev = read_session_rows d.extra in
    All-sort IsOwn before (sweep now prev stations).out
      (leave_rows-IsOwn now _ prev _ (see_stations-IsOwn now prev stations (start prev) tt))
