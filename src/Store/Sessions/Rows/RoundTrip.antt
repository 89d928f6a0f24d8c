-- ===== src/Store/Sessions/Rows/RoundTrip.antt =====
-- What is read back of the session rows that were written.
use Prim.Native.String.{String}
use open_unifi.Base.{
  ℕ, ◌≤◌, ◌^◌, Bool, true, false, Option, none, some, le→leb, lt→ltb, if◌then◌else◌, arith, List,
  [], ◌∷◌, ◌≡◌, refl, sym, ap, ◌∙◌, ◌==◌, ==_iff, Bool-cases, inl, inr,
}
use text.Mathlib.TextEquality.{eq_iff}
use open_unifi.Base.Text.{str_eq}
use open_unifi.Base.Tables.{find, find-bind, IsKeyed, bind-IsKeyed, str_eq_self}
use open_unifi.Store.Value.{
  null, bool, str, int, int64, float64, arr, obj, Fields, end, field, get_field, JsonMap, as_string,
  or_empty,
}
use open_unifi.Store.Sessions.{SessionRow}
use open_unifi.Store.Sessions.Rows.{
  to_float64, to_int64, number_of, read_row, read_rows, read_session_rows, known_number, known_text,
  write_row, write_rows, write_session_rows,
}

-- What a number is after a write and a read.
abbrev pub stored : ℕ → ℕ
stored n = to_int64 (to_float64 n)

pub stored-exact : (n : ℕ) → n ≤ 2 ^ 53 → stored n ≡ n
unfolding to_float64 to_int64
stored-exact n h = rw (le→leb n (2 ^ 53) h, lt→ltb n (2 ^ 63) (omega arith)) refl

module _ (k j : String) (m : Fields) (other : str_eq k j ≡ false) where
  past_number : (n : ℕ) → get_field k (known_number j n m) ≡ get_field k m
  unfolding known_number known_text
  past_number n = elim (Bool-cases (n == 0)) [
    | inl e ↦ rw e refl
    | inr e ↦ rw (e, get_field, other) refl
  ]

  past_text : (s : String) → get_field k (known_text j s m) ≡ get_field k m
  unfolding known_number known_text
  past_text s = elim (Bool-cases (str_eq s "")) [
    | inl e ↦ rw e refl
    | inr e ↦ rw (e, get_field, other) refl
  ]

module _ (k : String) (m : Fields) (new : get_field k m ≡ none) where
  number_back : (n : ℕ) → number_of (get_field k (known_number k n m)) ≡ stored n
  unfolding known_number known_text number_of
  number_back n = elim (Bool-cases (n == 0)) [
    | inl e ↦ rw (e, new) (sym (ap stored ((==_iff n 0).0 e) ∙ stored-exact 0 (omega arith)))
    | inr e ↦ rw (e, get_field, str_eq_self k) refl
  ]

  text_back : (s : String) → or_empty (as_string (get_field k (known_text k s m))) ≡ s
  unfolding known_number known_text
  text_back s = elim (Bool-cases (str_eq s "")) [
    | inl e ↦ rw (e, new) (sym ((eq_iff s "").0 e))
    | inr e ↦ rw (e, get_field, str_eq_self k) refl
  ]

module _ (r : SessionRow) where
  abbrev bytes_on : Fields
  bytes_on = known_number "bytes" r.bytes end

  abbrev channel_on : Fields
  channel_on = known_number "channel" r.channel bytes_on

  abbrev radio_on : Fields
  radio_on = known_text "radio" r.radio channel_on

  abbrev essid_on : Fields
  essid_on = known_text "essid" r.essid radio_on

  abbrev ip_on : Fields
  ip_on = known_text "ip" r.ip essid_on

  abbrev hostname_on : Fields
  hostname_on = known_text "hostname" r.hostname ip_on

  abbrev since_on : Fields
  since_on = known_number "since" r.since hostname_on

  row_since : number_of (get_field "since" since_on) ≡ stored r.since
  row_since =
      number_back "since" hostname_on
        (past_text "since" "hostname" ip_on refl r.hostname
          ∙ past_text "since" "ip" essid_on refl r.ip
          ∙ past_text "since" "essid" radio_on refl r.essid
          ∙ past_text "since" "radio" channel_on refl r.radio
          ∙ past_number "since" "channel" bytes_on refl r.channel
          ∙ past_number "since" "bytes" end refl r.bytes)
        r.since

  row_hostname : or_empty (as_string (get_field "hostname" since_on)) ≡ r.hostname
  row_hostname =
      ap (λ o. or_empty (as_string o)) (past_number "hostname" "since" hostname_on refl r.since)
      ∙ text_back "hostname" ip_on
          (past_text "hostname" "ip" essid_on refl r.ip
            ∙ past_text "hostname" "essid" radio_on refl r.essid
            ∙ past_text "hostname" "radio" channel_on refl r.radio
            ∙ past_number "hostname" "channel" bytes_on refl r.channel
            ∙ past_number "hostname" "bytes" end refl r.bytes)
          r.hostname

  row_ip : or_empty (as_string (get_field "ip" since_on)) ≡ r.ip
  row_ip =
      ap (λ o. or_empty (as_string o))
        (past_number "ip" "since" hostname_on refl r.since
          ∙ past_text "ip" "hostname" ip_on refl r.hostname)
      ∙ text_back "ip" essid_on
          (past_text "ip" "essid" radio_on refl r.essid
            ∙ past_text "ip" "radio" channel_on refl r.radio
            ∙ past_number "ip" "channel" bytes_on refl r.channel
            ∙ past_number "ip" "bytes" end refl r.bytes)
          r.ip

  row_essid : or_empty (as_string (get_field "essid" since_on)) ≡ r.essid
  row_essid =
      ap (λ o. or_empty (as_string o))
        (past_number "essid" "since" hostname_on refl r.since
          ∙ past_text "essid" "hostname" ip_on refl r.hostname
          ∙ past_text "essid" "ip" essid_on refl r.ip)
      ∙ text_back "essid" radio_on
          (past_text "essid" "radio" channel_on refl r.radio
            ∙ past_number "essid" "channel" bytes_on refl r.channel
            ∙ past_number "essid" "bytes" end refl r.bytes)
          r.essid

  row_radio : or_empty (as_string (get_field "radio" since_on)) ≡ r.radio
  row_radio =
      ap (λ o. or_empty (as_string o))
        (past_number "radio" "since" hostname_on refl r.since
          ∙ past_text "radio" "hostname" ip_on refl r.hostname
          ∙ past_text "radio" "ip" essid_on refl r.ip
          ∙ past_text "radio" "essid" radio_on refl r.essid)
      ∙ text_back "radio" channel_on
          (past_number "radio" "channel" bytes_on refl r.channel
            ∙ past_number "radio" "bytes" end refl r.bytes)
          r.radio

  row_channel : number_of (get_field "channel" since_on) ≡ stored r.channel
  row_channel =
      ap number_of (
        past_number "channel" "since" hostname_on refl r.since
        ∙ past_text "channel" "hostname" ip_on refl r.hostname
        ∙ past_text "channel" "ip" essid_on refl r.ip
        ∙ past_text "channel" "essid" radio_on refl r.essid
        ∙ past_text "channel" "radio" channel_on refl r.radio)
      ∙ number_back "channel" bytes_on (past_number "channel" "bytes" end refl r.bytes) r.channel

  row_bytes : number_of (get_field "bytes" since_on) ≡ stored r.bytes
  row_bytes =
      ap number_of (
        past_number "bytes" "since" hostname_on refl r.since
        ∙ past_text "bytes" "hostname" ip_on refl r.hostname
        ∙ past_text "bytes" "ip" essid_on refl r.ip
        ∙ past_text "bytes" "essid" radio_on refl r.essid
        ∙ past_text "bytes" "radio" channel_on refl r.radio
        ∙ past_number "bytes" "channel" bytes_on refl r.channel)
      ∙ number_back "bytes" end (refl) r.bytes

-- The row that is read of one that was written.
abbrev pub stored_row : SessionRow → SessionRow
stored_row r = record r {
  last_seen = stored r.last_seen;
  since = stored r.since;
  channel = stored r.channel;
  bytes = stored r.bytes;
}

read_row-write_row : (r : SessionRow) → read_row (write_row r) ≡ stored_row r
unfolding read_row write_row
read_row-write_row r = λ i. record {
  connected = r.connected;
  last_seen = stored r.last_seen;
  since = row_since r i;
  hostname = row_hostname r i;
  ip = row_ip r i;
  essid = row_essid r i;
  radio = row_radio r i;
  channel = row_channel r i;
  bytes = row_bytes r i;
}

abbrev pub stored_found : Option SessionRow → Option SessionRow
stored_found none = none
stored_found (some r) = some (stored_row r)

found_stored :
    (b : Bool) (r : SessionRow) (o : Option SessionRow)
    → (if b then some (stored_row r) else stored_found o) ≡ stored_found (if b then some r else o)
found_stored true r o = refl
found_stored false r o = refl

read_rows-write_rows :
    (k : String) (rows : List (String × SessionRow))
    → find k (read_rows (write_rows rows)) ≡ stored_found (find k rows)
unfolding read_rows write_rows
read_rows-write_rows k [] = refl
read_rows-write_rows k ((m, row) ∷ rows) =
    find-bind k m _ (read_rows (write_rows rows))
    ∙ rw (read_row-write_row row, read_rows-write_rows k rows)
        (found_stored (str_eq k m) row (find k rows))

-- The rows that are read from the record after a write, with their numbers as a float64 keeps them.
pub find-stored :
    (k : String) (rows : List (String × SessionRow)) (extra : JsonMap)
    → find k (read_session_rows (write_session_rows rows extra)) ≡ stored_found (find k rows)
unfolding write_session_rows
find-stored k [] extra = refl
find-stored k (r ∷ rows) extra = read_rows-write_rows k (r ∷ rows)

-- The numbers of a row are such as a float64 holds exactly.
pub record IsExact (r : SessionRow) : Type 0 where
  pub last_seen : r.last_seen ≤ 2 ^ 53
  pub since : r.since ≤ 2 ^ 53
  pub channel : r.channel ≤ 2 ^ 53
  pub bytes : r.bytes ≤ 2 ^ 53

abbrev pub FoundExact : Option SessionRow → Type 0
FoundExact none = Unit
FoundExact (some r) = IsExact r

stored_found-exact : (o : Option SessionRow) → FoundExact o → stored_found o ≡ o
stored_found-exact none e = refl
stored_found-exact (some r) e = λ i. some (record r {
  last_seen = stored-exact r.last_seen e.last_seen i;
  since = stored-exact r.since e.since i;
  channel = stored-exact r.channel e.channel i;
  bytes = stored-exact r.bytes e.bytes i;
})

-- The row that is read from the record after a write is the one that was written, whatever the
-- record held, where the numbers of the row under this key are no more than 2 ^ 53; a key that was
-- not written has no row.
pub read_session_rows-write_session_rows :
    (k : String) (rows : List (String × SessionRow)) (extra : JsonMap)
    → FoundExact (find k rows)
    → find k (read_session_rows (write_session_rows rows extra)) ≡ find k rows
read_session_rows-write_session_rows k rows extra exact =
    find-stored k rows extra ∙ stored_found-exact (find k rows) exact

pub read_rows-IsKeyed : (fs : Fields) → IsKeyed (read_rows fs)
unfolding read_rows
read_rows-IsKeyed end = tt
read_rows-IsKeyed (field m (obj row) fs) =
    bind-IsKeyed m (read_row row) (read_rows fs) (read_rows-IsKeyed fs)
read_rows-IsKeyed (field m null fs) = read_rows-IsKeyed fs
read_rows-IsKeyed (field m (bool b) fs) = read_rows-IsKeyed fs
read_rows-IsKeyed (field m (str s) fs) = read_rows-IsKeyed fs
read_rows-IsKeyed (field m (int n) fs) = read_rows-IsKeyed fs
read_rows-IsKeyed (field m (int64 n) fs) = read_rows-IsKeyed fs
read_rows-IsKeyed (field m (float64 n) fs) = read_rows-IsKeyed fs
read_rows-IsKeyed (field m (arr vs) fs) = read_rows-IsKeyed fs
