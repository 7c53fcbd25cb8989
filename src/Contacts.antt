-- ===== src/Contacts.antt =====
-- The contacts of core/crates/arveil-core/src/client.rs and card_store.rs. Names are lists of code
-- points; the time of `unixepoch()`, SHA-256 and the own root key of the profile are arguments.
pub mod Numbers
pub mod Pinned
pub mod Lookup
pub mod Digits
mod Tests
use arveil.Base.{
  ℕ, ◌+◌, ◌*◌, ◌/◌, ◌%◌, Bool, true, false, not, ◌&&◌, ◌||◌, String, str_eq, List, [], ◌∷◌, ◌++◌,
  Option, none, some, Bytes, bytes_eq, ascii, any, take, is_empty, leb, ltb, ◌==◌, if◌then◌else◌,
  map, Result, ok, err,
}
use arveil.Sql.{update_where, select}
use arveil.Sql.Tables.{Keyed, by_blob, is_some, map_option, at, row_at, order_by}
use arveil.Cbor.{lex_le}
use arveil.Client.{ClientError, no_identity, contact_root_mismatch, no_such_contact, hex_of}

pub data VerifiedHow : Type 0 where
  comparison in_person : VerifiedHow

unfoldable pub as_str : VerifiedHow → String
as_str comparison = "comparison"
as_str in_person = "in-person"

unfoldable pub parse : String → Option VerifiedHow
parse s =
    if str_eq s "comparison"
    then some comparison
    else if str_eq s "in-person"
    then some in_person
    else none

-- A text as its code points.
abbrev pub Text : Type 0
Text = List ℕ

-- A row of `contacts`.
pub record ContactRow : Type 0 where
  pub identity_id : Bytes
  pub root_public : Bytes
  pub name : Option Text
  pub verified : ℕ
  pub verified_at : Option ℕ
  pub first_seen : ℕ
  pub accepted : Option ℕ
  pub verified_how : Option String

-- A row of `contact_routes`.
pub record RouteRow : Type 0 where
  pub identity_id : Bytes
  pub device_id : Bytes
  pub route : Text

abbrev pub Contacts : Type 0
Contacts = List ContactRow

abbrev pub Routes : Type 0
Routes = List RouteRow

abbrev pub by_identity : Keyed Bytes ContactRow
by_identity = by_blob (λ r. r.identity_id)

pub record Contact : Type 0 where
  pub identity_id : Bytes
  pub root_public : Bytes
  pub verified : Bool
  pub name : Option Text
  pub accepted : Bool
  pub verified_how : Option VerifiedHow

-- `name.clone()`, or the first four bytes of the identity in hexadecimal.
unfoldable pub shown : Option Text → Bytes → Text
shown (some n) identity = n
shown none identity = hex_of (take 4 identity)

unfoldable pub label : Contact → Text
unfolding shown
label c = shown c.name c.identity_id

-- `accepted == Some(1)`
abbrev pub is_one : Option ℕ → Bool
is_one none = false
is_one (some n) = n == 1

abbrev pub or_comparison : Option VerifiedHow → Option VerifiedHow
or_comparison none = some comparison
or_comparison (some how) = some how

unfoldable pub how_of : Option String → Option VerifiedHow
how_of none = some comparison
how_of (some s) = or_comparison (parse s)

unfoldable pub contact_of : ContactRow → Contact
contact_of r = record {
  identity_id = r.identity_id;
  root_public = r.root_public;
  verified = not (r.verified == 0);
  name = r.name;
  accepted = is_one r.accepted;
  verified_how = if r.verified == 0 then none else how_of r.verified_how;
}

-- `ORDER BY first_seen, identity_id`
abbrev pub seen_order : ContactRow → ContactRow → Bool
seen_order a b =
    ltb a.first_seen b.first_seen
    || (a.first_seen == b.first_seen && lex_le a.identity_id b.identity_id)

unfoldable pub contacts : Contacts → List Contact
contacts s = map contact_of (order_by seen_order s)

-- `into_iter().find(…)`
unfoldable pub find_contact : Bytes → List Contact → Option Contact
find_contact identity [] = none
find_contact identity (c ∷ cs) =
    if bytes_eq c.identity_id identity then some c else find_contact identity cs

unfoldable pub contact : Bytes → Contacts → Option Contact
contact identity s = find_contact identity (contacts s)

abbrev pub new_contact : Bytes → Bytes → ℕ → ContactRow
new_contact identity root now = record {
  identity_id = identity;
  root_public = root;
  name = none;
  verified = 0;
  verified_at = none;
  first_seen = now;
  accepted = none;
  verified_how = none;
}

abbrev pub rooted : Bytes → ContactRow → ContactRow
rooted root r = record r { root_public = root }

-- The `match known` of `contact_seen`.
unfoldable pub seen :
    Bytes → Bytes → ℕ → Option ContactRow → Contacts → Result ClientError (Unit {0}) × Contacts
seen identity root now none s = (ok tt, s ++ new_contact identity root now ∷ [])
seen identity root now (some r) s =
    if bytes_eq r.root_public root
    then (ok tt, s)
    else if r.verified == 0
    then (ok tt, update_where (at by_identity identity) (rooted root) s)
    else (err (contact_root_mismatch (hex_of identity)), s)

unfoldable pub contact_seen :
    Bytes → Bytes → ℕ → Contacts → Result ClientError (Unit {0}) × Contacts
contact_seen identity root_public now s =
    seen identity root_public now (row_at by_identity identity s) s

abbrev pub is_route : Bytes → Bytes → RouteRow → Bool
is_route identity device r = bytes_eq r.identity_id identity && bytes_eq r.device_id device

-- `INSERT … ON CONFLICT (identity_id, device_id) DO UPDATE SET route`
unfoldable pub put_route : Bytes → Bytes → Text → Routes → Routes
put_route identity device route s =
    if any (is_route identity device) s
    then update_where (is_route identity device) (λ r. record r { route = route }) s
    else s ++ record { identity_id = identity; device_id = device; route = route } ∷ []

abbrev pub chosen : ContactRow → ContactRow
chosen r = record r { accepted = some 1 }

unfoldable pub contact_route_save :
    Bytes → Bytes → Text → Contacts → Routes → Result ClientError (Unit {0}) × Contacts × Routes
contact_route_save identity device route s routes =
    if is_some (contact identity s)
    then (
      ok tt,
      update_where (at by_identity identity) chosen s,
      put_route identity device route routes,
    )
    else (err (no_such_contact (hex_of identity)), s, routes)

unfoldable pub contact_routes : Bytes → Routes → List (Bytes × Text)
contact_routes identity s =
    map (λ r. (r.device_id, r.route))
      (order_by (λ a b. lex_le a.device_id b.device_id)
        (select (λ r. bytes_eq r.identity_id identity) s))

-- `char::is_whitespace`
abbrev pub is_whitespace : ℕ → Bool
is_whitespace c =
    (leb 9 c && leb c 13)
    || c == 32
    || c == 133
    || c == 160
    || c == 5760
    || (leb 8192 c && leb c 8202)
    || c == 8232
    || c == 8233
    || c == 8239
    || c == 8287
    || c == 12288

unfoldable pub trim_start : Text → Text
trim_start [] = []
trim_start (c ∷ s) = let rest = trim_start s in if is_whitespace c then rest else c ∷ s

-- `trim_end`: a blank tail goes.
unfoldable pub trim_end : Text → Text
trim_end [] = []
trim_end (c ∷ s) =
    let rest = trim_end s in if is_empty rest && is_whitespace c then [] else c ∷ rest

abbrev pub trim : Text → Text
trim s = trim_end (trim_start s)

abbrev pub renamed : Option Text → ContactRow → ContactRow
renamed name r = record r { name = name }

unfoldable pub contact_rename : Bytes → Text → Contacts → Result ClientError (Unit {0}) × Contacts
contact_rename identity name s =
    if is_some (contact identity s)
    then (
      ok tt,
      update_where (at by_identity identity)
          (renamed (if is_empty (trim name) then none else some (trim name))) s,
    )
    else (err (no_such_contact (hex_of identity)), s)

-- `contact_accept` and `contact_verified` of card_store.rs: an update of no row is an error.
unfoldable pub update_contact :
    Bytes → (ContactRow → ContactRow) → Contacts → Result ClientError (Unit {0}) × Contacts
update_contact identity f s =
    if any (at by_identity identity) s
    then (ok tt, update_where (at by_identity identity) f s)
    else (err (no_such_contact (hex_of identity)), s)

unfoldable pub contact_accept : Bytes → Contacts → Result ClientError (Unit {0}) × Contacts
contact_accept identity = update_contact identity chosen

abbrev pub pinned : VerifiedHow → ℕ → ContactRow → ContactRow
unfolding as_str
pinned how now r = record r {
  verified = 1;
  verified_at = some now;
  verified_how = some (as_str how);
  accepted = some 1;
}

unfoldable pub contact_verified :
    Bytes → VerifiedHow → ℕ → Contacts → Result ClientError (Unit {0}) × Contacts
contact_verified identity how now = update_contact identity (pinned how now)

unfoldable pub accepted_column : Option ContactRow → Bool
accepted_column none = false
accepted_column (some r) = is_one r.accepted

unfoldable pub contact_is_accepted : Bytes → Contacts → Bool
contact_is_accepted identity s = accepted_column (row_at by_identity identity s)
