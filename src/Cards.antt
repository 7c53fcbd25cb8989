-- ===== src/Cards.antt =====
-- The contact cards of core/crates/arveil-core/src/card_store.rs: secrets that this device showed
-- in person or shared as a link. The secret that `getrandom` draws is an argument, `none` when it
-- fails.
pub mod Standing
pub mod Refine
pub mod Redeem
pub mod Shared
pub mod Links
mod Tests
use arveil.Base.{
  ℕ, ◌+◌, ◌*◌, Bool, true, false, not, ◌&&◌, ◌||◌, String, str_eq, List, [], ◌∷◌, ◌++◌, Option,
  none, some, Bytes, bytes_eq, any, leb, ltb, ◌==◌, if◌then◌else◌, map, Result, ok, err,
}
use arveil.Sql.{constraint, coalesce, update_where, select, count_where}
use arveil.Sql.Tables.{Keyed, by_blob, is_some, at, row_at, order_by}
use arveil.Cbor.{lex_le}
use arveil.Identity.{random}
use arveil.Client.{ClientError, sqlite, identity}

abbrev pub in_person_seconds : ℕ
in_person_seconds = 10 * 60

abbrev pub link_seconds : ℕ
link_seconds = 30 * 24 * 60 * 60

pub data CardKind : Type 0 where
  in_person link : CardKind

unfoldable pub as_str : CardKind → String
as_str in_person = "in-person"
as_str link = "link"

unfoldable pub parse : String → Option CardKind
parse s =
    if str_eq s "in-person" then some in_person else if str_eq s "link" then some link else none

abbrev pub is_in_person : CardKind → Bool
is_in_person in_person = true
is_in_person link = false

-- A row of `contact_cards`.
pub record CardRow : Type 0 where
  pub secret : Bytes
  pub kind : String
  pub created_at : ℕ
  pub expires_at : ℕ
  pub used_at : Option ℕ
  pub revoked : ℕ

abbrev pub CardTable : Type 0
CardTable = List CardRow

abbrev pub by_secret : Keyed Bytes CardRow
by_secret = by_blob (λ r. r.secret)

pub record OwnCard : Type 0 where
  pub secret : Bytes
  pub kind : CardKind
  pub created_at : ℕ
  pub expires_at : ℕ
  pub used_at : Option ℕ
  pub revoked : Bool

abbrev pub validity : CardKind → ℕ
validity in_person = in_person_seconds
validity link = link_seconds

abbrev pub created : Bytes → CardKind → ℕ → CardRow
created secret kind now = record {
  secret = secret;
  kind = as_str kind;
  created_at = now;
  expires_at = now + validity kind;
  used_at = none;
  revoked = 0;
}

unfoldable pub card_create :
    Option Bytes → CardKind → ℕ → CardTable → Result ClientError OwnCard × CardTable
card_create none kind now s = (err (identity random), s)
card_create (some secret) kind now s =
    if any (at by_secret secret) s then (err (sqlite constraint), s) else (
      ok record {
        secret = secret;
        kind = kind;
        created_at = now;
        expires_at = now + validity kind;
        used_at = none;
        revoked = false;
      },
      s ++ created secret kind now ∷ [],
    )

-- `WHERE secret = ?1 AND revoked = 0`, and what the update sets.
abbrev pub is_live : Bytes → CardRow → Bool
is_live secret r = at by_secret secret r && r.revoked == 0

abbrev pub withdrawn : CardRow → CardRow
withdrawn r = record r { revoked = 1 }

unfoldable pub card_revoke : Bytes → CardTable → Bool × CardTable
card_revoke secret s =
    (count_where (is_live secret) s == 1, update_where (is_live secret) withdrawn s)

abbrev pub link_or : Option CardKind → CardKind
link_or none = link
link_or (some kind) = kind

abbrev pub own_card : CardRow → OwnCard
own_card r = record {
  secret = r.secret;
  kind = link_or (parse r.kind);
  created_at = r.created_at;
  expires_at = r.expires_at;
  used_at = r.used_at;
  revoked = not (r.revoked == 0);
}

abbrev pub is_shared : ℕ → CardRow → Bool
is_shared now r = str_eq r.kind "link" && r.revoked == 0 && ltb now r.expires_at

-- `ORDER BY created_at DESC, secret`
abbrev pub newest_card : CardRow → CardRow → Bool
newest_card a b =
    ltb b.created_at a.created_at || (a.created_at == b.created_at && lex_le a.secret b.secret)

unfoldable pub cards_shared : ℕ → CardTable → List OwnCard
cards_shared now s = map own_card (order_by newest_card (select (is_shared now) s))

abbrev pub used : ℕ → CardRow → CardRow
used now r = record r { used_at = coalesce r.used_at (some now) }

-- `used_at.unwrap_or(now)`
abbrev pub first_use : Option ℕ → ℕ → ℕ
first_use none now = now
first_use (some t) now = t

-- The guards of `card_redeem` on the row that was read, and the card that it gives.
unfoldable pub redeemed : ℕ → Bytes → CardRow → Option CardKind → Option OwnCard
redeemed now secret r none = none
redeemed now secret r (some kind) =
    if not (r.revoked == 0) || leb r.expires_at now || (is_in_person kind && is_some r.used_at)
    then none
    else some record {
      secret = secret;
      kind = kind;
      created_at = r.created_at;
      expires_at = r.expires_at;
      used_at = some (first_use r.used_at now);
      revoked = false;
    }

unfoldable pub settled : Bytes → ℕ → Option OwnCard → CardTable → Option OwnCard × CardTable
settled secret now none s = (none, s)
settled secret now (some card) s = (some card, update_where (at by_secret secret) (used now) s)

unfoldable pub spend : Bytes → ℕ → Option CardRow → CardTable → Option OwnCard × CardTable
unfolding settled
spend secret now none s = (none, s)
spend secret now (some r) s = settled secret now (redeemed now secret r (parse r.kind)) s

unfoldable pub card_redeem : Bytes → ℕ → CardTable → Option OwnCard × CardTable
unfolding spend
card_redeem secret now s = spend secret now (row_at by_secret secret s) s

-- `own_card`: the name on this person's cards, the one row of its table.
unfoldable pub card_name : Option (Option Bytes) → Option Bytes
card_name none = none
card_name (some name) = name

unfoldable pub card_name_set : Option Bytes → Option (Option Bytes) → Option (Option Bytes)
card_name_set name row = some name
