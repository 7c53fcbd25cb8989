-- ===== src/Inbox/Once.antt =====
-- `record_incoming` of core/crates/arveil-core/src/delivery.rs: a delivery is processed once.
use arveil.Base.{
  ℕ, ◌+◌, ◌≡◌, ap₂, bytes_eq_refl, Bool, true, false, not, ◌&&◌, ◌||◌, List, [], ◌∷◌, Bytes,
  bytes_eq, bytes_eq_iff, any, arith, if◌then◌else◌, Bool-cases, inl, inr,
}
use arveil.Sql.{any-append}
use arveil.Inbox.{Inbox, has_key, record_incoming}

-- A delivery as the relay hands it over.
pub record Incoming : Type 0 where
  pub mailbox_id : Bytes
  pub delivery_id : Bytes
  pub seq : ℕ

abbrev pub is_delivery : Bytes → Bytes → Incoming → Bool
is_delivery mailbox delivery d = bytes_eq d.mailbox_id mailbox && bytes_eq d.delivery_id delivery

-- How often the delivery is taken for new, that is processed, while these arrive in turn.
unfoldable pub times_processed : Bytes → Bytes → List Incoming → Inbox → ℕ
times_processed mailbox delivery [] s = 0
times_processed mailbox delivery (d ∷ ds) s =
    let (new, s') = record_incoming d.mailbox_id d.delivery_id d.seq s in
    (if new && is_delivery mailbox delivery d then 1 else 0)
    + times_processed mailbox delivery ds s'

same_key :
    (m d m' d' : Bytes) (s : Inbox)
    → (bytes_eq m' m && bytes_eq d' d) ≡ true
    → any (has_key m' d') s ≡ any (has_key m d) s
same_key m d m' d' s h =
    let m_is : m' ≡ m = (bytes_eq_iff m' m).0 (ground arith) in
    let d_is : d' ≡ d = (bytes_eq_iff d' d).0 (ground arith) in
    ap₂ (λ a b. any (has_key a b) s) m_is d_is

has_key-record_incoming :
    (m d m' d' : Bytes) (seq : ℕ) (s : Inbox)
    → any (has_key m d) (record_incoming m' d' seq s).1
      ≡ any (has_key m d) s || (bytes_eq m' m && bytes_eq d' d)
unfolding record_incoming
has_key-record_incoming m d m' d' seq s = elim (Bool-cases (any (has_key m' d') s)) [
  | inl old ↦ rw old (ground (arith, same_key m d m' d' s))
  | inr new ↦ rw new (rw any-append (ground arith))
]

is_new :
    (m d : Bytes) (seq : ℕ) (s : Inbox) → (record_incoming m d seq s).0 ≡ not (any (has_key m d) s)
unfolding record_incoming
is_new m d seq s = ground arith

-- Over any series of deliveries, repeated or not, each is processed exactly once if it arrives and
-- the inbox did not hold it before, and not at all otherwise.
pub times_processed_lem :
    (m d : Bytes) (ds : List Incoming) (s : Inbox)
    → times_processed m d ds s
      ≡ (if any (has_key m d) s then 0 else if any (is_delivery m d) ds then 1 else 0)
unfolding times_processed
times_processed_lem m d [] s = ground arith
times_processed_lem m d (i ∷ ds) s = ground (
  arith,
  times_processed_lem m d ds (record_incoming i.mailbox_id i.delivery_id i.seq s).1,
  has_key-record_incoming m d i.mailbox_id i.delivery_id i.seq s,
  is_new i.mailbox_id i.delivery_id i.seq s,
  same_key m d i.mailbox_id i.delivery_id s,
)

-- A delivery that was recorded is refused the second time, and the inbox stays as it is.
pub record_incoming_twice :
    (m d : Bytes) (seq seq' : ℕ) (s : Inbox)
    → record_incoming m d seq' (record_incoming m d seq s).1
      ≡ (false, (record_incoming m d seq s).1)
unfolding record_incoming
record_incoming_twice m d seq seq' s = elim (Bool-cases (any (has_key m d) s)) [
  | inl old ↦ rw old (rw old)
  | inr new ↦
      rw new (rw (any-append (has_key m d) s _) (rw (new, bytes_eq_refl m, bytes_eq_refl d)))
]
