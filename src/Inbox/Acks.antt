-- ===== src/Inbox/Acks.antt =====
-- Acknowledgement of deliveries, of core/crates/arveil-core/src/delivery.rs.
use arveil.Base.{
  ◌≡◌, refl, ap, ◌∙◌, Bool, not, ◌&&◌, ◌||◌, List, [], ◌∷◌, Bytes, bytes_eq, bytes_eq_iff, any, map,
  arith, Bool-cases, inl, inr,
}
use arveil.Sql.{update_where, select}
use arveil.Inbox.{
  InboxRow, Inbox, has_key, insert_by_seq, order_by_seq, is_unacked, unacked, acknowledged,
  mark_acked,
}

abbrev pub holds : Bytes → List Bytes → Bool
holds d ds = any (λ x. bytes_eq x d) ds

-- The same, before the rows are sorted.
abbrev awaits : Bytes → Bytes → Inbox → Bool
awaits m d s = any (λ r. is_unacked m r && bytes_eq r.delivery_id d) s

holds-insert_by_seq :
    (d : Bytes) (r : InboxRow) (rows : List InboxRow)
    → holds d (map (λ q. q.delivery_id) (insert_by_seq r rows))
      ≡ bytes_eq r.delivery_id d || holds d (map (λ q. q.delivery_id) rows)
unfolding insert_by_seq
holds-insert_by_seq d r [] = refl
holds-insert_by_seq d r (q ∷ rows) = ground (arith, holds-insert_by_seq d r rows)

holds-order_by_seq :
    (m d : Bytes) (s : Inbox)
    → holds d (map (λ q. q.delivery_id) (order_by_seq (select (is_unacked m) s))) ≡ awaits m d s
unfolding order_by_seq
holds-order_by_seq m d [] = refl
holds-order_by_seq m d (r ∷ s) = elim (Bool-cases (is_unacked m r)) [
  | inl e ↦ rw e (
      holds-insert_by_seq d r (order_by_seq (select (is_unacked m) s))
      ∙ ap (λ b. bytes_eq r.delivery_id d || b) (holds-order_by_seq m d s))
  | inr e ↦ rw e (holds-order_by_seq m d s)
]

awaits-update :
    (m d m' d' : Bytes) (s : Inbox)
    → awaits m d (update_where (has_key m' d') acknowledged s)
      ≡ awaits m d s && not (bytes_eq m' m && bytes_eq d' d)
awaits-update m d m' d' [] = refl
awaits-update m d m' d' (r ∷ s) = ground (
  arith,
  awaits-update m d m' d' s,
  bytes_eq_iff r.mailbox_id m,
  bytes_eq_iff r.mailbox_id m',
  bytes_eq_iff m' m,
  bytes_eq_iff r.delivery_id d,
  bytes_eq_iff r.delivery_id d',
  bytes_eq_iff d' d,
)

awaits-mark_acked :
    (m d m' : Bytes) (ds : List Bytes) (s : Inbox)
    → awaits m d (mark_acked m' ds s) ≡ awaits m d s && not (bytes_eq m' m && holds d ds)
unfolding mark_acked
awaits-mark_acked m d m' [] s = ground arith
awaits-mark_acked m d m' (x ∷ ds) s =
    awaits-mark_acked m d m' ds (update_where (has_key m' x) acknowledged s)
    ∙ ground (arith, awaits-update m d m' x s)

-- What awaits acknowledgement after `mark_acked`: exactly what awaited it before, less the named
-- deliveries of that mailbox; other mailboxes are not touched.
pub unacked-mark_acked :
    (m d m' : Bytes) (ds : List Bytes) (s : Inbox)
    → holds d (unacked m (mark_acked m' ds s))
      ≡ holds d (unacked m s) && not (bytes_eq m' m && holds d ds)
unfolding unacked
unacked-mark_acked m d m' ds s =
    rw (holds-order_by_seq m d (mark_acked m' ds s))
      (rw (holds-order_by_seq m d s) (awaits-mark_acked m d m' ds s))
