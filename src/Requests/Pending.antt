-- ===== src/Requests/Pending.antt =====
-- The lists of requests of core/crates/arveil-core/src/card_store.rs.
use arveil.Base.{
  ◌≡◌, refl, ap, sym, ◌∙◌, Bool, true, false, ◌&&◌, ◌||◌, List, [], ◌∷◌, Option, none, some, Bytes,
  bytes_eq, bytes_eq_iff, any, ◌==◌, map, Bool-cases, Option-cases, inl, inr, arith,
}
use arveil.Sql.{select}
use arveil.Sql.Tables.{
  at, row_at, IsKeyed, is_some, any-at, any-order_by, row_at-select, kept_if, order_by,
}
use arveil.Requests.{
  RequestStatus, pending, declined, Request, ConversationRow, Conversations, by_group, status_of,
  request_with, request_of, request, is_pending, group_order, somes, requests_pending,
}

abbrev pub is_waiting : Option Request → Bool
is_waiting none = false
is_waiting (some r) = elim r.status [ pending ↦ true | declined ↦ false ]

-- The request of a row that is pending.
row-is_waiting :
    (group : Bytes) (r : ConversationRow) → is_pending r ≡ is_waiting (request_of group (some r))
unfolding request_of status_of
row-is_waiting group r = elim (Option-cases r.request) [
  | inl e ↦ rw e refl
  | inr (n, e) ↦ elim (Bool-cases (n == 1)) [
    | inl one ↦ rw e (rw one refl)
    | inr other ↦ elim (Bool-cases (n == 2)) [
      | inl two ↦ rw e (rw other (rw two refl))
      | inr more ↦ rw e (rw other (rw more refl))
    ]
  ]
]

-- A request names the group that it was read for.
request_with-group :
    (group : Bytes) (r : ConversationRow) (o : Option RequestStatus) (q : Request)
    → request_with group r o ≡ some q
    → q.group_id ≡ group
request_with-group group r none q h = ground (arith, h)
request_with-group group r (some status) q h = ground (arith, h)

request-group :
    (group : Bytes) (s : Conversations) (q : Request)
    → request group s ≡ some q
    → q.group_id ≡ group
unfolding request request_of
request-group group s q h = elim (Option-cases (row_at by_group group s)) [
  | inl e ↦ ground (arith, h, e)
  | inr (r, e) ↦
      request_with-group group r (status_of r.request) q (ap (request_of group) (sym e) ∙ h)
]

any-somes :
    (group : Bytes) (s : Conversations) (groups : List Bytes)
    → any (λ q. bytes_eq q.group_id group) (somes (map (λ g. request g s) groups))
      ≡ any (λ g. bytes_eq g group) groups && is_some (request group s)
unfolding somes
any-somes group s [] = refl
any-somes group s (g ∷ groups) =
    let rest = any-somes group s groups in
    elim (Option-cases (request g s)) [
      | inl e ↦ elim (Bool-cases (bytes_eq g group)) [
        | inl same ↦
            let mine : request group s ≡ none =
              ap (λ k. request k s) (sym ((bytes_eq_iff g group).0 same)) ∙ e in
            rw e (rest ∙ rw mine (ground arith))
        | inr differs ↦ rw e (rw differs rest)
      ]
      | inr (q, e) ↦
          let key = ap (λ k. bytes_eq k group) (request-group g s q e) in
          elim (Bool-cases (bytes_eq g group)) [
            | inl same ↦
                let mine : request group s ≡ some q =
                  ap (λ k. request k s) (sym ((bytes_eq_iff g group).0 same)) ∙ e in
                rw e (rw (key ∙ same) (rw same (rw mine refl)))
            | inr differs ↦ rw e (rw (key ∙ differs) (rw differs rest))
          ]
    ]

any-groups :
    (group : Bytes) (rows : Conversations)
    → any (λ g. bytes_eq g group) (map (λ r. r.group_id) rows) ≡ any (at by_group group) rows
any-groups group [] = refl
any-groups group (r ∷ rows) = ap (λ b. bytes_eq r.group_id group || b) (any-groups group rows)

waiting-status :
    (group : Bytes) (r : ConversationRow) (o : Option RequestStatus)
    → is_pending r ≡ is_waiting (request_with group r o)
    → is_some (kept_if is_pending (some r)) && is_some (request_with group r o)
      ≡ is_waiting (request_with group r o)
waiting-status group r none h = rw h refl
waiting-status group r (some pending) h = rw h refl
waiting-status group r (some declined) h = rw h refl

waiting-row :
    (group : Bytes) (o : Option ConversationRow)
    → is_some (kept_if is_pending o) && is_some (request_of group o)
      ≡ is_waiting (request_of group o)
unfolding request_of
waiting-row group none = refl
waiting-row group (some r) = waiting-status group r (status_of r.request) (row-is_waiting group r)

-- The list of pending requests holds a conversation exactly if its request waits for an answer, on a
-- table whose groups are distinct: one that was declined, or that nobody asked for, is not in it.
pub requests_pending_lem :
    (group : Bytes) (s : Conversations)
    → IsKeyed by_group s
    → any (λ q. bytes_eq q.group_id group) (requests_pending s) ≡ is_waiting (request group s)
unfolding requests_pending request
requests_pending_lem group s w =
    any-somes group s _
    ∙ ap (λ b. b && is_some (request group s))
        (any-groups group (order_by group_order (select is_pending s))
          ∙ any-order_by (at by_group group) group_order (select is_pending s)
          ∙ any-at by_group group (select is_pending s)
          ∙ ap is_some (row_at-select by_group group is_pending s w))
    ∙ waiting-row group (row_at by_group group s)
