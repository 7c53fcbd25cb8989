-- ===== src/Attachments/Chunks.antt =====
-- The chunks of a file, of core/crates/arveil-core/src/attachment_store.rs.
use arveil.Base.{
  ℕ, ◌+◌, ◌≤◌, ◌≡◌, sym, subst, ◌∙◌, List, [], ◌∷◌, ◌++◌, Bytes, bytes_eq, length, length-append,
  concat, map, ok, arith,
}
use mathlib.Core.List.{append_assoc, append-nil}
use arveil.Sql.{select}
use arveil.Attachments.{Chunk, by_offset, join_chunks, attachment_bytes}

-- Each chunk begins where the ones before it end.
abbrev pub IsContiguous : ℕ → List Chunk → Type 0
IsContiguous n [] = Unit
IsContiguous n (c ∷ cs) = (c.offset ≡ n) × IsContiguous (n + length c.bytes) cs

join_chunks_lem :
    (limit : ℕ) (start bytes : Bytes) (cs : List Chunk)
    → length start ≤ limit
    → join_chunks limit start cs ≡ ok bytes
    → (bytes ≡ start ++ concat (map (λ c. c.bytes) cs))
      × IsContiguous (length start) cs
      × (length bytes ≤ limit)
unfolding join_chunks
join_chunks_lem limit start bytes [] h j =
    let same : start ≡ bytes = cc j in
    (sym same ∙ sym (append-nil start), tt, subst (λ b. length b ≤ limit) same h)
join_chunks_lem limit start bytes (c ∷ cs) h j =
    let fits : length (start ++ c.bytes) ≤ limit = ground (arith, j, length-append start c.bytes) in
    let rest : join_chunks limit (start ++ c.bytes) cs ≡ ok bytes = ground (arith, j) in
    let ih = join_chunks_lem limit (start ++ c.bytes) bytes cs fits rest in
    (
      ih.0 ∙ append_assoc start c.bytes (concat (map (λ d. d.bytes) cs)),
      (ground (arith, j), subst (λ k. IsContiguous k cs) (length-append start c.bytes) ih.1),
      ih.2,
    )

-- The bytes of a file that are given out are its chunks by their offsets, one behind the other,
-- where each chunk begins just where the ones before it end, and they are at most as many as asked
-- for.
pub attachment_bytes-IsContiguous :
    (id : Bytes) (limit : ℕ) (s : List Chunk) (bytes : Bytes)
    → attachment_bytes id limit s ≡ ok bytes
    → let cs = by_offset (select (λ c. bytes_eq c.event_id id) s) in
      (bytes ≡ concat (map (λ c. c.bytes) cs)) × IsContiguous 0 cs × (length bytes ≤ limit)
unfolding attachment_bytes
attachment_bytes-IsContiguous id limit s bytes h =
    join_chunks_lem limit [] bytes (by_offset (select (λ c. bytes_eq c.event_id id) s))
      (omega arith) h
