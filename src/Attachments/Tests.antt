-- ===== src/Attachments/Tests.antt =====
-- Runs of the attachment tables, and the theorem at a concrete input.
use arveil.Base.{
  ◌≡◌, ◌≤◌, refl, Bool, true, false, List, [], ◌∷◌, ◌++◌, Bytes, bytes_eq, length, concat, map, ok,
  err,
}
use arveil.Sql.{select, invalid_query}
use arveil.Attachments.{Chunk, by_offset, insert_chunk, join_chunks, attachment_bytes}
use arveil.Attachments.Chunks.{IsContiguous, attachment_bytes-IsContiguous}

abbrev file : Bytes
file = 40 ∷ []

abbrev chunks : List Chunk
chunks =
    record { event_id = file; offset = 2; bytes = 3 ∷ [] }
    ∷ record { event_id = 41 ∷ []; offset = 0; bytes = 9 ∷ [] }
    ∷ record { event_id = file; offset = 0; bytes = 1 ∷ 2 ∷ [] }
    ∷ []

joined : attachment_bytes file 3 chunks ≡ ok (1 ∷ 2 ∷ 3 ∷ [])
unfolding attachment_bytes by_offset insert_chunk join_chunks arveil.Base.bytes_eq
joined = refl

too_many : attachment_bytes file 2 chunks ≡ err invalid_query
unfolding attachment_bytes by_offset insert_chunk join_chunks arveil.Base.bytes_eq
too_many = refl

attachment_bytes-IsContiguous_example :
    let cs = by_offset (select (λ c. bytes_eq c.event_id file) chunks) in
    ((1 ∷ 2 ∷ 3 ∷ []) ≡ concat (map (λ c. c.bytes) cs)) × IsContiguous 0 cs × (3 ≤ 3)
attachment_bytes-IsContiguous_example =
    attachment_bytes-IsContiguous file 3 chunks (1 ∷ 2 ∷ 3 ∷ []) joined
