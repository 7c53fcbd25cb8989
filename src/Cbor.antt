-- ===== src/Cbor.antt =====
-- core/crates/arveil-core/src/signed.rs, the deterministic encoding: `encoded`, `sort_maps` and
-- `canonical`. The crate ciborium and serde stand outside: their writer, reader and conversion to
-- a value are the fields of two interfaces.
pub mod Order
pub mod Canonical
mod Tests
use arveil.Base.{
  ℕ, ◌≡◌, Bool, true, false, ◌&&◌, ◌||◌, String, List, [], ◌∷◌, Bytes, length, ltb, ◌==◌,
  if◌then◌else◌, Result, ok, err, ◌>>=◌,
}

-- `ciborium::Value`, as far as the code looks into it: all that holds no other value is a leaf.
mutual
  pub data Value (Leaf : Type 0) : Type 0 where
    leaf : Leaf → Value Leaf
    array : Items Leaf → Value Leaf
    tag : ℕ → Value Leaf → Value Leaf
    map : Entries Leaf → Value Leaf

  pub data Items (Leaf : Type 0) : Type 0 where
    nil : Items Leaf
    cons : Value Leaf → Items Leaf → Items Leaf

  pub data Entries (Leaf : Type 0) : Type 0 where
    end : Entries Leaf
    entry : Value Leaf → Value Leaf → Entries Leaf → Entries Leaf

-- `Ord` of byte strings: lexicographic.
unfoldable pub lex_le : Bytes → Bytes → Bool
lex_le [] bs = true
lex_le (a ∷ as') [] = false
lex_le (a ∷ as') (b ∷ bs) = ltb a b || (a == b && lex_le as' bs)

-- `Ord` of the pair `(e.len(), e)`.
unfoldable pub key_le : Bytes → Bytes → Bool
key_le a b = ltb (length a) (length b) || (length a == length b && lex_le a b)

module _ {Leaf : Type 0} (into_writer : Value Leaf → Bytes) where
  -- `encoded`: writing a value into a vector does not fail.
  abbrev pub encoded : Value Leaf → Bytes
  encoded = into_writer

  -- One step of the stable sort by `(len, bytes)` of the encoded key.
  unfoldable pub insert_entry : Value Leaf → Value Leaf → Entries Leaf → Entries Leaf
  insert_entry k v end = entry k v end
  insert_entry k v (entry j w es) =
      let rest = insert_entry k v es in
      if key_le (encoded k) (encoded j) then entry k v (entry j w es) else entry j w rest

  unfoldable mutual
    pub sort_maps : Value Leaf → Value Leaf
    sort_maps (leaf l) = leaf l
    sort_maps (array items) = array (sort_items items)
    sort_maps (tag n inner) = tag n (sort_maps inner)
    sort_maps (map entries) = map (sort_entries entries)

    pub sort_items : Items Leaf → Items Leaf
    sort_items nil = nil
    sort_items (cons v items) = cons (sort_maps v) (sort_items items)

    -- The values first, then the entries; keys are left as they are.
    pub sort_entries : Entries Leaf → Entries Leaf
    sort_entries end = end
    sort_entries (entry k v es) = insert_entry k (sort_maps v) (sort_entries es)

-- ciborium: what a value holds at its leaves, and the bytes that it is written as.
pub record Cbor : Type 1 where
  pub Leaf : Type 0
  pub into_writer : Value Leaf → Bytes

-- serde's view of one type of the program.
pub record Serde (c : Cbor) (A : Type 0) : Type 0 where
  pub serialized : A → Result String (Value c.Leaf)
  pub from_reader : Bytes → Result String A

module _ {c : Cbor} {A : Type 0} (s : Serde c A) where
  unfoldable pub canonical : A → Result String Bytes
  canonical value = do v ← s.serialized value; ok (c.into_writer (sort_maps c.into_writer v))

  -- What the readers rely on: a value that was written with its maps sorted reads back, since
  -- serde finds the fields of a structure by their names.
  pub record ReadsBack : Type 0 where
    pub reads_back :
        (a : A) {v : Value c.Leaf}
        → s.serialized a ≡ ok v
        → s.from_reader (c.into_writer (sort_maps c.into_writer v)) ≡ ok a
