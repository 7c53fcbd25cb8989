-- ===== src/Cbor/Canonical.antt =====
-- `sort_maps` of core/crates/arveil-core/src/signed.rs: the entries of every map end up in the
-- order of their encoded keys, whatever order they came in.
use arveil.Base.{◌≡◌, ◌≢◌, refl, ap, ap₂, ◌∙◌, inl, inr, true, Bytes, arith, Bool-cases}
use arveil.Cbor.Order.{key_le_total, key_le_antisymm, key_le_trans}
use arveil.Cbor.{
  Value, Items, Entries, leaf, array, tag, map, nil, cons, end, entry, key_le, insert_entry,
  sort_maps, sort_items, sort_entries,
}

module _ {Leaf : Type 0} (into_writer : Value Leaf → Bytes) where
  -- `k` may stand before the entries.
  abbrev pub Leads : Value Leaf → Entries Leaf → Type 0
  Leads k end = Unit
  Leads k (entry j w es) = key_le (into_writer k) (into_writer j) ≡ true

  unfoldable mutual
    -- Every map at every depth of the value is in key order.
    pub IsCanonical : Value Leaf → Type 0
    IsCanonical (leaf l) = Unit
    IsCanonical (array items) = AreCanonical items
    IsCanonical (tag n inner) = IsCanonical inner
    IsCanonical (map entries) = IsOrdered entries

    pub AreCanonical : Items Leaf → Type 0
    AreCanonical nil = Unit
    AreCanonical (cons v items) = IsCanonical v × AreCanonical items

    pub IsOrdered : Entries Leaf → Type 0
    IsOrdered end = Unit
    IsOrdered (entry k v es) = Leads k es × IsCanonical v × IsOrdered es

  mutual
    -- The same value, but for the order of the entries of its maps. Two entries change places
    -- only if their keys are written differently.
    pub data Reordered : Value Leaf → Value Leaf → Type 0 where
      same_leaf : {l : Leaf} → Reordered (leaf l) (leaf l)
      in_array : {xs ys : Items Leaf} → ReorderedItems xs ys → Reordered (array xs) (array ys)
      in_tag : {n : _} {v w : Value Leaf} → Reordered v w → Reordered (tag n v) (tag n w)
      in_map : {es fs : Entries Leaf} → ReorderedEntries es fs → Reordered (map es) (map fs)

    pub data ReorderedItems : Items Leaf → Items Leaf → Type 0 where
      no_items : ReorderedItems nil nil
      items :
          {v w : Value Leaf} {xs ys : Items Leaf}
          → Reordered v w
          → ReorderedItems xs ys
          → ReorderedItems (cons v xs) (cons w ys)

    pub data ReorderedEntries : Entries Leaf → Entries Leaf → Type 0 where
      no_entries : ReorderedEntries end end
      entries :
          {k v w : Value Leaf} {es fs : Entries Leaf}
          → Reordered v w
          → ReorderedEntries es fs
          → ReorderedEntries (entry k v es) (entry k w fs)
      swap :
          {k v j w : Value Leaf} {es : Entries Leaf}
          → into_writer k ≢ into_writer j
          → ReorderedEntries (entry k v (entry j w es)) (entry j w (entry k v es))
      both :
          {es fs gs : Entries Leaf}
          → ReorderedEntries es fs
          → ReorderedEntries fs gs
          → ReorderedEntries es gs

  Leads-insert_entry :
      (j k v : Value Leaf) (es : Entries Leaf)
      → key_le (into_writer j) (into_writer k) ≡ true
      → Leads j es
      → Leads j (insert_entry into_writer k v es)
  unfolding insert_entry
  Leads-insert_entry j k v end h l = h
  Leads-insert_entry j k v (entry i w es) h l = ground arith

  insert_entry-IsOrdered :
      (k v : Value Leaf) (es : Entries Leaf)
      → IsCanonical v
      → IsOrdered es
      → IsOrdered (insert_entry into_writer k v es)
  unfolding insert_entry IsOrdered
  insert_entry-IsOrdered k v end c o = (tt, c, tt)
  insert_entry-IsOrdered k v (entry j w es) c o =
      elim (Bool-cases (key_le (into_writer k) (into_writer j))) [
        | inl le ↦ rw le (le, c, o)
        | inr gt ↦ rw gt (
          Leads-insert_entry j k v es (key_le_total _ _ gt) o.0,
          o.1,
          insert_entry-IsOrdered k v es c o.2,
        )
      ]

  mutual
    unfolding sort_maps IsCanonical

    sort_maps-IsCanonical' : (v : Value Leaf) → IsCanonical (sort_maps into_writer v)
    sort_maps-IsCanonical' (leaf l) = tt
    sort_maps-IsCanonical' (array xs) = sort_items-AreCanonical xs
    sort_maps-IsCanonical' (tag n v) = sort_maps-IsCanonical' v
    sort_maps-IsCanonical' (map es) = sort_entries-IsOrdered es

    sort_items-AreCanonical : (xs : Items Leaf) → AreCanonical (sort_items into_writer xs)
    sort_items-AreCanonical nil = tt
    sort_items-AreCanonical (cons v xs) = (sort_maps-IsCanonical' v, sort_items-AreCanonical xs)

    sort_entries-IsOrdered : (es : Entries Leaf) → IsOrdered (sort_entries into_writer es)
    sort_entries-IsOrdered end = tt
    sort_entries-IsOrdered (entry k v es) =
        insert_entry-IsOrdered k _ _ (sort_maps-IsCanonical' v) (sort_entries-IsOrdered es)

  insert_entry-first :
      (k v : Value Leaf) (es : Entries Leaf)
      → Leads k es
      → insert_entry into_writer k v es ≡ entry k v es
  unfolding insert_entry
  insert_entry-first k v end l = refl
  insert_entry-first k v (entry j w es) l = rw l

  mutual
    unfolding sort_maps IsCanonical

    sort_maps-fixes : (v : Value Leaf) → IsCanonical v → sort_maps into_writer v ≡ v
    sort_maps-fixes (leaf l) c = refl
    sort_maps-fixes (array xs) c = ap array (sort_items-fixes xs c)
    sort_maps-fixes (tag n v) c = ap (tag n) (sort_maps-fixes v c)
    sort_maps-fixes (map es) c = ap map (sort_entries-fixes es c)

    sort_items-fixes : (xs : Items Leaf) → AreCanonical xs → sort_items into_writer xs ≡ xs
    sort_items-fixes nil c = refl
    sort_items-fixes (cons v xs) c = ap₂ cons (sort_maps-fixes v c.0) (sort_items-fixes xs c.1)

    sort_entries-fixes : (es : Entries Leaf) → IsOrdered es → sort_entries into_writer es ≡ es
    sort_entries-fixes end c = refl
    sort_entries-fixes (entry k v es) c =
        ap₂ (insert_entry into_writer k) (sort_maps-fixes v c.1) (sort_entries-fixes es c.2)
        ∙ insert_entry-first k v es c.0

  insert_entry-swap :
      (k v j w : Value Leaf) (es : Entries Leaf)
      → into_writer k ≢ into_writer j
      → insert_entry into_writer k v (insert_entry into_writer j w es)
        ≡ insert_entry into_writer j w (insert_entry into_writer k v es)
  unfolding insert_entry
  insert_entry-swap k v j w end ne = ground (
    arith,
    key_le_total (into_writer k) (into_writer j),
    key_le_antisymm (into_writer k) (into_writer j),
  )
  insert_entry-swap k v j w (entry i u es) ne = ground (
    arith,
    insert_entry-swap k v j w es ne,
    key_le_total (into_writer k) (into_writer j),
    key_le_antisymm (into_writer k) (into_writer j),
    key_le_trans (into_writer k) (into_writer j) (into_writer i),
    key_le_trans (into_writer j) (into_writer k) (into_writer i),
  )

  mutual
    unfolding sort_maps

    sort_maps-same :
        {v w : Value Leaf} → Reordered v w → sort_maps into_writer v ≡ sort_maps into_writer w
    sort_maps-same same_leaf = refl
    sort_maps-same (in_array r) = ap array (sort_items-same r)
    sort_maps-same (in_tag {n} r) = ap (tag n) (sort_maps-same r)
    sort_maps-same (in_map r) = ap map (sort_entries-same r)

    sort_items-same :
        {xs ys : Items Leaf}
        → ReorderedItems xs ys
        → sort_items into_writer xs ≡ sort_items into_writer ys
    sort_items-same no_items = refl
    sort_items-same (items r rs) = ap₂ cons (sort_maps-same r) (sort_items-same rs)

    sort_entries-same :
        {es fs : Entries Leaf}
        → ReorderedEntries es fs
        → sort_entries into_writer es ≡ sort_entries into_writer fs
    sort_entries-same no_entries = refl
    sort_entries-same (entries {k} r rs) =
        ap₂ (insert_entry into_writer k) (sort_maps-same r) (sort_entries-same rs)
    sort_entries-same (swap {k} {v} {j} {w} {es} ne) =
        insert_entry-swap k (sort_maps into_writer v) j (sort_maps into_writer w)
          (sort_entries into_writer es) ne
    sort_entries-same (both r s) = sort_entries-same r ∙ sort_entries-same s

  -- Every map of the result, at every depth, is in the order of its encoded keys, and sorting
  -- again changes nothing.
  pub sort_maps-IsCanonical :
      (v : Value Leaf)
      → IsCanonical (sort_maps into_writer v)
        × (sort_maps into_writer (sort_maps into_writer v) ≡ sort_maps into_writer v)
  sort_maps-IsCanonical v = (
    sort_maps-IsCanonical' v,
    sort_maps-fixes (sort_maps into_writer v) (sort_maps-IsCanonical' v),
  )

  -- Two values that differ only in the order of map entries whose keys are written differently
  -- are sorted to the same value, so they have the same deterministic encoding.
  pub sort_maps-Reordered :
      {v w : Value Leaf} → Reordered v w → sort_maps into_writer v ≡ sort_maps into_writer w
  sort_maps-Reordered r = sort_maps-same r
