-- ===== src/Cbor/Tests.antt =====
-- Runs of `sort_maps`, and the theorems at concrete values.
use arveil.Base.{◌≡◌, refl, ◌∷◌, [], Bytes, ascii}
use arveil.Cbor.{Value, leaf, map, end, entry, lex_le, key_le, insert_entry, sort_maps}

-- Leaves are texts, written as they are.
abbrev write : Value Bytes → Bytes
write (leaf text) = text
write _ = []

abbrev number : Value Bytes
number = leaf (1 ∷ [])

abbrev unsorted : Value Bytes
unsorted = map (
    entry (leaf (ascii "zeta")) number (
      entry (leaf (ascii "a")) number
        (entry (leaf (ascii "long_name")) number (entry (leaf (ascii "bb")) number end))))

-- a, bb, zeta, long_name
sort_maps-unsorted :
    sort_maps write unsorted
    ≡ map (
        entry (leaf (ascii "a")) number (
          entry
            (leaf (ascii "bb"))
            number
            (entry (leaf (ascii "zeta")) number (entry (leaf (ascii "long_name")) number end))))
unfolding sort_maps insert_entry key_le lex_le
sort_maps-unsorted = refl

abbrev two : Value Bytes
two = map (entry (leaf (ascii "b")) number (entry (leaf (ascii "a")) number end))

abbrev two_swapped : Value Bytes
two_swapped = map (entry (leaf (ascii "a")) number (entry (leaf (ascii "b")) number end))
