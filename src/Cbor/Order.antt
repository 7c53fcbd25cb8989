-- ===== src/Cbor/Order.antt =====
-- The order of encoded keys is a total order.
use arveil.Base.{◌≡◌, refl, true, false, [], ◌∷◌, Bytes, arith}
use arveil.Cbor.{lex_le, key_le}

pub lex_le_total : (a b : Bytes) → lex_le a b ≡ false → lex_le b a ≡ true
unfolding lex_le
lex_le_total [] b h = cc
lex_le_total (x ∷ a) [] h = refl
lex_le_total (x ∷ a) (y ∷ b) h = ground (arith, lex_le_total a b)

pub lex_le_antisymm : (a b : Bytes) → lex_le a b ≡ true → lex_le b a ≡ true → a ≡ b
unfolding lex_le
lex_le_antisymm [] [] h k = refl
lex_le_antisymm [] (y ∷ b) h k = cc
lex_le_antisymm (x ∷ a) [] h k = cc
lex_le_antisymm (x ∷ a) (y ∷ b) h k = ground (arith, lex_le_antisymm a b)

lex_le_trans : (a b c : Bytes) → lex_le a b ≡ true → lex_le b c ≡ true → lex_le a c ≡ true
unfolding lex_le
lex_le_trans [] b c h k = refl
lex_le_trans (x ∷ a) [] c h k = cc
lex_le_trans (x ∷ a) (y ∷ b) [] h k = cc
lex_le_trans (x ∷ a) (y ∷ b) (z ∷ c) h k = ground (arith, lex_le_trans a b c)

pub key_le_total : (a b : Bytes) → key_le a b ≡ false → key_le b a ≡ true
unfolding key_le
key_le_total a b h = ground (arith, lex_le_total a b)

pub key_le_antisymm : (a b : Bytes) → key_le a b ≡ true → key_le b a ≡ true → a ≡ b
unfolding key_le
key_le_antisymm a b h k = ground (arith, lex_le_antisymm a b)

pub key_le_trans : (a b c : Bytes) → key_le a b ≡ true → key_le b c ≡ true → key_le a c ≡ true
unfolding key_le
key_le_trans a b c h k = ground (arith, lex_le_trans a b c)
