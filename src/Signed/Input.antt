-- ===== src/Signed/Input.antt =====
-- The bytes that a signature covers, of core/crates/arveil-core/src/signed.rs.
use Prim.Native.Nat.{◌<◌}
use arveil.Base.{◌≡◌, refl, [], ◌∷◌, ◌++◌, Bytes, length, arith}
use arveil.Signed.{u16_be, signing_input}

append_split : (a b c d : Bytes) → length a ≡ length c → a ++ b ≡ c ++ d → (a ≡ c) × (b ≡ d)
append_split [] b [] d n e = (refl, e)
append_split [] b (y ∷ c) d n e = absurd (omega arith)
append_split (x ∷ a) b [] d n e = absurd (omega arith)
append_split (x ∷ a) b (y ∷ c) d n e =
    let ih = append_split a b c d (omega arith) (cc) in (cc ih.0, ih.1)

-- Contexts of less than 65536 bytes separate what is signed: two inputs are the same bytes only
-- if both the context and the body are the same.
signing_input_separates :
    (c b c' b' : Bytes)
    → length c < 65536
    → length c' < 65536
    → signing_input c b ≡ signing_input c' b'
    → (c ≡ c') × (b ≡ b')
unfolding signing_input u16_be
signing_input_separates c b c' b' h h' e = append_split c b c' b' (grind arith) (cc)
