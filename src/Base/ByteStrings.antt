-- ===== src/Base/ByteStrings.antt =====
-- Byte strings as lists of numbers, with their comparison.
use Prim.Native.Nat.{ℕ}
use Prim.Native.Char.{code}
use Prim.Native.String.{String}
use mathlib.Core.Path.{◌≡◌, refl, sym}
use mathlib.Core.Logic.{◌↔◌, inl, inr}
use mathlib.Core.Logic.Or
use mathlib.Core.Bool.{Bool, true, false, false≢true, ◌&&◌}
use mathlib.Core.List.{List, [], ◌∷◌, Mem, mem-cons}
use native.Mathlib.Omega.{arith}
use arveil.Base.Tests.{◌==◌, Bool-cases}
use arveil.Base.Lists.{any}

-- `Vec<u8>` and `&[u8]`
abbrev pub Bytes : Type 0
Bytes = List ℕ

unfoldable pub bytes_eq : Bytes → Bytes → Bool
bytes_eq [] [] = true
bytes_eq (x ∷ xs) (y ∷ ys) = x == y && bytes_eq xs ys
bytes_eq _ _ = false

pub bytes_eq_iff : (a b : Bytes) → (bytes_eq a b ≡ true) ↔ (a ≡ b)
unfolding bytes_eq
bytes_eq_iff (x ∷ a) (y ∷ b) = ground (arith, bytes_eq_iff a b)
bytes_eq_iff _ _ = ground arith

pub bytes_eq_refl : (a : Bytes) → bytes_eq a a ≡ true
bytes_eq_refl a = (bytes_eq_iff a a).1 refl

-- The bytes of a text that is ASCII.
abbrev pub ascii : String → Bytes
ascii String.[] = []
ascii (String.◌∷◌ c s) = code c ∷ ascii s

-- A list of byte strings holds `x`.
pub any-bytes_eq : (x : Bytes) (l : List Bytes) → any (λ h. bytes_eq h x) l ≡ true → Mem x l
any-bytes_eq x [] h = absurd (false≢true h)
any-bytes_eq x (y ∷ l) h = elim (Bool-cases (bytes_eq y x)) [
  | inl e ↦ mem-cons.1 (Or.inl (sym ((bytes_eq_iff y x).0 e)))
  | inr e ↦ mem-cons.1 (Or.inr (any-bytes_eq x l (ground arith)))
]
