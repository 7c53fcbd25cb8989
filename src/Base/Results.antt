-- ===== src/Base/Results.antt =====
-- `Result<T, E>`, the `?` operator and the conversions of errors.
use mathlib.Core.Path.{◌≡◌, refl}
use mathlib.Core.Logic.{◌⊎◌, inl, inr}
use mathlib.Core.Option.{Option, none, some}
use mathlib.Core.Bool.{Bool, true, false}

-- `Ok` and `Err`, the type of the errors first.
pub data Result {ε τ} (E : Type ε) (T : Type τ) : Type (ε ⊔ τ) where
  ok : T → Result E T
  err : E → Result E T

module _ {ε τ υ} {E : Type ε} {T : Type τ} {U : Type υ} where
  infixl 5 ◌>>=◌
  -- `let t = r?; rest`
  abbrev pub ◌>>=◌ : Result E T → (T → Result E U) → Result E U
  ◌>>=◌ (err e) rest = err e
  ◌>>=◌ (ok t) rest = rest t

module _ {ε τ} {E : Type ε} {T : Type τ} where
  infixl 5 ◌>>◌
  -- `r?; rest`
  abbrev pub ◌>>◌ : Result E (Unit {0}) → Result E T → Result E T
  ◌>>◌ (err e) rest = err e
  ◌>>◌ (ok _) rest = rest

  -- `Result::map_err`, and the `From` conversion that `?` makes.
  abbrev pub map_err {φ} : {F : Type φ} → (E → F) → Result E T → Result F T
  map_err convert (err e) = err (convert e)
  map_err convert (ok t) = ok t

  -- `Result::map`
  abbrev pub map_ok {υ} : {U : Type υ} → (T → U) → Result E T → Result E U
  map_ok f (err e) = err e
  map_ok f (ok t) = ok (f t)

  pub map_err-eq-ok {φ} :
      {F : Type φ} (convert : E → F) (r : Result E T) {t : T} → map_err convert r ≡ ok t → r ≡ ok t
  map_err-eq-ok convert (err e) h = cc
  map_err-eq-ok convert (ok t) h = cc

  -- `Option::ok_or`
  abbrev pub ok_or : Option T → E → Result E T
  ok_or (some t) e = ok t
  ok_or none e = err e

  pub Result-cases : (r : Result E T) → ((t : T) × (r ≡ ok t)) ⊎ ((e : E) × (r ≡ err e))
  Result-cases (ok t) = inl (t, refl)
  Result-cases (err e) = inr (e, refl)

-- `if refused { return Err(e) }`
abbrev pub refuse_if {ε} : {E : Type ε} → Bool → E → Result E (Unit {0})
refuse_if refused e = elim refused [ true ↦ err e | false ↦ ok tt ]
