-- ===== src/Codes/RoundTrip.antt =====
-- A pairing code is read back, in core/crates/arveil-core/src/pairing.rs.
use arveil.Base.{
  ℕ, ◌≡◌, ◌↔◌, refl, ap, sym, ◌∙◌, Bool, true, false, not, ◌&&◌, ◌||◌, List, [], ◌∷◌, ◌++◌, Option,
  none, some, Bytes, ascii, bytes_eq, bytes_eq_iff, bytes_eq_refl, is_empty, All, leb, ◌==◌,
  if◌then◌else◌, Bool-cases, inl, inr, arith, ok, err, ok_or,
}
use arveil.Sql.{All-append}
use arveil.Contacts.{is_whitespace, trim_start, trim_end, trim}
use arveil.Codes.{
  Text, PairingCode, Hex, HexLaws, AreBytes, is_hex_digit, code_prefix, glue, split, to_string_code,
  parse_parts, parse, check_realm,
}

abbrev pub AreBlank : Text → Type 0
AreBlank = All (λ c. is_whitespace c ≡ true)

abbrev AreDark : Text → Type 0
AreDark = All (λ c. is_whitespace c ≡ false)

trim_start-blank : (b s : Text) → AreBlank b → trim_start (b ++ s) ≡ trim_start s
unfolding trim_start
trim_start-blank [] s h = refl
trim_start-blank (c ∷ b) s h = rw (h.0) (trim_start-blank b s h.1)

trim_start-dark : (c : ℕ) (s : Text) → is_whitespace c ≡ false → trim_start (c ∷ s) ≡ c ∷ s
unfolding trim_start
trim_start-dark c s h = rw h refl

trim_end-blank : (b : Text) → AreBlank b → trim_end b ≡ []
unfolding trim_end
trim_end-blank [] h = refl
trim_end-blank (c ∷ b) h = rw (trim_end-blank b h.1) (rw (h.0) refl)

kept-dark : (c : ℕ) (s : Text) → (if is_empty s && false then [] else c ∷ s) ≡ c ∷ s
kept-dark c [] = refl
kept-dark c (x ∷ s) = refl

trim_end-dark : (s b : Text) → AreDark s → AreBlank b → trim_end (s ++ b) ≡ s
unfolding trim_end
trim_end-dark [] b h k = trim_end-blank b k
trim_end-dark (c ∷ s) b h k = rw (trim_end-dark s b h.1 k) (rw (h.0) (kept-dark c s))

split-piece :
    (a rest : Text) → All (λ c. is_hex_digit c ≡ true) a → split (a ++ 58 ∷ rest) ≡ a ∷ split rest
unfolding split
split-piece [] rest h = refl
split-piece (c ∷ a) rest h =
    let other : (c == 58) ≡ false = ground (arith, h.0) in
    rw other (ap (glue c) (split-piece a rest h.1))

split-last : (a : Text) → All (λ c. is_hex_digit c ≡ true) a → split a ≡ a ∷ []
unfolding split
split-last [] h = refl
split-last (c ∷ a) h =
    let other : (c == 58) ≡ false = ground (arith, h.0) in rw other (ap (glue c) (split-last a h.1))

digits-AreDark : (a : Text) → All (λ c. is_hex_digit c ≡ true) a → AreDark a
digits-AreDark [] h = tt
digits-AreDark (c ∷ a) h = (ground (arith, h.0), digits-AreDark a h.1)

trim-between :
    (before after : Text) (c : ℕ) (s : Text)
    → AreBlank before
    → AreBlank after
    → AreDark (c ∷ s)
    → trim (before ++ ((c ∷ s) ++ after)) ≡ c ∷ s
trim-between before after c s b a d =
    ap trim_end (trim_start-blank before ((c ∷ s) ++ after) b ∙ trim_start-dark c (s ++ after) d.0)
    ∙ trim_end-dark (c ∷ s) after d a

abbrev prefix-AreDark : AreDark code_prefix
prefix-AreDark = (
  refl,
  (
    refl,
    (
      refl,
      (refl, (refl, (refl, (refl, (refl, (refl, (refl, (refl, (refl, (refl, (refl, tt))))))))))),
    ),
  ),
)

module _ (h : Hex) (laws : HexLaws h) (c : PairingCode) where
  abbrev key_part : Text
  key_part = 58 ∷ h.encode c.static_public

  abbrev secret_part : Text
  secret_part = 58 ∷ (h.encode c.capability ++ key_part)

  abbrev pair_part : Text
  pair_part = 58 ∷ (h.encode c.pair_id ++ secret_part)

  abbrev realm_part : Text
  realm_part = 58 ∷ (h.encode c.realm_id ++ pair_part)

  -- A piece with its colon, in front of a text.
  piece-AreDark : (b : Bytes) (s : Text) → AreDark s → AreDark (58 ∷ h.encode b ++ s)
  piece-AreDark b s d = (
    refl,
    All-append (λ x. is_whitespace x ≡ false) (h.encode b) s
        (digits-AreDark (h.encode b) (laws.digits b)) d,
  )

  last-AreDark : (b : Bytes) → AreDark (58 ∷ h.encode b)
  last-AreDark b = (refl, digits-AreDark (h.encode b) (laws.digits b))

  to_string_code-AreDark : AreDark (to_string_code h c)
  unfolding to_string_code
  to_string_code-AreDark =
      All-append (λ x. is_whitespace x ≡ false) code_prefix realm_part prefix-AreDark
        (piece-AreDark c.realm_id pair_part (
          piece-AreDark c.pair_id secret_part
            (piece-AreDark c.capability key_part (last-AreDark c.static_public))))

  parts-code :
      split (to_string_code h c)
      ≡ ascii "arveil-pair"
        ∷ ascii "v1"
        ∷ h.encode c.realm_id
        ∷ h.encode c.pair_id
        ∷ h.encode c.capability
        ∷ h.encode c.static_public
        ∷ []
  unfolding to_string_code split
  parts-code =
      ap (λ l. ascii "arveil-pair" ∷ ascii "v1" ∷ l)
        (split-piece (h.encode c.realm_id) (h.encode c.pair_id ++ secret_part)
            (laws.digits c.realm_id)
          ∙ ap (◌∷◌ (h.encode c.realm_id)) (
              split-piece (h.encode c.pair_id) (h.encode c.capability ++ key_part)
                (laws.digits c.pair_id)
              ∙ ap (◌∷◌ (h.encode c.pair_id)) (
                  split-piece (h.encode c.capability) (h.encode c.static_public)
                    (laws.digits c.capability)
                  ∙ ap (◌∷◌ (h.encode c.capability))
                      (split-last (h.encode c.static_public) (laws.digits c.static_public)))))

  -- The fields are bytes.
  abbrev IsSound : Type 0
  IsSound =
      AreBytes c.realm_id × AreBytes c.pair_id × AreBytes c.capability × AreBytes c.static_public

  parse_parts-code :
      IsSound
      → parse_parts h (
          ascii "arveil-pair"
          ∷ ascii "v1"
          ∷ h.encode c.realm_id
          ∷ h.encode c.pair_id
          ∷ h.encode c.capability
          ∷ h.encode c.static_public
          ∷ [])
        ≡ ok c
  unfolding parse_parts arveil.Base.bytes_eq
  parse_parts-code (r, i, s, k) = rw (laws.reads_back c.realm_id r) (
      rw (laws.reads_back c.pair_id i)
        (rw (laws.reads_back c.capability s) (rw (laws.reads_back c.static_public k) refl)))

  trim-code :
      (before after : Text)
      → AreBlank before
      → AreBlank after
      → trim (before ++ (to_string_code h c ++ after)) ≡ to_string_code h c
  unfolding to_string_code
  trim-code before after b a =
      trim-between before after 97 (ascii "rveil-pair:v1" ++ realm_part) b a to_string_code-AreDark

  -- The code that a device shows, of fields of bytes, is read back, whatever blanks a copy adds around it; and the code is
  -- for a realm exactly if that is the one it names.
  pub parse-to_string_code :
      (before after : Text) (known : Bytes)
      → AreBytes c.realm_id × AreBytes c.pair_id × AreBytes c.capability × AreBytes c.static_public
      → AreBlank before
      → AreBlank after
      → (parse h (before ++ (to_string_code h c ++ after)) ≡ ok c)
        × ((check_realm h c known ≡ ok tt) ↔ (c.realm_id ≡ known))
  unfolding parse check_realm
  parse-to_string_code before after known sound b a = (
    ap (λ s. parse_parts h (split s)) (trim-code before after b a)
        ∙ ap (parse_parts h) parts-code
        ∙ parse_parts-code sound,
    ground (arith, bytes_eq_iff c.realm_id known),
  )
