-- ===== src/Files/Sealing.antt =====
-- Encrypting and decrypting a file, of core/crates/arveil-core/src/attachments.rs.
use arveil.Base.{
  ◌≤◌, ◌<◌, ◌≡◌, ◌≢◌, refl, sym, ◌∙◌, true, false, Bytes, bytes_eq, bytes_eq_iff, length, ltb, ◌==◌,
  Bool-cases, inl, inr, ok, err, arith,
}
use arveil.Files.{
  max_file_bytes, aad, too_large, hash_mismatch, FileDescriptor, Encrypted, FileCrypto,
  FileCryptoLaws, encrypted, encrypt_with, decrypt,
}

-- The descriptor names this encryption.
abbrev pub Describes : FileDescriptor → Encrypted → Type 0
Describes d e =
    (d.file_key ≡ e.file_key) × (d.nonce ≡ e.nonce) × (d.ciphertext_hash ≡ e.ciphertext_hash)

module _ (a : FileCrypto) (laws : FileCryptoLaws a) (key nonce message : Bytes) where
  -- A file within the limit, under a key and a nonce of twelve bytes, is encrypted, and whoever has
  -- its descriptor decrypts it to the same bytes; other bytes, with another hash, are refused; a
  -- larger file is refused before anything is encrypted.
  pub decrypt-encrypt_with :
      a.is_key key ≡ true
      → length nonce ≡ 12
      → (length message ≤ max_file_bytes
          → (e : Encrypted) × (encrypt_with a key nonce message ≡ ok e)
            × ((d : FileDescriptor) → Describes d e → decrypt a d e.ciphertext ≡ ok message)
            × ((d : FileDescriptor) (other : Bytes)
                → Describes d e
                → a.sha256 other ≢ e.ciphertext_hash
                → decrypt a d other ≡ err hash_mismatch))
        × (max_file_bytes < length message
            → encrypt_with a key nonce message ≡ err (too_large (length message)))
  unfolding encrypt_with encrypted decrypt
  decrypt-encrypt_with k n = (
    λ small.
        let (c, enc) = laws.encrypts key nonce aad message k n small in
        let dec = laws.decrypts key nonce aad message c enc in
        let e : Encrypted = record {
          file_key = key;
          nonce = nonce;
          ciphertext = c;
          ciphertext_hash = a.sha256 c;
        } in
        let fits : ltb max_file_bytes (length message) ≡ false = ground arith in
        let twelve : (length nonce == 12) ≡ true = rw n refl in
        (
          e,
          rw fits (rw twelve (rw k (rw enc refl))),
          λ d (dk, dn, dh).
              let hash : bytes_eq (a.sha256 c) d.ciphertext_hash ≡ true =
                (bytes_eq_iff _ _).1 (sym dh) in
              rw hash (rw dk (rw k (rw dn (rw twelve (rw dec refl))))),
          λ d other (dk, dn, dh) differs.
              elim (Bool-cases (bytes_eq (a.sha256 other) d.ciphertext_hash)) [
                | inl same ↦ absurd (differs ((bytes_eq_iff _ _).0 same ∙ dh))
                | inr ne ↦ rw ne refl
              ],
        ),
    λ large. let over : ltb max_file_bytes (length message) ≡ true = ground arith in rw over refl,
  )
