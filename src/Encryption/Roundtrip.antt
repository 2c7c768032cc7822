-- ===== src/Encryption/Roundtrip.antt =====
-- What is encrypted decrypts to itself.
use text.Mathlib.TextBridge.{of_list, to_list, of_list-to_list, to_list-of_list}
use think_pixel_llmgw.Prelude.{
  ℕ, String, str_eq, ◌≡◌, ◌∙◌, sym, ap, refl, true, false, Bool-cases, Option-cases, inl, inr,
  arith, ltb, Option, none, some, List, [], ◌∷◌, ◌++◌, length, take, drop, length-append,
}
use think_pixel_llmgw.Encryption.{
  Bytes, Aead, Base64, Json, Encryption, nonce_size, is_key_size, read_full, encrypt, decrypt,
  unseal_decoded, encrypt_json, decrypt_json, encrypt_marshalled, unmarshal_decrypted, generate_key,
  new_encryption, new_encryption_from_base64,
}

module _ {ℓ} {A : Type ℓ} where
  take-length : (xs ys : List A) → take (length xs) (xs ++ ys) ≡ xs
  take-length [] ys = refl
  take-length (x ∷ xs) ys = ap (λ l. x ∷ l) (take-length xs ys)

  drop-length : (xs ys : List A) → drop (length xs) (xs ++ ys) ≡ ys
  drop-length [] ys = refl
  drop-length (x ∷ xs) ys = drop-length xs ys

-- What is read in full has the size.
read_full-length :
    (n : ℕ) (random : Option Bytes) (bytes : Bytes)
    → read_full n random ≡ some bytes
    → length bytes ≡ n
read_full-length n none bytes e = ground (arith, e)
read_full-length n (some bytes') bytes e = ground (arith, e)

module _ (b64 : Base64) (gcm : Aead) where
  unseal_sealed :
      (e : Encryption) (nonce : Bytes) (plain : String)
      → is_key_size (length e.key) ≡ true
      → length nonce ≡ nonce_size
      → unseal_decoded b64 gcm e (some (nonce ++ gcm.seal e.key nonce (to_list plain))) ≡ some plain
  unseal_sealed e nonce plain fits size =
      let sealed = gcm.seal e.key nonce (to_list plain) in
      let first = ap (λ n. take n (nonce ++ sealed)) (sym size) ∙ take-length nonce sealed in
      let rest = ap (λ n. drop n (nonce ++ sealed)) (sym size) ∙ drop-length nonce sealed in
      let long : ltb (length (nonce ++ sealed)) nonce_size ≡ false =
        ground (arith, size, length-append nonce sealed) in
      rw (fits, long, first, rest, gcm.unseal-seal e.key nonce (to_list plain) size)
        (ap (λ t. some t) (of_list-to_list plain))

  -- Whatever Encrypt returns, Decrypt with the same key returns the text that was encrypted.
  pub decrypt-encrypt :
      (e : Encryption) (random : Option Bytes) (plain ciphertext : String)
      → encrypt b64 gcm e random plain ≡ some ciphertext
      → decrypt b64 gcm e ciphertext ≡ some plain
  unfolding encrypt decrypt
  decrypt-encrypt e random plain ciphertext made = elim (Bool-cases (is_key_size (length e.key))) [
    | inr unfit ↦ ground (arith, made, unfit)
    | inl fits ↦ elim (Option-cases (read_full nonce_size random)) [
      | inl failed ↦ ground (arith, made, fits, failed)
      | inr (nonce, read) ↦
          let is : b64.encode (nonce ++ gcm.seal e.key nonce (to_list plain)) ≡ ciphertext =
            ground (arith, made, fits, read) in
          ap (λ c. unseal_decoded b64 gcm e (b64.decode c)) (sym is)
          ∙ ap (unseal_decoded b64 gcm e)
              (b64.decode-encode (nonce ++ gcm.seal e.key nonce (to_list plain)))
          ∙ unseal_sealed e nonce plain fits (read_full-length nonce_size random nonce read)
    ]
  ]

  nonempty :
      (bytes rest : Bytes)
      → length bytes ≡ nonce_size
      → str_eq (b64.encode (bytes ++ rest)) "" ≡ false
  nonempty [] rest size = ground (arith, size)
  nonempty (b ∷ bytes) rest size = b64.encode-empty b (bytes ++ rest)

  -- A text that Encrypt returns is not empty.
  encrypt-nonempty :
      (e : Encryption) (random : Option Bytes) (plain ciphertext : String)
      → encrypt b64 gcm e random plain ≡ some ciphertext
      → str_eq ciphertext "" ≡ false
  unfolding encrypt
  encrypt-nonempty e random plain ciphertext made = elim (Bool-cases (is_key_size (length e.key))) [
    | inr unfit ↦ ground (arith, made, unfit)
    | inl fits ↦ elim (Option-cases (read_full nonce_size random)) [
      | inl failed ↦ ground (arith, made, fits, failed)
      | inr (nonce, read) ↦
          let is : b64.encode (nonce ++ gcm.seal e.key nonce (to_list plain)) ≡ ciphertext =
            ground (arith, made, fits, read) in
          ap (λ c. str_eq c "") (sym is)
          ∙ nonempty nonce (gcm.seal e.key nonce (to_list plain))
              (read_full-length nonce_size random nonce read)
    ]
  ]

module _ {ℓ} {D : Type ℓ} (b64 : Base64) (gcm : Aead) (json : Json D) where
  -- Whatever EncryptJSON returns, DecryptJSON with the same key returns the map that was
  -- encrypted; an empty map is the empty text in between.
  pub decrypt_json-encrypt_json :
      (e : Encryption) (random : Option Bytes) (ds : List D) (ciphertext : String)
      → encrypt_json b64 gcm json e random ds ≡ some ciphertext
      → decrypt_json b64 gcm json e ciphertext ≡ some ds
  unfolding encrypt_json decrypt_json
  decrypt_json-encrypt_json e random [] ciphertext made =
      let is : "" ≡ ciphertext = ground (arith, made) in rw⁻¹ is refl
  decrypt_json-encrypt_json e random (d ∷ ds) ciphertext made =
      elim (Option-cases (json.marshal (d ∷ ds))) [
        | inl failed ↦ ground (arith, made, failed)
        | inr (bytes, marshalled) ↦
            let sealed : encrypt b64 gcm e random (of_list bytes) ≡ some ciphertext =
              ap (encrypt_marshalled b64 gcm json e random) (sym marshalled) ∙ made in
            rw (encrypt-nonempty b64 gcm e random (of_list bytes) ciphertext sealed) (
              ap (unmarshal_decrypted b64 gcm json)
                (decrypt-encrypt b64 gcm e random (of_list bytes) ciphertext sealed)
              ∙ ap json.unmarshal (to_list-of_list bytes)
              ∙ json.unmarshal-marshal (d ∷ ds) bytes marshalled)
      ]

module _ (b64 : Base64) where
  key_nonempty :
      (key : Bytes) → is_key_size (length key) ≡ true → str_eq (b64.encode key) "" ≡ false
  key_nonempty [] fits = ground (arith, fits)
  key_nonempty (b ∷ key) fits = b64.encode-empty b key

  -- A key that GenerateKey returns is one that NewEncryptionFromBase64 accepts, of the size asked.
  pub new_encryption_from_base64-generate_key :
      (size : ℕ) (random : Option Bytes) (encoded : String)
      → generate_key b64 size random ≡ some encoded
      → (e : Encryption) × (new_encryption_from_base64 b64 encoded ≡ some e) × (length e.key ≡ size)
  unfolding generate_key new_encryption_from_base64 new_encryption
  new_encryption_from_base64-generate_key size random encoded made =
      elim (Bool-cases (is_key_size size)) [
        | inr unfit ↦ ground (arith, made, unfit)
        | inl fits ↦ elim (Option-cases (read_full size random)) [
          | inl failed ↦ ground (arith, made, fits, failed)
          | inr (key, read) ↦
              let is : b64.encode key ≡ encoded = ground (arith, made, fits, read) in
              let same = read_full-length size random key read in
              (
                record { key = key },
                rw⁻¹ is (
                    rw
                      (
                        key_nonempty key (ap is_key_size same ∙ fits),
                        b64.decode-encode key,
                        same,
                        fits,
                      )
                      refl),
                same,
              )
        ]
      ]
