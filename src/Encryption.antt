-- ===== src/Encryption.antt =====
-- The encryption of credentials, llm_gateway/internal/storage/encryption.go. AES-GCM, base64 and
-- JSON are not in this repository: `Aead`, `Base64` and `Json` state what they are documented to
-- do. A byte is a character, so `[]byte(s)` is the list of the characters of s. The random bytes
-- are an argument, `none` where reading them fails; `none` as a result is an error.
pub mod Roundtrip
pub mod Plain
mod Tests
pub use Prim.Native.Char.{Char}
use text.Mathlib.TextBridge.{of_list, to_list}
use think_pixel_llmgw.Prelude.{
  ℕ, String, str_eq, ◌≡◌, Bool, true, false, ◌||◌, ◌==◌, ltb, Option, none, some, List, [], ◌∷◌,
  ◌++◌, length, take, drop, if◌then◌else◌,
}

abbrev pub Bytes : Type 0
Bytes = List Char

-- The standard nonce size of cipher.NewGCM.
abbrev pub nonce_size : ℕ
nonce_size = 12

-- Seal and Open under a key and a nonce: what is sealed with a nonce of the right size opens.
pub record Aead : Type 0 where
  pub seal : Bytes → Bytes → Bytes → Bytes
  pub unseal : Bytes → Bytes → Bytes → Option Bytes
  pub unseal-seal :
      (key nonce plain : Bytes)
      → length nonce ≡ nonce_size
      → unseal key nonce (seal key nonce plain) ≡ some plain

-- base64.StdEncoding
pub record Base64 : Type 0 where
  pub encode : Bytes → String
  pub decode : String → Option Bytes
  pub decode-encode : (bytes : Bytes) → decode (encode bytes) ≡ some bytes
  pub encode-empty : (b : Char) (bytes : Bytes) → str_eq (encode (b ∷ bytes)) "" ≡ false

-- Marshal and Unmarshal of a map.
pub record Json {ℓ} (D : Type ℓ) : Type ℓ where
  pub marshal : List D → Option Bytes
  pub unmarshal : Bytes → Option (List D)
  pub unmarshal-marshal :
      (ds : List D) (bytes : Bytes) → marshal ds ≡ some bytes → unmarshal bytes ≡ some ds

pub record Encryption : Type 0 where
  pub key : Bytes

abbrev pub is_key_size : ℕ → Bool
is_key_size n = n == 16 || n == 24 || n == 32

unfoldable pub new_encryption : Bytes → Option Encryption
new_encryption key = if is_key_size (length key) then some (record { key = key }) else none

-- ReadFull of n random bytes.
abbrev pub read_full : ℕ → Option Bytes → Option Bytes
read_full n none = none
read_full n (some bytes) = if length bytes == n then some bytes else none

module _ (b64 : Base64) where
  abbrev pub from_key : Option Bytes → Option Encryption
  from_key none = none
  from_key (some key) = new_encryption key

  unfoldable pub new_encryption_from_base64 : String → Option Encryption
  unfolding new_encryption
  new_encryption_from_base64 encoded =
      if str_eq encoded "" then none else from_key (b64.decode encoded)

  abbrev pub encode_some : Option Bytes → Option String
  encode_some none = none
  encode_some (some bytes) = some (b64.encode bytes)

  unfoldable pub generate_key : ℕ → Option Bytes → Option String
  generate_key size random = if is_key_size size then encode_some (read_full size random) else none

module _ (b64 : Base64) (gcm : Aead) where
  -- Seal appends to the nonce; NewCipher fails on a key of another size.
  abbrev pub seal_with : Encryption → String → Option Bytes → Option String
  seal_with e plain none = none
  seal_with e plain (some nonce) = some (b64.encode (nonce ++ gcm.seal e.key nonce (to_list plain)))

  unfoldable pub encrypt : Encryption → Option Bytes → String → Option String
  encrypt e random plain =
      if is_key_size (length e.key) then seal_with e plain (read_full nonce_size random) else none

  abbrev pub text_of : Option Bytes → Option String
  text_of none = none
  text_of (some bytes) = some (of_list bytes)

  abbrev pub unseal_decoded : Encryption → Option Bytes → Option String
  unseal_decoded e none = none
  unseal_decoded e (some ciphertext) =
      if is_key_size (length e.key)
      then (if ltb (length ciphertext) nonce_size
          then none
          else text_of (gcm.unseal e.key (take nonce_size ciphertext) (drop nonce_size ciphertext)))
      else none

  unfoldable pub decrypt : Encryption → String → Option String
  decrypt e ciphertext = unseal_decoded e (b64.decode ciphertext)

module _ {ℓ} {D : Type ℓ} (b64 : Base64) (gcm : Aead) (json : Json D) where
  abbrev pub encrypt_marshalled : Encryption → Option Bytes → Option Bytes → Option String
  encrypt_marshalled e random none = none
  encrypt_marshalled e random (some bytes) = encrypt b64 gcm e random (of_list bytes)

  unfoldable pub encrypt_json : Encryption → Option Bytes → List D → Option String
  unfolding encrypt
  encrypt_json e random [] = some ""
  encrypt_json e random (d ∷ ds) = encrypt_marshalled e random (json.marshal (d ∷ ds))

  abbrev pub unmarshal_decrypted : Option String → Option (List D)
  unmarshal_decrypted none = none
  unmarshal_decrypted (some plain) = json.unmarshal (to_list plain)

  -- The empty text is a nil map, which has no entries.
  unfoldable pub decrypt_json : Encryption → String → Option (List D)
  unfolding decrypt
  decrypt_json e ciphertext =
      if str_eq ciphertext "" then some [] else unmarshal_decrypted (decrypt b64 gcm e ciphertext)
