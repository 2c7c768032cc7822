-- ===== src/Encryption/Tests.antt =====
-- The theorems on encryption, with a cipher and codecs that change nothing.
use text.Mathlib.TextBridge.{of_list, to_list}
use think_pixel_llmgw.Prelude.{String, ◌≡◌, refl, sym, ◌++◌, some}
use think_pixel_llmgw.Encryption.{Char, Json, encrypt, decrypt, encrypt_json, generate_key}
use think_pixel_llmgw.Encryption.Plain.{plain_aead, plain_base64, four, twelve, sixteen, encryption}
use think_pixel_llmgw.Encryption.Roundtrip.{decrypt-encrypt}

abbrev plain_json : Json Char
plain_json = record {
  marshal = λ ds. some ds;
  unmarshal = λ bytes. some bytes;
  unmarshal-marshal = λ ds bytes e. sym e;
}

abbrev sealed : String
sealed = of_list (twelve ++ to_list "sk-1")

encrypt_test : encrypt plain_base64 plain_aead encryption (some twelve) "sk-1" ≡ some sealed
unfolding encrypt
encrypt_test = refl

decrypt-encrypt_example : decrypt plain_base64 plain_aead encryption sealed ≡ some "sk-1"
decrypt-encrypt_example =
    decrypt-encrypt plain_base64 plain_aead encryption (some twelve) "sk-1" sealed encrypt_test

abbrev sealed_json : String
sealed_json = of_list (twelve ++ to_list (of_list four))

encrypt_json_test :
    encrypt_json plain_base64 plain_aead plain_json encryption (some twelve) four ≡ some sealed_json
unfolding encrypt_json encrypt
encrypt_json_test = refl

generate_key_test : generate_key plain_base64 16 (some sixteen) ≡ some (of_list sixteen)
unfolding generate_key
generate_key_test = refl
