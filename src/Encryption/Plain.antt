-- ===== src/Encryption/Plain.antt =====
-- A cipher and a codec that change nothing, a key and a nonce, for the tests.
use Prim.Native.String.count
use Prim.Native.String.{count, ◌∷◌ as ◌∷ₛ◌}
use text.Mathlib.TextBridge.{of_list, to_list, to_list-of_list}
use think_pixel_llmgw.Prelude.{
  String, str_eq, eq_iff, false, Bool-cases, inl, inr, arith, ◌≡◌, ap, refl, sym, ◌++◌, some, [],
  ◌∷◌,
}
use think_pixel_llmgw.Encryption.{Bytes, Char, Aead, Base64, Encryption}

pub cons-empty : (c : Char) (s : String) → str_eq (c ∷ₛ s) "" ≡ false
cons-empty c s = elim (Bool-cases (str_eq (c ∷ₛ s) "")) [
  | inr e ↦ e
  | inl e ↦
      absurd (ground (arith, sym (count.cons c s), ap count ((eq_iff (c ∷ₛ s) "").0 e), count.nil))
]

abbrev pub plain_aead : Aead
plain_aead = record {
  seal = λ key nonce plain. plain;
  unseal = λ key nonce plain. some plain;
  unseal-seal = λ key nonce plain e. refl;
}

abbrev pub plain_base64 : Base64
plain_base64 = record {
  encode = of_list;
  decode = λ s. some (to_list s);
  decode-encode = λ bytes. ap (λ b. some b) (to_list-of_list bytes);
  encode-empty = λ b bytes. cons-empty b (of_list bytes);
}

abbrev pub four : Bytes
four = "a" ∷ "b" ∷ "c" ∷ "d" ∷ []

abbrev pub twelve : Bytes
twelve = four ++ four ++ four

abbrev pub sixteen : Bytes
sixteen = twelve ++ four

abbrev pub encryption : Encryption
encryption = record { key = sixteen }
