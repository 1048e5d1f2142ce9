-- ===== src/Security.antt =====
-- internal/security/secret.go: StringCipher. AES-GCM and base64 are Go's libraries: the record Aead, with
-- the two laws that the code relies on. Drawing a nonce may fail, which is `none`.
use log_integrity.Prelude.{
  ℕ, ◌≡◌, refl, ap, ◌∙◌, false, not, ◌||◌, Option, none, some, [], ◌∷◌, ◌++◌, Text, is_empty, codes,
  length, take, drop, ltb, if◌then◌else◌, arith, length-append,
}
use log_integrity.Prelude.Strings.{has_prefix}
use log_integrity.Repository.{failed, Result, ok, err}

-- A cipher.AEAD with its nonce size, and base64.RawStdEncoding.
pub record Aead : Type 0 where
  pub nonce_size : ℕ
  pub seal : Text → Text → Text
  pub unseal : Text → Text → Option Text
  pub encode : Text → Text
  pub decode : Text → Option Text
  pub unseal-seal :
      (nonce plain : Text)
      → length nonce ≡ nonce_size
      → unseal nonce (seal nonce plain) ≡ some plain
  pub decode-encode : (s : Text) → decode (encode s) ≡ some s

abbrev pub encrypted_string_prefix : Text
encrypted_string_prefix = codes "enc:v1:"

-- Encrypt with a cipher; without one a value is returned as it is.
unfoldable pub encrypt : Option Aead → Option Text → Text → Result Text
unfolding has_prefix
encrypt none drawn value = ok value
encrypt (some c) drawn value =
    if is_empty value || has_prefix value encrypted_string_prefix then ok value else elim drawn [
      | none ↦ err (failed (codes "security: create nonce"))
      | some n ↦ ok (encrypted_string_prefix ++ c.encode (n ++ c.seal n value))
    ]

abbrev open_payload : Aead → Text → Result Text
open_payload c payload =
    if ltb (length payload) c.nonce_size
    then err (failed (codes "security: encrypted value is too short"))
    else elim (c.unseal (take c.nonce_size payload) (drop c.nonce_size payload)) [
      | none ↦ err (failed (codes "security: decrypt value"))
      | some plain ↦ ok plain
    ]

-- Decrypt
unfoldable pub decrypt : Option Aead → Text → Result Text
unfolding has_prefix
decrypt none value = ok value
decrypt (some c) value =
    if is_empty value || not (has_prefix value encrypted_string_prefix)
    then ok value
    else elim (c.decode (drop (length encrypted_string_prefix) value)) [
      | none ↦ err (failed (codes "security: decode encrypted value"))
      | some payload ↦ open_payload c payload
    ]

take-append : (a b : Text) → take (length a) (a ++ b) ≡ a
take-append [] b = refl
take-append (x ∷ a) b = ap (◌∷◌ x) (take-append a b)

drop-append : (a b : Text) → drop (length a) (a ++ b) ≡ b
drop-append [] b = refl
drop-append (x ∷ a) b = drop-append a b

open_payload-sealed :
    (c : Aead) (n value : Text)
    → length n ≡ c.nonce_size
    → open_payload c (n ++ c.seal n value) ≡ ok value
open_payload-sealed c n value h = ground (
  arith,
  length-append n (c.seal n value),
  ap (λ k. take k (n ++ c.seal n value)) h,
  ap (λ k. drop k (n ++ c.seal n value)) h,
  take-append n (c.seal n value),
  drop-append n (c.seal n value),
  c.unseal-seal n value h,
)

decrypt-payload :
    (c : Aead) (payload : Text)
    → decrypt (some c) (encrypted_string_prefix ++ c.encode payload) ≡ open_payload c payload
unfolding decrypt has_prefix
decrypt-payload c payload = rw (c.decode-encode payload) refl

-- With a nonce of the right size, Encrypt returns a value for every text that does not begin with
-- the prefix of encrypted values; Decrypt returns the text again, and Encrypt leaves the value as
-- it is. For a text that is not empty the value begins with the prefix.
pub decrypt-encrypt :
    (c : Aead) (nonce value : Text)
    → length nonce ≡ c.nonce_size
    → has_prefix value encrypted_string_prefix ≡ false
    → (w : Text) × (encrypt (some c) (some nonce) value ≡ ok w)
      × (decrypt (some c) w ≡ ok value)
      × (encrypt (some c) (some nonce) w ≡ ok w)
      × (has_prefix w encrypted_string_prefix ≡ not (is_empty value))
unfolding encrypt decrypt has_prefix
decrypt-encrypt c nonce [] h p = ([], refl, refl, refl, refl)
decrypt-encrypt c nonce (x ∷ value) h p = (
  encrypted_string_prefix ++ c.encode (nonce ++ c.seal nonce (x ∷ value)),
  ap
      (λ b.
        if b
        then ok (x ∷ value)
        else ok (encrypted_string_prefix ++ c.encode (nonce ++ c.seal nonce (x ∷ value))))
      p,
  decrypt-payload c (nonce ++ c.seal nonce (x ∷ value)) ∙ open_payload-sealed c nonce (x ∷ value) h,
  refl,
  refl,
)
