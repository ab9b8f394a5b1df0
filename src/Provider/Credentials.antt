-- ===== src/Provider/Credentials.antt =====
-- internal/provider/credential_cipher.go: credentials sealed with an authenticated cipher.
use kode_stream.Prelude.{
  ℕ, ◌≡◌, refl, false, ◌||◌, not, ◌<◌, ◌≢◌, ap, ◌∙◌, sym, length-append, [], ◌∷◌, ◌++◌, Option,
  none, some, of_some, inl, inr, Text, text_eq, ◌==◌, codes, length, take, drop, take-drop-append,
  ltb, Result, ok, err, ok-injective, err-ne-ok, arith, if◌then◌else◌, Bool-cases,
}

-- crypto/aes with crypto/cipher's GCM, crypto/sha256 and encoding/base64, on bytes.
pub record Crypto : Type 1 where
  pub Key : Type 0
  pub derive_key : Text → Key
  pub nonce_size : ℕ
  pub nonce-positive : 0 < nonce_size
  pub seal : Key → Text → Text → Text → Text  -- key, nonce, plaintext, additional data
  pub open_sealed : Key → Text → Text → Text → Option Text
  pub open-seal : (k : Key) (n p a : Text) → open_sealed k n (seal k n p a) a ≡ some p
  pub base64 : Text → Text
  pub unbase64 : Text → Option Text
  pub unbase64-nil : unbase64 [] ≡ some []
  pub unbase64-base64 : (b : Text) → unbase64 (base64 b) ≡ some b

pub data CipherError : Type 0 where
  unavailable no_randomness cannot_decrypt not_base64 truncated not_authentic : CipherError

module _ (c : Crypto) where
  open c use {Key, derive_key, nonce_size, seal, open_sealed, base64, unbase64}

  pub record CredentialCipher : Type 0 where
    pub key : Key

  abbrev pub version : Text
  version = codes "v1:"

  abbrev pub purpose : Text
  purpose = codes "kode-stream/provider-credential/v1"

  -- `nil` for an empty secret.
  pub new_credential_cipher : Text → Option CredentialCipher
  new_credential_cipher secret =
      if secret == []
      then none
      else some
          (record { key = derive_key (codes "kode-stream/provider-credentials/v1/" ++ secret) })

  -- `random` is what the random source fills the nonce with, `none` when it fails.
  unfoldable pub encrypt : Option CredentialCipher → Option Text → Text → Result CipherError Text
  encrypt none random plaintext = err unavailable
  encrypt (some k) random plaintext = if plaintext == [] then err unavailable else elim random [
    | none ↦ err no_randomness
    | some n ↦ ok (version ++ base64 (n ++ seal k.key n plaintext purpose))
  ]

  abbrev authentic : Option Text → Result CipherError Text
  authentic none = err not_authentic
  authentic (some p) = ok p

  abbrev unseal : Key → Option Text → Result CipherError Text
  unseal k none = err not_base64
  unseal k (some sealed) =
      if ltb (length sealed) nonce_size
      then err truncated
      else authentic (open_sealed k (take nonce_size sealed) (drop nonce_size sealed) purpose)

  unfoldable pub decrypt : Option CredentialCipher → Text → Result CipherError Text
  decrypt none encoded = err cannot_decrypt
  decrypt (some k) encoded =
      if ltb (length encoded) 4 || not (take 3 encoded == version)
      then err cannot_decrypt
      else unseal k.key (unbase64 (drop 3 encoded))

  decrypt-version :
      (k : CredentialCipher) (text : Text)
      → text ≢ []
      → decrypt (some k) (version ++ text) ≡ unseal k.key (unbase64 text)
  unfolding decrypt
  decrypt-version k [] h = absurd (h refl)
  decrypt-version k (x ∷ xs) h =
      let long : ltb (length (version ++ (x ∷ xs))) 4 ≡ false = ground arith in rw long

  unseal-seal :
      (k : Key) (nonce plaintext : Text)
      → length nonce ≡ nonce_size
      → unseal k (some (nonce ++ seal k nonce plaintext purpose)) ≡ ok plaintext
  unseal-seal k nonce plaintext size =
      let sealed = seal k nonce plaintext purpose in
      let (front, back) = take-drop-append nonce_size nonce sealed size in
      let long : ltb (length (nonce ++ sealed)) nonce_size ≡ false =
        ground (arith, length-append nonce sealed) in
      rw long (rw (front, back) (rw (c.open-seal k nonce plaintext purpose)))

  base64-ne-nil : (b : Text) → 0 < length b → base64 b ≢ []
  base64-ne-nil b h e =
      let empty : b ≡ [] = of_some (sym (c.unbase64-base64 b) ∙ ap unbase64 e ∙ c.unbase64-nil) in
      omega (arith, ap length empty)

  -- A credential that a cipher has encrypted, with a nonce of the right size, is decrypted to
  -- itself by the cipher of the same secret.
  pub decrypt-encrypt :
      (k : Option CredentialCipher) (nonce plaintext encoded : Text)
      → length nonce ≡ nonce_size
      → encrypt k (some nonce) plaintext ≡ ok encoded
      → decrypt k encoded ≡ ok plaintext
  unfolding encrypt
  decrypt-encrypt none random plaintext encoded size h = cc
  decrypt-encrypt (some k) nonce plaintext encoded size h = elim (Bool-cases (plaintext == [])) [
    | inl empty ↦ absurd (err-ne-ok (rw empty at h))
    | inr given ↦
        let sealed = nonce ++ seal k.key nonce plaintext purpose in
        let same : version ++ base64 sealed ≡ encoded = ok-injective (rw given at h) in
        let long : 0 < length sealed =
          omega
            (arith, c.nonce-positive, length-append nonce (seal k.key nonce plaintext purpose)) in
        rw (← same) (
          rw (decrypt-version k (base64 sealed) (base64-ne-nil sealed long))
            (rw (c.unbase64-base64 sealed) (unseal-seal k.key nonce plaintext size)))
  ]
