-- ===== src/Provider/Tests.antt =====
-- The provider package at concrete inputs.
use kode_stream.Prelude.{
  ◌≡◌, ◌≢◌, refl, Option, none, some, String, Text, codes, text_eq, string_eq, eq_iff, ok, put,
  arith,
}
use kode_stream.Provider.Connections.{
  ConnectionStore, new_connection_store, save, token_of, key, token_of-save, token_of_collision,
}
use kode_stream.Provider.Registry.{Instance, Factory, Registry}
use kode_stream.Provider.Credentials.{Crypto, CredentialCipher, encrypt, decrypt, decrypt-encrypt}

abbrev saved : ConnectionStore
saved = record { tokens = put (key (codes "ann") (codes "gh")) (codes "t") (λ k. none) }

token_of-save_example : token_of (codes "bob") (codes "gh") saved ≡ none
unfolding save token_of new_connection_store
token_of-save_example =
    token_of-save (codes "ann") (codes "bob") (codes "gh") (codes "gh") (codes "t")
      new_connection_store saved (omega arith) (omega arith) refl

abbrev joined : ConnectionStore
joined = record { tokens = put (key (codes "a:b") (codes "c")) (codes "t") (λ k. none) }

token_of_collision_example : token_of (codes "a") (codes "b:c") joined ≡ some (codes "t")
unfolding save new_connection_store
token_of_collision_example =
    token_of_collision (codes "a") (codes "b") (codes "c") (codes "t") new_connection_store joined
      refl

abbrev github : Factory String
github = record { kind = "github"; new_client = λ i token. i.base_url }

abbrev endpoint : Instance
endpoint = record { id = "main"; name = "GitHub"; kind = "github"; base_url = "https://api" }

abbrev configured : Registry String
configured = record {
  instances = put "main" endpoint (λ k. none);
  factories = put "github" github (λ k. none);
}

token_given : ◌≢◌ {A = String} "t" ""
token_given = ground (arith, eq_iff "t" "")

-- A cipher that keeps the plaintext, behind its nonce.
abbrev plain : Crypto
plain = record {
  Key = Text;
  derive_key = λ s. s;
  nonce_size = 2;
  nonce-positive = omega arith;
  seal = λ k n p a. p;
  open_sealed = λ k n s a. some s;
  open-seal = λ k n p a. refl;
  base64 = λ b. b;
  unbase64 = λ b. some b;
  unbase64-nil = refl;
  unbase64-base64 = λ b. refl;
}

abbrev cipher : Option (CredentialCipher plain)
cipher = some (record { key = codes "k" })

decrypt-encrypt_example : decrypt plain cipher (codes "v1:nntoken") ≡ ok (codes "token")
unfolding encrypt
decrypt-encrypt_example =
    decrypt-encrypt plain cipher (codes "nn") (codes "token") (codes "v1:nntoken") refl refl
