-- ===== src/Crypto.antt =====
-- crypto (polyfill/crypto.c). The functions of the TLS library are the fields of a record: `none` is a
-- status other than success. `malloc` of 0 bytes gives a pointer that is not NULL.
pub mod Padding
pub mod Aes
mod Tests
use cqjs.Prelude.{
  ℕ, zero, suc, ◌+◌, ◌-◌, ◌%◌, Bool, true, false, Option, none, some, List, [], ◌∷◌, ◌++◌, length,
  take, replicate, Bytes, codes, leb, str_eq, if◌then◌else◌, ◌⊎◌, inl, inr,
}
use cqjs.Prelude.Int.{ℤ, pos, negsuc}
use cqjs.Format.Decimal.{int_text}
use cqjs.Encoding.Hex.{hex_encode}
use cqjs.Script.{Arg, Reply, type_error, string, array_buffer, c_str, lowercase, tried}

pub data Algorithm : Type 0 where
  cbc_no_padding ecb_no_padding : Algorithm

-- Keys `K`, operations in progress `O`, and parsed public keys `R`. Where a function for public keys
-- fails, the text is what `mbedtls_strerror` gives, and the number the status.
pub record CryptoLibrary (K O R : Type 0) : Type 0 where
  pub has_md5 : Bool
  pub md5 : Bytes → Option Bytes
  pub generate_random : ℕ → Option Bytes
  pub import_key : Algorithm → Bytes → Option K
  pub encrypt_setup : K → Algorithm → Option O
  pub set_iv : O → Bytes → Option O
  pub update : O → Bytes → Option (O × Bytes)
  pub finish : O → Option Bytes
  pub parse_public_key : Bytes → Bytes ⊎ R
  pub get_psa_attributes : R → Bytes ⊎ R
  pub import_into_psa : R → Bytes ⊎ K
  pub asymmetric_encrypt : K → Bytes → ℤ ⊎ Bytes

-- The bytes of a buffer or else of a string.
value_bytes : Option Bytes → Option Bytes → Option Bytes
value_bytes (some buf) text = some buf
value_bytes none none = none
value_bytes none (some str) = some (c_str str)

unfoldable pub get_bytes_from_value : Arg → Option Bytes
unfolding value_bytes
get_bytes_from_value a = value_bytes a.buffer a.text

-- What is no value counts as no bytes.
unfoldable pub bytes_or_none : Option Bytes → Bytes
bytes_or_none none = []
bytes_or_none (some s) = s

-- PKCS7: `block_size` is 16.
unfoldable pub pkcs7 : Bytes → Bytes
pkcs7 plain = let padding = 16 - length plain % 16 in plain ++ replicate padding padding

-- The first 15 characters of the mode's name in small letters.
unfoldable pub mode_lower : Bytes → Bytes
mode_lower mode = lowercase (take 15 (c_str mode))

unfoldable pub algorithm_of : Bytes → Option Algorithm
algorithm_of mode =
    if str_eq mode (codes "cbc")
    then some cbc_no_padding
    else if str_eq mode (codes "ecb")
    then some ecb_no_padding
    else none

unfoldable pub iv_too_short : Algorithm → Bytes → Bool
iv_too_short cbc_no_padding iv = if leb 16 (length iv) then false else true
iv_too_short ecb_no_padding iv = false

-- A call of the public key's functions that fails.
abbrev checked {ℓ} : {A : Type ℓ} → Bytes ⊎ A → Bytes → (A → Reply) → Reply
checked (inl text) message next = type_error (take 255 (message ++ text))
checked (inr a) message next = next a

module _ {K O R : Type 0} (tls : CryptoLibrary K O R) where
  pub js_crypto_md5 : List Arg → Reply
  unfolding bytes_or_none
  js_crypto_md5 [] = type_error (codes "crypto.md5 requires 1 argument")
  js_crypto_md5 (a ∷ others) =
      if tls.has_md5
      then tried (tls.md5 (bytes_or_none (get_bytes_from_value a)))
          (codes "crypto.md5: hash failed") (λ hash. string (hex_encode hash))
      else type_error (codes "crypto.md5: MD5 not available")

  random_bytes : ℤ → Reply
  random_bytes (pos zero) = array_buffer []
  random_bytes (pos (suc n)) =
      tried (tls.generate_random (suc n)) (codes "crypto.randomBytes: psa_generate_random failed")
        (λ buf. array_buffer buf)
  random_bytes (negsuc n) = array_buffer []

  -- `size` is what `JS_ToInt32` gives for the argument, if there is one.
  pub js_crypto_random_bytes : Option ℤ → Reply
  unfolding random_bytes
  js_crypto_random_bytes none = type_error (codes "crypto.randomBytes requires 1 argument")
  js_crypto_random_bytes (some size) = random_bytes size

  -- `psa_cipher_set_iv`, if the mode needs it.
  iv_set : Algorithm → O → Bytes → Option O
  iv_set cbc_no_padding op iv = tls.set_iv op (take 16 iv)
  iv_set ecb_no_padding op iv = some op

  unfoldable pub run_cipher : Algorithm → Bytes → Bytes → Bytes → Reply
  unfolding iv_set
  run_cipher alg padded key iv =
      tried (tls.import_key alg key) (codes "crypto.aesEncrypt: invalid key") (λ key_id.
        tried (tls.encrypt_setup key_id alg) (codes "crypto.aesEncrypt: setup failed") (λ op.
          tried (iv_set alg op iv) (codes "crypto.aesEncrypt: set IV failed") (λ started.
            tried (tls.update started padded) (codes "crypto.aesEncrypt: encrypt failed") (λ step.
              tried (tls.finish step.0) (codes "crypto.aesEncrypt: finish failed")
                (λ last. array_buffer (step.1 ++ last))))))

  unfoldable pub encrypt_with : Bytes → Bytes → Bytes → Bytes → Reply
  unfolding run_cipher pkcs7 algorithm_of iv_too_short
  encrypt_with plain mode key iv =
      tried (algorithm_of mode) (codes "crypto.aesEncrypt: unsupported mode: " ++ mode) (λ alg.
        if iv_too_short alg iv
        then type_error (codes "crypto.aesEncrypt: IV too short for CBC mode")
        else run_cipher alg (pkcs7 plain) key iv)

  pub js_crypto_aes_encrypt : List Arg → Reply
  unfolding encrypt_with bytes_or_none mode_lower
  js_crypto_aes_encrypt (a ∷ m ∷ k ∷ v ∷ others) =
      tried m.text (codes "crypto.aesEncrypt: invalid mode") (λ mode.
        tried (get_bytes_from_value k) (codes "crypto.aesEncrypt: invalid key") (λ key.
          encrypt_with (bytes_or_none (get_bytes_from_value a)) (mode_lower mode) key
            (bytes_or_none (get_bytes_from_value v))))
  js_crypto_aes_encrypt _ =
      type_error (codes "crypto.aesEncrypt requires 4 arguments: buffer, mode, key, iv")

  rsa_result : ℤ ⊎ Bytes → Reply
  rsa_result (inl status) =
      type_error
        (codes "crypto.rsaEncrypt: PSA encrypt failed (status=" ++ (int_text status ++ codes ")"))
  rsa_result (inr output) = array_buffer output

  rsa_encrypt : Bytes → Bytes → Reply
  unfolding rsa_result
  rsa_encrypt plain pem =
      checked (tls.parse_public_key (c_str pem)) (codes "crypto.rsaEncrypt: parse key failed: ")
        (λ pk.
          checked (tls.get_psa_attributes pk)
            (codes "crypto.rsaEncrypt: get PSA attributes failed: ")
            (λ with_attributes.
              checked (tls.import_into_psa with_attributes)
                (codes "crypto.rsaEncrypt: PSA import failed: ")
                (λ key_id. rsa_result (tls.asymmetric_encrypt key_id plain))))

  pub js_crypto_rsa_encrypt : List Arg → Reply
  unfolding rsa_encrypt bytes_or_none
  js_crypto_rsa_encrypt (a ∷ p ∷ others) =
      tried p.text (codes "crypto.rsaEncrypt: invalid PEM")
        (λ pem. rsa_encrypt (bytes_or_none (get_bytes_from_value a)) pem)
  js_crypto_rsa_encrypt _ =
      type_error (codes "crypto.rsaEncrypt requires 2 arguments: buffer, publicKeyPEM")
