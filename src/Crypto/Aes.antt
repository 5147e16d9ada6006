-- ===== src/Crypto/Aes.antt =====
-- aesEncrypt of polyfill/crypto.c, for a TLS library that encrypts with AES.
use cqjs.Prelude.{
  ℕ, zero, suc, ◌%◌, ◌≤◌, false, some, List, [], ◌∷◌, ◌++◌, length, take, Bytes, ◌⊎◌, ◌≡◌, refl, ap,
  ◌∙◌, arith,
}
use cqjs.Script.{Arg, array_buffer}
use cqjs.Crypto.{
  Algorithm, cbc_no_padding, ecb_no_padding, CryptoLibrary, get_bytes_from_value, bytes_or_none,
  pkcs7, mode_lower, algorithm_of, iv_too_short, iv_set, run_cipher, encrypt_with,
  js_crypto_aes_encrypt,
}
use cqjs.Crypto.Padding.{unpad, unpad-pkcs7, length-pkcs7}

-- AES has keys of 128, 192 and 256 bits.
abbrev pub IsKey : Bytes → Type 0
IsKey key = (length key ≡ 16) ⊎ (length key ≡ 24) ⊎ (length key ≡ 32)

-- An initialisation vector has 16 bytes; without chaining there is none.
abbrev pub IsVector : Algorithm → Bytes → Type 0
IsVector cbc_no_padding iv = length iv ≡ 16
IsVector ecb_no_padding iv = Unit

-- Setting the vector of an operation.
abbrev pub Starts : {K O R : Type 0} → CryptoLibrary K O R → Algorithm → O → Bytes → O → Type 0
Starts tls cbc_no_padding op iv started = tls.set_iv op iv ≡ some started
Starts tls ecb_no_padding op iv started = op ≡ started

-- A key of a right length can be imported, and the operation that is set up with it encrypts whole
-- blocks: what `update` and `finish` put out is decrypted to the text.
pub record IsAes {K O R : Type 0} (tls : CryptoLibrary K O R)
    (decrypt : Algorithm → Bytes → Bytes → Bytes → Bytes) : Type 0 where
  pub imports :
      (alg : Algorithm) (key : Bytes) → IsKey key → (k : K) × (tls.import_key alg key ≡ some k)
  pub sets_up :
      (alg : Algorithm) (key : Bytes) (k : K)
      → tls.import_key alg key ≡ some k
      → (op : O) × (tls.encrypt_setup k alg ≡ some op)
  pub runs :
      (alg : Algorithm) (key iv : Bytes) (k : K) (op : O)
      → tls.import_key alg key ≡ some k
      → tls.encrypt_setup k alg ≡ some op
      → IsVector alg iv
      → (text : Bytes) → length text % 16 ≡ 0
      → (started : O) × (next : O) × (out : Bytes) × (last : Bytes) × Starts tls alg op iv started
        × (tls.update started text ≡ some (next, out))
        × (tls.finish next ≡ some last)
        × (decrypt alg key iv (out ++ last) ≡ text)

take-length : (n : ℕ) (s : Bytes) → n ≤ length s → length (take n s) ≡ n
take-length zero s h = refl
take-length (suc n) [] h = absurd (omega arith)
take-length (suc n) (c ∷ s) h = ap suc (take-length n s (omega arith))

module _ {K O R : Type 0} (tls : CryptoLibrary K O R)
    (decrypt : Algorithm → Bytes → Bytes → Bytes → Bytes) where
  take-IsVector :
      (alg : Algorithm) (iv : Bytes) → iv_too_short alg iv ≡ false → IsVector alg (take 16 iv)
  unfolding iv_too_short
  take-IsVector cbc_no_padding iv h = take-length 16 iv (ground arith)
  take-IsVector ecb_no_padding iv h = tt

  set_of_Starts :
      (alg : Algorithm) (op started : O) (iv : Bytes)
      → Starts tls alg op (take 16 iv) started
      → iv_set tls alg op iv ≡ some started
  unfolding iv_set
  set_of_Starts cbc_no_padding op started iv h = h
  set_of_Starts ecb_no_padding op started iv h = ap some h

  run_cipher-decrypts :
      (alg : Algorithm) (padded key iv : Bytes)
      → IsAes tls decrypt
      → IsKey key
      → iv_too_short alg iv ≡ false
      → length padded % 16 ≡ 0
      → (c : Bytes) × (run_cipher tls alg padded key iv ≡ array_buffer c)
        × (decrypt alg key (take 16 iv) c ≡ padded)
  unfolding run_cipher
  run_cipher-decrypts alg padded key iv aes is_key fits whole =
      let (k, imported) = aes.imports alg key is_key in
      let (op, set_up) = aes.sets_up alg key k imported in
      let (started, next, out, last, starts, updated, finished, back) =
        aes.runs alg key (take 16 iv) k op imported set_up (take-IsVector alg iv fits) padded
          whole in
      (
        out ++ last,
        rw (imported, set_up, set_of_Starts alg op started iv starts, updated, finished) refl,
        back,
      )

  -- For AES, a mode that is cbc or ecb up to case, a key of a right length and, with cbc, a vector of
  -- 16 bytes or more, aesEncrypt returns a buffer that is decrypted, and freed of the padding, to the
  -- given bytes.
  pub js_crypto_aes_encrypt-decrypts :
      (a m k v : Arg) (others : List Arg) (mode key : Bytes) (alg : Algorithm)
      → IsAes tls decrypt
      → m.text ≡ some mode
      → algorithm_of (mode_lower mode) ≡ some alg
      → get_bytes_from_value k ≡ some key
      → IsKey key
      → iv_too_short alg (bytes_or_none (get_bytes_from_value v)) ≡ false
      → (c : Bytes) × (js_crypto_aes_encrypt tls (a ∷ m ∷ k ∷ v ∷ others) ≡ array_buffer c)
        × (unpad (decrypt alg key (take 16 (bytes_or_none (get_bytes_from_value v))) c)
            ≡ some (bytes_or_none (get_bytes_from_value a)))
  unfolding js_crypto_aes_encrypt encrypt_with
  js_crypto_aes_encrypt-decrypts a m k v others mode key alg aes has_mode is_mode has_key is_key
        fits =
      let plain = bytes_or_none (get_bytes_from_value a) in
      let iv = bytes_or_none (get_bytes_from_value v) in
      let (c, e, back) =
        run_cipher-decrypts alg (pkcs7 plain) key iv aes is_key fits (length-pkcs7 plain) in
      (c, rw (has_mode, has_key, is_mode, fits) e, ap unpad back ∙ unpad-pkcs7 plain)
