-- ===== src/Crypto/Tests.antt =====
-- A cipher that leaves the text as it is, and texts for it.
use cqjs.Prelude.{
  ◌%◌, true, Option, none, some, [], ◌∷◌, ◌++◌, take, replicate, append-nil, length, Bytes, codes,
  ◌≡◌, refl, inl, inr,
}
use cqjs.Prelude.Int.{negsuc}
use cqjs.Script.{Arg, array_buffer, c_str, to_lower}
use cqjs.Crypto.{
  Algorithm, cbc_no_padding, ecb_no_padding, CryptoLibrary, mode_lower, algorithm_of, iv_too_short,
  get_bytes_from_value, bytes_or_none, js_crypto_aes_encrypt,
}
use cqjs.Crypto.Aes.{IsAes, IsVector, Starts, js_crypto_aes_encrypt-decrypts}
use cqjs.Crypto.Padding.{unpad}

abbrev plain_library : CryptoLibrary Bytes Bytes Bytes
plain_library = record {
  has_md5 = true;
  md5 = λ s. some (replicate 16 0);
  generate_random = λ n. some (replicate n 0);
  import_key = λ alg key. some key;
  encrypt_setup = λ k alg. some [];
  set_iv = λ op iv. some iv;
  update = λ op s. some (op, s);
  finish = λ op. some [];
  parse_public_key = λ pem. inr pem;
  get_psa_attributes = λ r. inr r;
  import_into_psa = λ r. inr r;
  asymmetric_encrypt = λ k s. inl (negsuc 132);
}

abbrev plain_decrypt : Algorithm → Bytes → Bytes → Bytes → Bytes
plain_decrypt alg key iv c = c

plain_runs :
    (alg : Algorithm) (key iv : Bytes) (k op : Bytes)
    → ◌≡◌ {A = Option Bytes} (some key) (some k)
    → ◌≡◌ {A = Option Bytes} (some []) (some op)
    → IsVector alg iv
    → (text : Bytes) → length text % 16 ≡ 0
    → (started : Bytes) × (next : Bytes) × (out : Bytes) × (last : Bytes) × Starts plain_library alg
        op iv started
      × (◌≡◌ {A = Option (Bytes × Bytes)} (some (started, text)) (some (next, out)))
      × (◌≡◌ {A = Option Bytes} (some []) (some last))
      × (plain_decrypt alg key iv (out ++ last) ≡ text)
plain_runs cbc_no_padding key iv k op h s v text w =
    (iv, iv, text, [], refl, refl, refl, append-nil text)
plain_runs ecb_no_padding key iv k op h s v text w =
    (op, op, text, [], refl, refl, refl, append-nil text)

plain_library-IsAes : IsAes plain_library plain_decrypt
plain_library-IsAes = record {
  imports = λ alg key h. (key, refl);
  sets_up = λ alg key k h. ([], refl);
  runs = plain_runs;
}

abbrev text_arg : Bytes → Arg
text_arg s = record { buffer = none; text = some s }

js_crypto_aes_encrypt-decrypts_example :
    (c : Bytes) × (js_crypto_aes_encrypt plain_library (
        text_arg (codes "plain")
        ∷ text_arg (codes "CBC")
        ∷ text_arg (replicate 16 b'k')
        ∷ text_arg (replicate 17 b'v')
        ∷ [])
      ≡ array_buffer c)
    × (unpad (
          plain_decrypt cbc_no_padding
            (replicate 16 b'k')
            (take 16 (bytes_or_none (get_bytes_from_value (text_arg (replicate 17 b'v')))))
            c)
        ≡ some (bytes_or_none (get_bytes_from_value (text_arg (codes "plain")))))
unfolding algorithm_of mode_lower c_str to_lower get_bytes_from_value bytes_or_none iv_too_short
js_crypto_aes_encrypt-decrypts_example =
    js_crypto_aes_encrypt-decrypts plain_library plain_decrypt (text_arg (codes "plain"))
      (text_arg (codes "CBC")) (text_arg (replicate 16 b'k')) (text_arg (replicate 17 b'v')) []
      (codes "CBC") (replicate 16 b'k') cbc_no_padding plain_library-IsAes refl refl refl (inl refl)
      refl
