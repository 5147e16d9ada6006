-- ===== src/Zlib/Tests.antt =====
-- A library that copies, a byte at each call.
use cqjs.Prelude.{ℕ, ◌<◌, ◌++◌, none, some, [], ◌∷◌, length, Bytes, codes, ◌⊎◌, ◌≡◌, refl, arith}
use cqjs.Prelude.Int.{ℤ}
use cqjs.Format.Decimal.{int_text}
use cqjs.Script.{array_buffer, resolved, rejected}
use cqjs.Zlib.{z_ok, z_stream_end, ZlibLibrary, Step, js_zlib_inflate}
use cqjs.Zlib.Inflated.{IsStep, IsInflate, Fails, js_zlib_inflate-settles}

abbrev copied : Bytes → ℕ → Step Bytes
copied [] n = ([], [], z_stream_end)
copied (c ∷ s) n = (s, c ∷ [], z_ok)

abbrev copying : ZlibLibrary Bytes
copying = record {
  start_inflate = λ s. some s;
  inflate = copied;
  start_deflate = λ s. some s;
  deflate_bound = λ s n. n;
  deflate = λ s n. ([], s, z_stream_end);
  fresh = λ i. 0;
}

copying-IsInflate : IsInflate copying (λ s. s) length
copying-IsInflate = record { steps = copied-IsStep }
  where
    copied-IsStep : (s : Bytes) (n : ℕ) → 0 < n → IsStep (λ t. t) length n s (copied s n)
    copied-IsStep [] n h = (omega arith, refl)
    copied-IsStep (c ∷ s) n h = (omega arith, refl, omega arith)

js_zlib_inflate-settles_example :
    (js_zlib_inflate copying 9 (record { buffer = some (codes "eight by"); text = none } ∷ [])
      ≡ some (resolved (array_buffer (codes "eight by"))))
    ⊎ ((ret : ℤ) × Fails copying ret
        × (js_zlib_inflate copying 9 (record { buffer = some (codes "eight by"); text = none } ∷ [])
            ≡ some (rejected (codes "inflate error: " ++ int_text ret))))
js_zlib_inflate-settles_example =
    js_zlib_inflate-settles copying (λ s. s) length copying-IsInflate (codes "eight by") none []
      (codes "eight by") 9 (omega arith) (omega arith) refl (omega arith)
