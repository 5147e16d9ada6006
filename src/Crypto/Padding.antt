-- ===== src/Crypto/Padding.antt =====
-- PKCS7 padding of polyfill/crypto.c, and a reader of it (RFC 5652).
use cqjs.Prelude.{
  ℕ, zero, suc, ◌-◌, ◌%◌, ◌<◌, true, ◌&&◌, Option, none, some, [], ◌∷◌, ◌++◌, length, length-append,
  length-replicate, take, drop, replicate, Bytes, leb, str_eq, str_eq_refl, if◌then◌else◌, ◌≡◌,
  refl, ap, arith,
}
use cqjs.Crypto.{pkcs7}

last_or : ℕ → Bytes → ℕ
last_or d [] = d
last_or d (c ∷ s) = last_or c s

-- The last byte tells how many bytes of its value stand at the end.
unfoldable pub unpad : Bytes → Option Bytes
unfolding last_or
unpad s =
    let n = last_or 0 s in
    if leb 1 n && leb n 16 && leb n (length s) && str_eq (drop (length s - n) s) (replicate n n)
    then some (take (length s - n) s)
    else none

last_or-replicate : (d n m : ℕ) → last_or d (replicate (suc n) m) ≡ m
unfolding last_or
last_or-replicate d zero m = refl
last_or-replicate d (suc n) m = last_or-replicate m n m

last_or-append : (d m n : ℕ) (s : Bytes) → last_or d (s ++ replicate (suc n) m) ≡ m
unfolding last_or
last_or-append d m n [] = last_or-replicate d n m
last_or-append d m n (c ∷ s) = last_or-append c m n s

take-append : (xs ys : Bytes) → take (length xs) (xs ++ ys) ≡ xs
take-append [] ys = refl
take-append (x ∷ xs) ys = ap (λ l. x ∷ l) (take-append xs ys)

drop-append : (xs ys : Bytes) → drop (length xs) (xs ++ ys) ≡ ys
drop-append [] ys = refl
drop-append (x ∷ xs) ys = drop-append xs ys

pub length-pkcs7 : (plain : Bytes) → length (pkcs7 plain) % 16 ≡ 0
unfolding pkcs7
length-pkcs7 plain =
    let n = 16 - length plain % 16 in
    omega (arith, length-append plain (replicate n n), length-replicate n n)

unpad-append : (xs : Bytes) (n : ℕ) → n < 16 → unpad (xs ++ replicate (suc n) (suc n)) ≡ some xs
unfolding unpad
unpad-append xs n h =
    let ys = replicate (suc n) (suc n) in
    let size : length (xs ++ ys) - suc n ≡ length xs =
      omega (arith, length-append xs ys, length-replicate (suc n) (suc n)) in
    let big : leb (suc n) (length (xs ++ ys)) ≡ true =
      ground (arith, length-append xs ys, length-replicate (suc n) (suc n)) in
    rw
      (
        last_or-append 0 (suc n) n xs,
        size,
        take-append xs ys,
        drop-append xs ys,
        str_eq_refl ys,
        big,
      )
      (ground arith)

-- Every text is padded to whole blocks of 16 bytes, and removing the padding gives it back.
pub unpad-pkcs7 : (plain : Bytes) → unpad (pkcs7 plain) ≡ some plain
unfolding pkcs7
unpad-pkcs7 plain =
    let n = 15 - length plain % 16 in
    let e : 16 - length plain % 16 ≡ suc n = omega arith in
    rw e (unpad-append plain n (omega arith))
