-- ===== src/Encoding/Base64/RoundTrip.antt =====
-- What the decoder of Base64 gives back of the encoder's output.
use cqjs.Prelude.{
  ℕ, suc, ◌+◌, ◌-◌, ◌*◌, ◌/◌, ◌%◌, ◌^◌, ◌≤◌, ◌<◌, List, [], ◌∷◌, ◌++◌, map, length, All, Bytes,
  AreBytes, ◌≡◌, ◌≢◌, ◌↔◌, refl, arith, All-append, All-append_inv,
}
use cqjs.Encoding.Base64.{base64_encode, decode_group, decode_groups, base64_decode}
use cqjs.Encoding.Base64.Sextets.{
  lossy, b64_char, decode_table-char, gap-char, sextets, padding, sextets-lt, encode-sextets,
  strip_end-padding, chars-All, length-sextets,
}

-- The bytes that come back.
recover : Bytes → Bytes
recover [] = []
recover (a ∷ []) = decode_group 1 (lossy (a / 4)) (lossy (a % 4 * 16 + 0 / 16)) 0 0
recover (a ∷ b ∷ []) =
    decode_group 2 (lossy (a / 4)) (lossy (a % 4 * 16 + b / 16)) (lossy (b % 16 * 4 + 0 / 64)) 0
recover (a ∷ b ∷ c ∷ r) =
    decode_group 3 (lossy (a / 4)) (lossy (a % 4 * 16 + b / 16)) (lossy (b % 16 * 4 + c / 64))
      (lossy (c % 64))
    ++ recover r

decode_groups-sextets :
    (xs : Bytes) → AreBytes xs → decode_groups (length xs) (map b64_char (sextets xs)) ≡ recover xs
unfolding decode_groups sextets recover
decode_groups-sextets [] h = refl
decode_groups-sextets (a ∷ []) (ha, _) =
    rw (
      decode_table-char (a / 4) (omega arith),
      decode_table-char (a % 4 * 16 + 0 / 16) (omega arith),
    )
decode_groups-sextets (a ∷ b ∷ []) (ha, (hb, _)) = rw (
  decode_table-char (a / 4) (omega arith),
  decode_table-char (a % 4 * 16 + b / 16) (omega arith),
  decode_table-char (b % 16 * 4 + 0 / 64) (omega arith),
)
decode_groups-sextets (a ∷ b ∷ c ∷ r) (ha, (hb, (hc, hr))) =
    let room : suc (suc (suc (length r))) - 3 ≡ length r = omega arith in
    rw (
      room,
      decode_table-char (a / 4) (omega arith),
      decode_table-char (a % 4 * 16 + b / 16) (omega arith),
      decode_table-char (b % 16 * 4 + c / 64) (omega arith),
      decode_table-char (c % 64) (omega arith),
      decode_groups-sextets r hr,
      wide r (lossy (a / 4)) _ _ _,
    )
  where
    wide :
        (r : Bytes) (x y z w : ℕ)
        → decode_group (suc (suc (suc (length r)))) x y z w ≡ decode_group 3 x y z w
    wide [] x y z w = refl
    wide (d ∷ r) x y z w = unfold decode_group in refl

decode-encode-recover : (xs : Bytes) → AreBytes xs → base64_decode (base64_encode xs) ≡ recover xs
unfolding base64_decode
decode-encode-recover xs h =
    let body = map b64_char (sextets xs) in
    rw
      (
        encode-sextets xs h,
        strip_end-padding body xs (chars-All (sextets xs) (sextets-lt xs h)),
        length-sextets xs,
      )
      (decode_groups-sextets xs h)

lossy-le : (s : ℕ) → lossy s ≤ s
unfolding lossy
lossy-le s = ground arith

-- Three stored bytes determine the four fields that they were stored from.
triple-inv :
    (a b c x y z w : ℕ)
    → a < 256
    → b < 256
    → c < 256
    → x ≤ a / 4
    → y ≤ a % 4 * 16 + b / 16
    → z ≤ b % 16 * 4 + c / 64
    → w ≤ c % 64
    → (x * 2 ^ 18 + y * 2 ^ 12 + z * 2 ^ 6 + w) / 2 ^ 16 % 256 ≡ a
    → (x * 2 ^ 18 + y * 2 ^ 12 + z * 2 ^ 6 + w) / 2 ^ 8 % 256 ≡ b
    → (x * 2 ^ 18 + y * 2 ^ 12 + z * 2 ^ 6 + w) % 256 ≡ c
    → (x ≡ a / 4) × (y ≡ a % 4 * 16 + b / 16) × (z ≡ b % 16 * 4 + c / 64) × (w ≡ c % 64)
triple-inv a b c x y z w ha hb hc hx hy hz hw ea eb ec = omega arith

abbrev IsKept : ℕ → Type 0
IsKept s = lossy s ≡ s

cons_eq : {x y : ℕ} {xs ys : Bytes} → x ≡ y → xs ≡ ys → ◌≡◌ {A = Bytes} (x ∷ xs) (y ∷ ys)
cons_eq p q = λ i. p i ∷ q i

heads_eq : {x y : ℕ} {xs ys : Bytes} → ◌≡◌ {A = Bytes} (x ∷ xs) (y ∷ ys) → (x ≡ y) × (xs ≡ ys)
heads_eq e = ground arith

recover-inv : (xs : Bytes) → AreBytes xs → recover xs ≡ xs → All IsKept (sextets xs)
unfolding recover sextets decode_group
recover-inv [] h e = tt
recover-inv (a ∷ []) (ha, _) e =
    let ea = (heads_eq e).0 in omega (arith, lossy-le (a / 4), lossy-le (a % 4 * 16 + 0 / 16))
recover-inv (a ∷ b ∷ []) (ha, (hb, _)) e =
    let (ea, e1) = heads_eq e in
    let eb = (heads_eq e1).0 in
    omega (arith, lossy-le (a / 4), lossy-le (a % 4 * 16 + b / 16), lossy-le (b % 16 * 4 + 0 / 64))
recover-inv (a ∷ b ∷ c ∷ r) (ha, (hb, (hc, hr))) e =
    let (ea, e1) = heads_eq e in
    let (eb, e2) = heads_eq e1 in
    let (ec, e3) = heads_eq e2 in
    let (kx, ky, kz, kw) =
      triple-inv a b c _ _ _ _ ha hb hc (lossy-le (a / 4)) (lossy-le (a % 4 * 16 + b / 16))
        (lossy-le (b % 16 * 4 + c / 64)) (lossy-le (c % 64)) ea eb ec in
    (kx, (ky, (kz, (kw, recover-inv r hr e3))))

recover-IsKept : (xs : Bytes) → AreBytes xs → All IsKept (sextets xs) → recover xs ≡ xs
unfolding recover sextets decode_group
recover-IsKept [] h k = refl
recover-IsKept (a ∷ []) (ha, _) (kx, (ky, _)) = cons_eq (omega arith) refl
recover-IsKept (a ∷ b ∷ []) (ha, (hb, _)) (kx, (ky, (kz, _))) =
    cons_eq (omega arith) (cons_eq (omega arith) refl)
recover-IsKept (a ∷ b ∷ c ∷ r) (ha, (hb, (hc, hr))) (kx, (ky, (kz, (kw, k)))) =
    cons_eq (omega arith) (cons_eq (omega arith) (cons_eq (omega arith) (recover-IsKept r hr k)))

abbrev pub IsFaithful : ℕ → Type 0
IsFaithful c = (c ≢ b'8') × (c ≢ b'9')

chars-IsFaithful :
    (ss : List ℕ) → All (λ s. s < 64) ss → All IsFaithful (map b64_char ss) ↔ All IsKept ss
chars-IsFaithful [] h = ((λ x. tt), (λ x. tt))
chars-IsFaithful (s ∷ ss) (hs, h) =
    let k = gap-char s hs in
    let ks = chars-IsFaithful ss h in ((λ f. (k.0 f.0, ks.0 f.1)), (λ f. (k.1 f.0, ks.1 f.1)))

padding-IsFaithful : (xs : Bytes) → All IsFaithful (padding xs)
unfolding padding
padding-IsFaithful [] = tt
padding-IsFaithful (a ∷ []) = omega arith
padding-IsFaithful (a ∷ b ∷ []) = omega arith
padding-IsFaithful (a ∷ b ∷ c ∷ r) = padding-IsFaithful r

-- Decoding the encoding of a byte sequence gives that sequence back exactly if the encoded text
-- holds neither the character '8' nor the character '9'.
pub decode-encode_iff :
    (xs : Bytes)
    → AreBytes xs
    → (base64_decode (base64_encode xs) ≡ xs) ↔ All IsFaithful (base64_encode xs)
decode-encode_iff xs h =
    let ss = sextets xs in
    let k = chars-IsFaithful ss (sextets-lt xs h) in
    rw (decode-encode-recover xs h, encode-sextets xs h)
      (
        (λ e.
            All-append IsFaithful (map b64_char ss) (padding xs) (k.1 (recover-inv xs h e))
              (padding-IsFaithful xs)),
        (λ f.
            recover-IsKept xs h
              (k.0 (All-append_inv IsFaithful (map b64_char ss) (padding xs) f).0)),
      )
