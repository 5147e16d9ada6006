-- ===== src/Encoding/Base64/Sextets.antt =====
-- The sextets of the data: the characters and the padding that the encoder of Base64 writes for them.
use cqjs.Prelude.{
  ℕ, suc, ◌+◌, ◌-◌, ◌*◌, ◌/◌, ◌%◌, ◌^◌, ◌<◌, false, List, [], ◌∷◌, ◌++◌, map, append_assoc,
  append-nil, length, get_or, All, Bytes, AreBytes, ◌==◌, ==_iff, if◌then◌else◌, all_below_sound,
  strip_end, strip_end-snoc, strip_end-none, ◌≡◌, ◌≢◌, ◌↔◌, refl, arith, ap, not, ◌∙◌, ◌&&◌,
}
use cqjs.Encoding.Base64.{
  b64_table, b64_decode_table, sextet, encode_group, encode_groups, pad, base64_encode, is_padding,
}

-- What a sextet comes back as: the decoding table has no entry for '8' and '9'.
unfoldable pub lossy : ℕ → ℕ
lossy s = if s == 60 then 0 else if s == 61 then 0 else s

abbrev pub b64_char : ℕ → ℕ
b64_char s = get_or b64_table s 0

module _ (s : ℕ) (h : s < 64) where
  pub decode_table-char : b64_decode_table (b64_char s) ≡ lossy s
  unfolding b64_decode_table lossy
  decode_table-char =
      (==_iff _ _).0 (all_below_sound 64 (λ s. b64_decode_table (b64_char s) == lossy s) s refl h)

  is_padding-char : is_padding (b64_char s) ≡ false
  unfolding is_padding
  is_padding-char = ground (arith, all_below_sound 64 (λ s. not (is_padding (b64_char s))) s refl h)

  pub gap-char : ((b64_char s ≢ b'8') × (b64_char s ≢ b'9')) ↔ (lossy s ≡ s)
  unfolding lossy
  gap-char = ground (
    arith,
    all_below_sound 64
        (λ s.
          if s == 60
          then b64_char s == b'8'
          else if s == 61
          then b64_char s == b'9'
          else not (b64_char s == b'8') && not (b64_char s == b'9'))
        s refl h,
  )

-- The sextets that carry data, and the padding behind their characters.
unfoldable pub sextets : Bytes → List ℕ
sextets [] = []
sextets (a ∷ []) = a / 4 ∷ (a % 4 * 16 + 0 / 16) ∷ []
sextets (a ∷ b ∷ []) = a / 4 ∷ (a % 4 * 16 + b / 16) ∷ (b % 16 * 4 + 0 / 64) ∷ []
sextets (a ∷ b ∷ c ∷ r) = a / 4 ∷ (a % 4 * 16 + b / 16) ∷ (b % 16 * 4 + c / 64) ∷ c % 64 ∷ sextets r

unfoldable pub padding : Bytes → Bytes
padding [] = []
padding (a ∷ []) = b'=' ∷ b'=' ∷ []
padding (a ∷ b ∷ []) = b'=' ∷ []
padding (a ∷ b ∷ c ∷ r) = padding r

pub sextets-lt : (xs : Bytes) → AreBytes xs → All (λ s. s < 64) (sextets xs)
unfolding sextets
sextets-lt [] h = tt
sextets-lt (a ∷ []) h = omega arith
sextets-lt (a ∷ b ∷ []) h = omega arith
sextets-lt (a ∷ b ∷ c ∷ r) (ha, (hb, (hc, hr))) =
    (omega arith, (omega arith, (omega arith, (omega arith, sextets-lt r hr))))

sextet-char : (t k s : ℕ) → t / 2 ^ (6 * k) % 64 ≡ s → sextet t k ≡ b64_char s
unfolding sextet
sextet-char t k s e = ap b64_char e

-- The four characters of a group carry the bits of its bytes.
encode_group-chars :
    (a b c : ℕ)
    → a < 256
    → b < 256
    → c < 256
    → encode_group a b c
      ≡ map b64_char (a / 4 ∷ (a % 4 * 16 + b / 16) ∷ (b % 16 * 4 + c / 64) ∷ c % 64 ∷ [])
unfolding encode_group
encode_group-chars a b c ha hb hc =
    let t = a * 2 ^ 16 + b * 2 ^ 8 + c in
    cc (
      sextet-char t 3 (a / 4) (omega arith),
      sextet-char t 2 (a % 4 * 16 + b / 16) (omega arith),
      sextet-char t 1 (b % 16 * 4 + c / 64) (omega arith),
      sextet-char t 0 (c % 64) (omega arith),
    )

pad-later :
    (rem w x y z p q : ℕ) (out : Bytes)
    → pad rem (w ∷ x ∷ y ∷ z ∷ p ∷ q ∷ out) ≡ w ∷ x ∷ y ∷ z ∷ pad rem (p ∷ q ∷ out)
unfolding pad
pad-later rem w x y z p q out =
    let n = length out in
    let e1 : suc (suc (suc (suc (suc (suc n))))) - 1 ≡ suc (suc (suc (suc (suc n)))) =
      omega arith in
    let e2 : suc (suc (suc (suc (suc (suc n))))) - 2 ≡ suc (suc (suc (suc n))) = omega arith in
    let e3 : suc (suc n) - 1 ≡ suc n = omega arith in
    let e4 : suc (suc n) - 2 ≡ n = omega arith in rw (e1, e2, e3, e4) (ground arith)

pad-group :
    (rem a b c : ℕ) (out : Bytes) {p q : ℕ} {rest : Bytes}
    → out ≡ p ∷ q ∷ rest
    → pad rem (encode_group a b c ++ out) ≡ encode_group a b c ++ pad rem out
unfolding encode_group
pad-group rem a b c out e = rw e (pad-later rem _ _ _ _ _ _ _)

-- A round yields two characters at least.
encode_groups-two :
    (x : ℕ) (r : Bytes)
    → (p : ℕ) × (q : ℕ) × (rest : Bytes) × (encode_groups (x ∷ r) ≡ p ∷ q ∷ rest)
unfolding encode_groups
encode_groups-two x [] = (_, _, _, refl)
encode_groups-two x (y ∷ []) = (_, _, _, refl)
encode_groups-two x (y ∷ z ∷ r) = (_, _, _, refl)

-- Padding concerns the last group only.
encode-later :
    (a b c : ℕ) (r : Bytes) → base64_encode (a ∷ b ∷ c ∷ r) ≡ encode_group a b c ++ base64_encode r
unfolding base64_encode
encode-later a b c [] = unfold pad encode_group in refl
encode-later a b c (x ∷ r) =
    let (p, q, rest, e) = encode_groups-two x r in
    let m : length (a ∷ b ∷ c ∷ x ∷ r) % 3 ≡ length (x ∷ r) % 3 = omega arith in
    ap (λ rem. pad rem (encode_group a b c ++ encode_groups (x ∷ r))) m
    ∙ pad-group (length (x ∷ r) % 3) a b c (encode_groups (x ∷ r)) e

-- The encoder's output.
pub encode-sextets :
    (xs : Bytes) → AreBytes xs → base64_encode xs ≡ map b64_char (sextets xs) ++ padding xs
unfolding sextets padding
encode-sextets [] h = unfold base64_encode in refl
encode-sextets (a ∷ []) (ha, _) =
    unfold base64_encode in ap (pad 1) (encode_group-chars a 0 0 ha (omega arith) (omega arith))
encode-sextets (a ∷ b ∷ []) (ha, (hb, _)) =
    unfold base64_encode in ap (pad 2) (encode_group-chars a b 0 ha hb (omega arith))
encode-sextets (a ∷ b ∷ c ∷ r) (ha, (hb, (hc, hr))) =
    rw (encode-later, encode_group-chars a b c ha hb hc, encode-sextets r hr)

-- The decoder strips the padding and no more.
pub strip_end-padding :
    (ys xs : Bytes)
    → All (λ c. is_padding c ≡ false) ys
    → strip_end is_padding (ys ++ padding xs) ≡ ys
unfolding padding
strip_end-padding ys [] h = rw append-nil (strip_end-none is_padding ys h)
strip_end-padding ys (a ∷ []) h =
    rw (← append_assoc ys (b'=' ∷ []) (b'=' ∷ []), strip_end-snoc is_padding (ys ++ b'=' ∷ []) b'=')
      (unfold is_padding in rw (strip_end-snoc is_padding ys b'=') (strip_end-none is_padding ys h))
strip_end-padding ys (a ∷ b ∷ []) h =
    rw (strip_end-snoc is_padding ys b'=') (unfold is_padding in strip_end-none is_padding ys h)
strip_end-padding ys (a ∷ b ∷ c ∷ r) h = strip_end-padding ys r h

pub chars-All :
    (ss : List ℕ) → All (λ s. s < 64) ss → All (λ c. is_padding c ≡ false) (map b64_char ss)
chars-All [] h = tt
chars-All (s ∷ ss) (hs, h) = (is_padding-char s hs, chars-All ss h)

pub length-sextets : (xs : Bytes) → length (map b64_char (sextets xs)) * 3 / 4 ≡ length xs
unfolding sextets
length-sextets [] = refl
length-sextets (a ∷ []) = refl
length-sextets (a ∷ b ∷ []) = refl
length-sextets (a ∷ b ∷ c ∷ r) = omega (arith, length-sextets r)
