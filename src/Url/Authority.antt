-- ===== src/Url/Authority.antt =====
-- Where the authority of a URL ends.
use cqjs.Prelude.{
  ℕ, suc, Bool, true, false, ◌||◌, Bool-cases, inl, inr, Option, none, some, [], ◌∷◌, length, Bytes,
  ◌==◌, until, if◌then◌else◌, ◌≡◌, refl, ap, arith,
}
use cqjs.Url.{parts_at, place_of, later_place, earlier, end_or, authority_end, split_authority}

unfoldable pub is_authority_end : ℕ → Bool
is_authority_end c = c == b'/' || c == b'?' || c == b'#'

earlier-later :
    (a b : Option ℕ) → earlier (later_place a) (later_place b) ≡ later_place (earlier a b)
unfolding earlier
earlier-later none none = refl
earlier-later none (some b) = refl
earlier-later (some a) none = refl
earlier-later (some a) (some b) = ground arith

earlier-first : (a : Option ℕ) → earlier (some 0) a ≡ some 0
unfolding earlier
earlier-first none = refl
earlier-first (some a) = ground arith

later-first : (a : Option ℕ) → earlier (later_place a) (some 0) ≡ some 0
unfolding earlier
later-first none = refl
later-first (some a) = ground arith

end_or-later : (n : ℕ) (a : Option ℕ) → end_or (suc n) (later_place a) ≡ suc (end_or n a)
unfolding end_or
end_or-later n none = refl
end_or-later n (some a) = refl

authority_end-cons :
    (c : ℕ) (s : Bytes)
    → authority_end (c ∷ s) ≡ (if is_authority_end c then 0 else suc (authority_end s))
unfolding authority_end is_authority_end place_of
authority_end-cons c s = elim (Bool-cases (c == b'/')) [
  | inl slash ↦ rw (slash, earlier-first, earlier-first) (unfold end_or in refl)
  | inr a ↦ elim (Bool-cases (c == b'?')) [
    | inl mark ↦ rw (a, mark, later-first, earlier-first) (unfold end_or in refl)
    | inr b ↦ elim (Bool-cases (c == b'#')) [
      | inl hash ↦ rw (a, b, hash, earlier-later, later-first) (unfold end_or in refl)
      | inr d ↦ rw (a, b, d, earlier-later, earlier-later) (end_or-later (length s) _)
    ]
  ]
]

abbrev pair : Bytes → Bytes → Bytes × Bytes
pair xs ys = (xs, ys)

split-cons :
    (b : Bool) (n c : ℕ) (s : Bytes) (rest : Bytes × Bytes)
    → parts_at n s ≡ rest
    → parts_at (if b then 0 else suc n) (c ∷ s)
      ≡ (if b then pair [] (c ∷ s) else pair (c ∷ rest.0) rest.1)
split-cons true n c s rest h = refl
split-cons false n c s rest h = ap (λ r. pair (c ∷ r.0) r.1) h

-- The three searches of parse_url and the comparison of the places that they find stop where the first
-- character that is `/`, `?` or `#` stands, or at the end.
pub split_authority-until : (p : Bytes) → split_authority p ≡ until is_authority_end p
unfolding split_authority until
split_authority-until [] = unfold authority_end earlier place_of in refl
split_authority-until (c ∷ s) = rw (authority_end-cons c s) (
    split-cons (is_authority_end c) (authority_end s) c s (until is_authority_end s)
      (split_authority-until s))
