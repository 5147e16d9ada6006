-- ===== src/Format/Decimal.antt =====
-- `%d` and `%lld`, first of a number that is not negative. Twenty rounds print every 64-bit number.
use cqjs.Prelude.{
  ℕ, zero, suc, ◌+◌, ◌-◌, ◌*◌, ◌/◌, ◌%◌, ◌^◌, ◌<◌, [], ◌∷◌, ◌++◌, Bytes, codes, ◌==◌, if◌then◌else◌,
  ◌≡◌, refl, sym, ap, ◌∙◌, arith, Bool-cases, inl, inr,
}
use cqjs.Prelude.Int.{ℤ, pos, negsuc}
use mathlib.Core.List.{foldl}
use native.Mathlib.Nat.{pow-suc}

digits : ℕ → ℕ → Bytes
digits zero n = []
digits (suc fuel) n =
    let rest = digits fuel (n / 10) ++ (b'0' + n % 10) ∷ [] in
    if n / 10 == 0 then (b'0' + n % 10) ∷ [] else rest

unfoldable pub decimal : ℕ → Bytes
unfolding digits
decimal n = digits 20 n

-- `%d` and `%lld` of any number.
unfoldable pub int_text : ℤ → Bytes
int_text (pos n) = decimal n
int_text (negsuc n) = b'-' ∷ decimal (suc n)

decimal_test : decimal 9223372036854775807 ≡ codes "9223372036854775807"
unfolding decimal
decimal_test = refl

-- The number that digits spell.
read : Bytes → ℕ
read = foldl (λ n c. n * 10 + (c - b'0')) 0

foldl-snoc : (s : Bytes) (n c : ℕ) (f : ℕ → ℕ → ℕ) → foldl f n (s ++ c ∷ []) ≡ f (foldl f n s) c
foldl-snoc [] n c f = refl
foldl-snoc (d ∷ s) n c f = foldl-snoc s (f n d) c f

read-digits : (fuel n : ℕ) → n < 10 ^ fuel → read (digits fuel n) ≡ n
unfolding digits read
read-digits zero n h = omega arith
read-digits (suc fuel) n h = elim (Bool-cases (n / 10 == 0)) [
  | inl e ↦ rw e (ground arith)
  | inr e ↦
      let fits : n / 10 < 10 ^ fuel = omega (arith, pow-suc 10 fuel) in
      rw
        (
          e,
          foldl-snoc (digits fuel (n / 10)) 0 (b'0' + n % 10) (λ n c. n * 10 + (c - b'0')),
          read-digits fuel (n / 10) fits,
        )
        (omega arith)
]

-- Different 64-bit numbers are printed differently.
pub decimal_injective : (m n : ℕ) → m < 2 ^ 64 → n < 2 ^ 64 → decimal m ≡ decimal n → m ≡ n
unfolding decimal
decimal_injective m n hm hn e =
    sym (read-digits 20 m (omega arith)) ∙ ap read e ∙ read-digits 20 n (omega arith)
