-- ===== src/Prelude/Text.antt =====
-- Bytes and C strings: a string is the list of its bytes before the terminating 0.
use Prim.Native.Nat.{ℕ, ◌<◌}
use Prim.Native.Char.{code}
use Prim.Native.String.{String}
use mathlib.Core.Bool.{Bool, true, false, ◌&&◌}
use mathlib.Core.List.{List, [], ◌∷◌, ◌++◌}
use mathlib.Core.Path.{◌≡◌, refl, ap}
use mathlib.Core.Logic.{◌≢◌, inl, inr}
use native.Mathlib.Omega.{arith}
use cqjs.Prelude.Tests.{◌==◌, if◌then◌else◌, Bool-cases}
use cqjs.Prelude.Lists.{All}

abbrev pub Bytes : Type 0
Bytes = List ℕ

-- The bytes of an ASCII literal.
abbrev pub codes : String → Bytes
codes String.[] = []
codes (String.◌∷◌ c s) = code c ∷ codes s

abbrev pub AreBytes : Bytes → Type 0
AreBytes = All (λ b. b < 256)

-- strcmp(a, b) == 0
abbrev pub str_eq : Bytes → Bytes → Bool
str_eq [] [] = true
str_eq [] (y ∷ ys) = false
str_eq (x ∷ xs) [] = false
str_eq (x ∷ xs) (y ∷ ys) = x == y && str_eq xs ys

pub str_eq_refl : (s : Bytes) → str_eq s s ≡ true
str_eq_refl [] = refl
str_eq_refl (x ∷ xs) = ground (arith, str_eq_refl xs)

pub str_eq_sound : (s t : Bytes) → str_eq s t ≡ true → s ≡ t
str_eq_sound [] [] h = refl
str_eq_sound [] (y ∷ ys) h = cc
str_eq_sound (x ∷ xs) [] h = cc
str_eq_sound (x ∷ xs) (y ∷ ys) h = ground (arith, str_eq_sound xs ys)

pub str_eq_symm : (s t : Bytes) → str_eq s t ≡ str_eq t s
str_eq_symm [] [] = refl
str_eq_symm [] (y ∷ ys) = refl
str_eq_symm (x ∷ xs) [] = refl
str_eq_symm (x ∷ xs) (y ∷ ys) = ground (arith, str_eq_symm xs ys)

-- One byte in front of what the loop below left.
unfoldable pub attach : (ℕ → Bool) → ℕ → Bytes → Bytes
attach p x [] = if p x then [] else x ∷ []
attach p x (y ∷ ys) = x ∷ y ∷ ys

-- The loop `while (n > 0 && p(s[n-1])) n--`, as the text that it leaves.
unfoldable pub strip_end : (ℕ → Bool) → Bytes → Bytes
unfolding attach
strip_end p [] = []
strip_end p (x ∷ xs) = attach p x (strip_end p xs)

pub attach-keeps : (p : ℕ → Bool) (x : ℕ) (xs : Bytes) → xs ≢ [] → attach p x xs ≡ x ∷ xs
unfolding attach
attach-keeps p x [] h = absurd (h refl)
attach-keeps p x (y ∷ ys) h = refl

-- The last byte is dropped as long as it satisfies the test.
pub strip_end-snoc :
    (p : ℕ → Bool) (xs : Bytes) (y : ℕ)
    → strip_end p (xs ++ y ∷ []) ≡ (if p y then strip_end p xs else xs ++ y ∷ [])
unfolding strip_end
strip_end-snoc p [] y = refl
strip_end-snoc p (x ∷ xs) y = elim (Bool-cases (p y)) [
  | inl drop ↦ rw drop (ap (attach p x) (rw drop at (strip_end-snoc p xs y)))
  | inr keep ↦
      rw (keep, strip_end-snoc p xs y, keep) (attach-keeps p x (xs ++ y ∷ []) (snoc-ne-nil xs))
]
  where
    snoc-ne-nil : (zs : Bytes) → zs ++ y ∷ [] ≢ []
    snoc-ne-nil [] = λ e. cc
    snoc-ne-nil (z ∷ zs) = λ e. cc

-- Nothing in front of a text that is not dropped whole is dropped.
pub strip_end-append :
    (p : ℕ → Bool) (xs ys : Bytes)
    → strip_end p ys ≢ []
    → strip_end p (xs ++ ys) ≡ xs ++ strip_end p ys
unfolding strip_end
strip_end-append p [] ys h = refl
strip_end-append p (x ∷ xs) ys h =
    rw (strip_end-append p xs ys h) (attach-keeps p x (xs ++ strip_end p ys) (append-ne-nil xs))
  where
    append-ne-nil : (zs : Bytes) → zs ++ strip_end p ys ≢ []
    append-ne-nil [] = h
    append-ne-nil (z ∷ zs) = λ e. cc

-- A text with no byte to drop stays as it is.
pub strip_end-none : (p : ℕ → Bool) (xs : Bytes) → All (λ c. p c ≡ false) xs → strip_end p xs ≡ xs
unfolding strip_end
strip_end-none p [] h = refl
strip_end-none p (x ∷ []) (hx, _) = rw hx
strip_end-none p (x ∷ y ∷ ys) (hx, h) = rw (strip_end-none p (y ∷ ys) h)
